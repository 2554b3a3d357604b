-- ===== src/Pipe.antt =====
-- `pipe_read` and `pipe_write` of gemOS, Assignment2/OS_CS330_Assignment_2-master-.../gemOS/src/
-- pipe.c. Memory is a function from addresses to bytes. Positions are not negative.
pub mod Loops
pub mod Queue
mod Tests
use operating_systems_cs.Base.{
  ℕ, zero, suc, ◌+◌, ◌-◌, ◌%◌, ◌^◌, Bool, true, false, not, ◌&&◌, ◌||◌, ltb, ◌==◌, Option, none,
  some, if◌then◌else◌,
}
use operating_systems_cs.Threads.{update}
use operating_systems_cs.Files.{
  File, PipeInfo, Store, Errno, einval, eacces, eothers, Result, ok, error, fault, o_read, o_write,
}

abbrev pub pipe_max_size : ℕ
pipe_max_size = 4096

-- The first loop of `pipe_read`: what is in `buff`, and `i` and `j`.
pub read_loop :
    (fuel limit start count : ℕ) (source : ℕ → ℕ) (i j : ℕ) (buff : ℕ → ℕ) → (ℕ → ℕ) × ℕ × ℕ
read_loop zero limit start count source i j buff = (buff, i, j)
read_loop (suc fuel) limit start count source i j buff =
    let rest = read_loop fuel limit start count source (i + 1) (j + 1) (update buff j (source i)) in
    if ltb i limit then (if i - start == count then (buff, i, j) else rest) else (buff, i, j)

-- The second loop: the characters left move to the front.
pub shift_loop : (fuel limit j i : ℕ) (buff : ℕ → ℕ) → ℕ → ℕ
shift_loop zero limit j i buff = buff
shift_loop (suc fuel) limit j i buff =
    let rest = shift_loop fuel limit j (i + 1) (update buff (i - j) (buff i)) in
    if ltb i limit then rest else buff

-- What a read or a write gives: the return value, the pipe, and the caller's buffer.
pub record Transfer : Type 0 where
  pub count : ℕ
  pub pipe : PipeInfo
  pub buff : ℕ → ℕ

unfoldable pub read_pipe : (mode : ℕ) → PipeInfo → (ℕ → ℕ) → ℕ → Result Transfer
unfolding read_loop shift_loop
read_pipe mode p buff count =
    if not (p.is_ropen == 1) || not (mode == o_read)
    then error eacces
    else if ltb p.buffer_offset ((p.read_pos + count) % 2 ^ 32)
    then error eothers
    else (let limit = p.read_pos + p.buffer_offset in
        let (buff', i, j) =
          read_loop (p.buffer_offset + 1) limit p.read_pos count p.pipe_buff p.read_pos 0 buff in
        ok (record {
          count = j;
          pipe = record p {
            pipe_buff = shift_loop (p.buffer_offset + 1) limit j i p.pipe_buff;
            buffer_offset = p.buffer_offset - j;
            write_pos = p.write_pos - j;
          };
          buff = buff';
        }))

-- The loop of `pipe_write`.
pub write_loop : (fuel count : ℕ) (source : ℕ → ℕ) (i j : ℕ) (buff : ℕ → ℕ) → (ℕ → ℕ) × ℕ × ℕ
write_loop zero count source i j buff = (buff, i, j)
write_loop (suc fuel) count source i j buff =
    let rest = write_loop fuel count source (i + 1) (j + 1) (update buff i (source j)) in
    if ltb i pipe_max_size then (if j == count then (buff, i, j) else rest) else (buff, i, j)

unfoldable pub write_pipe : (mode : ℕ) → PipeInfo → (ℕ → ℕ) → ℕ → Result Transfer
unfolding write_loop
write_pipe mode p buff count =
    if not (p.is_wopen == 1) || not (mode == o_write)
    then error eacces
    else if ltb pipe_max_size ((p.write_pos + count) % 2 ^ 32)
    then error eothers
    else (let (stored, i, j) =
          write_loop (pipe_max_size + 1 - p.write_pos) count buff p.write_pos 0 p.pipe_buff in
        ok (record {
          count = j;
          pipe = record p {
            pipe_buff = stored;
            buffer_offset = p.buffer_offset + j;
            write_pos = i;
          };
          buff = buff;
        }))

-- The tests for null pointers, and the access to the pipe of a file object.
abbrev pub on_pipe : Store → Option ℕ → (ℕ → PipeInfo → Result Transfer) → Result (Store × Transfer)
on_pipe s none act = error einval
on_pipe s (some a) act = elim (s.file a) [
  | none ↦ fault
  | some f ↦ elim f.pipe [
    | none ↦ error einval
    | some b ↦ elim (s.pipe b) [
      | none ↦ fault
      | some p ↦ elim (act f.mode p) [
        | ok t ↦ ok (record s { pipe = update s.pipe b (some t.pipe) }, t)
        | error e ↦ error e
        | fault ↦ fault
      ]
    ]
  ]
]

unfoldable pub pipe_read : Store → (filep : Option ℕ) → (ℕ → ℕ) → ℕ → Result (Store × Transfer)
unfolding read_pipe
pipe_read s filep buff count = on_pipe s filep (λ mode p. read_pipe mode p buff count)

unfoldable pub pipe_write : Store → (filep : Option ℕ) → (ℕ → ℕ) → ℕ → Result (Store × Transfer)
unfolding write_pipe
pipe_write s filep buff count = on_pipe s filep (λ mode p. write_pipe mode p buff count)
