-- ===== src/Pipe/Queue.antt =====
-- A pipe is a queue of bytes.
use operating_systems_cs.Base.{
  ℕ, ◌+◌, ◌-◌, ◌%◌, ◌^◌, ◌≡◌, refl, ◌<◌, ◌≤◌, false, not, ◌||◌, ltb, ◌==◌, List, ◌++◌, arith,
  if◌then◌else◌, ap, ap₂, ◌∙◌,
}
use operating_systems_cs.Files.{PipeInfo, ok, o_read, o_write}
use operating_systems_cs.Pipe.{pipe_max_size, shift_loop, Transfer, read_pipe, write_pipe}
use operating_systems_cs.Pipe.Loops.{
  bytes, bytes-append, bytes-eq, read_loop_lem, write_loop_lem, shift_loop_lem,
}

-- The buffer begins at the front, and the writer stands at its end.
pub record IsValid (p : PipeInfo) : Type 0 where
  pub at_front : p.read_pos ≡ 0
  pub at_end : p.write_pos ≡ p.buffer_offset
  pub fits : p.buffer_offset ≤ pipe_max_size

-- The bytes in a pipe, the oldest first.
abbrev pub contents : PipeInfo → List ℕ
contents p = bytes p.pipe_buff p.read_pos p.buffer_offset

-- What a read of `count` bytes leaves: the return value, a valid pipe, the oldest bytes of the pipe at
-- the start of the caller's buffer in their order, the others still in the pipe.
pub record IsRead (p : PipeInfo) (buff : ℕ → ℕ) (count : ℕ) (t : Transfer) : Type 0 where
  pub returned : t.count ≡ count
  pub valid : IsValid t.pipe
  pub moved : contents p ≡ bytes t.buff 0 count ++ contents t.pipe
  pub beyond : (k : ℕ) → count ≤ k → t.buff k ≡ buff k

-- The transfer of a read that ends with `out` in the caller's buffer.
abbrev after_read : PipeInfo → ℕ → (ℕ → ℕ) → Transfer
after_read p count out = record {
  count = count;
  pipe = record p {
    pipe_buff =
        shift_loop (p.buffer_offset + 1) (p.read_pos + p.buffer_offset) count (p.read_pos + count)
          p.pipe_buff;
    buffer_offset = p.buffer_offset - count;
    write_pos = p.write_pos - count;
  };
  buff = out;
}

-- The bytes that were not read stand at the front.
shifted :
    (p : PipeInfo) (count : ℕ)
    → IsValid p
    → count ≤ p.buffer_offset
    → (k : ℕ) → k < p.buffer_offset - count
    → p.pipe_buff (p.read_pos + count + k)
      ≡ shift_loop
          (p.buffer_offset + 1)
          (p.read_pos + p.buffer_offset)
          count
          (p.read_pos + count)
          p.pipe_buff
          (p.read_pos + k)
shifted p count v few k lt =
    let e : p.read_pos + k + count ≡ p.read_pos + count + k = omega arith in
    rw (← e) (
      ground (
        arith,
        shift_loop_lem (p.buffer_offset + 1) (p.read_pos + p.buffer_offset) count
            (p.read_pos + count) p.pipe_buff (omega arith) (omega arith) (omega arith)
            (p.read_pos + k),
      ))

-- A sum of `unsigned` numbers that does not wrap.
room_test :
    (total limit : ℕ) → total ≤ limit → limit ≤ pipe_max_size → ltb limit (total % 2 ^ 32) ≡ false
room_test total limit le small = ground arith

after_read-IsRead :
    (p : PipeInfo) (buff : ℕ → ℕ) (count : ℕ) (out : ℕ → ℕ)
    → IsValid p
    → count ≤ p.buffer_offset
    → ((k : ℕ)
        → out k ≡ (
            if ltb k 0
            then buff k
            else if ltb k count
            then p.pipe_buff (p.read_pos + k)
            else buff k))
    → IsRead p buff count (after_read p count out)
after_read-IsRead p buff count out v few has = record {
  returned = refl;
  valid = record {
    at_front = v.at_front;
    at_end = omega (arith, v.at_end);
    fits = omega (arith, v.fits);
  };
  moved =
      ap (bytes p.pipe_buff p.read_pos) (omega arith)
      ∙ bytes-append p.pipe_buff p.read_pos count (p.buffer_offset - count)
      ∙ ap₂ (λ xs ys. xs ++ ys)
          (bytes-eq p.pipe_buff out p.read_pos 0 count (λ k lt. ground (arith, has (0 + k))))
          (bytes-eq p.pipe_buff (after_read p count out).pipe.pipe_buff (p.read_pos + count)
            p.read_pos (p.buffer_offset - count) (λ k lt. shifted p count v few k lt));
  beyond = λ k le. ground (arith, has k);
}

-- A read of no more bytes than a valid pipe has, through its open read end, succeeds: it returns their
-- number, puts the oldest bytes of the pipe at the start of the buffer in their order and keeps the
-- rest of the buffer, and leaves the other bytes in the pipe, which is valid again.
pub read_pipe-IsRead :
    (p : PipeInfo) (buff : ℕ → ℕ) (count : ℕ)
    → IsValid p
    → p.is_ropen ≡ 1
    → count ≤ p.buffer_offset
    → (t : Transfer) × (read_pipe o_read p buff count ≡ ok t) × IsRead p buff count t
unfolding read_pipe
read_pipe-IsRead p buff count v open_end few =
    let (out, run, has) =
      read_loop_lem (p.buffer_offset + 1) (p.read_pos + p.buffer_offset) p.read_pos count
        p.pipe_buff p.read_pos 0 buff (omega arith) (omega arith) (omega arith) (omega arith) in
    let allowed : (not (p.is_ropen == 1) || not (o_read == o_read)) ≡ false = ground arith in
    let enough : ltb p.buffer_offset ((p.read_pos + count) % 2 ^ 32) ≡ false =
      room_test _ _ (omega arith) (omega arith) in
    (
      after_read p count out,
      rw (allowed, enough, run) refl,
      after_read-IsRead p buff count out v few has,
    )

-- What a write of `count` bytes leaves: the return value, a valid pipe with the bytes of the caller's
-- buffer behind those that it had.
pub record IsWritten (p : PipeInfo) (buff : ℕ → ℕ) (count : ℕ) (t : Transfer) : Type 0 where
  pub returned : t.count ≡ count
  pub valid : IsValid t.pipe
  pub moved : contents t.pipe ≡ contents p ++ bytes buff 0 count

abbrev after_write : PipeInfo → ℕ → (stored buff : ℕ → ℕ) → Transfer
after_write p count stored buff = record {
  count = count;
  pipe = record p {
    pipe_buff = stored;
    buffer_offset = p.buffer_offset + count;
    write_pos = p.write_pos + count;
  };
  buff = buff;
}

after_write-IsWritten :
    (p : PipeInfo) (buff : ℕ → ℕ) (count : ℕ) (stored : ℕ → ℕ)
    → IsValid p
    → p.buffer_offset + count ≤ pipe_max_size
    → ((k : ℕ)
        → stored k ≡ (
            if ltb k p.write_pos
            then p.pipe_buff k
            else if ltb k (p.write_pos + count)
            then buff (k - p.write_pos)
            else p.pipe_buff k))
    → IsWritten p buff count (after_write p count stored buff)
after_write-IsWritten p buff count stored v room has = record {
  returned = refl;
  valid = record { at_front = v.at_front; at_end = omega (arith, v.at_end); fits = room };
  moved =
      bytes-append stored p.read_pos p.buffer_offset count
      ∙ ap₂ (λ xs ys. xs ++ ys)
          (bytes-eq stored p.pipe_buff p.read_pos p.read_pos p.buffer_offset
            (λ k lt. has (p.read_pos + k) ∙ ground (arith, v.at_end, v.at_front)))
          (bytes-eq stored buff (p.read_pos + p.buffer_offset) 0 count (λ k lt.
            has (p.read_pos + p.buffer_offset + k) ∙ ground (arith, v.at_end, v.at_front)));
}

-- A write into the open write end of a valid pipe that has room for the bytes succeeds: it returns
-- their number, and the pipe is valid with the bytes behind those that it had.
pub write_pipe-IsWritten :
    (p : PipeInfo) (buff : ℕ → ℕ) (count : ℕ)
    → IsValid p
    → p.is_wopen ≡ 1
    → p.buffer_offset + count ≤ pipe_max_size
    → (t : Transfer) × (write_pipe o_write p buff count ≡ ok t) × IsWritten p buff count t
unfolding write_pipe
write_pipe-IsWritten p buff count v open_end room =
    let (stored, run, has) =
      write_loop_lem (pipe_max_size + 1 - p.write_pos) p.write_pos count buff p.write_pos 0
        p.pipe_buff (omega arith) (omega arith) (omega (arith, v.at_end))
        (omega (arith, v.at_end)) in
    let allowed : (not (p.is_wopen == 1) || not (o_write == o_write)) ≡ false = ground arith in
    let enough : ltb pipe_max_size ((p.write_pos + count) % 2 ^ 32) ≡ false =
      room_test _ _ (omega (arith, v.at_end)) (omega arith) in
    (
      after_write p count stored buff,
      rw (allowed, enough, run) refl,
      after_write-IsWritten p buff count stored v room has,
    )
