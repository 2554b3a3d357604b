-- ===== src/Regular.antt =====
-- Reading and writing regular files in gemOS of Assignment2: `do_read_regular` and `do_write_regular` of
-- file.c over `flat_read` and `flat_write` of fs.c. A disk and a buffer are functions from addresses
-- to bytes; the two do not overlap. An `int` that is negative is a fault: the loops then leave the file.
pub mod RoundTrip
pub mod Seek
mod Tests
use operating_systems_cs.Base.{
  Option, none, some, ℕ, zero, suc, ◌+◌, ◌-◌, ◌/◌, ◌%◌, ◌^◌, Bool, true, false, not, ◌&&◌, ◌||◌,
  ltb, leb, ◌==◌, if◌then◌else◌,
}
use operating_systems_cs.Threads.{update}
use operating_systems_cs.Files.{File, Result, ok, error, fault, eacces, eothers}

abbrev pub file_size_max : ℕ
file_size_max = 4096

-- The fields of `struct inode` that reading and writing use; `mode` is a `u32`, the others `unsigned`.
pub record Inode : Type 0 where
  pub mode : ℕ
  pub s_pos : ℕ
  pub e_pos : ℕ
  pub max_pos : ℕ
  pub file_size : ℕ

-- What a call leaves, and the number of bytes that it returns.
pub record Io : Type 0 where
  pub size : ℕ
  pub file : File
  pub inode : Inode
  pub disk : ℕ → ℕ
  pub buff : ℕ → ℕ

-- `n` rounds of the copying loops, from the round `i` on.
pub copy_bytes : (n i : ℕ) (source : ℕ → ℕ) (from to : ℕ) (target : ℕ → ℕ) → ℕ → ℕ
copy_bytes zero i source from to target = target
copy_bytes (suc n) i source from to target =
    copy_bytes n (i + 1) source from to (update target (to + i) (source (from + i)))

-- `m & O_READ` and `m & O_WRITE`.
abbrev pub may_read : ℕ → Bool
may_read m = m % 2 == 1

abbrev pub may_write : ℕ → Bool
may_write m = m / 2 % 2 == 1

-- The number of bytes that `flat_read` reads.
abbrev pub read_size : Inode → (count offp : ℕ) → ℕ
read_size n count offp =
    if leb n.file_size offp
    then 0
    else if ltb (n.file_size - offp) count
    then n.file_size - offp
    else count

pub flat_read : Inode → (disk buff : ℕ → ℕ) → (count offp : ℕ) → ℕ → ℕ
unfolding copy_bytes
flat_read n disk buff count offp =
    copy_bytes (read_size n count offp) 0 disk (n.s_pos + offp) 0 buff

abbrev pub is_negative : ℕ → Bool
is_negative v = leb (2 ^ 31) v

unfoldable pub do_read_regular : File → Inode → (disk buff : ℕ → ℕ) → ℕ → Result Io
unfolding flat_read
do_read_regular f n disk buff count =
    if ltb n.file_size ((f.offp + count) % 2 ^ 32)
    then error eothers
    else if may_read f.mode && not (may_read n.mode)
    then error eacces
    else if not (may_read f.mode)
    then error eacces
    else if ltb file_size_max n.file_size
    then error eothers
    else if is_negative count || is_negative f.offp
    then fault
    else ok (record {
      size = read_size n count f.offp;
      file = record f { offp = (f.offp + read_size n count f.offp) % 2 ^ 32 };
      inode = n;
      disk = disk;
      buff = flat_read n disk buff count f.offp;
    })

-- How `flat_write` moves the end of the file.
abbrev pub grow : Inode → (stop : ℕ) → Inode
grow n stop =
    let end = if ltb n.max_pos stop then stop else n.max_pos in
    record n { max_pos = end; file_size = (end + 2 ^ 32 - n.s_pos) % 2 ^ 32 }

-- `none` is the return value -1; otherwise the file and the disk are written.
abbrev pub flat_write : Inode → (disk buff : ℕ → ℕ) → (count offp : ℕ) → Option (Inode × (ℕ → ℕ))
flat_write n disk buff count offp =
    if ltb n.e_pos (n.s_pos + offp + count)
    then none
    else some (
      grow n ((n.s_pos + offp + count) % 2 ^ 32),
      copy_bytes count 0 buff 0 (n.s_pos + offp) disk,
    )

unfoldable pub do_write_regular : File → Inode → (disk buff : ℕ → ℕ) → ℕ → Result Io
unfolding copy_bytes
do_write_regular f n disk buff count =
    if ltb file_size_max ((f.offp + count) % 2 ^ 32)
    then error eothers
    else if may_write f.mode && not (may_write n.mode)
    then error eacces
    else if not (may_write f.mode)
    then error eacces
    else if ltb file_size_max n.file_size
    then error eothers
    else if is_negative count || is_negative f.offp
    then fault
    else elim (flat_write n disk buff count f.offp) [
      | none ↦ error eothers
      | some (n', disk') ↦ ok (record {
        size = count;
        file = record f { offp = (f.offp + count) % 2 ^ 32 };
        inode = n';
        disk = disk';
        buff = buff;
      })
    ]

-- `SEEK_SET`, `SEEK_CUR` and `SEEK_END`; the offset of any other `whence` is the old one.
abbrev pub new_offset : File → Inode → (offset whence : ℕ) → ℕ
new_offset f n offset whence =
    if whence == 1
    then (f.offp + offset) % 2 ^ 32
    else if whence == 2
    then (n.file_size + offset) % 2 ^ 32
    else if whence == 0
    then offset % 2 ^ 32
    else f.offp

-- `offset` is the 64-bit pattern of a `long`. The size test compares `int` numbers.
unfoldable pub do_lseek_regular : File → Inode → (offset whence : ℕ) → Result File
do_lseek_regular f n offset whence =
    let v = new_offset f n offset whence in
    if leb file_size_max v && not (is_negative v) then error eothers else ok (record f { offp = v })
