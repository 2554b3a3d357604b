-- ===== src/Regular/Seek.antt =====
-- Bytes that are written, and read again after going back.
use operating_systems_cs.Base.{
  ℕ, ◌+◌, ◌%◌, ◌^◌, ◌≡◌, refl, ◌<◌, ◌≤◌, true, false, not, ◌&&◌, leb, arith, ◌∙◌,
}
use operating_systems_cs.Files.{File, ok}
use operating_systems_cs.Regular.{
  file_size_max, Inode, Io, may_read, may_write, is_negative, do_read_regular, do_write_regular,
  do_lseek_regular,
}
use operating_systems_cs.Regular.RoundTrip.{
  IsValid, IsWritten, do_write_regular-IsWritten, do_read_regular-IsRead,
}

seek_back :
    (f : File) (n : Inode) (offset : ℕ)
    → offset < file_size_max
    → do_lseek_regular f n offset 0 ≡ ok (record f { offp = offset })
unfolding do_lseek_regular
seek_back f n offset lt =
    let small : offset % 2 ^ 32 ≡ offset = ground arith in
    let allowed : (leb file_size_max offset && not (is_negative offset)) ≡ false = ground arith in
    rw (small, allowed) refl

read_back :
    (f : File) (n : Inode) (disk buff other : ℕ → ℕ) (count : ℕ) (io : Io)
    → IsWritten f n disk buff count io
    → may_read f.mode ≡ true
    → may_read n.mode ≡ true
    → (io' : Io) × (do_read_regular (record io.file { offp = f.offp }) io.inode io.disk other count
        ≡ ok io')
      × ((k : ℕ) → k < count → io'.buff k ≡ buff k)
read_back f n disk buff other count io w mine yours =
    let (io', run, got) =
      do_read_regular-IsRead (record io.file { offp = f.offp }) io.inode io.disk other count w.valid
        (rw w.file_mode mine) (rw w.inode_mode yours) (ground (arith, w.length)) in
    (io', run, λ k lt. got.loaded k ∙ rw w.start (ground (arith, w.stored k)))

-- For a valid file that the descriptor and the file permit to read and to write: bytes that are
-- written within the greatest size are read again unchanged after `lseek` with `SEEK_SET` to where the
-- write began, and all three calls succeed.
pub write_lseek_read :
    (f : File) (n : Inode) (disk buff other : ℕ → ℕ) (count : ℕ)
    → IsValid n
    → may_read f.mode ≡ true
    → may_read n.mode ≡ true
    → may_write f.mode ≡ true
    → may_write n.mode ≡ true
    → f.offp < file_size_max
    → f.offp + count ≤ file_size_max
    → (io : Io) × (back : File) × (io' : Io) × (do_write_regular f n disk buff count ≡ ok io)
      × (do_lseek_regular io.file io.inode f.offp 0 ≡ ok back)
      × (do_read_regular back io.inode io.disk other count ≡ ok io')
      × ((k : ℕ) → k < count → io'.buff k ≡ buff k)
write_lseek_read f n disk buff other count v fr nr fw nw lt le =
    let (io, written, w) = do_write_regular-IsWritten f n disk buff count v fw nw le in
    let (io', run, same) = read_back f n disk buff other count io w fr nr in
    (
      io,
      record io.file { offp = f.offp },
      io',
      written,
      seek_back io.file io.inode f.offp lt,
      run,
      same,
    )
