-- ===== src/Regular/RoundTrip.antt =====
-- What is written to a file is read again.
use operating_systems_cs.Base.{
  ℕ, zero, suc, ◌+◌, ◌%◌, ◌^◌, ◌≡◌, refl, ◌<◌, ◌≤◌, true, false, not, ◌&&◌, ◌||◌, ltb, leb,
  if◌then◌else◌, arith, ◌∙◌,
}
use operating_systems_cs.Threads.{update}
use operating_systems_cs.Files.{File, ok}
use operating_systems_cs.Regular.{
  file_size_max, Inode, Io, copy_bytes, may_read, may_write, read_size, flat_read, is_negative,
  do_read_regular, grow, do_write_regular,
}

-- What the copying loops store.
pub copy_bytes_lem :
    (n i : ℕ) (source : ℕ → ℕ) (from to : ℕ) (target : ℕ → ℕ) (k : ℕ)
    → copy_bytes n i source from to target (to + k)
      ≡ (if leb i k && ltb k (i + n) then source (from + k) else target (to + k))
unfolding copy_bytes
copy_bytes_lem zero i source from to target k = ground arith
copy_bytes_lem (suc n) i source from to target k =
    ground (
      arith,
      copy_bytes_lem n (i + 1) source from to (update target (to + i) (source (from + i))) k,
    )

-- The file has room for its greatest size, and its length is the distance of its two ends.
pub record IsValid (n : Inode) : Type 0 where
  pub room : n.s_pos + file_size_max ≤ n.e_pos
  pub end : n.max_pos ≡ n.s_pos + n.file_size
  pub fits : n.file_size ≤ file_size_max
  pub low : n.e_pos < 2 ^ 31

-- The state that a write leaves.
abbrev after_write : File → Inode → (disk buff : ℕ → ℕ) → ℕ → Io
after_write f n disk buff count = record {
  size = count;
  file = record f { offp = (f.offp + count) % 2 ^ 32 };
  inode = grow n ((n.s_pos + f.offp + count) % 2 ^ 32);
  disk = copy_bytes count 0 buff 0 (n.s_pos + f.offp) disk;
  buff = buff;
}

grow-length :
    (n : Inode) (offp count : ℕ)
    → IsValid n
    → offp + count ≤ file_size_max
    → (grow n ((n.s_pos + offp + count) % 2 ^ 32)).file_size
      ≡ (if ltb n.file_size (offp + count) then offp + count else n.file_size)
grow-length n offp count v le = ground (arith, v.room, v.end, v.fits, v.low)

grow-IsValid :
    (n : Inode) (offp count : ℕ)
    → IsValid n
    → offp + count ≤ file_size_max
    → IsValid (grow n ((n.s_pos + offp + count) % 2 ^ 32))
grow-IsValid n offp count v le = record {
  room = v.room;
  end = ground (arith, v.room, v.end, v.fits, v.low);
  fits = ground (arith, v.room, v.end, v.fits, v.low);
  low = v.low;
}

pub record IsWritten (f : File) (n : Inode) (disk buff : ℕ → ℕ) (count : ℕ) (io : Io) : Type 0 where
  pub returned : io.size ≡ count
  pub valid : IsValid io.inode
  pub start : io.inode.s_pos ≡ n.s_pos
  pub offset : io.file.offp ≡ f.offp + count
  pub file_mode : io.file.mode ≡ f.mode
  pub inode_mode : io.inode.mode ≡ n.mode
  pub length :
      io.inode.file_size
      ≡ (if ltb n.file_size (f.offp + count) then f.offp + count else n.file_size)
  pub stored :
      (k : ℕ)
      → io.disk (n.s_pos + f.offp + k)
        ≡ (if ltb k count then buff k else disk (n.s_pos + f.offp + k))

-- A write to a valid file that both the descriptor and the file permit, and that ends within the
-- greatest size, succeeds: it returns the number of bytes, stores them from the offset on and leaves the
-- bytes behind them, moves the offset behind them, and the length is the greater of the old length and
-- the new offset; the file is valid again.
pub do_write_regular-IsWritten :
    (f : File) (n : Inode) (disk buff : ℕ → ℕ) (count : ℕ)
    → IsValid n
    → may_write f.mode ≡ true
    → may_write n.mode ≡ true
    → f.offp + count ≤ file_size_max
    → (io : Io) × (do_write_regular f n disk buff count ≡ ok io) × IsWritten f n disk buff count io
unfolding do_write_regular
do_write_regular-IsWritten f n disk buff count v mine yours le =
    let g1 : ltb file_size_max ((f.offp + count) % 2 ^ 32) ≡ false = ground arith in
    let g2 : (may_write f.mode && not (may_write n.mode)) ≡ false = ground arith in
    let g3 : not (may_write f.mode) ≡ false = ground arith in
    let g4 : ltb file_size_max n.file_size ≡ false = ground (arith, v.fits) in
    let g5 : (is_negative count || is_negative f.offp) ≡ false = ground arith in
    let g6 : ltb n.e_pos (n.s_pos + f.offp + count) ≡ false = ground (arith, v.room) in
    (
      after_write f n disk buff count,
      rw (g1, g2, g3, g4, g5, g6) refl,
      record {
        returned = refl;
        valid = grow-IsValid n f.offp count v le;
        start = refl;
        offset = ground arith;
        file_mode = refl;
        inode_mode = refl;
        length = grow-length n f.offp count v le;
        stored = λ k. copy_bytes_lem count 0 buff 0 (n.s_pos + f.offp) disk k ∙ ground arith;
      },
    )

pub record IsRead (f : File) (n : Inode) (disk buff : ℕ → ℕ) (count : ℕ) (io : Io) : Type 0 where
  pub returned : io.size ≡ count
  pub offset : io.file.offp ≡ f.offp + count
  pub loaded : (k : ℕ) → io.buff k ≡ (if ltb k count then disk (n.s_pos + f.offp + k) else buff k)

-- The state that a read leaves.
abbrev after_read : File → Inode → (disk buff : ℕ → ℕ) → ℕ → Io
after_read f n disk buff count = record {
  size = read_size n count f.offp;
  file = record f { offp = (f.offp + read_size n count f.offp) % 2 ^ 32 };
  inode = n;
  disk = disk;
  buff = flat_read n disk buff count f.offp;
}

loaded_bytes :
    (f : File) (n : Inode) (disk buff : ℕ → ℕ) (count : ℕ)
    → read_size n count f.offp ≡ count
    → (k : ℕ)
    → flat_read n disk buff count f.offp k
      ≡ (if ltb k count then disk (n.s_pos + f.offp + k) else buff k)
unfolding flat_read
loaded_bytes f n disk buff count whole k =
    let here : 0 + k ≡ k = omega arith in
    let copied = copy_bytes_lem count 0 disk (n.s_pos + f.offp) 0 buff k in
    rw whole ((rw here at copied) ∙ ground arith)

-- A read from a valid file that both the descriptor and the file permit, and that ends within the file,
-- succeeds: it returns the number of bytes, moves the offset behind them, puts the bytes of the file
-- from the offset on into the buffer and keeps the rest of the buffer.
pub do_read_regular-IsRead :
    (f : File) (n : Inode) (disk buff : ℕ → ℕ) (count : ℕ)
    → IsValid n
    → may_read f.mode ≡ true
    → may_read n.mode ≡ true
    → f.offp + count ≤ n.file_size
    → (io : Io) × (do_read_regular f n disk buff count ≡ ok io) × IsRead f n disk buff count io
unfolding do_read_regular
do_read_regular-IsRead f n disk buff count v mine yours le =
    let g1 : ltb n.file_size ((f.offp + count) % 2 ^ 32) ≡ false = ground (arith, v.fits) in
    let g2 : (may_read f.mode && not (may_read n.mode)) ≡ false = ground arith in
    let g3 : not (may_read f.mode) ≡ false = ground arith in
    let g4 : ltb file_size_max n.file_size ≡ false = ground (arith, v.fits) in
    let g5 : (is_negative count || is_negative f.offp) ≡ false = ground (arith, v.fits) in
    let whole : read_size n count f.offp ≡ count = ground arith in
    (
      after_read f n disk buff count,
      rw (g1, g2, g3, g4, g5) refl,
      record {
        returned = whole;
        offset = rw whole (ground (arith, v.fits));
        loaded = loaded_bytes f n disk buff count whole;
      },
    )
