-- ===== src/Regular/Tests.antt =====
-- A file of four bytes that may be read and written, and the theorems at it.
use operating_systems_cs.Base.{ℕ, ◌+◌, ◌≡◌, refl, ◌<◌, none, some, arith, ◌%◌}
use operating_systems_cs.Files.{File, ok}
use operating_systems_cs.Regular.{Inode, Io, do_read_regular, do_write_regular, do_lseek_regular}
use operating_systems_cs.Regular.RoundTrip.{
  IsValid, IsWritten, do_write_regular-IsWritten, IsRead, do_read_regular-IsRead,
}
use operating_systems_cs.Regular.Seek.{write_lseek_read}

abbrev opened : File
opened = record { type = 3; mode = 3; offp = 1; ref_count = 1; inode = some 0; pipe = none }

abbrev four_bytes : Inode
four_bytes = record { mode = 3; s_pos = 8192; e_pos = 12288; max_pos = 8196; file_size = 4 }

four_bytes-IsValid : IsValid four_bytes
four_bytes-IsValid = record {
  room = omega arith;
  end = refl;
  fits = omega arith;
  low = omega arith;
}

abbrev disk : ℕ → ℕ
disk a = a % 256

abbrev message : ℕ → ℕ
message k = k + 65

do_write_regular-IsWritten_example :
    (io : Io) × (do_write_regular opened four_bytes disk message 5 ≡ ok io)
    × IsWritten opened four_bytes disk message 5 io
do_write_regular-IsWritten_example =
    do_write_regular-IsWritten opened four_bytes disk message 5 four_bytes-IsValid refl refl
      (omega arith)

do_read_regular-IsRead_example :
    (io : Io) × (do_read_regular opened four_bytes disk message 3 ≡ ok io)
    × IsRead opened four_bytes disk message 3 io
do_read_regular-IsRead_example =
    do_read_regular-IsRead opened four_bytes disk message 3 four_bytes-IsValid refl refl
      (omega arith)

write_lseek_read_example :
    (io : Io) × (back : File) × (io' : Io) × (do_write_regular opened four_bytes disk message 5
      ≡ ok io)
    × (do_lseek_regular io.file io.inode 1 0 ≡ ok back)
    × (do_read_regular back io.inode io.disk disk 5 ≡ ok io')
    × ((k : ℕ) → k < 5 → io'.buff k ≡ message k)
write_lseek_read_example =
    write_lseek_read opened four_bytes disk message disk 5 four_bytes-IsValid refl refl refl refl
      (omega arith) (omega arith)
