-- ===== src/Pipe/Tests.antt =====
-- A pipe with two bytes, and the theorems at it.
use operating_systems_cs.Base.{ℕ, ◌+◌, ◌≡◌, refl, arith}
use operating_systems_cs.Files.{PipeInfo, ok, o_read, o_write}
use operating_systems_cs.Pipe.{Transfer, read_pipe, write_pipe}
use operating_systems_cs.Pipe.Queue.{
  IsValid, IsRead, IsWritten, read_pipe-IsRead, write_pipe-IsWritten,
}

abbrev two_bytes : PipeInfo
two_bytes = record {
  read_pos = 0;
  write_pos = 2;
  pipe_buff = λ k. k + 65;
  buffer_offset = 2;
  is_ropen = 1;
  is_wopen = 1;
}

abbrev caller_buffer : ℕ → ℕ
caller_buffer k = k + 48

two_bytes-IsValid : IsValid two_bytes
two_bytes-IsValid = record { at_front = refl; at_end = refl; fits = omega arith }

read_pipe-IsRead_example :
    (t : Transfer) × (read_pipe o_read two_bytes caller_buffer 1 ≡ ok t)
    × IsRead two_bytes caller_buffer 1 t
read_pipe-IsRead_example =
    read_pipe-IsRead two_bytes caller_buffer 1 two_bytes-IsValid refl (omega arith)

write_pipe-IsWritten_example :
    (t : Transfer) × (write_pipe o_write two_bytes caller_buffer 3 ≡ ok t)
    × IsWritten two_bytes caller_buffer 3 t
write_pipe-IsWritten_example =
    write_pipe-IsWritten two_bytes caller_buffer 3 two_bytes-IsValid refl (omega arith)
