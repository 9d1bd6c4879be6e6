-- ===== src/Value/Overflow.antt =====
-- A value whose length leaves no room in a size_t for the two bytes behind it.
use arcus_c_client.Prelude.{ℕ, ◌≤◌, ◌≡◌, some, length}
use arcus_c_client.ReturnCode.{ReturnCode, success}
use arcus_c_client.Text.{Bytes}
use arcus_c_client.DynString.{DynString, memcpy}
use arcus_c_client.Io.{Channel, Read, io_read}
use arcus_c_client.Value.{to_read}

-- A value of `n` bytes goes outside of the memory of `s`: the bytes that are asked for are read and fit, and
-- the places `n` and `n + 1` of the NULs are behind the memory.
pub record Outside (n : ℕ) (s : DynString) (channel : Channel) : Type 0 where
  pub read : Read
  pub returns : io_read (to_read n) channel ≡ some read
  pub code : read.code ≡ success
  pub memory : Bytes
  pub copied : memcpy s.string 0 read.stored ≡ some memory
  pub outside : length memory ≤ n
