-- ===== src/Tests/SendTests.antt =====
-- The writing side of a connection on short scripts.
use arcus_c_client.Prelude.{
  ℕ, zero, suc, ◌≡◌, refl, Bool, true, false, Option, none, some, List, [], ◌∷◌, ◌++◌, arith,
}
use mathlib.Core.List.{flatten}
use arcus_c_client.Text.{Bytes, codes}
use arcus_c_client.Outcome.{memcached_success}
use arcus_c_client.Io.{Poll, io_wait}
use arcus_c_client.Sending.{
  Send, Link, io_writev, io_write, write_loop, io_flush, flush_loop, stored, should_write, no_purge,
  took, quit_link, repack_input_buffer, repacked,
}
use arcus_c_client.Sending.Flush.{Result}
use arcus_c_client.Sending.Buffer.{buffered}
use arcus_c_client.Sending.Written.{Written, io_writev-Written}
use arcus_c_client.Tests.IoTests.{blank, length-blank, connected}

-- A connection with `offset` bytes in its write buffer.
abbrev link : ℕ → List Send → Link
link offset script = record {
  channel = connected [];
  write_buffer = blank;
  write_buffer_offset = offset;
  response_count = 1;
  io_msg_watermark = 500;
  io_bytes_watermark = 65536;
  is_purging = false;
  multi_store = false;
  answers = script;
  sent = [];
}

abbrev never : ℕ → Poll
never n = Poll.timed_out

abbrev on_second : ℕ → Poll
on_second zero = Poll.interrupted
on_second (suc n) = Poll.ready

abbrev vector : List Bytes
vector = codes "get " ∷ codes "key" ∷ codes "\r\n" ∷ []

abbrev slowly : List Send
slowly =
    Send.taken 4
    ∷ Send.no_buffers
    ∷ Send.would_block [] on_second
    ∷ Send.taken 3
    ∷ Send.would_block (codes "END") never
    ∷ Send.taken 2
    ∷ Send.broken
    ∷ []

abbrev outcome : Option (Bool × Link) → Option (Bool × Bytes)
outcome none = none
outcome (some (ok, l)) = some (ok, l.sent)

written_slowly : outcome (io_writev vector true (link 0 slowly)) ≡ some (true, codes "get key\r\n")
unfolding io_writev io_write write_loop io_flush flush_loop stored should_write no_purge took
    repack_input_buffer repacked memcached_success io_wait
written_slowly = refl

given_up :
    outcome (io_writev vector true (link 0 (Send.taken 4 ∷ Send.would_block [] never ∷ [])))
    ≡ some (false, codes "get ")
unfolding io_writev io_write write_loop io_flush flush_loop stored should_write no_purge took
    repack_input_buffer repacked quit_link memcached_success io_wait
given_up = refl

-- The write buffer is filled by the first bytes and flushed on the way.
io_writev-Written_example :
    Result
      (Written true (buffered (link 8193 slowly) ++ flatten vector))
      (buffered (link 8193 slowly) ++ flatten vector)
      (io_writev vector true (link 8193 slowly))
io_writev-Written_example =
    io_writev-Written vector true (buffered (link 8193 slowly)) (link 8193 slowly)
      record { kept = refl; room = omega arith; size = length-blank; answers = refl; quiet = refl }
