-- ===== src/Tests/IoTests.antt =====
-- The reading side of a connection on short streams.
use arcus_c_client.Prelude.{
  ℕ, ◌≡◌, refl, ◌⊎◌, true, false, some, List, [], ◌∷◌, ◌++◌, length, length-replicate, replicate,
  take, drop, arith,
}
use arcus_c_client.ReturnCode.{ReturnCode, success, protocol_error}
use arcus_c_client.Outcome.{memcached_failed, memcached_continue}
use arcus_c_client.Text.{Bytes, codes}
use arcus_c_client.Io.{Poll, Recv, Channel, max_buffer, safe_read}
use arcus_c_client.Io.Line.{readline}
use arcus_c_client.Io.Stream.{arrivals, pending, IsReady}
use arcus_c_client.Io.SafeRead.{safe_read-pending}
use arcus_c_client.Io.Loss.{safe_read_loses}
use arcus_c_client.Io.Ends.{safe_read-Ends}
use arcus_c_client.Io.Readline.{readline_lem}

pub blank : Bytes
blank = replicate max_buffer 0

pub length-blank : length blank ≡ max_buffer
unfolding blank
length-blank = length-replicate {A = ℕ} max_buffer 0

abbrev pub connected : List Recv → Channel
connected script = record {
  is_open = true;
  io_bytes_sent = 0;
  read_buffer = blank;
  read_ptr = 0;
  read_buffer_length = 0;
  read_data_length = 0;
  poll_timeout = 5000;
  incoming = script;
}

abbrev at_once : ℕ → Poll
at_once n = Poll.ready

abbrev too_late : ℕ → Poll
too_late n = Poll.timed_out

-- "END\r\n" and the beginning of "OK\r\n", in pieces.
abbrev pieces : List Recv
pieces =
    Recv.interrupted
    ∷ Recv.received (codes "EN")
    ∷ Recv.would_block at_once
    ∷ Recv.received (codes "D\r\nO")
    ∷ []

pieces-IsReady : IsReady (connected pieces)
pieces-IsReady = record {
  opened = refl;
  waits = omega arith;
  room = length-blank;
  window = omega arith;
  delivery = (omega arith, (omega arith, tt));
}

pieces-pending : pending (connected pieces) ≡ codes "END\r\nO"
unfolding arrivals
pieces-pending = refl

safe_read-pending_example :
    (c : Channel) × (safe_read 5 (connected pieces)
      ≡ some (success, take 5 (pending (connected pieces)), c))
    × (pending c ≡ drop 5 (pending (connected pieces)))
    × IsReady c
safe_read-pending_example =
    safe_read-pending 5 (connected pieces) pieces-IsReady (unfold arrivals in omega arith)

readline_lem_example :
    (c : Channel) × (readline 80 (connected pieces) ≡ some (success, codes "END\r\n", c))
    × (codes "END\r\n" ++ pending c ≡ codes "END\r\nO")
    × IsReady c
readline_lem_example =
    readline_lem 80 (codes "END\r") (codes "O") (connected pieces) pieces-IsReady (omega arith)
      (omega arith) pieces-pending

-- Five bytes of room are too few for "END\r\n".
readline_full :
    (c : Channel) × (readline 5 (connected pieces) ≡ some (protocol_error, codes "END\r\n", c))
    × (codes "END\r\n" ++ pending c ≡ codes "END\r\nO")
    × IsReady c
readline_full =
    readline_lem 5 (codes "END\r") (codes "O") (connected pieces) pieces-IsReady (omega arith)
      (omega arith) pieces-pending

-- Two bytes come, the wait for more times out, then the rest and the next answer come.
abbrev stalled : List Recv
stalled =
    Recv.received (codes "AB") ∷ Recv.would_block too_late ∷ Recv.received (codes "CDEFGH") ∷ []

stalled-IsReady : IsReady (connected stalled)
stalled-IsReady = record {
  opened = refl;
  waits = omega arith;
  room = length-blank;
  window = omega arith;
  delivery = (omega arith, (omega arith, tt));
}

safe_read_loses_example :
    (c : Channel) × (safe_read 4 (connected stalled)
      ≡ some (success, take 4 (arrivals (Recv.received (codes "CDEFGH") ∷ [])), c))
    × (pending c ≡ drop 4 (arrivals (Recv.received (codes "CDEFGH") ∷ [])))
safe_read_loses_example =
    safe_read_loses too_late (Recv.received (codes "CDEFGH") ∷ []) refl b'A' (codes "B")
      (connected stalled) refl refl 4 stalled-IsReady (omega arith) (unfold arrivals in omega arith)

-- What the caller finds in its buffer.
stalled-read : take 4 (arrivals (Recv.received (codes "CDEFGH") ∷ [])) ≡ codes "CDEF"
unfolding arrivals
stalled-read = refl

abbrev broken_off : List Recv
broken_off = Recv.would_block too_late ∷ Recv.received (codes "AB") ∷ Recv.broken ∷ []

safe_read-Ends_example :
    (rc : ReturnCode) × (bytes : Bytes) × (c : Channel) × (safe_read 4 (connected broken_off)
      ≡ some (rc, bytes, c))
    × ((rc ≡ success) ⊎ ((memcached_failed rc ≡ true) × (memcached_continue rc ≡ false)))
safe_read-Ends_example = safe_read-Ends 4 (connected broken_off) tt
