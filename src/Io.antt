-- ===== src/Io.antt =====
-- The reading side of a connection, of libmemcached/io.cc: waiting, filling the read buffer, and
-- reading a given number of bytes. What recv and poll answer is a script that the environment
-- chooses; a call that outlives its script is blocked, `none`.
pub mod Stream
pub mod Reads
pub mod SafeRead
pub mod Loss
pub mod Ends
pub mod Line
pub mod Copy
pub mod Lines
pub mod Rounds
pub mod Readline
use arcus_c_client.Prelude.{
  ℕ, zero, suc, ◌+◌, ◌-◌, ◌==◌, Bool, true, false, Option, none, some, List, [], ◌∷◌, ◌++◌, ltb,
  length, take, drop, if◌then◌else◌,
}
use arcus_c_client.ReturnCode.{ReturnCode, success, timeout, memory_allocation_failure, errno}
use arcus_c_client.ReturnCode.{in_progress, connection_failure, protocol_error}
use arcus_c_client.Outcome.{memcached_success, memcached_failed, memcached_continue, is_success}
use arcus_c_client.Text.{Bytes}

abbrev pub max_buffer : ℕ
max_buffer = 8196

-- An answer of poll on one descriptor: 1, 0, or -1 with EINTR or ERESTART, with EFAULT, ENOMEM or
-- EINVAL, with any other errno.
pub data Poll : Type 0 where
  ready : Poll
  timed_out : Poll
  interrupted : Poll
  refused : Poll
  broken : Poll

-- An answer of recv: the bytes that it placed in the buffer (none of them at the end of the
-- stream), or -1 with EINTR, with EAGAIN and its kin, with any other errno. After EAGAIN the source
-- polls, and the n-th poll has the n-th answer.
pub data Recv : Type 0 where
  received : Bytes → Recv
  interrupted : Recv
  would_block : (ℕ → Poll) → Recv
  broken : Recv

-- The fields of `memcached_server_st` that reading uses, with the answers to come. `read_ptr` is
-- the offset into `read_buffer`.
pub record Channel : Type 0 where
  pub is_open : Bool
  pub io_bytes_sent : ℕ
  pub read_buffer : Bytes
  pub read_ptr : ℕ
  pub read_buffer_length : ℕ
  pub read_data_length : ℕ
  pub poll_timeout : ℕ
  pub incoming : List Recv

-- `memcached_quit_server(ptr, true)`, in these fields.
unfoldable pub quit : Channel → Channel
quit c = record c { is_open = false; io_bytes_sent = 0; read_ptr = 0; read_buffer_length = 0 }

-- `while (--loop_max)` of `io_wait`, with the rounds left and the number of the next poll.
unfoldable pub poll_loop : ℕ → ℕ → (ℕ → Poll) → Channel → ReturnCode × Channel
unfolding quit
poll_loop zero n polls c = (errno, quit c)
poll_loop (suc rounds) n polls c = elim (polls n) [
  | Poll.ready ↦ (success, c)
  | Poll.timed_out ↦ (timeout, c)
  | Poll.interrupted ↦ poll_loop rounds (suc n) polls c
  | Poll.refused ↦ (memory_allocation_failure, c)
  | Poll.broken ↦ (errno, quit c)
]

-- `io_wait(ptr, MEM_READ)`. `loop_max` is 5 and falls before its test.
unfoldable pub io_wait : (ℕ → Poll) → Channel → ReturnCode × Channel
unfolding poll_loop
io_wait polls c = if c.poll_timeout == 0 then (timeout, c) else poll_loop 4 0 polls c

-- What recv leaves in the buffer, and the fields that `_io_fill` sets at its end.
unfoldable pub filled : Bytes → List Recv → Channel → Channel
filled chunk more c = record c {
  io_bytes_sent = 0;
  read_data_length = length chunk;
  read_buffer_length = length chunk;
  read_buffer = chunk ++ drop (length chunk) c.read_buffer;
  read_ptr = 0;
  incoming = more;
}

-- The loop of `_io_fill`, along the answers of recv.
unfoldable pub fill_loop : List Recv → Channel → Option (ReturnCode × Channel)
unfolding quit io_wait filled memcached_success
fill_loop [] c = none
fill_loop (Recv.received [] ∷ more) c =
    some (connection_failure, quit (record c { incoming = more }))
fill_loop (Recv.received (b ∷ chunk) ∷ more) c = some (success, filled (b ∷ chunk) more c)
fill_loop (Recv.interrupted ∷ more) c = fill_loop more c
fill_loop (Recv.would_block polls ∷ more) c =
    let (rc, c') = io_wait polls c in
    let rest = fill_loop more c' in
    if memcached_success rc then rest else some (in_progress, record c' { incoming = more })
fill_loop (Recv.broken ∷ more) c = some (errno, quit (record c { incoming = more }))

-- `_io_fill`
unfoldable pub io_fill : Channel → Option (ReturnCode × Channel)
unfolding fill_loop
io_fill c = fill_loop c.incoming c

-- The result of `memcached_io_read`: its return code, what it stored from the start of `buffer` on,
-- whether `*nread` is the length asked for (else -1), and the connection.
pub record Read : Type 0 where
  pub code : ReturnCode
  pub stored : Bytes
  pub complete : Bool
  pub channel : Channel

-- `memcpy` from `read_ptr`, and the pointers moved: a branch for more than one byte and one for a
-- single byte, which agree.
unfoldable pub copied : ℕ → Channel → Bytes × Channel
copied n c = (
  take n (drop c.read_ptr c.read_buffer),
  record c { read_ptr = c.read_ptr + n; read_buffer_length = c.read_buffer_length - n },
)

unfoldable pub difference : ℕ → Channel → ℕ
difference remains c =
    if ltb 1 remains
    then (if ltb c.read_buffer_length remains then c.read_buffer_length else remains)
    else 1

-- `while (remains)`. Each round takes a byte at least, so `remains` rounds are enough.
unfoldable pub read_loop : ℕ → ℕ → Bytes → Channel → Option Read
unfolding io_fill copied difference is_success
read_loop fuel zero out c =
    some (record { code = success; stored = out; complete = true; channel = c })
read_loop zero (suc r) out c = none
read_loop (suc fuel) (suc r) out c =
    let go = λ (c' : Channel).
      let n = difference (suc r) c' in
      let (bytes, c'') = copied n c' in read_loop fuel (suc r - n) (out ++ bytes) c'' in
    if c.read_buffer_length == 0
    then elim (io_fill c) [
      | none ↦ none
      | some (rc, c') ↦
          if is_success rc
          then go c'
          else some (record { code = rc; stored = out; complete = false; channel = c' })
    ]
    else go c

-- `memcached_io_read`, into a buffer that is not NULL.
unfoldable pub io_read : ℕ → Channel → Option Read
unfolding read_loop
io_read size c =
    if c.is_open
    then read_loop size size [] c
    else some (record { code = connection_failure; stored = []; complete = false; channel = c })

-- `while (memcached_continue(rc= memcached_io_read(...)))`: every round but the last uses up an
-- answer of recv, so one round more than there are answers is enough.
unfoldable pub retry_loop : ℕ → ℕ → Channel → Option Read
unfolding io_read memcached_continue
retry_loop zero size c = none
retry_loop (suc rounds) size c = elim (io_read size c) [
  | none ↦ none
  | some r ↦
      let again = retry_loop rounds size r.channel in
      if memcached_continue r.code then again else some r
]

-- What remains to be read, and the buffer so far.
unfoldable pub safe_loop : ℕ → ℕ → Bytes → Channel → Option (ReturnCode × Bytes × Channel)
unfolding retry_loop memcached_failed
safe_loop fuel zero out c = some (success, out, c)
safe_loop zero (suc r) out c = none
safe_loop (suc fuel) (suc r) out c = elim (retry_loop (suc (length c.incoming)) (suc r) c) [
  | none ↦ none
  | some got ↦
      let n = if got.complete then suc r else 0 in
      let rest = safe_loop fuel (suc r - n) (out ++ take n got.stored) got.channel in
      if memcached_failed got.code then some (got.code, out ++ got.stored, got.channel) else rest
]

-- `memcached_safe_read`: the return code, what the buffer holds, and the connection.
unfoldable pub safe_read : ℕ → Channel → Option (ReturnCode × Bytes × Channel)
unfolding safe_loop
safe_read size c = safe_loop size size [] c
