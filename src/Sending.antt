-- ===== src/Sending.antt =====
-- The writing side of a connection over a stream, of libmemcached/io.cc: the write buffer, its
-- flushing and the waits for the socket. What send, recv and poll answer is a script that the
-- environment chooses; a call that outlives its script is blocked, `none`, and so is one that
-- would purge the responses (libmemcached/purge.cc), which is not modelled.
pub mod Flush
pub mod Buffer
pub mod Written
use arcus_c_client.Prelude.{
  ℕ, zero, suc, ◌+◌, ◌-◌, ◌%◌, ◌^◌, Bool, true, false, ◌&&◌, ◌||◌, not, Option, none, some, List,
  [], ◌∷◌, ◌++◌, ltb, leb, ◌==◌, length, take, drop, if◌then◌else◌,
}
use arcus_c_client.Outcome.{memcached_success}
use arcus_c_client.Text.{Bytes}
use arcus_c_client.Io.{Channel, Poll, max_buffer, quit, io_wait}

-- An answer of send: how many bytes it took, or -1 with ENOBUFS, with EAGAIN and its kin, with any
-- other errno. After EAGAIN the source tries recv once, whose bytes these are (none of them when it has
-- none), and polls if it got none.
pub data Send : Type 0 where
  taken : ℕ → Send
  no_buffers : Send
  would_block : Bytes → (ℕ → Poll) → Send
  broken : Send

-- The fields of `memcached_server_st` and of its `memcached_st` that writing uses, with the answers
-- to come and the bytes that send has taken. The connection is not UDP and there are no callbacks.
pub record Link : Type 0 where
  pub channel : Channel
  pub write_buffer : Bytes
  pub write_buffer_offset : ℕ
  pub response_count : ℕ
  pub io_msg_watermark : ℕ
  pub io_bytes_watermark : ℕ
  pub is_purging : Bool
  pub multi_store : Bool
  pub answers : List Send
  pub sent : Bytes

-- The test of `memcached_purge` for which it returns at once.
unfoldable pub no_purge : Link → Bool
no_purge ptr =
    ptr.is_purging
    || (ptr.multi_store
        || ((ltb ptr.response_count ptr.io_msg_watermark
              && ltb ptr.channel.io_bytes_sent ptr.io_bytes_watermark)
            || (leb ptr.io_bytes_watermark ptr.channel.io_bytes_sent && ltb ptr.response_count 2)))

-- `memcached_quit_server(ptr, true)`
unfoldable pub quit_link : Link → Link
unfolding quit
quit_link ptr = record ptr {
  channel = quit ptr.channel;
  write_buffer_offset = 0;
  response_count = 0;
}

-- The data moved to the start of the read buffer.
unfoldable pub repacked : Channel → Channel
repacked c = if c.read_ptr == 0 then c else record c {
  read_buffer =
      take c.read_buffer_length (drop c.read_ptr c.read_buffer)
      ++ drop c.read_buffer_length c.read_buffer;
  read_ptr = 0;
  read_data_length = c.read_buffer_length;
}

-- `repack_input_buffer`, with what recv has: the result says whether it got bytes.
unfoldable pub repack_input_buffer : Bytes → Channel → Bool × Channel
unfolding repacked
repack_input_buffer [] c = (false, repacked c)
repack_input_buffer (b ∷ chunk) c =
    let c' = repacked c in
    if c'.read_buffer_length == max_buffer then (false, c') else (
      true,
      record c' {
        read_buffer =
            take c'.read_data_length c'.read_buffer
            ++ ((b ∷ chunk) ++ drop (c'.read_data_length + length (b ∷ chunk)) c'.read_buffer);
        read_data_length = c'.read_data_length + length (b ∷ chunk);
        read_buffer_length = c'.read_buffer_length + length (b ∷ chunk);
      },
    )

-- What a send that took bytes leaves.
unfoldable pub took : ℕ → Bytes → List Send → Link → Link
took n rest more ptr = record ptr {
  sent = ptr.sent ++ take n rest;
  answers = more;
  channel = record (ptr.channel) { io_bytes_sent = (ptr.channel.io_bytes_sent + n) % 2 ^ 32 };
}

-- `while (write_length)` of `io_flush`, along the answers of send, with what is left to be sent;
-- `false` is the result -1.
unfoldable pub flush_loop : List Send → Bytes → Link → Option (Bool × Link)
unfolding quit_link took
flush_loop [] [] ptr = some (true, ptr)
flush_loop (a ∷ more) [] ptr = some (true, ptr)
flush_loop [] (b ∷ rest) ptr = none
flush_loop (Send.taken n ∷ more) (b ∷ rest) ptr =
    flush_loop more (drop n (b ∷ rest)) (took n (b ∷ rest) more ptr)
flush_loop (Send.no_buffers ∷ more) (b ∷ rest) ptr =
    flush_loop more (b ∷ rest) (record ptr { answers = more })
flush_loop (Send.would_block chunk polls ∷ more) (b ∷ rest) ptr =
    let (got, c) = repack_input_buffer chunk ptr.channel in
    let (rc, c') = io_wait polls c in
    let again = flush_loop more (b ∷ rest) (record ptr { channel = c; answers = more }) in
    let waited = flush_loop more (b ∷ rest) (record ptr { channel = c'; answers = more }) in
    if got
    then again
    else if no_purge (record ptr { channel = c })
    then (if memcached_success rc
        then waited
        else some (false, quit_link (record ptr { channel = c'; answers = more })))
    else none
flush_loop (Send.broken ∷ more) (b ∷ rest) ptr =
    some (false, quit_link (record ptr { answers = more }))

-- What follows a call that did not fail.
abbrev pub and_then : Option (Bool × Link) → (Link → Option (Bool × Link)) → Option (Bool × Link)
and_then none f = none
and_then (some (false, ptr)) f = some (false, ptr)
and_then (some (true, ptr)) f = f ptr

-- `io_flush`
unfoldable pub io_flush : Link → Option (Bool × Link)
unfolding flush_loop
io_flush ptr =
    if no_purge ptr
    then (if ptr.write_buffer_offset == 0
        then some (true, ptr)
        else and_then (flush_loop ptr.answers (take ptr.write_buffer_offset ptr.write_buffer) ptr)
            λ ptr'. some (true, record ptr' { write_buffer_offset = 0 }))
    else none

-- `memcpy` behind what the write buffer holds
unfoldable pub stored : Bytes → Link → Link
stored bytes ptr = record ptr {
  write_buffer =
      take ptr.write_buffer_offset ptr.write_buffer
      ++ (bytes ++ drop (ptr.write_buffer_offset + length bytes) ptr.write_buffer);
  write_buffer_offset = ptr.write_buffer_offset + length bytes;
}

-- How much of `n` bytes fits behind what the write buffer holds.
unfoldable pub should_write : ℕ → Link → ℕ
should_write n ptr =
    let room = max_buffer - ptr.write_buffer_offset in if ltb room n then room else n

-- `while (length)` of `_io_write`. Each round takes a byte at least, so as many rounds as there are
-- bytes are enough.
unfoldable pub write_loop : ℕ → Bytes → Link → Option (Bool × Link)
write_loop fuel [] ptr = some (true, ptr)
write_loop zero (b ∷ buffer) ptr = none
write_loop (suc fuel) (b ∷ buffer) ptr =
    let n = should_write (length (b ∷ buffer)) ptr in
    let ptr' = stored (take n (b ∷ buffer)) ptr in
    let more = write_loop fuel (drop n (b ∷ buffer)) ptr' in
    if ptr'.write_buffer_offset == max_buffer
    then and_then (io_flush ptr') (λ ptr''. write_loop fuel (drop n (b ∷ buffer)) ptr'')
    else more

-- `_io_write` and `memcached_io_write`
unfoldable pub io_write : Bytes → Bool → Link → Option (Bool × Link)
unfolding write_loop
io_write buffer with_flush ptr =
    and_then (write_loop (length buffer) buffer ptr)
      λ ptr'. if with_flush then io_flush ptr' else some (true, ptr')

-- `memcached_io_writev`
unfoldable pub io_writev : List Bytes → Bool → Link → Option (Bool × Link)
io_writev [] with_flush ptr = if with_flush then io_write [] true ptr else some (true, ptr)
io_writev (buffer ∷ vector) with_flush ptr =
    and_then (io_write buffer false ptr) (io_writev vector with_flush)
