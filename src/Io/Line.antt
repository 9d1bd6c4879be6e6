-- ===== src/Io/Line.antt =====
-- memcached_io_readline, of libmemcached/io.cc.
use arcus_c_client.Prelude.{
  ℕ, zero, suc, ◌+◌, ◌-◌, ◌==◌, Bool, true, false, Option, none, some, [], ◌∷◌, ◌++◌, length, take,
  drop, if◌then◌else◌,
}
use arcus_c_client.ReturnCode.{ReturnCode, success}
use arcus_c_client.ReturnCode.{protocol_error}
use arcus_c_client.Outcome.{memcached_failed, memcached_continue}
use arcus_c_client.Text.{Bytes}
use arcus_c_client.Io.{Channel, quit, io_read}

-- `while (ptr->read_buffer_length && total_nr < size && !line_complete)`: along the bytes that the
-- buffer holds, with the room left. The result: what was copied, and whether a newline ended it.
unfoldable pub copy_line : ℕ → Bytes → Bytes × Bool
copy_line zero held = ([], false)
copy_line (suc room) [] = ([], false)
copy_line (suc room) (b ∷ held) =
    let (line, complete) = copy_line room held in
    if b == b'\n' then (b ∷ [], true) else (b ∷ line, complete)

-- `*buffer_ptr == '\n'`, after a byte was read
unfoldable pub is_newline : Bytes → Bool
is_newline [] = false
is_newline (b ∷ more) = b == b'\n'

-- The end of a round of `memcached_io_readline`: what it copies out of the buffer after `line`,
-- whether the line is complete, and the connection.
unfoldable pub scan_line : ℕ → Bytes → Bool → Channel → Bytes × Bool × Channel
unfolding copy_line
scan_line size line true c = (line, true, c)
scan_line size line false c =
    let (found, complete) =
      copy_line (size - length line) (take c.read_buffer_length (drop c.read_ptr c.read_buffer)) in
    (
      line ++ found,
      complete,
      record c {
        read_ptr = c.read_ptr + length found;
        read_buffer_length = c.read_buffer_length - length found;
      },
    )

-- `while (not line_complete)`. Each round stores a byte at least and `size` bytes end the loop, so
-- `size` rounds are enough for a buffer that is not empty.
unfoldable pub line_loop : ℕ → ℕ → Bytes → Channel → Option (ReturnCode × Bytes × Channel)
line_loop zero size line c = none
line_loop (suc fuel) size line c =
    let go = λ (start : Bytes) (ended : Bool) (c' : Channel).
      let (line', complete, c'') = scan_line size start ended c' in
      let rest = line_loop fuel size line' c'' in
      if length line' == size
      then some (protocol_error, line', c'')
      else if complete
      then some (success, line', c'')
      else rest in
    if c.read_buffer_length == 0
    then elim (io_read 1 c) [
      | none ↦ none
      | some r ↦
          if memcached_failed r.code
          then some (r.code, line, if memcached_continue r.code then quit r.channel else r.channel)
          else go (line ++ r.stored) (is_newline r.stored) r.channel
    ]
    else go line false c

-- `memcached_io_readline`: the return code, the `total_nr` bytes stored, and the connection.
unfoldable pub readline : ℕ → Channel → Option (ReturnCode × Bytes × Channel)
unfolding line_loop
readline size c = line_loop size size [] c
