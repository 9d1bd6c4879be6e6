-- ===== src/Response.antt =====
-- The first line of a response of the text protocol, of libmemcached/response.cc. The buffer holds the
-- line with its newline, `total_read` bytes, and after it what it held before.
pub mod Table
pub mod Local
pub mod Lines
pub mod Peer
use arcus_c_client.Prelude.{
  ℕ, zero, suc, ◌+◌, ◌-◌, ◌==◌, Bool, true, false, not, ◌&&◌, ◌||◌, Option, none, some, List, [],
  ◌∷◌, ltb, leb, length, take, drop, set, ◌++◌, if◌then◌else◌,
}
use arcus_c_client.ReturnCode.{ReturnCode}
use arcus_c_client.Text.{Bytes, codes}
use arcus_c_client.Server.{Server}

-- `memcmp(buffer, literal, length) == 0`
unfoldable pub starts : Bytes → Bytes → Bool
starts [] buffer = true
starts (x ∷ literal) [] = false
starts (x ∷ literal) (y ∷ buffer) = y == x && starts literal buffer

-- What a line is answered by: a code; a code after memcached_server_response_increment; a code
-- that memcached_set_error notes with a message; the reading of a value or a challenge, with the whole
-- buffer, or of a version, with the buffer from behind its first space on, NULL without one; success with
-- the list of mechanisms that is left in the buffer; a code after textual_switchover_peer_check, with the name
-- that it finds.
pub data Action : Type 0 where
  code : ReturnCode → Action
  counted : ReturnCode → Action
  message : ReturnCode → Bytes → Action
  value_fetch : Bytes → Action
  version_fetch : Option Bytes → Action
  sasl_mech : Option Bytes → Action
  sasl_continue_fetch : Bytes → Action
  peer : ReturnCode → Option Bytes → Action

abbrev pub undefined : Action
undefined = Action.code ReturnCode.undefined_response

-- `while (*endptr != '\r' && *endptr != '\n') endptr++`: the text before the end of the line.
unfoldable pub until_eol : Bytes → Bytes
until_eol [] = []
until_eol (b ∷ text) = if b == b'\r' || b == b'\n' then [] else b ∷ until_eol text

-- The name of a peer: what follows a space, up to the end of the line.
unfoldable pub peer_name : Bytes → Option Bytes
unfolding until_eol
peer_name [] = none
peer_name (b ∷ text) = if b == b' ' then some (until_eol text) else none

-- `if (startptr[0] == ' ') startptr++`
unfoldable pub skip_space : Bytes → Bytes
skip_space [] = []
skip_space (b ∷ text) = if b == b' ' then text else b ∷ text

-- The message after a word of `n` bytes.
unfoldable pub error_message : ℕ → Bytes → Bytes
unfolding until_eol skip_space
error_message n buffer = until_eol (skip_space (drop n buffer))

unfoldable pub is_space : ℕ → Bool
is_space b = b == b' ' || (leb 9 b && leb b 13)

unfoldable pub is_digit : ℕ → Bool
is_digit b = leb b'0' b && leb b b'9'

unfoldable pub starts_digit : Bytes → Bool
unfolding is_digit
starts_digit [] = false
starts_digit (b ∷ text) = is_digit b

-- `sscanf(buffer, "%llu", ...) == 1`: white space, perhaps a sign, and a digit.
unfoldable pub scans_unsigned : Bytes → Bool
unfolding is_space starts_digit
scans_unsigned [] = false
scans_unsigned (b ∷ text) =
    if is_space b
    then scans_unsigned text
    else if b == b'+' || b == b'-'
    then starts_digit text
    else starts_digit (b ∷ text)

-- `index(buffer, ' ')`, and one past it
unfoldable pub after_space : Bytes → Option Bytes
after_space [] = none
after_space (b ∷ text) = if b == b' ' then some text else after_space text

-- The move of a list of mechanisms to the start of the buffer, and the NUL behind it; `none` is a NUL in
-- front of the buffer, where the unsigned index wraps.
unfoldable pub mechanisms : ℕ → Bytes → Option Bytes
mechanisms total_read buffer =
    let list = take total_read (drop 10 buffer) in
    if ltb total_read 12
    then none
    else some (set (list ++ drop (length list) buffer) (total_read - 10 - 2) 0)

abbrev pub server_too_large : Bytes
server_too_large = codes "SERVER_ERROR object too large for cache"

abbrev pub client_too_large : Bytes
client_too_large = codes "CLIENT_ERROR object too large for cache"

-- The cases of the switch, each with the tests in its order.
abbrev pub line_v : Bytes → Action
line_v buffer =
    if starts (codes "VALUE") buffer
    then Action.value_fetch buffer
    else if starts (codes "VERSION") buffer
    then Action.version_fetch (after_space buffer)
    else undefined

abbrev pub line_o : Bytes → Action
line_o buffer = if starts (codes "OK") buffer then Action.code ReturnCode.success else undefined

abbrev pub line_s : ℕ → Bytes → Action
line_s total_read buffer =
    if starts (codes "STAT") buffer
    then Action.counted ReturnCode.stat
    else if starts (codes "SERVER_ERROR") buffer
    then (if total_read == 12
        then Action.code ReturnCode.server_error
        else if ltb 39 total_read && starts server_too_large buffer
        then Action.code ReturnCode.e2big
        else Action.message ReturnCode.server_error (error_message 12 buffer))
    else if starts (codes "STORED") buffer
    then Action.code ReturnCode.stored
    else if starts (codes "SASL_MECH") buffer
    then Action.sasl_mech (mechanisms total_read buffer)
    else if starts (codes "SASL_CONTINUE") buffer
    then Action.sasl_continue_fetch buffer
    else if starts (codes "SASL_OK") buffer
    then Action.code ReturnCode.success
    else if starts (codes "SWITCHOVER") buffer
    then Action.peer ReturnCode.switchover (peer_name (drop 10 buffer))
    else undefined

abbrev pub line_d : Bytes → Action
line_d buffer =
    if starts (codes "DELETED") buffer then Action.code ReturnCode.deleted else undefined

abbrev pub line_n : Bytes → Action
line_n buffer =
    if starts (codes "NOT_FOUND") buffer
    then Action.code ReturnCode.notfound
    else if starts (codes "NOT_STORED") buffer
    then Action.code ReturnCode.notstored
    else if starts (codes "NOT_SUPPORTED") buffer
    then Action.code ReturnCode.not_supported
    else undefined

abbrev pub line_r : Bytes → Action
line_r buffer =
    if starts (codes "REPL_SLAVE") buffer
    then Action.peer ReturnCode.repl_slave (peer_name (drop 10 buffer))
    else undefined

abbrev pub line_u : Bytes → Action
line_u buffer =
    if starts (codes "UNREADABLE") buffer then Action.code ReturnCode.unreadable else undefined

abbrev pub line_e : Bool → Bytes → Action
line_e in_sasl_mech buffer =
    if starts (codes "END") buffer
    then Action.code ReturnCode.end
    else if starts (codes "ERROR") buffer
    then (if in_sasl_mech
        then Action.code ReturnCode.not_supported
        else Action.message ReturnCode.protocol_error (error_message 5 buffer))
    else if starts (codes "EXISTS") buffer
    then Action.code ReturnCode.data_exists
    else undefined

abbrev pub line_i : Bytes → Action
line_i buffer =
    if starts (codes "ITEM") buffer
    then Action.counted ReturnCode.item
    else if starts (codes "INVALID") buffer
    then Action.message ReturnCode.invalid_command (error_message 7 buffer)
    else undefined

abbrev pub line_t : Bytes → Action
line_t buffer =
    if starts (codes "TYPE_MISMATCH") buffer
    then Action.code ReturnCode.type_mismatch
    else if starts (codes "TOUCHED") buffer
    then Action.code ReturnCode.success
    else undefined

abbrev pub line_c : ℕ → Bytes → Action
line_c total_read buffer =
    if starts (codes "CLIENT_ERROR") buffer
    then (if ltb 39 total_read && starts client_too_large buffer
        then Action.code ReturnCode.e2big
        else Action.message ReturnCode.client_error (error_message 12 buffer))
    else undefined

abbrev pub line_a : Bytes → Action
line_a buffer =
    if starts (codes "AUTH_ERROR") buffer then Action.code ReturnCode.auth_failure else undefined

abbrev pub line_other : Bytes → Action
line_other buffer = if scans_unsigned buffer then Action.code ReturnCode.success else undefined

-- `switch(buffer[0])` of `textual_read_one_response`, after a line was read with success.
unfoldable pub textual_line : Bool → ℕ → Bytes → Action
textual_line in_sasl_mech total_read [] = undefined
textual_line in_sasl_mech total_read (b ∷ text) =
    let buffer : Bytes = b ∷ text in
    if b == b'V'
    then line_v buffer
    else if b == b'O'
    then line_o buffer
    else if b == b'S'
    then line_s total_read buffer
    else if b == b'D'
    then line_d buffer
    else if b == b'N'
    then line_n buffer
    else if b == b'R'
    then line_r buffer
    else if b == b'U'
    then line_u buffer
    else if b == b'E'
    then line_e in_sasl_mech buffer
    else if b == b'I'
    then line_i buffer
    else if b == b'T'
    then line_t buffer
    else if b == b'C'
    then line_c total_read buffer
    else if b == b'A'
    then line_a buffer
    else line_other buffer

abbrev pub peer_size : ℕ
peer_size = 128

-- The rest of `textual_switchover_peer_check`. `none` is the index -1.
unfoldable pub peer_check : Option Bytes → Server → Server
peer_check none s = record s { switchover_sidx = some 1 }
peer_check (some name) s =
    if ltb (length name) peer_size
    then record s { switchover_peer = name; switchover_sidx = none }
    else record s { switchover_peer = take (peer_size - 1) name; switchover_sidx = some 1 }
