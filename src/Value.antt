-- ===== src/Value.antt =====
-- The reading of a value of the text protocol: `textual_value_fetch` of libmemcached/response.cc.
pub mod Numbers
pub mod Fields
pub mod Fetch
pub mod Overflow
use arcus_c_client.Prelude.{
  ℕ, zero, suc, ◌+◌, ◌-◌, ◌*◌, ◌%◌, ◌^◌, ◌==◌, Bool, true, false, not, ◌&&◌, ◌||◌, Option, none,
  some, List, [], ◌∷◌, ◌++◌, ltb, leb, length, set, take, drop, min, if◌then◌else◌,
}
use arcus_c_client.ReturnCode.{
  ReturnCode, success, partial_read, not_supported, memory_allocation_failure,
}
use arcus_c_client.Outcome.{memcached_failed, memcached_continue}
use arcus_c_client.Text.{Bytes, codes}
use arcus_c_client.DynString.{DynString, string_check, string_reset, memcpy}
use arcus_c_client.Io.{Channel, quit, io_read}
use arcus_c_client.Response.{is_space, is_digit, starts_digit}

abbrev pub max_key : ℕ
max_key = 4001

-- `strtoull(text, &end, 10)` and `strtoul` on a machine of 64 bits: the number, and the text from
-- `end` on.
unfoldable pub digits_value : ℕ → Bytes → ℕ × Bytes
unfolding is_digit
digits_value acc [] = (acc, [])
digits_value acc (b ∷ text) =
    if is_digit b then digits_value (acc * 10 + (b - b'0')) text else (acc, b ∷ text)

unfoldable pub skip_spaces : Bytes → Bytes
unfolding is_space
skip_spaces [] = []
skip_spaces (b ∷ text) = if is_space b then skip_spaces text else b ∷ text

abbrev pub ullong_max : ℕ
ullong_max = 2 ^ 64 - 1

unfoldable pub skip_sign : Bytes → Bytes
skip_sign [] = []
skip_sign (b ∷ text) = if b == b'-' || b == b'+' then text else b ∷ text

unfoldable pub is_negative : Bytes → Bool
is_negative [] = false
is_negative (b ∷ text) = b == b'-'

-- Without digits nothing is read. A number that is too large is the largest one, whatever its sign.
unfoldable pub strtoull : Bytes → ℕ × Bytes
unfolding digits_value skip_spaces skip_sign is_negative starts_digit
strtoull text =
    let digits = skip_sign (skip_spaces text) in
    let (v, end) = digits_value 0 digits in
    if not (starts_digit digits)
    then (0, text)
    else if ltb ullong_max v
    then (ullong_max, end)
    else if is_negative (skip_spaces text)
    then ((2 ^ 64 - v) % 2 ^ 64, end)
    else (v, end)

-- `iscntrl`, in the C locale
unfoldable pub is_control : ℕ → Bool
is_control b = ltb b 32 || b == 127

-- `while (!iscntrl(*string_ptr) && !isspace(*string_ptr))`: the key and what follows it.
unfoldable pub key_loop : Bytes → Bytes × Bytes
unfolding is_control is_space
key_loop [] = ([], [])
key_loop (b ∷ text) =
    let (key, rest) = key_loop text in
    if is_control b || is_space b then ([], b ∷ text) else (b ∷ key, rest)

-- A key that is too long loses its end.
unfoldable pub stored_key : Bytes → Bytes
stored_key key = if ltb (length key) max_key then key else take (max_key - 4) key ++ codes "..."

pub record Header : Type 0 where
  pub item_key : Bytes
  pub item_flags : ℕ
  pub value_length : ℕ
  pub item_cas : ℕ

-- `string_ptr++`, with the tests for the end of the buffer around it; `none` is the jump to
-- `read_error`.
unfoldable pub next_field : Bytes → Option Bytes
next_field [] = none
next_field (b ∷ []) = none
next_field (b ∷ c ∷ text) = some (c ∷ text)

-- What follows the length: the end of the line, or a number for `cas` after one more byte. A line
-- that ends with the buffer is a read error.
unfoldable pub cas_field : Bytes → Option ℕ
unfolding strtoull
cas_field [] = none
cas_field (b ∷ []) = if b == b'\r' then none else some (strtoull []).0
cas_field (b ∷ c ∷ text) = if b == b'\r' then some 0 else some (strtoull (c ∷ text)).0

infixl 5 ◌>>=◌
abbrev ◌>>=◌ {ℓ κ} : {A : Type ℓ} {B : Type κ} → Option A → (A → Option B) → Option B
none >>= f = none
some a >>= f = f a

-- The line, from its beginning to the end of the buffer, for a namespace of so many bytes. The loops
-- on isdigit only move `string_ptr`, which strtoul then sets.
unfoldable pub value_header : ℕ → Bytes → Option Header
unfolding key_loop stored_key next_field strtoull cas_field
value_header namespace_length buffer = do
  let (key, after_key) = key_loop (drop namespace_length (drop 6 buffer))
  flags_text ← next_field after_key
  let (flags, after_flags) = strtoull flags_text
  length_text ← next_field after_flags
  let (value_length, after_length) = strtoull length_text
  cas ← cas_field after_length
  some (record {
    item_key = stored_key key;
    item_flags = flags % 2 ^ 32;
    value_length = value_length;
    item_cas = cas;
  })

-- `memcached_result_st`, in the fields that are set here.
pub record Item : Type 0 where
  pub item_key : Bytes
  pub item_flags : ℕ
  pub item_cas : ℕ
  pub value : DynString

-- The value with its end of line is in memory: two NULs over the end of the line, and the length.
unfoldable pub end_value : ℕ → Bytes → DynString → Option DynString
end_value value_length memory s =
    if ltb (value_length + 1) (length memory)
    then some (record s {
      string = set (set memory value_length 0) (value_length + 1) 0;
      end = value_length;
    })
    else none

-- The length as it was sent, and room for it and the two bytes after it, a `size_t`.
unfoldable pub to_read : ℕ → ℕ
to_read value_length = (value_length + 2) % 2 ^ 64

-- From the check for room on. `none` is a write outside of the memory, or a read that is blocked.
unfoldable pub read_value :
    Header → ReturnCode × DynString → Channel → Option (ReturnCode × Option Item × Channel)
unfolding end_value to_read memcpy memcached_failed memcached_continue quit
read_value h (rc, s) channel =
    if memcached_failed rc
    then some (memory_allocation_failure, none, channel)
    else elim (io_read (to_read h.value_length) channel) [
      | none ↦ none
      | some r ↦
          if memcached_failed r.code
          then some (r.code, none, if memcached_continue r.code then quit r.channel else r.channel)
          else (memcpy s.string 0 r.stored >>= λ memory.
              end_value h.value_length memory s >>= λ value. some (
                success,
                some (record {
                  item_key = h.item_key;
                  item_flags = h.item_flags;
                  item_cas = h.item_cas;
                  value = value;
                }),
                r.channel,
              ))
    ]

-- `textual_value_fetch`: the code, the result if it succeeds, and the connection.
unfoldable pub value_fetch :
    (ℕ → ℕ → Option Bytes)
    → Bool
    → ℕ
    → Bytes
    → DynString
    → Channel
    → Option (ReturnCode × Option Item × Channel)
unfolding value_header read_value string_reset string_check
value_fetch realloc use_udp namespace_length buffer value channel =
    if use_udp
    then some (not_supported, none, channel)
    else elim (value_header namespace_length buffer) [
      | none ↦ some (partial_read, none, channel)
      | some h ↦
          read_value h (string_check realloc (string_reset value) (to_read h.value_length)) channel
    ]
