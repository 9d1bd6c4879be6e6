-- ===== src/Hex.antt =====
-- Byte arrays in hexadecimal, as keys and flags of collection elements are written:
-- libmemcached/collection.cc.
pub mod Bytewise
pub mod RoundTrip
pub mod Order
use arcus_c_client.Prelude.{
  ℕ, zero, suc, ◌+◌, ◌-◌, ◌*◌, ◌/◌, ◌%◌, ◌^◌, Bool, true, false, ◌&&◌, ◌||◌, not, Option, none,
  some, List, [], ◌∷◌, ◌++◌, Ordering, compare, ltb, leb, ◌==◌, if◌then◌else◌, length, bit_and, min,
  replicate,
}
use arcus_c_client.ReturnCode.{ReturnCode, success, invalid_arguments, memory_allocation_failure}
use arcus_c_client.Text.{Bytes}

abbrev pub max_byte_string_length : ℕ
max_byte_string_length = 63

-- The character of half a byte
abbrev pub hex_char : ℕ → ℕ
hex_char d = if ltb d 10 then d + b'0' else d + (b'A' - 10)

-- `convert_hex_to_str`, for a `str` that is not NULL and has room
unfoldable pub convert_hex_to_str : Bytes → Bytes
convert_hex_to_str [] = []
convert_hex_to_str (b ∷ bin) =
    hex_char (bit_and b 0xF0 / 2 ^ 4) ∷ hex_char (bit_and b 0x0F) ∷ convert_hex_to_str bin

-- The value of a character
unfoldable pub hex_digit : ℕ → Option ℕ
hex_digit c =
    if leb b'0' c && leb c b'9'
    then some (c - b'0')
    else if leb b'A' c && leb c b'F'
    then some (c - b'A' + 10)
    else if leb b'a' c && leb c b'f'
    then some (c - b'a' + 10)
    else none

-- The loop of `convert_str_to_hex`: whether all characters are digits, and the bytes of `bin` as they
-- are left. `none` is an access outside of either array.
unfoldable pub convert_pairs : Bytes → Bytes → Option (Bool × Bytes)
unfolding hex_digit
convert_pairs [] bin = some (true, bin)
convert_pairs (ch1 ∷ []) bin = none
convert_pairs (ch1 ∷ ch2 ∷ str) [] = none
convert_pairs (ch1 ∷ ch2 ∷ str) (b ∷ bin) =
    let later = convert_pairs str bin in
    elim (hex_digit ch1) [
      | none ↦ some (false, b ∷ bin)
      | some high ↦ elim (hex_digit ch2) [
        | none ↦ some (false, high ∷ bin)
        | some low ↦ elim later [
          | none ↦ none
          | some r ↦ some (r.0, (high * 2 ^ 4 % 2 ^ 8 + low) % 2 ^ 8 ∷ r.1)
        ]
      ]
    ]

-- `convert_str_to_hex`; `size` is the length of `bin`
unfoldable pub convert_str_to_hex : Bytes → Bytes → Option (Bool × Bytes)
unfolding convert_pairs
convert_str_to_hex str bin =
    if (length str == 0) || ltb (2 * length bin) (length str) || not (length str % 2 == 0)
    then some (false, bin)
    else convert_pairs str bin

-- `memcached_conv_hex_to_str`: the code, and the string that is written
unfoldable pub conv_hex_to_str : Bytes → ℕ → ReturnCode × Option Bytes
unfolding convert_hex_to_str
conv_hex_to_str hex str_length =
    if leb str_length (length hex * 2)
    then (invalid_arguments, none)
    else (success, some (convert_hex_to_str hex))

-- `memcached_conv_str_to_hex`, told the length `str_length` of the string; `memory` gives the bytes of the array
-- that is allocated, if it is. The second component is the array that `hex` has then.
unfoldable pub conv_str_to_hex : (ℕ → Option Bytes) → Bytes → ℕ → ReturnCode × Option Bytes
unfolding convert_str_to_hex
conv_str_to_hex memory str str_length =
    if ltb max_byte_string_length str_length
    then (invalid_arguments, none)
    else elim (memory (str_length / 2)) [
      | none ↦ (memory_allocation_failure, none)
      | some array ↦
          (success, elim (convert_str_to_hex str array) [ none ↦ none | some r ↦ some r.1 ])
    ]

-- The loop of the comparison: the first difference within `rounds` bytes.
unfoldable pub first_difference : ℕ → Bytes → Bytes → Option Ordering
first_difference zero a b = none
first_difference (suc rounds) [] b = none
first_difference (suc rounds) (x ∷ a) [] = none
first_difference (suc rounds) (x ∷ a) (y ∷ b) =
    let later = first_difference rounds a b in
    if x == y then later else if ltb x y then some Ordering.lt else some Ordering.gt

-- `memcached_compare_two_hexadecimal` of two arrays that are not NULL
unfoldable pub compare_two_hexadecimal : Bytes → Bytes → Ordering
unfolding first_difference
compare_two_hexadecimal lhs rhs = elim (first_difference (min (length lhs) (length rhs)) lhs rhs) [
  | some o ↦ o
  | none ↦
      if length lhs == length rhs
      then Ordering.eq
      else if ltb (length lhs) (length rhs)
      then Ordering.lt
      else Ordering.gt
]
