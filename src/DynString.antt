-- ===== src/DynString.antt =====
-- The growing strings of libmemcached/string.cc.
pub mod Growth
pub mod Append
use arcus_c_client.Prelude.{
  ℕ, zero, suc, ◌+◌, ◌-◌, ◌*◌, ◌/◌, ◌%◌, ◌^◌, Bool, true, false, ◌&&◌, ◌||◌, not, Option, none,
  some, List, [], ◌∷◌, ◌++◌, ltb, leb, ◌==◌, if◌then◌else◌, length, take, drop,
}
use arcus_c_client.ReturnCode.{ReturnCode, success, memory_allocation_failure}
use arcus_c_client.Outcome.{memcached_failed, memcached_success}
use arcus_c_client.Text.{Bytes}

abbrev pub block_size : ℕ
block_size = 1024

-- `memcached_string_st`: its memory, the offset of `end` in it, and its size; NULL is no memory.
pub record DynString : Type 0 where
  pub string : Bytes
  pub end : ℕ
  pub current_size : ℕ

-- The new size that `_string_check` asks for: a `size_t`.
unfoldable pub new_size : DynString → ℕ → ℕ
new_size s need =
    (((need - (s.current_size - s.end)) / block_size + 1) * block_size + s.current_size) % 2 ^ 64

-- `_string_check`; `realloc` of memory of one size to another gives what it is extended by, when it
-- succeeds.
unfoldable pub string_check : (ℕ → ℕ → Option Bytes) → DynString → ℕ → ReturnCode × DynString
unfolding new_size
string_check realloc s need =
    if not (need == 0) && ltb (s.current_size - s.end) need
    then (if ltb (new_size s need) need
        then (memory_allocation_failure, s)
        else elim (realloc s.current_size (new_size s need)) [
          | none ↦ (memory_allocation_failure, s)
          | some more ↦
              (success, record s { string = s.string ++ more; current_size = new_size s need })
        ])
    else (success, s)

-- `memcpy` to an offset; `none` is a write outside of the memory.
unfoldable pub memcpy : Bytes → ℕ → Bytes → Option Bytes
memcpy memory at_offset value =
    if leb (at_offset + length value) (length memory)
    then some (take at_offset memory ++ (value ++ drop (at_offset + length value) memory))
    else none

-- What follows the check for room: a value is written to `end`.
unfoldable pub append_checked : ReturnCode × DynString → Bytes → Option (ReturnCode × DynString)
unfolding memcpy memcached_failed
append_checked (rc, s) value =
    if memcached_failed rc
    then some (memory_allocation_failure, s)
    else elim (memcpy s.string s.end value) [
      | none ↦ none
      | some memory ↦ some (success, record s { string = memory; end = s.end + length value })
    ]

-- `memcached_string_append`
unfoldable pub string_append :
    (ℕ → ℕ → Option Bytes) → DynString → Bytes → Option (ReturnCode × DynString)
unfolding string_check append_checked
string_append realloc s value = append_checked (string_check realloc s (length value)) value

-- `memcached_string_append_character`
unfoldable pub string_append_character :
    (ℕ → ℕ → Option Bytes) → DynString → ℕ → Option (ReturnCode × DynString)
unfolding string_check append_checked
string_append_character realloc s character =
    append_checked (string_check realloc s 1) (character ∷ [])

-- The text of a string: what stands before `end`.
abbrev pub contents : DynString → Bytes
contents s = take s.end s.string

-- `memcached_string_reset`
unfoldable pub string_reset : DynString → DynString
string_reset s = record s { end = 0 }

-- `memcached_string_append_null`: `end` stays before the NUL.
unfoldable pub string_append_null :
    (ℕ → ℕ → Option Bytes) → DynString → Option (ReturnCode × DynString)
unfolding string_check memcpy memcached_failed
string_append_null realloc s =
    let r = string_check realloc s 1 in
    if memcached_failed r.0
    then some (memory_allocation_failure, r.1)
    else elim (memcpy r.1.string r.1.end (0 ∷ [])) [
      | none ↦ none
      | some memory ↦ some (success, record r.1 { string = memory })
    ]

-- `memcached_string_c_copy`; NULL is `none`, and `allocated` is whether there is memory for the copy.
unfoldable pub string_c_copy : Bool → DynString → Option Bytes
string_c_copy allocated s = if s.end == 0 || not allocated then none else some (contents s)

abbrev empty_string : DynString
empty_string = record { string = []; end = 0; current_size = 0 }

-- `memcached_string_take_value`: the memory that the caller gets, and the string that is left
unfoldable pub string_take_value :
    (ℕ → ℕ → Option Bytes) → Bool → DynString → Option (Option Bytes × DynString)
unfolding string_append_null string_c_copy memcached_success
string_take_value realloc allocated s = elim (string_append_null realloc s) [
  | none ↦ none
  | some r ↦
      if memcached_success r.0
      then some (string_c_copy allocated r.1, r.1)
      else some (some r.1.string, empty_string)
]
