-- ===== src/Tests/StringTests.antt =====
-- A string of five bytes that has to grow.
use arcus_c_client.Prelude.{
  ℕ, ◌+◌, ◌-◌, ◌<◌, ◌≤◌, ◌^◌, ◌≡◌, refl, ap, inl, inr, Bool-cases, some, none, [], ◌∷◌, ◌++◌,
  Option, true, arith, length, replicate, length-replicate, ltb, if◌then◌else◌,
}
use arcus_c_client.ReturnCode.{ReturnCode}
use arcus_c_client.Outcome.{memcached_failed, memcached_success}
use arcus_c_client.Text.{Bytes, codes}
use arcus_c_client.DynString.{
  DynString, new_size, string_check, memcpy, append_checked, string_append, string_append_null,
  string_c_copy, string_take_value,
}
use arcus_c_client.DynString.Growth.{IsString, IsRealloc, Checked, string_check-Checked}
use arcus_c_client.DynString.Append.{Appended, string_append-Appended}

-- Memory of up to 4000 bytes
abbrev pub realloc : ℕ → ℕ → Option Bytes
realloc old new = if ltb new 4000 then some (replicate (new - old) 0) else none

realloc-exact :
    (old new : ℕ) (more : Bytes) → old ≤ new → realloc old new ≡ some more → old + length more ≡ new
realloc-exact old new more h e = elim (Bool-cases (ltb new 4000)) [
  | inl t ↦
      let kept : some (replicate (new - old) 0) ≡ some more = rw t at e in
      let size : length (replicate (new - old) 0) ≡ length more =
        ap (λ (o : Option Bytes). length (elim o [ none ↦ [] | some m ↦ m ])) kept in
      omega (arith, size, length-replicate {A = ℕ} (new - old) 0)
  | inr f ↦ let lost : none ≡ some more = rw f at e in cc lost
]

realloc-bounded : (old new : ℕ) (more : Bytes) → realloc old new ≡ some more → new < 2 ^ 63
realloc-bounded old new more e = elim (Bool-cases (ltb new 4000)) [
  | inl t ↦ ground arith
  | inr f ↦ let lost : none ≡ some more = rw f at e in cc lost
]

pub realloc-IsRealloc : IsRealloc realloc
realloc-IsRealloc = record { exact = realloc-exact; bounded = realloc-bounded }

abbrev pub small : DynString
small = record { string = codes "abcde"; end = 5; current_size = 5 }

pub small-IsString : IsString small
small-IsString = record { sized = refl; inside = omega arith; small = omega arith }

program : Unit {0}
unfolding new_size string_check memcpy append_checked string_append string_append_null string_c_copy
    string_take_value memcached_failed memcached_success
program = tt

-- The value is copied, and the string keeps its memory, though appending the NUL has not failed.
take_copies :
    string_take_value realloc true (record { string = codes "abcde"; end = 3; current_size = 5 })
    ≡ some (
      some (codes "abc"),
      record { string = codes "abc" ++ (0 ∷ b'e' ∷ []); end = 3; current_size = 5 },
    )
unfolding program
take_copies = refl

string_append-Appended_example :
    (r : ReturnCode × DynString) × (string_append realloc small (codes "fgh") ≡ some r)
    × Appended small (codes "fgh") r
string_append-Appended_example =
    string_append-Appended realloc small (codes "fgh") realloc-IsRealloc small-IsString
      (omega arith)

string_check-Checked_example : Checked small 3 (string_check realloc small 3)
string_check-Checked_example =
    string_check-Checked realloc small 3 realloc-IsRealloc small-IsString (omega arith)
