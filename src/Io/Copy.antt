-- ===== src/Io/Copy.antt =====
-- What one look into the buffer copies into a line.
use arcus_c_client.Prelude.{
  ℕ, zero, suc, ◌-◌, ◌≤◌, ◌≡◌, refl, true, false, min, [], ◌∷◌, ◌++◌, length, take, arith,
}
use native.Mathlib.Nat.{sub-zero}
use arcus_c_client.Text.{Bytes}
use arcus_c_client.Io.Line.{copy_line}

-- A newline within the first part ends the copy there.
pub copy_line-append_done :
    (room : ℕ) (a b : Bytes)
    → (copy_line room a).1 ≡ true
    → copy_line room (a ++ b) ≡ copy_line room a
unfolding copy_line
copy_line-append_done zero a b h = cc h
copy_line-append_done (suc room) [] b h = cc h
copy_line-append_done (suc room) (x ∷ a) b h = ground (arith, copy_line-append_done room a b)

-- Else it goes on in the second.
pub copy_line-append_more :
    (room : ℕ) (a b : Bytes)
    → (copy_line room a).1 ≡ false
    → copy_line room (a ++ b) ≡ (
      (copy_line room a).0 ++ (copy_line (room - length (copy_line room a).0) b).0,
      (copy_line (room - length (copy_line room a).0) b).1,
    )
unfolding copy_line
copy_line-append_more zero a b h = refl
copy_line-append_more (suc room) [] b h = rw sub-zero refl
copy_line-append_more (suc room) (x ∷ a) b h = ground (arith, copy_line-append_more room a b)

pub length-copy_line :
    (room : ℕ) (held : Bytes)
    → (copy_line room held).1 ≡ false
    → length (copy_line room held).0 ≡ min room (length held)
unfolding copy_line
length-copy_line zero held h = omega arith
length-copy_line (suc room) [] h = omega arith
length-copy_line (suc room) (x ∷ held) h = ground (arith, length-copy_line room held)

pub copy_line_le :
    (room : ℕ) (held : Bytes)
    → (length (copy_line room held).0 ≤ room) × (length (copy_line room held).0 ≤ length held)
unfolding copy_line
copy_line_le zero held = omega arith
copy_line_le (suc room) [] = omega arith
copy_line_le (suc room) (x ∷ held) = ground (arith, copy_line_le room held)

-- What is copied is a beginning of what is held.
pub take-copy_line :
    (room : ℕ) (held : Bytes) → (copy_line room held).0 ≡ take (length (copy_line room held).0) held
unfolding copy_line
take-copy_line zero held = refl
take-copy_line (suc room) [] = refl
take-copy_line (suc room) (x ∷ held) = ground (arith, take-copy_line room held)
