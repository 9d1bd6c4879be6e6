-- ===== src/Text.antt =====
-- C strings as their bytes before the NUL, with the functions of the C library that the source uses.
use arcus_c_client.Prelude.{
  ℕ, zero, suc, ◌+◌, ◌/◌, ◌%◌, ◌≡◌, refl, Bool, true, false, List, [], ◌∷◌, Ordering, compare, ltb,
  if◌then◌else◌, arith,
}
use Prim.Native.Char.{code}
use Prim.Native.String.{String}

abbrev pub Bytes : Type 0
Bytes = List ℕ

-- The bytes of an ASCII literal.
abbrev pub codes : String → Bytes
codes String.[] = []
codes (String.◌∷◌ c s) = code c ∷ codes s

-- The sign of `strcmp`; bytes are compared as `unsigned char`.
unfoldable pub strcmp : Bytes → Bytes → Ordering
strcmp [] [] = Ordering.eq
strcmp [] (y ∷ b) = Ordering.lt
strcmp (x ∷ a) [] = Ordering.gt
strcmp (x ∷ a) (y ∷ b) = elim (compare x y) [
  | Ordering.lt ↦ Ordering.lt
  | Ordering.eq ↦ strcmp a b
  | Ordering.gt ↦ Ordering.gt
]

-- `strcmp(a, b) == 0`
unfoldable pub str_eq : Bytes → Bytes → Bool
unfolding strcmp
str_eq a b = elim (strcmp a b) [ Ordering.eq ↦ true | _ ↦ false ]

pub str_eq_refl : (a : Bytes) → str_eq a a ≡ true
unfolding str_eq
str_eq_refl [] = refl
str_eq_refl (x ∷ a) = ground (arith, str_eq_refl a)

pub str_eq→eq : (a b : Bytes) → str_eq a b ≡ true → a ≡ b
unfolding str_eq
str_eq→eq [] [] h = refl
str_eq→eq [] (y ∷ b) h = cc
str_eq→eq (x ∷ a) [] h = cc
str_eq→eq (x ∷ a) (y ∷ b) h = ground (arith, str_eq→eq a b)

-- `%u`: the decimal digits of a number, by repeated division. 20 digits hold any 64-bit number.
unfoldable pub digits_onto : ℕ → ℕ → Bytes → Bytes
digits_onto zero n rest = rest
digits_onto (suc fuel) n rest =
    let digit = b'0' + n % 10 in
    let more = digits_onto fuel (n / 10) (digit ∷ rest) in if ltb n 10 then digit ∷ rest else more

unfoldable pub print_unsigned : ℕ → Bytes
unfolding digits_onto
print_unsigned n = digits_onto 20 n []
