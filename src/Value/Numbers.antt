-- ===== src/Value/Numbers.antt =====
-- Numbers in decimal, printed and read.
use arcus_c_client.Prelude.{
  ℕ, zero, suc, ◌+◌, ◌-◌, ◌*◌, ◌/◌, ◌%◌, ◌^◌, ◌<◌, ◌≡◌, refl, ap, ◌∙◌, true, false, Bool-cases, All,
  inl, inr, [], ◌∷◌, ◌++◌, ltb, arith,
}
use native.Mathlib.Numerals.{unary_clauses}
use arcus_c_client.Text.{Bytes, digits_onto, print_unsigned}
use arcus_c_client.Response.{is_space, is_digit, starts_digit}
use arcus_c_client.Value.{digits_value, skip_spaces, skip_sign, is_negative, strtoull, ullong_max}

digits_value-digit :
    (acc n : ℕ) (rest : Bytes)
    → digits_value acc ((b'0' + n % 10) ∷ rest) ≡ digits_value (acc * 10 + n % 10) rest
unfolding digits_value
digits_value-digit acc n rest =
    let digit : is_digit (b'0' + n % 10) ≡ true = unfold is_digit in ground arith in
    let value : b'0' + n % 10 - b'0' ≡ n % 10 = omega arith in rw (digit, value) refl

tenth : (fuel n : ℕ) → n < 10 ^ suc fuel → n / 10 < 10 ^ fuel
tenth fuel n h = let wide : n < 10 ^ fuel * 10 = simp unary_clauses at h in omega arith

-- What is read of the digits that are put before a text, with the number that the rest adds to.
pub digits_value-digits_onto :
    (fuel n : ℕ) (rest : Bytes)
    → n < 10 ^ fuel
    → digits_value 0 (digits_onto fuel n rest) ≡ digits_value n rest
unfolding digits_onto
digits_value-digits_onto zero n rest h = ap (λ k. digits_value k rest) (omega arith)
digits_value-digits_onto (suc fuel) n rest h = elim (Bool-cases (ltb n 10)) [
  | inl e ↦ rw e (digits_value-digit 0 n rest ∙ ap (λ k. digits_value k rest) (ground arith))
  | inr e ↦ rw e (
      digits_value-digits_onto fuel (n / 10) ((b'0' + n % 10) ∷ rest) (tenth fuel n h)
      ∙ digits_value-digit (n / 10) n rest
      ∙ ap (λ k. digits_value k rest) (omega arith))
]

pub digits_value-end :
    (n : ℕ) (rest : Bytes) → starts_digit rest ≡ false → digits_value n rest ≡ (n, rest)
unfolding digits_value starts_digit
digits_value-end n [] h = refl
digits_value-end n (b ∷ rest) h = rw h refl

digits_onto-append :
    (fuel n : ℕ) (a b : Bytes) → digits_onto fuel n a ++ b ≡ digits_onto fuel n (a ++ b)
unfolding digits_onto
digits_onto-append zero n a b = refl
digits_onto-append (suc fuel) n a b = elim (Bool-cases (ltb n 10)) [
  | inl e ↦ rw e refl
  | inr e ↦ rw e (digits_onto-append fuel (n / 10) ((b'0' + n % 10) ∷ a) b)
]

starts_digit-digits_onto :
    (fuel n : ℕ) (rest : Bytes)
    → starts_digit rest ≡ true
    → starts_digit (digits_onto fuel n rest) ≡ true
unfolding digits_onto starts_digit
starts_digit-digits_onto zero n rest h = h
starts_digit-digits_onto (suc fuel) n rest h =
    let digit : is_digit (b'0' + n % 10) ≡ true = unfold is_digit in ground arith in
    elim (Bool-cases (ltb n 10)) [
      | inl e ↦ rw e digit
      | inr e ↦ rw e (starts_digit-digits_onto fuel (n / 10) ((b'0' + n % 10) ∷ rest) digit)
    ]

pub starts_digit-some :
    (fuel n : ℕ) (rest : Bytes) → starts_digit (digits_onto (suc fuel) n rest) ≡ true
unfolding digits_onto starts_digit
starts_digit-some fuel n rest =
    let digit : is_digit (b'0' + n % 10) ≡ true = unfold is_digit in ground arith in
    elim (Bool-cases (ltb n 10)) [
      | inl e ↦ rw e digit
      | inr e ↦ rw e (starts_digit-digits_onto fuel (n / 10) ((b'0' + n % 10) ∷ rest) digit)
    ]

pub print_unsigned-append :
    (n : ℕ) (rest : Bytes) → print_unsigned n ++ rest ≡ digits_onto 20 n rest
unfolding print_unsigned
print_unsigned-append n rest = digits_onto-append 20 n [] rest

-- A property of all digits holds of a number that is printed.
All-digits_onto :
    (P : ℕ → Type 0) (fuel n : ℕ) (rest : Bytes)
    → ((d : ℕ) → d < 10 → P (b'0' + d))
    → All P rest
    → All P (digits_onto fuel n rest)
unfolding digits_onto
All-digits_onto P zero n rest h r = r
All-digits_onto P (suc fuel) n rest h r =
    let digit : P (b'0' + n % 10) = h (n % 10) (omega arith) in
    elim (Bool-cases (ltb n 10)) [
      | inl e ↦ rw e (digit, r)
      | inr e ↦ rw e (All-digits_onto P fuel (n / 10) ((b'0' + n % 10) ∷ rest) h (digit, r))
    ]

pub All-print_unsigned :
    (P : ℕ → Type 0) (n : ℕ) → ((d : ℕ) → d < 10 → P (b'0' + d)) → All P (print_unsigned n)
unfolding print_unsigned
All-print_unsigned P n h = All-digits_onto P 20 n [] h tt

-- A text that begins with a digit begins with neither white space nor a sign.
pub digit_first :
    (text : Bytes)
    → starts_digit text ≡ true
    → (skip_spaces text ≡ text) × (skip_sign text ≡ text) × (is_negative text ≡ false)
unfolding skip_spaces skip_sign is_negative is_digit is_space starts_digit
digit_first [] h = cc h
digit_first (b ∷ text) h = (ground arith, ground arith, ground arith)

-- A number of 64 bits is read as it is printed.
pub strtoull-print_unsigned :
    (n : ℕ) (rest : Bytes)
    → n < 2 ^ 64
    → starts_digit rest ≡ false
    → strtoull (print_unsigned n ++ rest) ≡ (n, rest)
unfolding strtoull
strtoull-print_unsigned n rest h e =
    let printed = digits_onto 20 n rest in
    let digit : starts_digit printed ≡ true = starts_digit-some 19 n rest in
    let (space, sign, positive) = digit_first printed digit in
    let read : digits_value 0 printed ≡ (n, rest) =
      digits_value-digits_onto 20 n rest (omega arith) ∙ digits_value-end n rest e in
    let small : ltb ullong_max n ≡ false = ground arith in
    rw (print_unsigned-append n rest, space, sign, digit, read, positive, small) refl
