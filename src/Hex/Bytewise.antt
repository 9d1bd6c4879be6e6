-- ===== src/Hex/Bytewise.antt =====
-- One byte and its two characters.
use arcus_c_client.Prelude.{
  ℕ, zero, suc, ◌/◌, ◌%◌, ◌^◌, ◌<◌, ◌≡◌, refl, inl, inr, Bool, true, ◌&&◌, some, arith, ◌==◌,
  ==_iff, Bool-cases, bit_and, compare,
}
use arcus_c_client.Hex.{hex_char, hex_digit}

all_below : ℕ → (ℕ → Bool) → Bool
all_below zero p = true
all_below (suc n) p = p n && all_below n p

all_below-get : (n : ℕ) (p : ℕ → Bool) → all_below n p ≡ true → (i : ℕ) → i < n → p i ≡ true
unfolding all_below
all_below-get zero p h i l = absurd (omega arith)
all_below-get (suc n) p h i l =
    let here : p n ≡ true = ground arith in
    let below : all_below n p ≡ true = ground arith in
    elim (Bool-cases (i == n)) [
      | inl e ↦ let same : i ≡ n = ground arith in rw same here
      | inr e ↦ all_below-get n p below i (ground arith)
    ]

pub high_bits : (b : ℕ) → b < 256 → bit_and b 0xF0 / 2 ^ 4 ≡ b / 16
high_bits b h =
    let p : ℕ → Bool = λ b. bit_and b 0xF0 / 2 ^ 4 == b / 16 in
    let all : all_below 256 p ≡ true = unfold all_below in refl in
    (==_iff (bit_and b 0xF0 / 2 ^ 4) (b / 16)).0 (all_below-get 256 p all b h)

pub low_bits : (b : ℕ) → b < 256 → bit_and b 0x0F ≡ b % 16
low_bits b h =
    let p : ℕ → Bool = λ b. bit_and b 0x0F == b % 16 in
    let all : all_below 256 p ≡ true = unfold all_below in refl in
    (==_iff (bit_and b 0x0F) (b % 16)).0 (all_below-get 256 p all b h)

pub hex_digit-hex_char : (d : ℕ) → d < 16 → hex_digit (hex_char d) ≡ some d
unfolding hex_digit
hex_digit-hex_char d h = ground arith

pub compare-hex_char : (c d : ℕ) → c < 16 → d < 16 → compare (hex_char c) (hex_char d) ≡ compare c d
compare-hex_char c d h k = ground arith
