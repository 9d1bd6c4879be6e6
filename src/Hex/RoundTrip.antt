-- ===== src/Hex/RoundTrip.antt =====
-- A byte array that is printed in hexadecimal is read back.
use arcus_c_client.Prelude.{
  ℕ, ◌+◌, ◌*◌, ◌/◌, ◌%◌, ◌^◌, ◌≤◌, ◌<◌, ◌≡◌, refl, ap, true, false, none, some, [], ◌∷◌, All, arith,
  ltb, leb, ◌==◌, if◌then◌else◌, bit_and, length,
}
use arcus_c_client.ReturnCode.{success}
use arcus_c_client.Text.{Bytes}
use arcus_c_client.Hex.{
  hex_char, hex_digit, convert_hex_to_str, convert_pairs, convert_str_to_hex, conv_hex_to_str,
  conv_str_to_hex,
}
use arcus_c_client.Hex.Bytewise.{high_bits, low_bits, hex_digit-hex_char}
use arcus_c_client.Hex.Order.{IsByte}

pub length-convert_hex_to_str : (a : Bytes) → length (convert_hex_to_str a) ≡ 2 * length a
unfolding convert_hex_to_str
length-convert_hex_to_str [] = omega arith
length-convert_hex_to_str (b ∷ a) = omega (arith, length-convert_hex_to_str a)

convert_pairs-convert_hex_to_str :
    (a bin : Bytes)
    → All IsByte a
    → length bin ≡ length a
    → convert_pairs (convert_hex_to_str a) bin ≡ some (true, a)
unfolding convert_pairs convert_hex_to_str
convert_pairs-convert_hex_to_str [] [] h l = refl
convert_pairs-convert_hex_to_str [] (x ∷ bin) h l = absurd (omega arith)
convert_pairs-convert_hex_to_str (b ∷ a) [] h l = absurd (omega arith)
convert_pairs-convert_hex_to_str (b ∷ a) (x ∷ bin) h l =
    let high : hex_digit (hex_char (bit_and b 0xF0 / 2 ^ 4)) ≡ some (b / 16) =
      rw (high_bits b h.0) (hex_digit-hex_char (b / 16) (omega (arith, h.0))) in
    let low : hex_digit (hex_char (bit_and b 0x0F)) ≡ some (b % 16) =
      rw (low_bits b h.0) (hex_digit-hex_char (b % 16) (omega arith)) in
    let whole : (b / 16 * 2 ^ 4 % 2 ^ 8 + b % 16) % 2 ^ 8 ≡ b = omega (arith, h.0) in
    rw (convert_pairs, high, low, convert_pairs-convert_hex_to_str a bin h.1 (omega arith))
      (ap (λ x. some (true, x ∷ a)) whole)

convert_str_to_hex-convert_hex_to_str :
    (a bin : Bytes)
    → All IsByte a
    → length bin ≡ length a
    → 0 < length a
    → convert_str_to_hex (convert_hex_to_str a) bin ≡ some (true, a)
unfolding convert_str_to_hex
convert_str_to_hex-convert_hex_to_str a bin h l pos =
    let n = length-convert_hex_to_str a in
    let some_text : (length (convert_hex_to_str a) == 0) ≡ false = ground arith in
    let fits : ltb (2 * length bin) (length (convert_hex_to_str a)) ≡ false = ground arith in
    let even : (length (convert_hex_to_str a) % 2 == 0) ≡ true = ground arith in
    rw (some_text, fits, even) (convert_pairs-convert_hex_to_str a bin h l)

-- A byte array of 1 to 31 bytes is printed into any buffer of 63 bytes or more, and what is printed is
-- read back as the same array, if the array for it is allocated.
pub conv_str_to_hex-conv_hex_to_str :
    (a memory : Bytes) (str_length : ℕ)
    → All IsByte a
    → 0 < length a
    → length a ≤ 31
    → 63 ≤ str_length
    → length memory ≡ length a
    → (str : Bytes) × (conv_hex_to_str a str_length ≡ (success, some str))
      × (conv_str_to_hex (λ n. if n == length a then some memory else none) str (length str)
          ≡ (success, some a))
unfolding conv_hex_to_str conv_str_to_hex
conv_str_to_hex-conv_hex_to_str a memory str_length h pos few room l =
    let n = length-convert_hex_to_str a in
    let enough : leb str_length (length a * 2) ≡ false = ground arith in
    let short : ltb 63 (length (convert_hex_to_str a)) ≡ false = ground arith in
    let half : (length (convert_hex_to_str a) / 2 == length a) ≡ true = ground arith in
    (
      convert_hex_to_str a,
      rw enough refl,
      rw (short, half, convert_str_to_hex-convert_hex_to_str a memory h l pos) refl,
    )
