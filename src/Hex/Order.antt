-- ===== src/Hex/Order.antt =====
-- The order of byte arrays is that of their texts.
use arcus_c_client.Prelude.{
  ℕ, suc, ◌/◌, ◌%◌, ◌<◌, ◌≡◌, refl, sym, ap, ◌∙◌, [], ◌∷◌, All, arith, compare, Ordering, length,
  min,
}
use arcus_c_client.Text.{Bytes, strcmp}
use arcus_c_client.Hex.{hex_char, convert_hex_to_str, compare_two_hexadecimal}
use arcus_c_client.Hex.Bytewise.{high_bits, low_bits, compare-hex_char}

abbrev pub IsByte : ℕ → Type 0
IsByte b = b < 256

-- The loop and the comparison of lengths after it are the lexicographic order.
compare_two_hexadecimal-strcmp : (a b : Bytes) → compare_two_hexadecimal a b ≡ strcmp a b
unfolding compare_two_hexadecimal strcmp
compare_two_hexadecimal-strcmp [] [] = ground arith
compare_two_hexadecimal-strcmp [] (y ∷ b) = ground arith
compare_two_hexadecimal-strcmp (x ∷ a) [] = ground arith
compare_two_hexadecimal-strcmp (x ∷ a) (y ∷ b) =
    let step : min (suc (length a)) (suc (length b)) ≡ suc (min (length a) (length b)) =
      omega arith in
    rw (compare_two_hexadecimal, step) (ground (arith, compare_two_hexadecimal-strcmp a b))

strcmp_pair :
    (x y p q r w : ℕ) (s t : Bytes)
    → compare p r ≡ compare (x / 16) (y / 16)
    → compare q w ≡ compare (x % 16) (y % 16)
    → strcmp (p ∷ q ∷ s) (r ∷ w ∷ t) ≡ (elim (compare x y) [
      | Ordering.lt ↦ Ordering.lt
      | Ordering.eq ↦ strcmp s t
      | Ordering.gt ↦ Ordering.gt
    ])
unfolding strcmp
strcmp_pair x y p q r w s t high low = ground arith

strcmp-convert_hex_to_str :
    (a b : Bytes)
    → All IsByte a
    → All IsByte b
    → strcmp (convert_hex_to_str a) (convert_hex_to_str b) ≡ strcmp a b
unfolding convert_hex_to_str strcmp
strcmp-convert_hex_to_str [] [] h k = refl
strcmp-convert_hex_to_str [] (y ∷ b) h k = refl
strcmp-convert_hex_to_str (x ∷ a) [] h k = refl
strcmp-convert_hex_to_str (x ∷ a) (y ∷ b) h k =
    let high = compare-hex_char (x / 16) (y / 16) (omega (arith, h.0)) (omega (arith, k.0)) in
    let low = compare-hex_char (x % 16) (y % 16) (omega arith) (omega arith) in
    let later = strcmp-convert_hex_to_str a b h.1 k.1 in
    let pair =
      strcmp_pair x y (hex_char (x / 16)) (hex_char (x % 16)) (hex_char (y / 16))
        (hex_char (y % 16)) (convert_hex_to_str a) (convert_hex_to_str b) high low in
    rw (convert_hex_to_str, high_bits x h.0, high_bits y k.0, low_bits x h.0, low_bits y k.0)
      (pair
        ∙ ap
            (λ o. elim (compare x y) [
              | Ordering.lt ↦ Ordering.lt
              | Ordering.eq ↦ o
              | Ordering.gt ↦ Ordering.gt
            ])
            later)

-- The comparison of two byte arrays is that of their texts in hexadecimal.
pub compare_two_hexadecimal-convert_hex_to_str :
    (a b : Bytes)
    → All IsByte a
    → All IsByte b
    → compare_two_hexadecimal a b ≡ strcmp (convert_hex_to_str a) (convert_hex_to_str b)
compare_two_hexadecimal-convert_hex_to_str a b h k =
    compare_two_hexadecimal-strcmp a b ∙ sym (strcmp-convert_hex_to_str a b h k)
