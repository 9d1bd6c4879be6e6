-- ===== src/Prelude/Slices.antt =====
-- Laws of `take` and `drop` on lists measured by native numbers.
use Prim.Native.Nat.{ℕ, zero, suc, ◌+◌, ◌≤◌}
use mathlib.Core.Path.{◌≡◌, refl, ap, sym, ◌∙◌}
use mathlib.Core.List.{List, [], ◌∷◌, ◌++◌}
use native.Mathlib.Numerals.{unary_clauses}
use native.Mathlib.Nat.{zero-add}
use native.Mathlib.Omega.{arith}
use arcus_c_client.Prelude.Lists.{length, take, drop}

suc_add : (m n : ℕ) → suc m + n ≡ suc (m + n)
suc_add m n = omega arith

module _ {ℓ} {A : Type ℓ} where
  pub take-length : (xs : List A) → take (length xs) xs ≡ xs
  take-length [] = refl
  take-length (x ∷ xs) = rw (take-length xs)

  pub drop-length : (xs : List A) → drop (length xs) xs ≡ []
  drop-length [] = refl
  drop-length (x ∷ xs) = drop-length xs

  pub take-append_le : (n : ℕ) (xs ys : List A) → n ≤ length xs → take n (xs ++ ys) ≡ take n xs
  take-append_le zero xs ys h = refl
  take-append_le (suc n) [] ys h = absurd (omega arith)
  take-append_le (suc n) (x ∷ xs) ys h = rw (take-append_le n xs ys (omega arith))

  pub drop-append_le :
      (n : ℕ) (xs ys : List A) → n ≤ length xs → drop n (xs ++ ys) ≡ drop n xs ++ ys
  drop-append_le zero xs ys h = refl
  drop-append_le (suc n) [] ys h = absurd (omega arith)
  drop-append_le (suc n) (x ∷ xs) ys h = drop-append_le n xs ys (omega arith)

  pub take-take_le : (n m : ℕ) (xs : List A) → n ≤ m → take n (take m xs) ≡ take n xs
  take-take_le zero m xs h = refl
  take-take_le (suc n) zero xs h = absurd (omega arith)
  take-take_le (suc n) (suc m) [] h = refl
  take-take_le (suc n) (suc m) (x ∷ xs) h = rw (take-take_le n m xs (omega arith))

  pub drop-take : (n m : ℕ) (xs : List A) → drop n (take (n + m) xs) ≡ take m (drop n xs)
  drop-take zero m xs = rw zero-add
  drop-take (suc n) zero [] = simp unary_clauses refl
  drop-take (suc n) (suc m) [] = simp unary_clauses refl
  drop-take (suc n) m (x ∷ xs) = rw (suc_add n m) (drop-take n m xs)

  pub drop-drop : (n m : ℕ) (xs : List A) → drop n (drop m xs) ≡ drop (m + n) xs
  drop-drop n zero xs = rw zero-add
  drop-drop zero (suc m) [] = simp unary_clauses refl
  drop-drop (suc n) (suc m) [] = simp unary_clauses refl
  drop-drop n (suc m) (x ∷ xs) = rw (suc_add m n) (drop-drop n m xs)

  pub take-add : (m n : ℕ) (xs : List A) → take (m + n) xs ≡ take m xs ++ take n (drop m xs)
  take-add zero n xs = rw zero-add
  take-add (suc m) zero [] = simp unary_clauses refl
  take-add (suc m) (suc n) [] = simp unary_clauses refl
  take-add (suc m) n (x ∷ xs) = rw (suc_add m n) (ap (◌∷◌ x) (take-add m n xs))

  pub drop_nil : (n : ℕ) → drop {A = A} n [] ≡ []
  drop_nil zero = refl
  drop_nil (suc n) = refl

  pub take-append_all : (xs ys : List A) → take (length xs) (xs ++ ys) ≡ xs
  take-append_all xs ys = take-append_le (length xs) xs ys (omega arith) ∙ take-length xs

  pub take-append_exact : (xs ys : List A) (n : ℕ) → length xs ≡ n → take n (xs ++ ys) ≡ xs
  take-append_exact xs ys n h = ap (λ k. take k (xs ++ ys)) (sym h) ∙ take-append_all xs ys

  pub drop-append_all : (xs ys : List A) → drop (length xs) (xs ++ ys) ≡ ys
  drop-append_all xs ys =
      drop-append_le (length xs) xs ys (omega arith) ∙ ap (λ l. l ++ ys) (drop-length xs)
