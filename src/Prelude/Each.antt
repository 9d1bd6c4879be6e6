-- ===== src/Prelude/Each.antt =====
-- A predicate on every element of a list.
use mathlib.Core.HLevel.{×_prop}
use mathlib.Core.List.{List, [], ◌∷◌, ◌++◌, Perm, Permᴰ}
use mathlib.Core.Logic.{∥∥₁_elim}
use mathlib.Core.Path.{refl, subst}

abbrev pub All {ℓ κ} : {A : Type ℓ} → (A → Type κ) → List A → Type κ
All P [] = Unit
All P (x ∷ xs) = P x × All P xs

module _ {ℓ κ} {A : Type ℓ} (P : A → Type κ) where
  pub All-append : (xs ys : List A) → All P xs → All P ys → All P (xs ++ ys)
  All-append [] ys p q = q
  All-append (x ∷ xs) ys p q = (p.0, All-append xs ys p.1 q)

  pub All-left : (xs ys : List A) → All P (xs ++ ys) → All P xs
  All-left [] ys p = tt
  All-left (x ∷ xs) ys p = (p.0, All-left xs ys p.1)

  pub All-right : (xs ys : List A) → All P (xs ++ ys) → All P ys
  All-right [] ys p = p
  All-right (x ∷ xs) ys p = All-right xs ys p.1

  pub All-perm_data : {xs ys : List A} → Permᴰ xs ys → All P xs → All P ys
  All-perm_data Permᴰ.nil h = h
  All-perm_data (Permᴰ.cons e p) h = (subst P e h.0, All-perm_data p h.1)
  All-perm_data (Permᴰ.swap e f) h = (subst P f h.1.0, (subst P e h.0, h.1.1))
  All-perm_data (Permᴰ.trans p q) h = All-perm_data q (All-perm_data p h)

  All-prop : ((a : A) → IsProp (P a)) → (xs : List A) → IsProp (All P xs)
  All-prop c [] = λ x y. refl
  All-prop c (x ∷ xs) = ×_prop (c x) (All-prop c xs)

  pub All-perm : ((a : A) → IsProp (P a)) → {xs ys : List A} → Perm xs ys → All P xs → All P ys
  All-perm c {ys} p h = ∥∥₁_elim p (All-prop c ys) (λ d. All-perm_data d h)
