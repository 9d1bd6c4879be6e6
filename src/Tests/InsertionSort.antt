-- ===== src/Tests/InsertionSort.antt =====
-- A sort that may stand for `qsort`: insertion sort.
use mathlib.Core.List.{Perm, Permᴰ}
use mathlib.Core.List.Perm
use mathlib.Core.List.Permᴰ
use arcus_c_client.Prelude.{
  arith, ◌≡◌, refl, ◌≢◌, inl, inr, Ordering, List, [], ◌∷◌, Bool, true, false, Bool-cases,
  if◌then◌else◌,
}
use arcus_c_client.Ring.{ContinuumItem}
use arcus_c_client.Ketama.Order.{IsConsistent, NoneAfter, Ordered}

abbrev is_gt : Ordering → Bool
is_gt Ordering.gt = true
is_gt _ = false

module _ {A : Type 0} (cmp : A → A → Ordering) where
  abbrev insert : A → List A → List A
  insert x [] = x ∷ []
  insert x (y ∷ ys) = if is_gt (cmp x y) then y ∷ insert x ys else x ∷ y ∷ ys

  abbrev pub insertion_sort : List A → List A
  insertion_sort [] = []
  insertion_sort (x ∷ xs) = insert x (insertion_sort xs)

  insert-perm : (x : A) (ys : List A) → Perm (insert x ys) (x ∷ ys)
  insert-perm x [] = Perm.refl _
  insert-perm x (y ∷ ys) = elim (Bool-cases (is_gt (cmp x y))) [
    | inl e ↦ rw e (Perm.trans (Perm.cons y (insert-perm x ys)) (Perm.swap _ _ _))
    | inr e ↦ rw e (Perm.refl _)
  ]

  insert-perm_data : (x : A) (ys : List A) → Permᴰ (x ∷ ys) (insert x ys)
  insert-perm_data x [] = Permᴰ.refl (x ∷ [])
  insert-perm_data x (y ∷ ys) = elim (Bool-cases (is_gt (cmp x y))) [
    | inl e ↦ rw e (Permᴰ.trans (Permᴰ.swap refl refl) (Permᴰ.cons refl (insert-perm_data x ys)))
    | inr e ↦ rw e (Permᴰ.refl (x ∷ y ∷ ys))
  ]

  -- The permutation itself.
  pub insertion_sort-perm_data : (l : List A) → Permᴰ l (insertion_sort l)
  insertion_sort-perm_data [] = Permᴰ.nil
  insertion_sort-perm_data (x ∷ l) =
      Permᴰ.trans (Permᴰ.cons refl (insertion_sort-perm_data l))
        (insert-perm_data x (insertion_sort l))

  pub insertion_sort-perm : (l : List A) → Perm (insertion_sort l) l
  insertion_sort-perm [] = Perm.refl []
  insertion_sort-perm (x ∷ l) =
      Perm.trans (insert-perm x (insertion_sort l)) (Perm.cons x (insertion_sort-perm l))

is_gt-eq : (o : Ordering) → is_gt o ≡ true → o ≡ Ordering.gt
is_gt-eq o h = ground arith

is_gt-ne : (o : Ordering) → is_gt o ≡ false → o ≢ Ordering.gt
is_gt-ne o h = ground arith

module _ (cmp : ContinuumItem → ContinuumItem → Ordering) (c : IsConsistent cmp) where
  NoneAfter-chain :
      (x y : ContinuumItem) (l : List ContinuumItem)
      → cmp x y ≢ Ordering.gt
      → NoneAfter cmp y l
      → NoneAfter cmp x l
  NoneAfter-chain x y [] h n = tt
  NoneAfter-chain x y (z ∷ l) h n = (c.chains x y z h n.0, NoneAfter-chain x y l h n.1)

  NoneAfter-insert :
      (x y : ContinuumItem) (l : List ContinuumItem)
      → cmp y x ≢ Ordering.gt
      → NoneAfter cmp y l
      → NoneAfter cmp y (insert cmp x l)
  NoneAfter-insert x y [] h n = (h, tt)
  NoneAfter-insert x y (z ∷ l) h n = elim (Bool-cases (is_gt (cmp x z))) [
    | inl e ↦ rw e (n.0, NoneAfter-insert x y l h n.1)
    | inr e ↦ rw e (h, n)
  ]

  Ordered-insert :
      (x : ContinuumItem) (l : List ContinuumItem) → Ordered cmp l → Ordered cmp (insert cmp x l)
  Ordered-insert x [] h = (tt, tt)
  Ordered-insert x (y ∷ l) h = elim (Bool-cases (is_gt (cmp x y))) [
    | inl e ↦
        rw e
          (NoneAfter-insert x y l (c.flips x y (is_gt-eq (cmp x y) e)) h.0, Ordered-insert x l h.1)
    | inr e ↦ let less = is_gt-ne (cmp x y) e in rw e ((less, NoneAfter-chain x y l less h.0), h)
  ]

  pub Ordered-insertion_sort : (l : List ContinuumItem) → Ordered cmp (insertion_sort cmp l)
  Ordered-insertion_sort [] = tt
  Ordered-insertion_sort (x ∷ l) =
      Ordered-insert x (insertion_sort cmp l) (Ordered-insertion_sort l)
