-- ===== src/Ketama/Order.antt =====
-- What the source relies on of `qsort`, and that its comparison of points meets what `qsort` asks.
use mathlib.Core.List.{Perm}
use arcus_c_client.Prelude.{
  ◌≤◌, ◌≡◌, ◌≢◌, refl, List, [], ◌∷◌, Ordering, ◌==◌, if◌then◌else◌, arith, get_or, ltb,
}
use arcus_c_client.Server.{Server}
use arcus_c_client.Text.{Bytes, strcmp}
use arcus_c_client.Ring.{ContinuumItem}
use arcus_c_client.Ring.Search.{AtLeast, IsSorted}
use arcus_c_client.Ketama.{hostport, continuum_item_cmp, Primitives}
use arcus_c_client.Ketama.Hostport.{compare_server_hostport-strcmp}

strcmp_flip : (a b : Bytes) → strcmp a b ≡ Ordering.gt → strcmp b a ≢ Ordering.gt
unfolding strcmp
strcmp_flip [] [] h = cc
strcmp_flip [] (y ∷ b) h = cc
strcmp_flip (x ∷ a) [] h = λ e. cc e
strcmp_flip (x ∷ a) (y ∷ b) h = ground (arith, strcmp_flip a b)

strcmp_eq : (a b : Bytes) → strcmp a b ≡ Ordering.eq → a ≡ b
unfolding strcmp
strcmp_eq [] [] h = refl
strcmp_eq [] (y ∷ b) h = cc
strcmp_eq (x ∷ a) [] h = cc
strcmp_eq (x ∷ a) (y ∷ b) h = ground (arith, strcmp_eq a b)

strcmp_trans :
    (a b c : Bytes) → strcmp a b ≢ Ordering.gt → strcmp b c ≢ Ordering.gt → strcmp a c ≢ Ordering.gt
unfolding strcmp
strcmp_trans [] b [] h k = λ e. cc e
strcmp_trans [] b (z ∷ c) h k = λ e. cc e
strcmp_trans (x ∷ a) [] c h k = absurd (h refl)
strcmp_trans (x ∷ a) (y ∷ b) [] h k = absurd (k refl)
strcmp_trans (x ∷ a) (y ∷ b) (z ∷ c) h k = ground (arith, strcmp_trans a b c)

-- A comparison function that `qsort` accepts.
pub record IsConsistent (cmp : ContinuumItem → ContinuumItem → Ordering) : Type 0 where
  pub flips : (a b : ContinuumItem) → cmp a b ≡ Ordering.gt → cmp b a ≢ Ordering.gt
  pub chains :
      (a b c : ContinuumItem)
      → cmp a b ≢ Ordering.gt
      → cmp b c ≢ Ordering.gt
      → cmp a c ≢ Ordering.gt

-- No point is greater than one behind it.
abbrev pub NoneAfter :
    (ContinuumItem → ContinuumItem → Ordering) → ContinuumItem → List ContinuumItem → Type 0
NoneAfter cmp x [] = Unit
NoneAfter cmp x (y ∷ ys) = (cmp x y ≢ Ordering.gt) × NoneAfter cmp x ys

abbrev pub Ordered : (ContinuumItem → ContinuumItem → Ordering) → List ContinuumItem → Type 0
Ordered cmp [] = Unit
Ordered cmp (x ∷ xs) = NoneAfter cmp x xs × Ordered cmp xs

-- `qsort` of the C library: given a consistent comparison it orders the elements, and keeps them.
pub record SortsConsistently (c : Primitives) : Type 0 where
  pub keeps :
      (cmp : ContinuumItem → ContinuumItem → Ordering)
      → IsConsistent cmp
      → (l : List ContinuumItem) → Perm (c.qsort cmp l) l
  pub orders :
      (cmp : ContinuumItem → ContinuumItem → Ordering)
      → IsConsistent cmp
      → (l : List ContinuumItem) → Ordered cmp (c.qsort cmp l)

module _ (servers : List Server) (outside : Server) where
  key : ContinuumItem → Bytes
  key item = hostport (get_or servers item.index outside)

  cmp_key :
      (a b : ContinuumItem)
      → continuum_item_cmp servers outside a b ≡ (
          if a.value == b.value
          then strcmp (key a) (key b)
          else if ltb b.value a.value
          then Ordering.gt
          else Ordering.lt)
  unfolding key continuum_item_cmp
  cmp_key a b = rw (
      compare_server_hostport-strcmp (get_or servers a.index outside)
        (get_or servers b.index outside))

  pub cmp-value :
      (a b : ContinuumItem)
      → continuum_item_cmp servers outside a b ≢ Ordering.gt
      → a.value ≤ b.value
  cmp-value a b h = ground (arith, cmp_key a b)

  -- The comparison of points is a consistent order.
  pub continuum_item_cmp-IsConsistent : IsConsistent (continuum_item_cmp servers outside)
  continuum_item_cmp-IsConsistent = record {
    flips = λ a b h. ground (arith, cmp_key a b, cmp_key b a, strcmp_flip (key a) (key b));
    chains = λ a b c h k.
        ground (arith, cmp_key a b, cmp_key b c, cmp_key a c, strcmp_trans (key a) (key b) (key c));
  }

  NoneAfter-AtLeast :
      (x : ContinuumItem) (l : List ContinuumItem)
      → NoneAfter (continuum_item_cmp servers outside) x l
      → AtLeast x.value l
  NoneAfter-AtLeast x [] h = tt
  NoneAfter-AtLeast x (y ∷ l) h = (cmp-value x y h.0, NoneAfter-AtLeast x l h.1)

  pub Ordered-IsSorted :
      (l : List ContinuumItem) → Ordered (continuum_item_cmp servers outside) l → IsSorted l
  Ordered-IsSorted [] h = tt
  Ordered-IsSorted (x ∷ l) h = (NoneAfter-AtLeast x l h.0, Ordered-IsSorted l h.1)
