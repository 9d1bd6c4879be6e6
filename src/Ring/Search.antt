-- ===== src/Ring/Search.antt =====
-- The binary search of `dispatch_host` against a linear description of the ring.
use arcus_c_client.Prelude.{
  ℕ, zero, suc, ◌+◌, ◌-◌, ◌/◌, ◌≤◌, ◌<◌, ◌≡◌, refl, ◌∙◌, Option, none, some, List, [], ◌∷◌, ltb,
  ◌==◌, if◌then◌else◌, length, get_elem?, arith, Bool-cases, inl, inr,
}
use arcus_c_client.Ring.{
  ContinuumItem, lower_bound, step_back, dispatch_continuum, index_at, wrap_end,
}

-- Every point of the list is at least `v`.
abbrev pub AtLeast : ℕ → List ContinuumItem → Type 0
AtLeast v [] = Unit
AtLeast v (x ∷ xs) = (v ≤ x.value) × AtLeast v xs

-- The points stand in the order of their values.
abbrev pub IsSorted : List ContinuumItem → Type 0
IsSorted [] = Unit
IsSorted (x ∷ xs) = AtLeast x.value xs × IsSorted xs

-- The first point clockwise from a hash, by a scan from the beginning.
abbrev pub first_at_least : List ContinuumItem → ℕ → Option ContinuumItem
first_at_least [] hash = none
first_at_least (x ∷ xs) hash = if ltb x.value hash then first_at_least xs hash else some x

AtLeast-get_elem? :
    (v : ℕ) (c : List ContinuumItem) (i : ℕ) {a : ContinuumItem}
    → AtLeast v c
    → get_elem? c i ≡ some a
    → v ≤ a.value
AtLeast-get_elem? v [] i s e = ground arith
AtLeast-get_elem? v (x ∷ c) zero s e = ground arith
AtLeast-get_elem? v (x ∷ c) (suc i) s e = AtLeast-get_elem? v c i s.1 e

IsSorted-get_elem? :
    (c : List ContinuumItem) (i j : ℕ) {a b : ContinuumItem}
    → IsSorted c
    → i ≤ j
    → get_elem? c i ≡ some a
    → get_elem? c j ≡ some b
    → a.value ≤ b.value
IsSorted-get_elem? [] i j s h p q = ground arith
IsSorted-get_elem? (x ∷ c) zero zero s h p q = ground arith
IsSorted-get_elem? (x ∷ c) zero (suc j) s h p q =
    ground (arith, AtLeast-get_elem? x.value c j s.0 q)
IsSorted-get_elem? (x ∷ c) (suc i) zero s h p q = absurd (omega arith)
IsSorted-get_elem? (x ∷ c) (suc i) (suc j) s h p q = IsSorted-get_elem? c i j s.1 (omega arith) p q

get_elem?-some :
    (c : List ContinuumItem) (i : ℕ) → i < length c → (a : ContinuumItem) × (get_elem? c i ≡ some a)
get_elem?-some [] i h = absurd (omega arith)
get_elem?-some (x ∷ c) zero h = (x, refl)
get_elem?-some (x ∷ c) (suc i) h = get_elem?-some c i (omega arith)

beyond :
    (c : List ContinuumItem) (i : ℕ) {a : ContinuumItem} → length c ≤ i → get_elem? c i ≡ some a → ⊥
beyond [] i h e = cc
beyond (x ∷ c) zero h e = omega arith
beyond (x ∷ c) (suc i) h e = beyond c i (omega arith) e

-- `r` splits the points below the hash from the others.
record Splits (c : List ContinuumItem) (hash left right : ℕ) : Type 0 where
  below : (i : ℕ) (a : ContinuumItem) → i < left → get_elem? c i ≡ some a → a.value < hash
  above : (i : ℕ) (a : ContinuumItem) → right ≤ i → get_elem? c i ≡ some a → hash ≤ a.value

lower_bound-Splits :
    (fuel : ℕ) (c : List ContinuumItem) (hash left right : ℕ)
    → IsSorted c
    → left ≤ right
    → right ≤ length c
    → right - left < fuel
    → Splits c hash left right
    → (r : ℕ) × (lower_bound fuel c hash left right ≡ some r) × (r ≤ length c) × Splits c hash r r
unfolding lower_bound
lower_bound-Splits zero c hash left right s lr rn f inv = absurd (omega arith)
lower_bound-Splits (suc fuel) c hash left right s lr rn f inv = elim (Bool-cases (ltb left right)) [
  | inr done ↦ let e : left ≡ right = ground arith in (right, rw done, rn, rw e at inv)
  | inl more ↦
      let middle = left + (right - left) / 2 in
      let lt : middle < right = ground arith in
      let (item, e) = get_elem?-some c middle (omega arith) in
      elim (Bool-cases (ltb item.value hash)) [
        | inl low ↦
            rw (more, e, low)
              (lower_bound-Splits fuel c hash (middle + 1) right s (omega arith) rn (omega arith)
                (record {
                  below =
                      λ i a h p. ground (arith, IsSorted-get_elem? c i middle s (omega arith) p e);
                  above = inv.above;
                }))
        | inr high ↦
            rw (more, e, high)
              (lower_bound-Splits fuel c hash left middle s (omega arith) (omega arith)
                (omega arith)
                (record {
                  below = inv.below;
                  above = λ i a h p. ground (arith, IsSorted-get_elem? c middle i s h e p);
                }))
      ]
]

first_at_least-get_elem? :
    (c : List ContinuumItem) (hash r : ℕ)
    → r ≤ length c
    → Splits c hash r r
    → first_at_least c hash ≡ get_elem? c r
first_at_least-get_elem? [] hash r h s = refl
first_at_least-get_elem? (x ∷ c) hash zero h s = ground (arith, s.above 0 x)
first_at_least-get_elem? (x ∷ c) hash (suc r) h s = ground (
  arith,
  s.below 0 x,
  first_at_least-get_elem? c hash r (omega arith) (record {
    below = λ i a p. s.below (suc i) a (omega arith);
    above = λ i a p. s.above (suc i) a (omega arith);
  }),
)

step_back_lem :
    (c : List ContinuumItem) (hash r : ℕ)
    → r ≤ length c
    → Splits c hash r r
    → step_back c hash r ≡ some r
unfolding step_back
step_back_lem c hash zero h s = refl
step_back_lem c hash (suc r) h s =
    let (item, e) = get_elem?-some c r (omega arith) in ground (arith, e, s.below r item)

-- The host of the first point clockwise from a hash; past the last point the ring starts anew.
abbrev pub owner : List ContinuumItem → ℕ → Option ℕ
owner [] hash = none
owner (x ∷ c) hash = elim (first_at_least (x ∷ c) hash) [
  | none ↦ some x.index
  | some item ↦ some item.index
]

get_elem?-length : (c : List ContinuumItem) → get_elem? c (length c) ≡ none
get_elem?-length [] = refl
get_elem?-length (x ∷ c) = get_elem?-length c

owner_lem :
    (c : List ContinuumItem) (hash r : ℕ)
    → 0 < length c
    → r ≤ length c
    → Splits c hash r r
    → index_at c (wrap_end c hash (some r)) ≡ owner c hash
unfolding step_back
owner_lem [] hash r h rn split = absurd (omega arith)
owner_lem (x ∷ c) hash r h rn split = elim (Bool-cases (r == length (x ∷ c))) [
  | inl end ↦
      let at_end : r ≡ length (x ∷ c) = ground arith in
      let none_left = first_at_least-get_elem? (x ∷ c) hash r rn split in
      let e : first_at_least (x ∷ c) hash ≡ none = none_left ∙ rw at_end (get_elem?-length c) in
      rw end (ground (arith, e))
  | inr inside ↦
      let (item, e) = get_elem?-some (x ∷ c) r (ground arith) in
      let first = first_at_least-get_elem? (x ∷ c) hash r rn split ∙ e in
      rw (inside, step_back_lem (x ∷ c) hash r rn split) (ground (arith, e, first))
]

-- On a sorted ring with a point the binary search ends within its fuel, reads only inside of the
-- continuum, and returns the host of the first point whose value is not below the hash, or of the
-- first point of the ring where there is none.
pub dispatch_continuum-owner :
    (c : List ContinuumItem) (hash : ℕ)
    → IsSorted c
    → 0 < length c
    → dispatch_continuum c hash ≡ owner c hash
unfolding dispatch_continuum
dispatch_continuum-owner [] hash s h = absurd (omega arith)
dispatch_continuum-owner (x ∷ c) hash s h =
    let (r, found, rn, split) =
      lower_bound-Splits (suc (length (x ∷ c))) (x ∷ c) hash 0 (length (x ∷ c)) s (omega arith)
        (omega arith) (omega arith)
        (record {
          below = λ i a p. absurd (omega arith);
          above = λ i a p q. absurd (beyond (x ∷ c) i p q);
        }) in
    rw found (owner_lem (x ∷ c) hash r (omega arith) rn split)
