-- ===== src/Ketama/Even.antt =====
-- How many points each host has on a ring, where the weights count alike.
use mathlib.Core.List.{Perm, Permᴰ}
use mathlib.Core.Logic.{∥∥₁_elim}
use native.Mathlib.Nat.{ℕ_set}
use arcus_c_client.Prelude.{
  All, ℕ, zero, suc, ◌+◌, ◌*◌, ◌%◌, ◌^◌, ◌<◌, ◌≡◌, ◌⊎◌, refl, ap, subst, ◌∙◌, inl, inr, Bool, true,
  false, ◌&&◌, List, [], ◌∷◌, ◌++◌, ◌==◌, if◌then◌else◌, arith, Bool-cases,
}
use arcus_c_client.Server.{Server}
use arcus_c_client.Text.{Bytes}
use arcus_c_client.Ring.{ContinuumItem, Distribution}
use arcus_c_client.Ketama.{
  is_live, Weights, sum_weights, no_weights, name_points, Primitives, share,
}
use arcus_c_client.Ketama.Hosts.{live_at, named_points, live_points}

abbrev one_at : ℕ → ContinuumItem → ℕ
one_at i x = if x.index == i then 1 else 0

-- The number of points of the host with an index.
unfoldable pub points_of : ℕ → List ContinuumItem → ℕ
points_of i [] = 0
points_of i (x ∷ c) = one_at i x + points_of i c

points_of-append :
    (i : ℕ) (a b : List ContinuumItem) → points_of i (a ++ b) ≡ points_of i a + points_of i b
unfolding points_of
points_of-append i [] b = omega arith
points_of-append i (x ∷ a) b = omega (arith, points_of-append i a b)

points_of-perm_data :
    (i : ℕ) {xs ys : List ContinuumItem} → Permᴰ xs ys → points_of i xs ≡ points_of i ys
unfolding points_of
points_of-perm_data i Permᴰ.nil = refl
points_of-perm_data i (Permᴰ.cons e p) = omega (arith, ap (one_at i) e, points_of-perm_data i p)
points_of-perm_data i (Permᴰ.swap e f) = omega (arith, ap (one_at i) e, ap (one_at i) f)
points_of-perm_data i (Permᴰ.trans p q) = points_of-perm_data i p ∙ points_of-perm_data i q

pub points_of-perm :
    (i : ℕ) {xs ys : List ContinuumItem} → Perm xs ys → points_of i xs ≡ points_of i ys
points_of-perm i p = ∥∥₁_elim p (ℕ_set _ _) (points_of-perm_data i)

module _ (signature : Bytes → Bytes) (d : Distribution) where
  points_of-named_points :
      (j i : ℕ) (s : Server) (rounds k : ℕ)
      → points_of j (named_points signature d i s rounds k) ≡ (if i == j then 4 * rounds else 0)
  unfolding points_of named_points name_points
  points_of-named_points j i s zero k = ground arith
  points_of-named_points j i s (suc rounds) k =
      ground (arith, points_of-named_points j i s rounds (suc k))

  module _ (ae : Bool) (now : ℕ) where
    points_of-first :
        (j i : ℕ) (s : Server) (rest : List Server)
        → points_of j (live_points signature d ae now i (s ∷ rest))
          ≡ (if is_live ae now s then (if i == j then 160 else 0) else 0)
            + points_of j (live_points signature d ae now (suc i) rest)
    unfolding live_points points_of
    points_of-first j i s rest = elim (Bool-cases (is_live ae now s)) [
      | inl live ↦ rw live (
          points_of-append j (named_points signature d i s 40 0)
            (live_points signature d ae now (suc i) rest)
          ∙ ap (λ (k : ℕ). k + points_of j (live_points signature d ae now (suc i) rest))
              (points_of-named_points j i s 40 0))
      | inr dead ↦ rw dead (omega arith)
    ]

    points_of-before :
        (j i : ℕ) (rest : List Server)
        → j < i
        → points_of j (live_points signature d ae now i rest) ≡ 0
    unfolding points_of live_points
    points_of-before j i [] h = refl
    points_of-before j i (s ∷ rest) h =
        ground (arith, points_of-first j i s rest, points_of-before j (suc i) rest (omega arith))

    pub points_of-live_points :
        (i k : ℕ) (rest : List Server)
        → points_of (i + k) (live_points signature d ae now i rest)
          ≡ (if live_at ae now rest k then 160 else 0)
    unfolding points_of live_points
    points_of-live_points i k [] = refl
    points_of-live_points i zero (s ∷ rest) = ground (
      arith,
      points_of-first (i + 0) i s rest,
      points_of-before (i + 0) (suc i) rest (omega arith),
    )
    points_of-live_points i (suc k) (s ∷ rest) =
        let here = points_of-first (i + suc k) i s rest in
        let same : suc i + k ≡ i + suc k = omega arith in
        let later : points_of (i + suc k) (live_points signature d ae now (suc i) rest)
            ≡ (if live_at ae now rest k then 160 else 0) =
          subst
            (λ (n : ℕ).
              points_of n (live_points signature d ae now (suc i) rest)
              ≡ (if live_at ae now rest k then 160 else 0))
            same (points_of-live_points (suc i) k rest) in
        let other : (if is_live ae now s then (if i == i + suc k then 160 else 0) else 0) ≡ 0 =
          ground arith in
        here
        ∙ ap (λ (n : ℕ). n + points_of (i + suc k) (live_points signature d ae now (suc i) rest))
            other
        ∙ omega (arith, later)

-- The live servers of a list have one weight.
abbrev pub HaveWeight : Bool → ℕ → List Server → ℕ → Type 0
HaveWeight ae now servers weight = All (λ s. is_live ae now s ≡ true → s.weight ≡ weight) servers

counted_in : Server → Weights → Weights
counted_in s w = record {
  total_weight = (w.total_weight + s.weight) % 2 ^ 64;
  total_server = w.total_server + 1;
  first_weight = if w.total_server == 0 then s.weight else w.first_weight;
  all_weights_same =
      if w.total_server == 0
      then w.all_weights_same
      else w.all_weights_same && (w.first_weight == s.weight);
}

-- So far, the live servers have one weight.
record AllSame (x : ℕ) (w : Weights) : Type 0 where
  same : w.all_weights_same ≡ true
  first : (w.total_server ≡ 0) ⊎ (w.first_weight ≡ x)

counted_in-AllSame :
    (x : ℕ) (s : Server) (w : Weights) → s.weight ≡ x → AllSame x w → AllSame x (counted_in s w)
unfolding counted_in
counted_in-AllSame x s w e h = elim (Bool-cases (w.total_server == 0)) [
  | inl z ↦ record { same = rw z h.same; first = inr (rw z e) }
  | inr z ↦ elim h.first [
    | inl n ↦ absurd (ground arith)
    | inr f ↦ record { same = rw (z, h.same) (ground arith); first = inr (rw z f) }
  ]
]

sum_weights-same :
    (ae : Bool) (now x : ℕ) (l : List Server) (w : Weights)
    → HaveWeight ae now l x
    → AllSame x w
    → (sum_weights ae now l w).all_weights_same ≡ true
unfolding sum_weights
sum_weights-same ae now x [] w h k = k.same
sum_weights-same ae now x (s ∷ l) w h k = elim (Bool-cases (is_live ae now s)) [
  | inr dead ↦ rw (sum_weights, dead) (sum_weights-same ae now x l w h.1 k)
  | inl live ↦
      rw (sum_weights, live)
        (sum_weights-same ae now x l _ h.1
          (unfold counted_in in counted_in-AllSame x s w (h.0 live) k))
]

-- Live servers of one weight have the share of a client without weights.
pub share-even :
    (c : Primitives) (weighted ae : Bool) (now live : ℕ) (servers : List Server)
    → (weighted ≡ true → (weight : ℕ) × HaveWeight ae now servers weight)
    → (s : Server)
    → share c weighted
        (if weighted then sum_weights ae now servers no_weights else no_weights)
        live
        s
      ≡ 160
unfolding share
share-even c false ae now live servers h s = refl
share-even c true ae now live servers h s =
    let (x, same) = h refl in
    rw
      (sum_weights-same ae now x servers no_weights same (record { same = refl; first = inl refl }))
