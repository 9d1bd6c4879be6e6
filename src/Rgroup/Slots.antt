-- ===== src/Rgroup/Slots.antt =====
-- The operations on the slots of a group, as operations on the list of its servers.
use arcus_c_client.Prelude.{
  All, ℕ, zero, suc, ◌+◌, ◌≤◌, ◌<◌, ◌≡◌, refl, ap, ◌⊎◌, Option, none, some, List, [], ◌∷◌, ◌++◌,
  length, length-append, set, arith,
}
use arcus_c_client.Server.{Server}
use arcus_c_client.Rgroup.{GroupState, Address, slot, put_slot, drop_slot}

-- The first of `n` slots hold the servers of a list, and the others are NULL.
abbrev pub pad : ℕ → List Server → List (Option Server)
pad zero xs = []
pad (suc n) [] = none ∷ pad n []
pad (suc n) (x ∷ xs) = some x ∷ pad n xs

-- The group's replicas are the servers `xs`, each marked with the group's index.
pub record Replicas (st : GroupState) (xs : List Server) : Type 0 where
  pub nreplica_eq : st.rgroup.nreplica ≡ length xs
  pub replicas_eq : st.rgroup.replicas ≡ pad 3 xs
  pub fits : length xs ≤ 3
  pub indexed : All (λ s. s.groupindex ≡ some st.rgroup.groupindex) xs

-- The same, and the pool has at least one server more than the group has free slots.
pub record Holds (st : GroupState) (xs : List Server) : Type 0 where
  pub nreplica_eq : st.rgroup.nreplica ≡ length xs
  pub replicas_eq : st.rgroup.replicas ≡ pad 3 xs
  pub fits : length xs ≤ 3
  pub free : 4 ≤ length st.memc.servers + length xs
  pub indexed : All (λ s. s.groupindex ≡ some st.rgroup.groupindex) xs

pub Replicas-Holds : {st : GroupState} {xs : List Server} → Holds st xs → Replicas st xs
Replicas-Holds h = record {
  nreplica_eq = h.nreplica_eq;
  replicas_eq = h.replicas_eq;
  fits = h.fits;
  indexed = h.indexed;
}

abbrev pub address : Server → Address
address s = record { hostname = s.hostname; port = s.port }

pub slot-pad :
    (n : ℕ) (done : List Server) (s : Server) (rest : List Server)
    → length done < n
    → slot (pad n (done ++ s ∷ rest)) (length done) ≡ some s
slot-pad zero done s rest h = absurd (omega arith)
slot-pad (suc n) [] s rest h = refl
slot-pad (suc n) (x ∷ done) s rest h = slot-pad n done s rest (omega arith)

set-pad :
    (n : ℕ) (xs : List Server) (s : Server)
    → length xs < n
    → set (pad n xs) (length xs) (some s) ≡ pad n (xs ++ s ∷ [])
set-pad zero xs s h = absurd (omega arith)
set-pad (suc n) [] s h = refl
set-pad (suc n) (x ∷ xs) s h = ap (◌∷◌ (some x)) (set-pad n xs s (omega arith))

pub put_slot-pad :
    (xs : List Server) (sindex : Option ℕ) (s : Server)
    → length xs < 3
    → (sindex ≡ none) ⊎ (sindex ≡ some (length xs))
    → put_slot (pad 3 xs) (length xs) sindex s ≡ pad 3 (xs ++ s ∷ [])
unfolding put_slot
put_slot-pad xs none s h e = set-pad 3 xs s h
put_slot-pad xs (some i) s h e =
    let at_end : i ≡ length xs = ground arith in rw at_end (ground (arith, set-pad 3 xs s h))

pub drop_slot-pad :
    (done : List Server) (s : Server) (rest : List Server)
    → length (done ++ s ∷ rest) ≤ 3
    → drop_slot (pad 3 (done ++ s ∷ rest)) (length (done ++ s ∷ rest)) (length done)
      ≡ pad 3 (done ++ rest)
unfolding drop_slot
drop_slot-pad [] s [] h = refl
drop_slot-pad [] s (x ∷ []) h = refl
drop_slot-pad [] s (x ∷ y ∷ []) h = refl
drop_slot-pad [] s (x ∷ y ∷ z ∷ r) h = absurd (omega arith)
drop_slot-pad (a ∷ []) s [] h = refl
drop_slot-pad (a ∷ []) s (x ∷ []) h = refl
drop_slot-pad (a ∷ []) s (x ∷ y ∷ r) h = absurd (omega arith)
drop_slot-pad (a ∷ b ∷ []) s [] h = refl
drop_slot-pad (a ∷ b ∷ []) s (x ∷ r) h = absurd (omega arith)
drop_slot-pad (a ∷ b ∷ c ∷ d) s r h = absurd (omega (arith, length-append d (s ∷ r)))

pub swap-pad :
    (a : Server) (mid : List Server) (b : Server) (rest : List Server)
    → length (a ∷ mid ++ b ∷ rest) ≤ 3
    → set
        (set
          (pad 3 (a ∷ mid ++ b ∷ rest))
          0
          (slot (pad 3 (a ∷ mid ++ b ∷ rest)) (suc (length mid))))
        (suc (length mid))
        (slot (pad 3 (a ∷ mid ++ b ∷ rest)) 0)
      ≡ pad 3 (b ∷ mid ++ a ∷ rest)
swap-pad a [] b [] h = refl
swap-pad a [] b (x ∷ []) h = refl
swap-pad a [] b (x ∷ y ∷ r) h = absurd (omega arith)
swap-pad a (x ∷ []) b [] h = refl
swap-pad a (x ∷ []) b (y ∷ r) h = absurd (omega arith)
swap-pad a (x ∷ y ∷ m) b rest h = absurd (omega (arith, length-append m (b ∷ rest)))
