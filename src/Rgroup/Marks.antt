-- ===== src/Rgroup/Marks.antt =====
-- The marks that pair old slaves with new ones in the update of a replica group.
use mathlib.Core.List.{Perm, perm_middle}
use mathlib.Core.List.Perm
use arcus_c_client.Prelude.{
  ℕ, zero, suc, ◌+◌, ◌≤◌, ◌<◌, ◌≡◌, refl, inl, inr, Bool, true, false, some, List, [], ◌∷◌, ◌++◌,
  length, set, get_or, arith, ◌==◌, if◌then◌else◌, Bool-cases,
}
use arcus_c_client.Server.{Server}
use arcus_c_client.Text.{str_eq→eq}
use arcus_c_client.Rgroup.{Address, is_same, find_slave}
use arcus_c_client.Rgroup.Slots.{address}

pub is_same→eq : (s : Server) (a : Address) → is_same s a ≡ true → address s ≡ a
unfolding is_same
is_same→eq s a h = ground (arith, str_eq→eq s.hostname a.hostname)

-- The new slaves that are marked, and those that are not, from index `j` on.
abbrev pub select : ℕ → List Bool → List Address → List Address
select j exist [] = []
select j exist (a ∷ more) =
    let rest = select (suc j) exist more in if get_or exist j false then a ∷ rest else rest

abbrev pub unselect : ℕ → List Bool → List Address → List Address
unselect j exist [] = []
unselect j exist (a ∷ more) =
    let rest = unselect (suc j) exist more in if get_or exist j false then rest else a ∷ rest

pub select-unselect-perm :
    (j : ℕ) (exist : List Bool) (as' : List Address)
    → Perm (select j exist as' ++ unselect j exist as') as'
select-unselect-perm j exist [] = Perm.refl []
select-unselect-perm j exist (a ∷ more) = elim (Bool-cases (get_or exist j false)) [
  | inl e ↦ rw e (Perm.cons a (select-unselect-perm (suc j) exist more))
  | inr e ↦
      rw e (Perm.trans (perm_middle _ _) (Perm.cons a (select-unselect-perm (suc j) exist more)))
]

get_or-set :
    (e : List Bool) (k j : ℕ)
    → k < length e
    → get_or (set e k true) j false ≡ (if j == k then true else get_or e j false)
get_or-set [] k j h = absurd (omega arith)
get_or-set (b ∷ e) zero zero h = refl
get_or-set (b ∷ e) zero (suc j) h = ground arith
get_or-set (b ∷ e) (suc k) zero h = ground arith
get_or-set (b ∷ e) (suc k) (suc j) h = rw (get_or-set e k j (omega arith)) (ground arith)

select-set_before :
    (j : ℕ) (e : List Bool) (k : ℕ) (l : List Address)
    → k < j
    → k < length e
    → select j (set e k true) l ≡ select j e l
select-set_before j e k [] h r = refl
select-set_before j e k (a ∷ l) h r =
    rw (select-set_before (suc j) e k l (omega arith) r, get_or-set e k j r) (ground arith)

pub find_slave-le :
    (s : Server) (j : ℕ) (e : List Bool) (l : List Address) (k : ℕ)
    → find_slave s j e l ≡ some k
    → (j ≤ k) × (k < j + length l)
unfolding find_slave
find_slave-le s j e [] k h = absurd (cc)
find_slave-le s j e (a ∷ l) k h = ground (arith, find_slave-le s (suc j) e l k)

-- The slave that is found was not marked, and has the server's address.
pub find_slave-perm :
    (s : Server) (j : ℕ) (e : List Bool) (l : List Address) (k : ℕ)
    → j + length l ≤ length e
    → find_slave s j e l ≡ some k
    → Perm (select j (set e k true) l) (address s ∷ select j e l)
unfolding find_slave
find_slave-perm s j e [] k r h = absurd (cc)
find_slave-perm s j e (a ∷ l) k r h =
    let kr = find_slave-le s j e (a ∷ l) k h in
    let flag = get_or-set e k j (omega (arith, kr)) in
    elim (Bool-cases (get_or e j false)) [
      | inl marked ↦
          let later : find_slave s (suc j) e l ≡ some k = rw marked at h in
          let flag' : get_or (set e k true) j false ≡ true = ground (arith, flag) in
          rw (flag', marked)
            (Perm.trans (Perm.cons a (find_slave-perm s (suc j) e l k (omega arith) later))
              (Perm.swap _ _ _))
      | inr free ↦ elim (Bool-cases (is_same s a)) [
        | inl same ↦
            let here : j ≡ k = ground (arith, free, same) in
            let flag' : get_or (set e k true) j false ≡ true = ground (arith, flag) in
            let e' = is_same→eq s a same in
            rw (flag', free, select-set_before (suc j) e k l (omega arith) (omega (arith, kr)), e')
              (Perm.refl _)
        | inr other ↦
            let later : find_slave s (suc j) e l ≡ some k = ground (arith, free, other) in
            let after = find_slave-le s (suc j) e l k later in
            let flag' : get_or (set e k true) j false ≡ false = ground (arith, flag, after) in
            rw (flag', free) (find_slave-perm s (suc j) e l k (omega arith) later)
      ]
    ]
