-- ===== src/GroupList/Members.antt =====
-- What a client's replica groups are: each holds its servers, in its place.
use arcus_c_client.Prelude.{
  All, ℕ, zero, suc, ◌+◌, ◌*◌, ◌≤◌, ◌≡◌, refl, ap, Option, none, some, List, [], ◌∷◌, ◌++◌, length,
  map, arith,
}
use arcus_c_client.Server.{Server}
use arcus_c_client.Text.{Bytes}
use arcus_c_client.Rgroup.{Rgroup, ServerPool, Address}
use arcus_c_client.Rgroup.Slots.{Holds, address, pad}
use arcus_c_client.GroupList.{RgroupClient}

-- The group in place `i` has the servers `xs`, one to three, each marked with the place.
pub record Member (i : ℕ) (g : Rgroup) (xs : List Server) : Type 0 where
  pub nreplica_eq : g.nreplica ≡ length xs
  pub replicas_eq : g.replicas ≡ pad 3 xs
  pub fits : length xs ≤ 3
  pub some_server : 1 ≤ length xs
  pub indexed : All (λ s. s.groupindex ≡ some i) xs
  pub in_place : g.groupindex ≡ i

-- Every group of the list is a member in its place, from place `i` on.
abbrev pub Numbered : ℕ → List Rgroup → Type 0
Numbered i [] = Unit
Numbered i (g ∷ rest) = ((xs : List Server) × Member i g xs) × Numbered (suc i) rest

-- The servers that the groups have.
abbrev pub used : List Rgroup → ℕ
used [] = 0
used (g ∷ rest) = g.nreplica + used rest

pub used-append : (l r : List Rgroup) → used (l ++ r) ≡ used l + used r
used-append [] r = omega arith
used-append (g ∷ l) r = omega (arith, used-append l r)

pub used_le : (i : ℕ) (l : List Rgroup) → Numbered i l → used l ≤ 3 * length l
used_le i [] n = omega arith
used_le i (g ∷ l) ((xs, m), n) = omega (arith, used_le (suc i) l n, m.nreplica_eq, m.fits)

-- The addresses of the servers in the slots.
abbrev pub present : List (Option Server) → List Address
present [] = []
present (none ∷ slots) = present slots
present (some s ∷ slots) = address s ∷ present slots

-- A group as its name, its weight and its addresses, the master first.
pub record Entry : Type 0 where
  pub groupname : Bytes
  pub weight : ℕ
  pub addresses : List Address

abbrev pub entry : Rgroup → Entry
entry g = record { groupname = g.groupname; weight = g.weight; addresses = present g.replicas }

-- The client's groups are in their places within the array, and the pool's counters tell the
-- servers: those in the pool, and those in the pool and in the groups.
pub record WellFormed (c : RgroupClient) : Type 0 where
  pub numbered : Numbered 0 c.rgroups
  pub within : length c.rgroups ≤ c.rgroup_ntotal
  pub total : length c.memc.servers + used c.rgroups ≡ c.memc.server_ntotal
  pub available : c.memc.server_navail ≡ length c.memc.servers

pub present-pad : (n : ℕ) (xs : List Server) → length xs ≤ n → present (pad n xs) ≡ map address xs
present-pad zero [] h = refl
present-pad zero (x ∷ xs) h = absurd (omega arith)
present-pad (suc n) [] h = present-pad n [] (omega arith)
present-pad (suc n) (x ∷ xs) h = ap (◌∷◌ (address x)) (present-pad n xs (omega arith))

pub Numbered-append :
    (i : ℕ) (l r : List Rgroup) → Numbered i l → Numbered (i + length l) r → Numbered i (l ++ r)
Numbered-append i [] r h k = let e : i + 0 ≡ i = omega arith in rw e at k
Numbered-append i (g ∷ l) r (m, h) k =
    let e : i + suc (length l) ≡ suc i + length l = omega arith in
    (m, Numbered-append (suc i) l r h (rw e at k))

-- A member and a pool with enough free servers hold the servers.
pub Member-Holds :
    (i : ℕ) (g : Rgroup) (xs : List Server) (m : ServerPool)
    → Member i g xs
    → 4 ≤ length m.servers + length xs
    → Holds (record { memc = m; rgroup = g }) xs
Member-Holds i g xs m h f = record {
  nreplica_eq = h.nreplica_eq;
  replicas_eq = h.replicas_eq;
  fits = h.fits;
  free = f;
  indexed = simp h.in_place h.indexed;
}
