-- ===== src/GroupList/Renumber.antt =====
-- A group that is moved to another place.
use arcus_c_client.Prelude.{
  All, ℕ, zero, suc, ◌≤◌, ◌≡◌, refl, sym, ap, ◌∙◌, inl, inr, some, List, [], ◌∷◌, length, map,
  arith, Bool-cases, ◌==◌,
}
use arcus_c_client.Server.{Server}
use arcus_c_client.Rgroup.{Rgroup}
use arcus_c_client.Rgroup.Slots.{address, pad}
use arcus_c_client.GroupList.Removal.{mark_slots, index_set, index_groups}
use arcus_c_client.GroupList.Members.{Member, Numbered, entry, present, used}

marked : ℕ → Server → Server
marked i s = record s { groupindex = some i }

mark_slots-pad :
    (i n : ℕ) (xs : List Server)
    → length xs ≤ n
    → mark_slots i (length xs) (pad n xs) ≡ some (pad n (map (marked i) xs))
unfolding mark_slots marked
mark_slots-pad i zero [] h = refl
mark_slots-pad i zero (x ∷ xs) h = absurd (omega arith)
mark_slots-pad i (suc n) [] h = refl
mark_slots-pad i (suc n) (x ∷ xs) h = rw (mark_slots-pad i n xs (omega arith))

present-marked :
    (i n : ℕ) (xs : List Server) → present (pad n (map (marked i) xs)) ≡ present (pad n xs)
unfolding marked
present-marked i zero xs = refl
present-marked i (suc n) [] = present-marked i n []
present-marked i (suc n) (x ∷ xs) = ap (◌∷◌ (address x)) (present-marked i n xs)

All-marked : (i : ℕ) (xs : List Server) → All (λ s. s.groupindex ≡ some i) (map (marked i) xs)
unfolding marked
All-marked i [] = tt
All-marked i (x ∷ xs) = (refl, All-marked i xs)

length-marked : (i : ℕ) (xs : List Server) → length (map (marked i) xs) ≡ length xs
length-marked i [] = refl
length-marked i (x ∷ xs) = ap suc (length-marked i xs)

-- A group in its new place, with the same servers.
pub record Moved (i : ℕ) (g g' : Rgroup) : Type 0 where
  pub servers : List Server
  pub member : Member i g' servers
  pub same : entry g' ≡ entry g
  pub size : g'.nreplica ≡ g.nreplica
  pub mark : g'.is_dead ≡ g.is_dead

pub Moved-refl : (i : ℕ) (g : Rgroup) (xs : List Server) → Member i g xs → Moved i g g
Moved-refl i g xs m = record { servers = xs; member = m; same = refl; size = refl; mark = refl }

pub index_set-Moved :
    (i j : ℕ) (g : Rgroup) (xs : List Server)
    → Member i g xs
    → (g' : Rgroup) × (index_set g j ≡ some g') × Moved j g g'
unfolding index_set
index_set-Moved i j g xs m = elim (Bool-cases (g.groupindex == j)) [
  | inl e ↦
      let same : i ≡ j = ground (arith, e, m.in_place) in
      (g, rw e, Moved-refl j g xs (rw same at m))
  | inr e ↦
      let slots = pad 3 (map (marked j) xs) in
      let run : mark_slots j g.nreplica g.replicas ≡ some slots =
        simp (m.nreplica_eq, m.replicas_eq) (mark_slots-pad j 3 xs m.fits) in
      (
        record g { groupindex = j; replicas = slots },
        rw (e, run),
        record {
          servers = map (marked j) xs;
          member = record {
            nreplica_eq = omega (arith, m.nreplica_eq, length-marked j xs);
            replicas_eq = refl;
            fits = omega (arith, m.fits, length-marked j xs);
            some_server = omega (arith, m.some_server, length-marked j xs);
            indexed = All-marked j xs;
            in_place = refl;
          };
          same =
              ap (λ l. record { groupname = g.groupname; weight = g.weight; addresses = l })
                (present-marked j 3 xs ∙ sym (ap present m.replicas_eq));
          size = refl;
          mark = refl;
        },
      )
]

-- The groups of a list, each in its place, from place `i` on.
pub index_groups-Numbered :
    (i : ℕ) (l : List Rgroup)
    → All (λ g. (j : ℕ) × (xs : List Server) × Member j g xs) l
    → (l' : List Rgroup) × (index_groups i l ≡ some l')
      × Numbered i l'
      × (map entry l' ≡ map entry l)
      × (used l' ≡ used l)
unfolding index_groups
index_groups-Numbered i [] h = ([], refl, tt, refl, refl)
index_groups-Numbered i (g ∷ l) ((j, xs, m), h) =
    let (g', run, moved) = index_set-Moved j i g xs m in
    let (l', rest, n, same, u) = index_groups-Numbered (suc i) l h in
    (
      g' ∷ l',
      rw (run, rest),
      ((moved.servers, moved.member), n),
      rw (moved.same, same),
      omega (arith, u, moved.size),
    )
