-- ===== src/Rgroup/Slaves.antt =====
-- The two loops over the slaves of a replica group, on the list of its servers.
use mathlib.Core.List.{Perm, map-append, perm_append_singleton}
use mathlib.Core.List.Perm
use arcus_c_client.Prelude.{
  All, ℕ, zero, suc, ◌+◌, ◌≤◌, ◌<◌, ◌≡◌, refl, sym, ◌∙◌, inl, inr, true, false, none, some, List,
  [], ◌∷◌, ◌++◌, length, length-append, set, get_or, arith, ltb, lt→ltb, map, Bool-cases,
  Option-cases, append_assoc, append-nil, length-set,
}
use arcus_c_client.Server.{Server, is_valid_servername}
use arcus_c_client.Rgroup.{
  Address, UpdateState, slot, ◌>>=◌, find_slave, remove_slaves, insert_slaves,
}
use arcus_c_client.Rgroup.Slots.{Holds, address, slot-pad}
use arcus_c_client.Rgroup.Ops.{server_insert-Becomes, server_remove-Becomes}
use arcus_c_client.Rgroup.Marks.{select, unselect, find_slave-perm, find_slave-le}

-- The slaves that are kept are those of the marked addresses, and `changed` tells of a removal.
pub record Removed (m : Server) (old : List Server) (slaves : List Address) (u u' : UpdateState)
    : Type 0 where
  pub kept : List Server
  pub holds : Holds u'.group (m ∷ kept)
  pub pairs : Perm (map address kept) (select 1 u'.exist slaves)
  pub width : length u'.exist ≡ 3
  pub index_kept : u'.group.rgroup.groupindex ≡ u.group.rgroup.groupindex
  pub unchanged : u'.changed ≡ false → (kept ≡ old) × (u.changed ≡ false)

ltb-false : (n : ℕ) → ltb n n ≡ false
ltb-false n = ground arith

pub remove_slaves-Removed :
    (fuel : ℕ) (m : Server) (done rest : List Server) (slaves : List Address) (u : UpdateState)
    → length rest < fuel
    → length slaves ≤ 2
    → length u.exist ≡ 3
    → Holds u.group (m ∷ done ++ rest)
    → Perm (map address done) (select 1 u.exist slaves)
    → (u' : UpdateState) × (remove_slaves fuel (suc (length done)) slaves u ≡ some u')
      × Removed m (done ++ rest) slaves u u'
unfolding remove_slaves
remove_slaves-Removed zero m done rest slaves u f n w h p = absurd (omega arith)
remove_slaves-Removed (suc fuel) m done [] slaves u f n w h p =
    let e : u.group.rgroup.nreplica ≡ suc (length done) =
      omega (arith, h.nreplica_eq, length-append done []) in
    (
      u,
      rw (e, ltb-false (suc (length done))),
      record {
        kept = done;
        holds = rw append-nil at h;
        pairs = p;
        width = w;
        index_kept = refl;
        unchanged = λ c. (sym (append-nil done), c);
      },
    )
remove_slaves-Removed (suc fuel) m done (s ∷ rest) slaves u f n w h p =
    let more =
      lt→ltb (suc (length done)) u.group.rgroup.nreplica
        (omega (arith, h.nreplica_eq, length-append done (s ∷ rest))) in
    let here : slot u.group.rgroup.replicas (suc (length done)) ≡ some s =
      rw h.replicas_eq
        (slot-pad 3 (m ∷ done) s rest (omega (arith, h.fits, length-append done (s ∷ rest)))) in
    elim (Option-cases (find_slave s 1 u.exist slaves)) [
      | inr (j, e) ↦
          let u₁ : UpdateState = record u { exist = set u.exist j true } in
          let jr = find_slave-le s 1 u.exist slaves j e in
          let index : suc (length done) + 1 ≡ suc (length (done ++ s ∷ [])) =
            omega (arith, length-append done (s ∷ [])) in
          let again = append_assoc done (s ∷ []) rest in
          let (u', run, r) =
            remove_slaves-Removed fuel m (done ++ s ∷ []) rest slaves u₁ (omega arith) n
              (length-set u.exist j true ∙ w) (rw again h)
              (rw map-append (
                Perm.trans (perm_append_singleton (address s) (map address done)) (
                  Perm.trans (Perm.cons (address s) p)
                    (Perm.symm (find_slave-perm s 1 u.exist slaves j (omega arith) e))))) in
          (
            u',
            rw (more, here, ◌>>=◌, e, index) run,
            record {
              kept = r.kept;
              holds = r.holds;
              pairs = r.pairs;
              width = r.width;
              index_kept = r.index_kept;
              unchanged = λ c. ((r.unchanged c).0 ∙ again, (r.unchanged c).1);
            },
          )
      | inl e ↦
          let (g, removed, hg, ig) = server_remove-Becomes u.group (m ∷ done) s rest h in
          let u₁ : UpdateState = record u { group = g; changed = true } in
          let (u', run, r) =
            remove_slaves-Removed fuel m done rest slaves u₁ (omega arith) n w hg p in
          (
            u',
            rw (more, here, ◌>>=◌, e, removed) run,
            record {
              kept = r.kept;
              holds = r.holds;
              pairs = r.pairs;
              width = r.width;
              index_kept = r.index_kept ∙ ig;
              unchanged = λ c. cc ((r.unchanged c).1);
            },
          )
    ]

-- All the unmarked addresses are added as new servers, in their order.
pub record Inserted (m : Server) (old : List Server) (fresh : List Address) (u u' : UpdateState)
    : Type 0 where
  pub slaves : List Server
  pub holds : Holds u'.group (m ∷ slaves)
  pub addresses : map address slaves ≡ map address old ++ fresh
  pub index_kept : u'.group.rgroup.groupindex ≡ u.group.rgroup.groupindex
  pub unchanged : u'.changed ≡ false → (slaves ≡ old) × (u.changed ≡ false)

abbrev pub AllValid : List Address → Type 0
AllValid as' = All (λ a. is_valid_servername a.hostname ≡ true) as'

pub insert_slaves-Inserted :
    (i : ℕ) (as' : List Address) (m : Server) (old : List Server) (u : UpdateState)
    → AllValid as'
    → length old + length (unselect i u.exist as') ≤ 2
    → Holds u.group (m ∷ old)
    → (u' : UpdateState) × (insert_slaves i as' u ≡ some u')
      × Inserted m old (unselect i u.exist as') u u'
unfolding insert_slaves
insert_slaves-Inserted i [] m old u v n h = (
  u,
  refl,
  record {
    slaves = old;
    holds = h;
    addresses = sym (append-nil _);
    index_kept = refl;
    unchanged = λ c. (refl, c);
  },
)
insert_slaves-Inserted i (a ∷ more) m old u v n h = elim (Bool-cases (get_or u.exist i false)) [
  | inl marked ↦ rw marked (insert_slaves-Inserted (suc i) more m old u v.1 (rw marked at n) h)
  | inr new ↦
      let n' : length old + suc (length (unselect (suc i) u.exist more)) ≤ 2 = rw new at n in
      let (s, fresh, (g, run, hg, ig)) =
        server_insert-Becomes u.group (m ∷ old) h none a.hostname a.port (omega arith) v.0
          (inl refl) in
      let u₁ : UpdateState = record u { group = g; changed = true } in
      let (u', later, r) =
        insert_slaves-Inserted (suc i) more m (old ++ s ∷ []) u₁ v.1
          (omega (arith, length-append old (s ∷ []))) hg in
      rw (new, run)
        (
          u',
          later,
          record {
            slaves = r.slaves;
            holds = r.holds;
            addresses =
                r.addresses
                ∙ rw (map-append, fresh.0)
                    (append_assoc (map address old) (a ∷ []) (unselect (suc i) u.exist more));
            index_kept = r.index_kept ∙ ig;
            unchanged = λ c. cc ((r.unchanged c).1);
          },
        )
]
