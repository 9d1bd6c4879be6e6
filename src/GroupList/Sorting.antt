-- ===== src/GroupList/Sorting.antt =====
-- The distribution of a client with replica groups: the groups may change places.
use mathlib.Core.List.{Permᴰ, Perm}
use mathlib.Core.List.Perm
use arcus_c_client.Prelude.{
  All, All-perm_data, ℕ, suc, ◌≡◌, refl, ap, ◌∙◌, inl, inr, Bool, true, false, Option, none, some,
  take, drop, List, [], ◌∷◌, ◌++◌, ◌&&◌, not, length, length-perm, map, arith, Bool-cases, ltb,
  ◌==◌, if◌then◌else◌, perm-map, length-map,
}
use arcus_c_client.ReturnCode.{ReturnCode, success, memory_allocation_failure, errno}
use arcus_c_client.Rgroup.{Rgroup, ◌>>=◌}
use arcus_c_client.Server.{Server}
use arcus_c_client.Ring.{Distribution}
use arcus_c_client.Ketama.{KetamaInfo}
use arcus_c_client.GroupList.{RgroupClient, RgroupOutside}
use arcus_c_client.GroupList.Removal.{rgroup_compare, rgroup_sort}
use arcus_c_client.GroupList.Ring.{
  build_rgroups, update_continuum_based_on_rgroups, run_rgroup_distribution, add_group_points,
  record_error, group_share, group_item_cmp, is_spy,
}
use arcus_c_client.GroupList.Members.{Member, Numbered, used, entry, WellFormed}
use arcus_c_client.GroupList.Renumber.{index_groups-Numbered}
use arcus_c_client.GroupList.Add.{Same, Same-refl, Same-trans}

-- The sort of the C library permutes what it sorts.
abbrev pub SortsGroups : RgroupOutside → Type 0
SortsGroups o = (l : List Rgroup) → Permᴰ l (o.sort_rgroups rgroup_compare l)

-- The only distribution of a client with replica groups, without ejection of hosts.
pub record IsSpy (c : RgroupClient) : Type 0 where
  pub distribution : c.distribution ≡ Distribution.consistent_ketama_spy
  pub ejecting : c.auto_eject_hosts ≡ false

pub IsSpy-Same : (c c' : RgroupClient) → Same c c' → IsSpy c → IsSpy c'
IsSpy-Same c c' s h = record {
  distribution = s.distribution ∙ h.distribution;
  ejecting = s.ejecting ∙ h.ejecting;
}

-- A client with the same groups, perhaps in other places.
pub record Rearranged (c c' : RgroupClient) : Type 0 where
  pub well_formed : WellFormed c'
  pub entries : Perm (map entry c'.rgroups) (map entry c.rgroups)
  pub same : Same c c'

Rearranged-refl : (c : RgroupClient) → WellFormed c → Rearranged c c
Rearranged-refl c w = record {
  well_formed = w;
  entries = Perm.refl (map entry c.rgroups);
  same = Same-refl c;
}

Numbered-All :
    (i : ℕ) (l : List Rgroup)
    → Numbered i l
    → All (λ g. (j : ℕ) × (xs : List Server) × Member j g xs) l
Numbered-All i [] h = tt
Numbered-All i (g ∷ l) ((xs, m), h) = ((i, xs, m), Numbered-All (suc i) l h)

used-perm : {l r : List Rgroup} → Permᴰ l r → used l ≡ used r
used-perm Permᴰ.nil = refl
used-perm (Permᴰ.cons e p) = omega (arith, used-perm p, ap (λ (g : Rgroup). g.nreplica) e)
used-perm (Permᴰ.swap e f) =
    omega (arith, ap (λ (g : Rgroup). g.nreplica) e, ap (λ (g : Rgroup). g.nreplica) f)
used-perm (Permᴰ.trans p q) = used-perm p ∙ used-perm q

module _ (o : RgroupOutside) (sorts : SortsGroups o) where
  rgroup_sort-Rearranged :
      (c : RgroupClient)
      → WellFormed c
      → (c' : RgroupClient) × (rgroup_sort o c ≡ some c') × Rearranged c c'
  unfolding rgroup_sort
  rgroup_sort-Rearranged c w = elim (Bool-cases (ltb 0 c.rgroup_ntotal)) [
    | inr e ↦ (c, simp e refl, Rearranged-refl c w)
    | inl e ↦
        let p = sorts c.rgroups in
        let (l, run, n, same, u) =
          index_groups-Numbered 0 (o.sort_rgroups rgroup_compare c.rgroups)
            (All-perm_data _ p (Numbered-All 0 c.rgroups w.numbered)) in
        let back : Perm (map entry l) (map entry c.rgroups) =
          rw same (perm-map entry (Perm.symm ∣ p ∣₁)) in
        (
          record c { rgroups = l },
          simp (e, run) refl,
          record {
            well_formed = record {
              numbered = n;
              within = omega (
                arith,
                w.within,
                length-perm back,
                length-map l entry,
                length-map c.rgroups entry,
              );
              total = omega (arith, w.total, u, used-perm p);
              available = w.available;
            };
            entries = back;
            same = record {
              slots = refl;
              servers = refl;
              sorted = refl;
              distribution = refl;
              ejecting = refl;
            };
          },
        )
  ]

-- A result that is there, with a property.
abbrev pub Lands :
    (ReturnCode × RgroupClient → Type 0) → Option (ReturnCode × RgroupClient) → Type 0
Lands P r = (a : ReturnCode × RgroupClient) × (r ≡ some a) × P a

Lands-if :
    (P : ReturnCode × RgroupClient → Type 0) (b : Bool) (x y : Option (ReturnCode × RgroupClient))
    → Lands P x
    → Lands P y
    → Lands P (if b then x else y)
Lands-if P true x y h k = h
Lands-if P false x y h k = k

module _ (o : RgroupOutside) (c : RgroupClient) (w : WellFormed c) where
  abbrev After : ReturnCode × RgroupClient → Type 0
  After r = Rearranged c r.1

  with_error : (rc : ReturnCode) → Lands After (some (record_error c rc))
  unfolding record_error
  with_error rc = (
    record_error c rc,
    refl,
    record {
      well_formed = record {
        numbered = w.numbered;
        within = w.within;
        total = w.total;
        available = w.available;
      };
      entries = Perm.refl (map entry c.rgroups);
      same = record {
        slots = refl;
        servers = refl;
        sorted = refl;
        distribution = refl;
        ejecting = refl;
      };
    },
  )

  with_ring :
      (rc : ReturnCode) (i : Option KetamaInfo) → Lands After (some (rc, record c { info = i }))
  with_ring rc i = (
    (rc, record c { info = i }),
    refl,
    record {
      well_formed = record {
        numbered = w.numbered;
        within = w.within;
        total = w.total;
        available = w.available;
      };
      entries = Perm.refl (map entry c.rgroups);
      same = record {
        slots = refl;
        servers = refl;
        sorted = refl;
        distribution = refl;
        ejecting = refl;
      };
    },
  )

  as_it_was : (rc : ReturnCode) → Lands After (some (rc, c))
  as_it_was rc = ((rc, c), refl, Rearranged-refl c w)

  build-Lands : Lands After (some (build_rgroups o c))
  unfolding build_rgroups
  build-Lands =
      elim (add_group_points o.primitives.signature (group_share o.primitives c.weighted c.rgroups)
          0 c.rgroups (record { items = []; pointer_counter = 0 }))
        as (λ r. Lands After (
          some (elim r [
            | none ↦ record_error c memory_allocation_failure
            | some p ↦ (
              success,
              record c {
                info = some (record {
                  continuum =
                      o.primitives.qsort (group_item_cmp c.rgroups o.slot_memory)
                        (take p.pointer_counter p.items)
                      ++ drop p.pointer_counter p.items;
                  continuum_points_counter = p.pointer_counter;
                });
              },
            )
          ]))) [ none ↦ with_error memory_allocation_failure | some p ↦ with_ring success _ ]

  -- A ring, or an error, is all that the last step leaves.
  ring-Lands : IsSpy c → Lands After (update_continuum_based_on_rgroups o c)
  unfolding update_continuum_based_on_rgroups
  ring-Lands spy =
      let rest : ℕ → Option (ReturnCode × RgroupClient) = λ now.
        if c.auto_eject_hosts
        then none
        else if length c.rgroups == 0
        then some (success, c)
        else if not (o.environment.info_allocated && o.environment.continuum_allocated)
        then some (memory_allocation_failure, c)
        else if is_spy c.distribution
        then some (build_rgroups o c)
        else none in
      let rest-Lands : (now : ℕ) → Lands After (rest now) = λ now.
        simp (spy.ejecting, spy.distribution)
          (Lands-if After (length c.rgroups == 0) _ _ (as_it_was success) (
            Lands-if After (not (o.environment.info_allocated && o.environment.continuum_allocated))
              _ _ (as_it_was memory_allocation_failure) build-Lands)) in
      elim o.environment.pool_master
        as (λ m. Lands After (elim m [
          | some master ↦ some (success, record c { info = master })
          | none ↦ elim o.environment.now [
            | none ↦ some (record_error c errno)
            | some now ↦ rest now
          ]
        ])) [
          | some master ↦ with_ring success master
          | none ↦
              elim o.environment.now
                as (λ n.
                  Lands After
                    (elim n [ none ↦ some (record_error c errno) | some now ↦ rest now ])) [
                      | none ↦ with_error errno
                      | some now ↦ rest-Lands now
                    ]
        ]

module _ (o : RgroupOutside) (sorts : SortsGroups o) where
  -- The distribution of a client keeps its groups, perhaps in other places.
  pub run_rgroup_distribution-Rearranged :
      (c : RgroupClient)
      → WellFormed c
      → IsSpy c
      → (a : ReturnCode × RgroupClient) × (run_rgroup_distribution o c ≡ some a) × Rearranged c a.1
  unfolding run_rgroup_distribution
  run_rgroup_distribution-Rearranged c w spy =
      let sort : (b : Bool)
          → (c' : RgroupClient) × ((if b then rgroup_sort o c else some c) ≡ some c')
            × Rearranged c c' =
        λ b.
          elim b
            as (λ b.
              (c' : RgroupClient) × ((if b then rgroup_sort o c else some c) ≡ some c')
              × Rearranged c c') [
                | true ↦ rgroup_sort-Rearranged o sorts c w
                | false ↦ (c, refl, Rearranged-refl c w)
              ] in
      let (c₁, run, r₁) = sort c.use_sort_hosts in
      let spy₁ = IsSpy-Same c c₁ r₁.same spy in
      let (a, ring, r₂) = ring-Lands o c₁ r₁.well_formed spy₁ in
      (
        a,
        rw (run, ◌>>=◌) (simp spy₁.distribution ring),
        record {
          well_formed = r₂.well_formed;
          entries = Perm.trans r₂.entries r₁.entries;
          same = Same-trans c c₁ a.1 r₁.same r₂.same;
        },
      )
