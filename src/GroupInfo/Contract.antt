-- ===== src/GroupInfo/Contract.antt =====
-- `memcached_rgroup_info_create` against its contract: what a valid group holds.
use arcus_c_client.Prelude.{
  ℕ, suc, ◌≤◌, ◌≡◌, refl, sym, ap, ◌∙◌, inl, inr, true, false, Option, some, List, [], ◌∷◌, All,
  arith, Option-cases, length, get_elem?,
}
use arcus_c_client.Text.{Bytes}
use arcus_c_client.Cluster.{ServerInfo}
use arcus_c_client.GroupInfo.{RgroupInfo, Groups, decrement, check_masters, rgroup_info_create}
use arcus_c_client.GroupInfo.Entries.{entries, masters, slaves, listed, padded}
use arcus_c_client.GroupInfo.Create.{Shape, IsGroup, has_name, Distinct}
use arcus_c_client.GroupInfo.Loops.{add_entries-Grouping}

-- A valid group of a list of entries: the one master of its name, and then the slaves of its name in
-- the order of the list.
pub record Complete (infos : List ServerInfo) (g : RgroupInfo) : Type 0 where
  pub master : ServerInfo
  pub replicas_eq : g.replicas ≡ some master ∷ padded 2 (slaves (entries g.groupname infos))
  pub nreplica_eq : g.nreplica ≡ suc (length (slaves (entries g.groupname infos)))
  pub master_eq : masters (entries g.groupname infos) ≡ master ∷ []
  pub fits : g.nreplica ≤ 3

-- What a caller has of a group.
abbrev pub IsComplete : List ServerInfo → RgroupInfo → Type 0
IsComplete infos g = g.valid ≡ true → Complete infos g

Complete-Shape :
    (infos : List ServerInfo) (g : RgroupInfo) (m : ServerInfo)
    (s : Shape g (entries g.groupname infos))
    → s.master ≡ some m
    → Complete infos g
Complete-Shape infos g m s e =
    let few = s.fits in
    let size : g.nreplica ≡ suc (length (slaves (entries g.groupname infos))) =
      ap (λ (x : RgroupInfo). x.nreplica) s.is_shaped ∙ rw (e, s.slaves_eq) (omega arith) in
    record {
      master = m;
      replicas_eq = ap (λ (x : RgroupInfo). x.replicas) s.is_shaped ∙ rw (e, s.slaves_eq) refl;
      nreplica_eq = size;
      master_eq = s.masters_eq ∙ ap listed e;
      fits = omega (arith, ap length s.slaves_eq);
    }

first_replica :
    (l : List (Option ServerInfo))
    → length l ≡ 3
    → (r : Option ServerInfo) × (get_elem? l 0 ≡ some r)
first_replica [] h = absurd (omega arith)
first_replica (r ∷ l) h = (r, refl)

Shape-first :
    (g : RgroupInfo) (es : List ServerInfo) (m : ServerInfo) (s : Shape g es)
    → get_elem? g.replicas 0 ≡ some (some m)
    → s.master ≡ some m
Shape-first g es m s e =
    let first : get_elem? g.replicas 0 ≡ some s.master =
      ap (λ (x : RgroupInfo). get_elem? x.replicas 0) s.is_shaped in
    cc (e, first)

check_masters-Complete :
    (infos : List ServerInfo) (v : ℕ) (gs : List RgroupInfo)
    → All (IsGroup infos) gs
    → Distinct gs
    → (s : Groups) × (check_masters v gs ≡ some s)
      × All (IsComplete infos) s.groups
      × Distinct s.groups
      × ((n : Bytes) → has_name n s.groups ≡ has_name n gs)
unfolding check_masters
check_masters-Complete infos v [] h d =
    (record { groups = []; valid_ngroup = v }, refl, tt, tt, λ n. refl)
check_masters-Complete infos v (g ∷ gs) h d =
    let (r, first) = first_replica g.replicas h.0.size in
    elim (Option-cases r) [
      | inl e ↦
          let (s, run, all, apart, names) = check_masters-Complete infos (decrement v) gs h.1 d.1 in
          (
            record s { groups = record g { valid = false } ∷ s.groups },
            rw (first, e, run) refl,
            ((λ v'. cc v'), all),
            (names g.groupname ∙ d.0, apart),
            λ n. rw (names n) refl,
          )
      | inr (m, e) ↦
          let (s, run, all, apart, names) = check_masters-Complete infos v gs h.1 d.1 in
          (
            record s { groups = g ∷ s.groups },
            rw (first, e, run) refl,
            (
              (λ v'.
                  Complete-Shape infos g m (h.0.shape v') (
                    Shape-first g (entries g.groupname infos) m (h.0.shape v')
                      (first ∙ ap some e))),
              all,
            ),
            (names g.groupname ∙ d.0, apart),
            λ n. rw (names n) refl,
          )
    ]

-- The groups of a list of servers: those that are valid are complete, no two have one name, and each
-- entry's name is that of a group.
pub record Grouped (infos : List ServerInfo) (s : Groups) : Type 0 where
  pub complete : All (IsComplete infos) s.groups
  pub distinct : Distinct s.groups
  pub covers : (name : Bytes) → has_name name s.groups ≡ false → entries name infos ≡ []

-- For any list of servers the call stays within its arrays and follows no NULL. The groups have
-- distinct names, every entry's name is that of a group, and a valid group holds the only master of
-- its name and then all slaves of its name in the list's order, at most three servers in all.
pub rgroup_info_create-Grouped :
    (infos : List ServerInfo) → (s : Groups) × (rgroup_info_create infos ≡ some s) × Grouped infos s
unfolding rgroup_info_create
rgroup_info_create-Grouped infos =
    let start : Groups = record { groups = []; valid_ngroup = 0 } in
    let (s₁, run₁, h) =
      add_entries-Grouping [] infos start
        (record { groups = tt; distinct = tt; covers = λ n _. refl }) in
    let (s₂, run₂, all, apart, names) =
      check_masters-Complete infos s₁.valid_ngroup s₁.groups h.groups h.distinct in
    (
      s₂,
      rw run₁ run₂,
      record {
        complete = all;
        distinct = apart;
        covers = λ n free. h.covers n (sym (names n) ∙ free);
      },
    )
