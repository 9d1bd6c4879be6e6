-- ===== src/GroupList/Apply.antt =====
-- The end of `do_memcached_update_rgrouplist`: the prune of dead groups and the push of new ones.
use mathlib.Core.List.{Perm}
use mathlib.Core.List.Perm
use arcus_c_client.Prelude.{
  ◌+◌, ◌≤◌, ◌≡◌, refl, sym, ap, ◌∙◌, subst, inl, inr, Bool, true, false, some, List, [], ◌∷◌, ◌++◌,
  length, length-map, map, arith, append-nil, Bool-cases, ltb, leb, if◌then◌else◌,
}
use arcus_c_client.ReturnCode.{ReturnCode, success}
use arcus_c_client.GroupInfo.{RgroupInfo}
use arcus_c_client.Rgroup.{Rgroup}
use arcus_c_client.GroupList.{RgroupClient, RgroupOutside, add_infos}
use arcus_c_client.GroupList.Removal.{rgroup_prune}
use arcus_c_client.GroupList.Ring.{run_rgroup_distribution}
use arcus_c_client.GroupList.Listing.{Matched, rgroup_push_with_groupinfo, apply_matched}
use arcus_c_client.GroupList.Members.{Entry, entry, WellFormed}
use arcus_c_client.GroupList.Add.{Roomy}
use arcus_c_client.GroupList.Sorting.{
  SortsGroups, IsSpy, IsSpy-Same, run_rgroup_distribution-Rearranged,
}
use arcus_c_client.GroupList.Asked.{asked, add_infos-Added}
use arcus_c_client.GroupList.Names.{DistinctGroups, asked_new, covered-asked_new, length-asked}
use arcus_c_client.GroupList.Base.{Looped, pruned-Base}
use arcus_c_client.GroupList.Becomes.{Becoming, Becoming-length}
use arcus_c_client.GroupList.Match.{MatchedWell}

-- The client's groups after the update: each that an entry names follows it or stays, the others are
-- gone, and the valid entries of new names have become groups.
pub record Served (infos : List RgroupInfo) (l : List Rgroup)
    (r : (ReturnCode × RgroupClient) × Bool) : Type 0 where
  pub kept : List Entry
  pub becoming : Becoming infos l kept
  pub entries : Perm (map entry r.0.1.rgroups) (kept ++ asked_new l infos)
  pub quiet : r.1 ≡ false → (r.0.0 ≡ success) × (map entry r.0.1.rgroups ≡ map entry l)

nothing_asked : (l : List Entry) → length l ≡ 0 → l ≡ []
nothing_asked [] h = refl
nothing_asked (e ∷ l) h = absurd (omega arith)

looped :
    (infos : List RgroupInfo) (c : RgroupClient) (m : Matched)
    (w : MatchedWell 0 c.rgroups c.memc infos m)
    → Looped c m.rgroups m.pool m.prune_flag w.kept
looped infos c m w = record {
  numbered = w.numbered;
  groups = w.groups;
  entries = w.entries;
  unpruned = w.unpruned;
  total = w.total;
  ntotal = w.ntotal;
  navail = w.navail;
}

-- The steps of what follows the loop.
push_step :
    (o : RgroupOutside) (c c' : RgroupClient) (m : Matched) (a : ReturnCode × RgroupClient)
    → ltb 0 m.validcount ≡ true
    → (if m.prune_flag
        then rgroup_prune false (record c { memc = m.pool; rgroups = m.rgroups })
        else some (record c { memc = m.pool; rgroups = m.rgroups }))
      ≡ some c'
    → rgroup_push_with_groupinfo o m.groupinfo c' ≡ some a
    → apply_matched o c m ≡ some (a, true)
unfolding apply_matched
push_step o c c' m a v p q = rw (v, p, q) refl

prune_step :
    (o : RgroupOutside) (c c' : RgroupClient) (m : Matched) (a : ReturnCode × RgroupClient)
    → ltb 0 m.validcount ≡ false
    → m.prune_flag ≡ true
    → rgroup_prune false (record c { memc = m.pool; rgroups = m.rgroups }) ≡ some c'
    → run_rgroup_distribution o c' ≡ some a
    → apply_matched o c m ≡ some (a, true)
unfolding apply_matched
prune_step o c c' m a v p q r = rw (v, p, q) (rw r refl)

rest_step :
    (o : RgroupOutside) (c : RgroupClient) (m : Matched)
    → ltb 0 m.validcount ≡ false
    → m.prune_flag ≡ false
    → apply_matched o c m
      ≡ some ((success, record c { memc = m.pool; rgroups = m.rgroups }), m.changed)
unfolding apply_matched
rest_step o c m v p = rw (v, p) refl

push-steps :
    (o : RgroupOutside) (infos : List RgroupInfo) (c c' : RgroupClient)
    → length infos ≤ c.rgroup_ntotal
    → add_infos o infos c ≡ some c'
    → rgroup_push_with_groupinfo o infos c ≡ run_rgroup_distribution o c'
unfolding rgroup_push_with_groupinfo
push-steps o infos c c' h run =
    let room : leb (length infos) c.rgroup_ntotal ≡ true = ground arith in rw (room, run) refl

module _ (o : RgroupOutside) (sorts : SortsGroups o) where
  pub apply_matched-Served :
      (infos : List RgroupInfo) (c : RgroupClient) (m : Matched)
      (w : MatchedWell 0 c.rgroups c.memc infos m)
      → WellFormed c
      → IsSpy c
      → DistinctGroups c.rgroups
      → length infos ≤ c.rgroup_ntotal
      → Roomy (length infos) c
      → (r : (ReturnCode × RgroupClient) × Bool) × (apply_matched o c m ≡ some r)
        × WellFormed r.0.1
        × Served infos c.rgroups r
  apply_matched-Served infos c m w wf spy distinct slots room =
      let (c₁, base, b) =
        pruned-Base c m.rgroups m.pool m.prune_flag w.kept (looped infos c m w) wf spy in
      let groups : length c₁.rgroups ≡ length w.kept =
        sym (length-map c₁.rgroups entry) ∙ ap length b.entries in
      let fits : length c₁.rgroups + length (asked m.groupinfo) ≤ length infos = omega (
        arith,
        groups,
        Becoming-length infos c.rgroups w.kept distinct w.becoming,
        covered-asked_new c.rgroups infos,
        ap length w.new,
      ) in
      elim (Bool-cases (ltb 0 m.validcount)) [
        | inl v ↦
            let (c₂, run, a) =
              add_infos-Added o m.groupinfo c₁ b.well_formed w.ready
                (omega (arith, fits, slots, b.slots)) (omega (arith, fits, room, b.servers)) in
            let (r, ring, d) =
              run_rgroup_distribution-Rearranged o sorts c₂ a.well_formed
                (IsSpy-Same c₁ c₂ a.same b.spy) in
            (
              (r, true),
              push_step o c c₁ m r v base (
                  push-steps o m.groupinfo c₁ c₂ (omega (arith, w.size, slots, b.slots)) run
                  ∙ ring),
              d.well_formed,
              record {
                kept = w.kept;
                becoming = w.becoming;
                entries = Perm.trans d.entries (
                    subst (λ l. Perm (map entry c₂.rgroups) l)
                      (a.entries ∙ (λ i. b.entries i ++ w.new i)) (Perm.refl _));
                quiet = λ q. cc q;
              },
            )
        | inr v ↦
            let none_asked : asked_new c.rgroups infos ≡ [] =
              sym w.new
              ∙ nothing_asked (asked m.groupinfo)
                  (ground (arith, v, w.count, length-asked m.groupinfo)) in
            let end : w.kept ≡ w.kept ++ asked_new c.rgroups infos =
              sym (append-nil w.kept) ∙ ap (◌++◌ w.kept) (sym none_asked) in
            elim (Bool-cases m.prune_flag) [
              | inl p ↦
                  let (r, ring, d) =
                    run_rgroup_distribution-Rearranged o sorts c₁ b.well_formed b.spy in
                  (
                    (r, true),
                    prune_step o c c₁ m r v p
                        (ap
                            (λ (b : Bool).
                              if b
                              then rgroup_prune false
                                  (record c { memc = m.pool; rgroups = m.rgroups })
                              else some (record c { memc = m.pool; rgroups = m.rgroups }))
                            (sym p)
                          ∙ base)
                        ring,
                    d.well_formed,
                    record {
                      kept = w.kept;
                      becoming = w.becoming;
                      entries = Perm.trans d.entries (
                          subst (λ l. Perm (map entry c₁.rgroups) l) (b.entries ∙ end)
                            (Perm.refl _));
                      quiet = λ q. cc q;
                    },
                  )
              | inr p ↦
                  let marked : RgroupClient = record c { memc = m.pool; rgroups = m.rgroups } in
                  (
                    ((success, marked), m.changed),
                    rest_step o c m v p,
                    record {
                      numbered = w.numbered;
                      within = omega (arith, w.groups, wf.within);
                      total = omega (arith, w.total, w.ntotal, wf.total);
                      available = w.navail wf.available;
                    },
                    record {
                      kept = w.kept;
                      becoming = w.becoming;
                      entries =
                          subst (λ l. Perm (map entry m.rgroups) l)
                            (ap (map entry) (sym (w.unpruned p)) ∙ w.entries ∙ end) (Perm.refl _);
                      quiet = λ q. (refl, w.quiet p q);
                    },
                  )
            ]
      ]
