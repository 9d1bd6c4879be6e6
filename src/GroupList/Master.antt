-- ===== src/GroupList/Master.antt =====
-- `do_memcached_update_rgrouplist_with_master` against its contract: a member of a pool has the groups
-- of the master.
use mathlib.Core.List.{Perm}
use mathlib.Core.List.Perm
use arcus_c_client.Prelude.{
  All, ◌+◌, ◌^◌, ◌<◌, ◌≡◌, refl, sym, ap, ◌∙◌, subst, ◌⊎◌, inl, inr, Bool, true, false, Option,
  some, List, [], ◌∷◌, ◌++◌, length, length-append, length-map, map, arith, append-nil,
  if◌then◌else◌,
}
use arcus_c_client.ReturnCode.{ReturnCode, success, memory_allocation_failure}
use arcus_c_client.Rgroup.{Rgroup, ◌>>=◌}
use arcus_c_client.GroupList.{RgroupClient, RgroupOutside}
use arcus_c_client.GroupList.Removal.{rgroup_prune}
use arcus_c_client.GroupList.Ring.{run_rgroup_distribution}
use arcus_c_client.GroupList.Listing.{rgroup_push}
use arcus_c_client.GroupList.Members.{Entry, entry, WellFormed}
use arcus_c_client.GroupList.Prune.{IsAlive, living, rgroup_prune-Pruned}
use arcus_c_client.GroupList.Add.{Roomy}
use arcus_c_client.GroupList.Sorting.{SortsGroups, IsSpy, run_rgroup_distribution-Rearranged}
use arcus_c_client.GroupList.Push.{IsPushable, pushed, rgroup_push-Pushed}
use arcus_c_client.GroupList.Base.{Looped, Base, pruned-Base}
use arcus_c_client.GroupList.Follow.{
  Followed, follow_groups, apply_followed, update_rgrouplist_with_master,
}
use arcus_c_client.GroupList.Mirror.{
  Mirrored, Mirrored-append, pushed-Mirrored, FollowedWell, follow_groups-FollowedWell,
}

All-behind {ℓ κ} : {A : Type ℓ} (P : A → Type κ) (l r : List A) → All P (l ++ r) → All P r
All-behind P [] r h = h
All-behind P (x ∷ l) r h = All-behind P l r h.1

-- The member's groups are the master's, each once, in any order, or the call is out of memory.
pub record MirrorsAll (master : List Rgroup) (a : ReturnCode × RgroupClient) : Type 0 where
  pub well_formed : WellFormed a.1
  pub outcome :
      ((es : List Entry) × Mirrored master es × Perm (map entry a.1.rgroups) es)
      ⊎ (a.0 ≡ memory_allocation_failure)

-- The steps of what follows the loop.
abbrev marked : RgroupClient → Followed → Option RgroupClient
marked c f =
    if f.prune_flag
    then rgroup_prune false (record c { memc = f.pool; rgroups = f.rgroups })
    else some (record c { memc = f.pool; rgroups = f.rgroups })

push_step :
    (o : RgroupOutside) (c c' : RgroupClient) (f : Followed) (m : Rgroup) (l : List Rgroup)
    → marked c f ≡ some c'
    → f.remaining ≡ m ∷ l
    → apply_followed o c f ≡ rgroup_push o (m ∷ l) c'
unfolding apply_followed
push_step o c c' f m l run e = rw (run, ◌>>=◌) (simp e refl)

end_step :
    (o : RgroupOutside) (c c' : RgroupClient) (f : Followed)
    → marked c f ≡ some c'
    → f.remaining ≡ []
    → apply_followed o c f
      ≡ (if f.prune_flag then run_rgroup_distribution o c' else some (success, c'))
unfolding apply_followed
end_step o c c' f run e = rw (run, ◌>>=◌) (simp e refl)

module _ (o : RgroupOutside) (sorts : SortsGroups o) where
  push-MirrorsAll :
      (c : RgroupClient) (first rest : List Rgroup) (kept : List Entry)
      → WellFormed c
      → IsSpy c
      → map entry c.rgroups ≡ kept
      → Mirrored first kept
      → All IsPushable rest
      → length rest + length c.rgroups < 2 ^ 30
      → (a : ReturnCode × RgroupClient) × (rgroup_push o rest c ≡ some a)
        × MirrorsAll (first ++ rest) a
  push-MirrorsAll c first rest kept w spy e mirrored p few =
      let (a, run, d) = rgroup_push-Pushed o sorts rest c w spy p few in
      (
        a,
        run,
        record {
          well_formed = d.well_formed;
          outcome = elim d.outcome [
            | inl perm ↦ inl (
              kept ++ map pushed rest,
              Mirrored-append first rest kept (map pushed rest) mirrored (pushed-Mirrored rest p),
              subst (λ l. Perm (map entry a.1.rgroups) (l ++ map pushed rest)) e perm,
            )
            | inr (failed, same) ↦ inr failed
          ];
        },
      )

  end-MirrorsAll :
      (c : RgroupClient) (flag : Bool) (first : List Rgroup) (kept : List Entry)
      → WellFormed c
      → IsSpy c
      → map entry c.rgroups ≡ kept
      → Mirrored first kept
      → (a : ReturnCode × RgroupClient) × ((if flag
            then run_rgroup_distribution o c
            else some (success, c))
          ≡ some a)
        × MirrorsAll first a
  end-MirrorsAll c false first kept w spy e mirrored = (
    (success, c),
    refl,
    record {
      well_formed = w;
      outcome = inl (kept, mirrored, subst (λ l. Perm (map entry c.rgroups) l) e (Perm.refl _));
    },
  )
  end-MirrorsAll c true first kept w spy e mirrored =
      let (a, run, d) = run_rgroup_distribution-Rearranged o sorts c w spy in
      (
        a,
        run,
        record {
          well_formed = d.well_formed;
          outcome = inl (kept, mirrored, subst (λ l. Perm (map entry a.1.rgroups) l) e d.entries);
        },
      )

  rest-MirrorsAll :
      (c : RgroupClient) (master : List Rgroup) (f : Followed) (rest : List Rgroup)
      → f.remaining ≡ rest
      → (w : FollowedWell 0 c.rgroups c.memc master f) (c₁ : RgroupClient) → marked c f ≡ some c₁
      → Base c c₁ w.kept
      → master ≡ w.first ++ rest
      → length c₁.rgroups ≡ length w.first
      → All IsPushable master
      → length master + length c.rgroups < 2 ^ 30
      → (a : ReturnCode × RgroupClient) × (apply_followed o c f ≡ some a) × MirrorsAll master a
  rest-MirrorsAll c master f [] e w c₁ base b split size p few =
      let (a, run, d) =
        end-MirrorsAll c₁ f.prune_flag w.first w.kept b.well_formed b.spy b.entries w.mirrored in
      (
        a,
        end_step o c c₁ f base e ∙ run,
        subst (λ l. MirrorsAll l a) (sym (split ∙ append-nil w.first)) d,
      )
  rest-MirrorsAll c master f (m ∷ rest) e w c₁ base b split size p few =
      let more = All-behind IsPushable w.first (m ∷ rest) (subst (All IsPushable) split p) in
      let (a, run, d) =
        push-MirrorsAll c₁ w.first (m ∷ rest) w.kept b.well_formed b.spy b.entries w.mirrored more
          (omega (arith, ap length split, length-append w.first (m ∷ rest), size)) in
      (a, push_step o c c₁ f m rest base e ∙ run, subst (λ l. MirrorsAll l a) (sym split) d)

  apply_followed-MirrorsAll :
      (c : RgroupClient) (master : List Rgroup) (f : Followed) (rest : List Rgroup)
      → f.remaining ≡ rest
      → FollowedWell 0 c.rgroups c.memc master f
      → WellFormed c
      → IsSpy c
      → All IsPushable master
      → length master + length c.rgroups < 2 ^ 30
      → (a : ReturnCode × RgroupClient) × (apply_followed o c f ≡ some a) × MirrorsAll master a
  apply_followed-MirrorsAll c master f rest e w wf spy p few =
      let looped : Looped c f.rgroups f.pool f.prune_flag w.kept = record {
        numbered = w.numbered;
        groups = w.groups;
        entries = w.entries;
        unpruned = w.unpruned;
        total = w.total;
        ntotal = w.ntotal;
        navail = w.navail;
      } in
      let (c₁, base, b) = pruned-Base c f.rgroups f.pool f.prune_flag w.kept looped wf spy in
      let split : master ≡ w.first ++ rest = w.split ∙ ap (λ r. w.first ++ r) e in
      let size : length c₁.rgroups ≡ length w.first =
        sym (length-map c₁.rgroups entry)
        ∙ ap length b.entries
        ∙ sym (ap length w.entries)
        ∙ length-map (living f.rgroups) entry
        ∙ w.size in
      rest-MirrorsAll c master f rest e w c₁ base b split size p few

  emptied-MirrorsAll :
      (c : RgroupClient)
      → WellFormed c
      → IsSpy c
      → (a : ReturnCode × RgroupClient) × ((rgroup_prune true c >>= run_rgroup_distribution o)
          ≡ some a)
        × MirrorsAll [] a
  emptied-MirrorsAll c w spy =
      let (c₁, run, p) = rgroup_prune-Pruned true c w in
      let spy₁ : IsSpy c₁ = record {
        distribution = p.settings.0 ∙ spy.distribution;
        ejecting = p.settings.1 ∙ spy.ejecting;
      } in
      let (a, ring, d) = end-MirrorsAll c₁ true [] [] p.well_formed spy₁ p.kept Mirrored.end in
      (a, rw (run, ◌>>=◌) ring, d)

  -- A member without groups.
  new_member :
      (c : RgroupClient) (m : Rgroup) (master l : List Rgroup)
      → c.rgroups ≡ l
      → WellFormed c
      → IsSpy c
      → All IsAlive c.rgroups
      → Roomy (length c.rgroups) c
      → All IsPushable (m ∷ master)
      → length (m ∷ master) + length c.rgroups < 2 ^ 30
      → (a : ReturnCode × RgroupClient) × ((elim l [
        | [] ↦ rgroup_push o (m ∷ master) c
        | g ∷ rest ↦ follow_groups c.rgroups c.memc (m ∷ master) >>= apply_followed o c
      ])
          ≡ some a)
        × MirrorsAll (m ∷ master) a
  new_member c m master [] e w spy alive room p few =
      push-MirrorsAll c [] (m ∷ master) [] w spy (ap (map entry) e) Mirrored.end p few
  new_member c m master (g ∷ rest) e w spy alive room p few =
      let (f, run, followed) =
        follow_groups-FollowedWell 0 c.rgroups c.memc (m ∷ master) w.numbered alive p
          (omega (arith, room, w.total)) in
      let (a, later, d) =
        apply_followed-MirrorsAll c (m ∷ master) f f.remaining refl followed w spy p few in
      (a, rw (run, ◌>>=◌) later, d)

  emptied :
      (c : RgroupClient) (l : List Rgroup)
      → c.rgroups ≡ l
      → WellFormed c
      → IsSpy c
      → (a : ReturnCode × RgroupClient) × ((elim l [
        | [] ↦ some (success, c)
        | g ∷ rest ↦ rgroup_prune true c >>= run_rgroup_distribution o
      ])
          ≡ some a)
        × MirrorsAll [] a
  emptied c [] e w spy = end-MirrorsAll c false [] [] w spy (ap (map entry) e) Mirrored.end
  emptied c (g ∷ rest) e w spy = emptied-MirrorsAll c w spy

  -- With a sort that permutes, let a pool's member have groups in their places, none dead, the
  -- distribution of such clients, and a pool of three servers for each and one to spare, whatever the groups
  -- are. Let the master's groups have one to three valid addresses and short names, and both together be
  -- fewer than 2^30. Then the update fails no assertion, and either it is out of memory or
  -- the member has a group for each of the master's and no other, in any order: with its name, its master, and its slaves
  -- in any order. The pool's counters are right in any case.
  pub update_rgrouplist_with_master-MirrorsAll :
      (c : RgroupClient) (master : List Rgroup)
      → WellFormed c
      → IsSpy c
      → All IsAlive c.rgroups
      → Roomy (length c.rgroups) c
      → All IsPushable master
      → length master + length c.rgroups < 2 ^ 30
      → (a : ReturnCode × RgroupClient) × (update_rgrouplist_with_master o c master ≡ some a)
        × MirrorsAll master a
  unfolding update_rgrouplist_with_master
  update_rgrouplist_with_master-MirrorsAll c [] w spy alive room p few =
      emptied c c.rgroups refl w spy
  update_rgrouplist_with_master-MirrorsAll c (m ∷ master) w spy alive room p few =
      new_member c m master c.rgroups refl w spy alive room p few
