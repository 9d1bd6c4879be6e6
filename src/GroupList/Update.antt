-- ===== src/GroupList/Update.antt =====
-- `do_memcached_update_rgrouplist` against its contract: the groups follow the list of servers.
use mathlib.Core.List.{Perm}
use mathlib.Core.List.Perm
use mathlib.Core.Option.{some-injective}
use arcus_c_client.Prelude.{
  All, ◌+◌, ◌^◌, ◌≤◌, ◌<◌, ◌≡◌, refl, sym, ap, ◌∙◌, subst, ◌⊎◌, inl, inr, Bool, true, false, Option,
  some, List, [], ◌∷◌, length, map, arith, Bool-cases, if◌then◌else◌,
}
use arcus_c_client.ReturnCode.{ReturnCode, success, memory_allocation_failure}
use arcus_c_client.Cluster.{ServerInfo}
use arcus_c_client.GroupInfo.{RgroupInfo, Groups, rgroup_info_create}
use arcus_c_client.GroupInfo.Create.{Distinct}
use arcus_c_client.GroupInfo.Contract.{rgroup_info_create-Grouped}
use arcus_c_client.Rgroup.{Rgroup, ◌>>=◌}
use arcus_c_client.GroupList.{RgroupClient, RgroupOutside, rgroup_expand}
use arcus_c_client.GroupList.Removal.{rgroup_prune}
use arcus_c_client.GroupList.Ring.{record_error, run_rgroup_distribution}
use arcus_c_client.GroupList.Listing.{find_info, match_groups, apply_matched, update_rgrouplist}
use arcus_c_client.GroupList.Members.{entry, WellFormed}
use arcus_c_client.GroupList.Prune.{IsAlive, rgroup_prune-Pruned}
use arcus_c_client.GroupList.Add.{Roomy}
use arcus_c_client.GroupList.Expand.{rgroup_expand-Expanded}
use arcus_c_client.GroupList.Sorting.{SortsGroups, IsSpy, run_rgroup_distribution-Rearranged}
use arcus_c_client.GroupList.Asked.{Ready}
use arcus_c_client.GroupList.Names.{DistinctGroups, valid_count}
use arcus_c_client.GroupList.Becomes.{Becoming}
use arcus_c_client.GroupList.Match.{match_groups-MatchedWell}
use arcus_c_client.GroupList.Ready.{IsFit, IsListing, IsComplete-Ready}
use arcus_c_client.GroupList.Apply.{Served, apply_matched-Served}

-- What the update leaves, unless it is out of memory and changes no group.
pub record Listed (servers : List ServerInfo) (infos : List RgroupInfo) (c : RgroupClient)
    (r : (ReturnCode × RgroupClient) × Bool) : Type 0 where
  pub well_formed : WellFormed r.0.1
  pub listing : All (IsListing servers) infos
  pub outcome :
      Served infos c.rgroups r
      ⊎ ((r.0.0 ≡ memory_allocation_failure) × (r.0.1.rgroups ≡ c.rgroups) × (r.1 ≡ false))

-- A client that the loop can run over.
pub record IsCurrent (c : RgroupClient) : Type 0 where
  pub well_formed : WellFormed c
  pub spy : IsSpy c
  pub alive : All IsAlive c.rgroups
  pub distinct : DistinctGroups c.rgroups
  pub room : Roomy (length c.rgroups) c

none_made : (s : Groups) → rgroup_info_create [] ≡ some s → [] ≡ s.groups
unfolding rgroup_info_create
none_made s e =
    ap (λ (x : Groups). x.groups) (some-injective (record { groups = []; valid_ngroup = 0 }) s e)

valid_count_le : (infos : List RgroupInfo) → valid_count infos ≤ length infos
valid_count_le [] = omega arith
valid_count_le (g ∷ rest) = ground (arith, valid_count_le rest)

module _ (o : RgroupOutside) (sorts : SortsGroups o) where
  expanded-Served :
      (infos : List RgroupInfo) (c : RgroupClient)
      → IsCurrent c
      → Distinct infos
      → All Ready infos
      → length infos ≤ c.rgroup_ntotal
      → length infos < 2 ^ 32
      → Roomy (length infos) c
      → (r : (ReturnCode × RgroupClient) × Bool) × ((match_groups c.rgroups c.memc infos
              (valid_count infos)
            >>= λ m. apply_matched o c m)
          ≡ some r)
        × WellFormed r.0.1
        × Served infos c.rgroups r
  expanded-Served infos c now apart ready slots few room =
      let (m, run, w) =
        match_groups-MatchedWell 0 c.rgroups c.memc infos now.well_formed.numbered now.alive
          now.distinct apart ready (omega (arith, valid_count_le infos))
          (omega (arith, now.room, now.well_formed.total)) in
      let (r, later, good, served) =
        apply_matched-Served o sorts infos c m w now.well_formed now.spy now.distinct slots room in
      (r, rw (run, ◌>>=◌) later, good, served)

  error-Listed :
      (servers : List ServerInfo) (infos : List RgroupInfo) (c c' : RgroupClient)
      → WellFormed c'
      → c'.rgroups ≡ c.rgroups
      → All (IsListing servers) infos
      → Listed servers infos c (record_error c' memory_allocation_failure, false)
  unfolding record_error
  error-Listed servers infos c c' w same listing = record {
    well_formed = record {
      numbered = w.numbered;
      within = w.within;
      total = w.total;
      available = w.available;
    };
    listing = listing;
    outcome = inr (refl, same, refl);
  }

  all_gone : (l : List Rgroup) → Becoming [] l []
  unfolding find_info
  all_gone [] = Becoming.end
  all_gone (g ∷ l) = Becoming.gone refl (all_gone l)

  no_servers :
      (c : RgroupClient) (l : List Rgroup)
      → c.rgroups ≡ l
      → IsCurrent c
      → (r : (ReturnCode × RgroupClient) × Bool) × ((elim l [
        | [] ↦ some ((success, c), false)
        | g ∷ rest ↦
            rgroup_prune true c >>= λ mc'. run_rgroup_distribution o mc' >>= λ r. some (r, true)
      ])
          ≡ some r)
        × Listed [] [] c r
  no_servers c [] e now = (
    ((success, c), false),
    refl,
    record {
      well_formed = now.well_formed;
      listing = tt;
      outcome = inl (record {
        kept = [];
        becoming = all_gone c.rgroups;
        entries = subst (λ l. Perm (map entry l) []) (sym e) (Perm.refl []);
        quiet = λ _. (refl, refl);
      });
    },
  )
  no_servers c (g ∷ rest) e now =
      let (c₁, run, p) = rgroup_prune-Pruned true c now.well_formed in
      let spy₁ : IsSpy c₁ = record {
        distribution = p.settings.0 ∙ now.spy.distribution;
        ejecting = p.settings.1 ∙ now.spy.ejecting;
      } in
      let (a, ring, d) = run_rgroup_distribution-Rearranged o sorts c₁ p.well_formed spy₁ in
      (
        (a, true),
        rw (run, ◌>>=◌) (rw ring refl),
        record {
          well_formed = d.well_formed;
          listing = tt;
          outcome = inl (record {
            kept = [];
            becoming = all_gone c.rgroups;
            entries =
                Perm.trans d.entries
                  (subst (λ l. Perm (map entry c₁.rgroups) l) p.kept (Perm.refl _));
            quiet = λ q. cc q;
          });
        },
      )

  update_step :
      (server : ServerInfo) (servers : List ServerInfo) (c : RgroupClient) (s : Groups)
      (r : Bool × RgroupClient)
      → rgroup_info_create (server ∷ servers) ≡ some s
      → rgroup_expand o (length s.groups) (length (server ∷ servers)) c ≡ some r
      → update_rgrouplist o c (server ∷ servers) ≡ (
          if o.info_allocated
          then (if r.0
              then (match_groups r.1.rgroups r.1.memc s.groups s.valid_ngroup >>= λ m.
                  apply_matched o r.1 m)
              else some (record_error r.1 memory_allocation_failure, false))
          else some (record_error c memory_allocation_failure, false))
  unfolding update_rgrouplist
  update_step server servers c s r made run = rw (made, ◌>>=◌, run) refl

  expanded-IsCurrent :
      (c c₁ : RgroupClient)
      → IsCurrent c
      → WellFormed c₁
      → c₁.rgroups ≡ c.rgroups
      → c.memc.server_ntotal ≤ c₁.memc.server_ntotal
      → (c₁.distribution ≡ c.distribution) × (c₁.auto_eject_hosts ≡ c.auto_eject_hosts)
      → IsCurrent c₁
  expanded-IsCurrent c c₁ now w same more settings = record {
    well_formed = w;
    spy = record {
      distribution = settings.0 ∙ now.spy.distribution;
      ejecting = settings.1 ∙ now.spy.ejecting;
    };
    alive = subst (All IsAlive) (sym same) now.alive;
    distinct = subst DistinctGroups (sym same) now.distinct;
    room = omega (arith, now.room, ap length same);
  }

  some_servers :
      (server : ServerInfo) (servers : List ServerInfo) (c : RgroupClient) (s : Groups)
      → IsCurrent c
      → All IsFit (server ∷ servers)
      → rgroup_info_create (server ∷ servers) ≡ some s
      → s.valid_ngroup ≡ valid_count s.groups
      → Roomy (length s.groups) c
      → length s.groups + 10 < 2 ^ 32
      → length (server ∷ servers) + 1 < 2 ^ 32
      → (r : (ReturnCode × RgroupClient) × Bool) × (update_rgrouplist o c (server ∷ servers)
          ≡ some r)
        × Listed (server ∷ servers) s.groups c r
  some_servers server servers c s now fit made exact room few few' =
      let (s', made', grouped) = rgroup_info_create-Grouped (server ∷ servers) in
      let same : s' ≡ s = some-injective s' s (sym made' ∙ made) in
      let (ready, listing) =
        subst (λ (s : Groups). All Ready s.groups × All (IsListing (server ∷ servers)) s.groups)
          same (IsComplete-Ready (server ∷ servers) s'.groups fit grouped.complete) in
      let apart : Distinct s.groups =
        subst (λ (s : Groups). Distinct s.groups) same grouped.distinct in
      let (e, run, x) =
        rgroup_expand-Expanded o (length s.groups) (length (server ∷ servers)) c now.well_formed few
          few' in
      let step = update_step server servers c s e made run in
      let inner : Option ((ReturnCode × RgroupClient) × Bool) =
        match_groups e.1.rgroups e.1.memc s.groups s.valid_ngroup >>= λ m. apply_matched o e.1 m in
      let outer : Option ((ReturnCode × RgroupClient) × Bool) =
        some (record_error e.1 memory_allocation_failure, false) in
      let unlisted : Option ((ReturnCode × RgroupClient) × Bool) =
        some (record_error c memory_allocation_failure, false) in
      elim (Bool-cases o.info_allocated) [
        | inr a ↦ (
          (record_error c memory_allocation_failure, false),
          step ∙ ap (λ b. if b then (if e.0 then inner else outer) else unlisted) a,
          error-Listed (server ∷ servers) s.groups c c now.well_formed refl listing,
        )
        | inl a ↦
            let step₁ = step ∙ ap (λ b. if b then (if e.0 then inner else outer) else unlisted) a in
            elim (Bool-cases e.0) [
              | inr f ↦ (
                (record_error e.1 memory_allocation_failure, false),
                step₁ ∙ ap (λ b. if b then inner else outer) f,
                error-Listed (server ∷ servers) s.groups c e.1 x.well_formed x.kept listing,
              )
              | inl t ↦
                  let now₁ =
                    expanded-IsCurrent c e.1 now x.well_formed x.kept x.more_servers
                      (x.settings.0, x.settings.1) in
                  let (r, later, good, served) =
                    expanded-Served s.groups e.1 now₁ apart ready (x.enough_slots t)
                      (omega (arith, few)) (omega (arith, room, x.more_servers)) in
                  (
                    r,
                    step₁
                        ∙ ap (λ b. if b then inner else outer) t
                        ∙ ap
                            (λ v. match_groups e.1.rgroups e.1.memc s.groups v >>= λ m.
                              apply_matched o e.1 m)
                            exact
                        ∙ later,
                    record {
                      well_formed = good;
                      listing = listing;
                      outcome = inl (subst (λ l. Served s.groups l r) x.kept served);
                    },
                  )
            ]
      ]

  -- With a sort that permutes, let a client have groups in their places, none dead and no two of one name, with the
  -- distribution of such clients, and a pool of three servers and one to spare for each of them and
  -- for each group of the list. Let the list's host and group names fit and the count of its valid groups
  -- be exact. Then the update fails no assertion, follows no NULL and writes within
  -- its array, and leaves the pool's counters right. Unless it is out of memory and keeps all groups, each group that
  -- a valid entry names has its master, and its slaves in any order, each that an invalid one names is
  -- as it was, the others are gone, and the new valid ones are added. A call that reports no change
  -- and is not out of memory succeeds and leaves every group's name, weight and addresses.
  pub update_rgrouplist-Listed :
      (c : RgroupClient) (servers : List ServerInfo) (s : Groups)
      → IsCurrent c
      → All IsFit servers
      → rgroup_info_create servers ≡ some s
      → s.valid_ngroup ≡ valid_count s.groups
      → Roomy (length s.groups) c
      → length s.groups + 10 < 2 ^ 32
      → length servers + 1 < 2 ^ 32
      → (r : (ReturnCode × RgroupClient) × Bool) × (update_rgrouplist o c servers ≡ some r)
        × Listed servers s.groups c r
  update_rgrouplist-Listed c [] s now fit made exact room few few' =
      let (r, run, l) = no_servers c c.rgroups refl now in
      (r, unfold update_rgrouplist in run, subst (λ g. Listed [] g c r) (none_made s made) l)
  update_rgrouplist-Listed c (server ∷ servers) s now fit made exact room few few' =
      some_servers server servers c s now fit made exact room few few'
