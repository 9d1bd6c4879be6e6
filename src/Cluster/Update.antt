-- ===== src/Cluster/Update.antt =====
-- `do_memcached_update_serverlist` against its contract: the servers have the new addresses.
use mathlib.Core.List.{Perm}
use mathlib.Core.List.Perm
use arcus_c_client.Prelude.{
  ◌<◌, ◌≡◌, refl, sym, ap, subst, inl, inr, Bool, true, false, List, [], ◌∷◌, ◌++◌, map, All, arith,
  Bool-cases, length, if◌then◌else◌, perm-map, length-map, append-nil, ltb,
}
use arcus_c_client.ReturnCode.{ReturnCode, success}
use arcus_c_client.Server.{Server, is_valid_servername}
use arcus_c_client.Rgroup.{Address}
use arcus_c_client.Rgroup.Slots.{address}
use arcus_c_client.Ketama.{update_continuum}
use arcus_c_client.Ketama.Failures.{update_continuum-Kept}
use arcus_c_client.Cluster.{
  ServerInfo, Cluster, Outside, Marked, mark_servers, server_prune, push_infos, with_servers,
  compare_servers, count_first, sort_hosts, is_consistent, run_distribution, pushed,
  server_push_with_serverinfo, apply_marks, update_serverlist,
}
use arcus_c_client.Cluster.Membership.{
  info_address, waiting, living, IsAlive, IsNew, IsNamed, waiting-All, living-All, Sorted,
  mark_servers-Sorted, server_prune-living, push_infos-waiting,
}

addresses : Cluster → List Address
addresses mc = map address mc.client.servers

-- The sort of the C library permutes what it sorts.
abbrev pub Sorts : Outside → Type 0
Sorts o = (l : List Server) → Perm (o.sort_servers compare_servers l) l

pub map-address_first : (l : List Server) → map address (count_first l) ≡ map address l
unfolding count_first
map-address_first [] = refl
map-address_first (s ∷ l) = refl

abbrev HasName : Address → Type 0
HasName a = is_valid_servername a.hostname ≡ true

names-HasName : (infos : List ServerInfo) → All IsNamed infos → All HasName (map info_address infos)
names-HasName [] h = tt
names-HasName (info ∷ rest) h = (h.0, names-HasName rest h.1)

names-IsNamed : (infos : List ServerInfo) → All HasName (map info_address infos) → All IsNamed infos
names-IsNamed [] h = tt
names-IsNamed (info ∷ rest) h = (h.0, names-IsNamed rest h.1)

length_zero {ℓ} : {A : Type ℓ} (l : List A) → length l ≡ 0 → l ≡ []
length_zero [] h = refl
length_zero (x ∷ l) h = absurd (omega arith)

module _ (o : Outside) (sorts : Sorts o) where
  sort_hosts-perm : (l : List Server) → Perm (map address (sort_hosts o l)) (map address l)
  unfolding sort_hosts
  sort_hosts-perm l =
      rw (map-address_first (o.sort_servers compare_servers l)) (perm-map address (sorts l))

  -- The distribution leaves a client with the addresses that it had.
  run_distribution-perm : (mc : Cluster) → Perm (addresses (run_distribution o mc).1) (addresses mc)
  unfolding run_distribution addresses
  run_distribution-perm mc =
      let sort : (b : Bool)
          → Perm (addresses (if b then with_servers mc (sort_hosts o mc.client.servers) else mc))
              (addresses mc) =
        λ b.
          elim b
            as (λ (b : Bool).
              Perm (addresses (if b then with_servers mc (sort_hosts o mc.client.servers) else mc))
                (addresses mc)) [
                  | true ↦ sort_hosts-perm mc.client.servers
                  | false ↦ Perm.refl (addresses mc)
                ] in
      let mc' : Cluster =
        if mc.use_sort_hosts then with_servers mc (sort_hosts o mc.client.servers) else mc in
      let ring = (update_continuum-Kept o.primitives o.environment mc'.client).0 in
      elim (is_consistent mc'.client.distribution)
        as (λ (b : Bool).
          Perm
            (addresses
              (if◌then◌else◌ {A = ReturnCode × Cluster} b
                (let r = update_continuum o.primitives o.environment mc'.client in
                  (r.0, record mc' { client = r.1 }))
                (success, mc')).1)
            (addresses mc)) [
              | true ↦ simp ring (sort mc.use_sort_hosts)
              | false ↦ sort mc.use_sort_hosts
            ]

  push-steps :
      (info : ServerInfo) (rest : List ServerInfo) (mc : Cluster)
      → mc.use_udp ≡ false
      → o.list_allocated ≡ true
      → server_push_with_serverinfo o (info ∷ rest) mc ≡ pushed o (push_infos o (info ∷ rest) mc)
  unfolding server_push_with_serverinfo
  push-steps info rest mc tcp room = rw (tcp, room) refl

  push-perm :
      (infos : List ServerInfo) (mc : Cluster)
      → 0 < length (waiting infos)
      → mc.use_udp ≡ false
      → o.list_allocated ≡ true
      → All IsNamed infos
      → Perm (addresses (server_push_with_serverinfo o infos mc).1) (addresses mc ++ waiting infos)
  unfolding pushed addresses
  push-perm [] mc some_wait tcp room named = absurd (omega arith)
  push-perm (info ∷ rest) mc some_wait tcp room named =
      let (l, v, run, same) = push_infos-waiting o (info ∷ rest) mc named in
      let mc₁ : Cluster = record (with_servers mc l) { server_info_version = v } in
      let mc₂ : Cluster = with_servers mc₁ (count_first l) in
      let end : Perm (map address (run_distribution o mc₂).1.client.servers)
          (map address mc.client.servers ++ waiting (info ∷ rest)) =
        Perm.trans (run_distribution-perm mc₂) (rw (map-address_first l, same) (Perm.refl _)) in
      rw (push-steps info rest mc tcp room, run) end

  -- The client has the addresses, and a call that reports no change has made none.
  pub record Updated (mc : Cluster) (wanted : List Address) (r : (ReturnCode × Cluster) × Bool)
      : Type 0 where
    pub served : Perm (map address r.0.1.client.servers) wanted
    pub quiet : r.1 ≡ false → r.0 ≡ (success, mc)

  apply_marks-Updated :
      (mc : Cluster) (infos : List ServerInfo) (m : Marked)
      → All IsAlive mc.client.servers
      → Sorted mc.client.servers infos m
      → mc.use_udp ≡ false
      → o.list_allocated ≡ true
      → All IsNamed m.infos
      → Updated mc (waiting infos) (apply_marks o mc m)
  unfolding apply_marks addresses
  apply_marks-Updated mc infos m alive sorted tcp room named =
      let pruned : Cluster = with_servers mc (server_prune false m.servers) in
      let marked : Cluster = with_servers mc m.servers in
      let still : m.prune_flag ≡ false → living m.servers ≡ map address m.servers =
        λ p. living-All m.servers (subst (All IsAlive) (sym (sorted.unpruned p)) alive) in
      elim (Bool-cases (ltb 0 m.validcount)) [
        | inl v ↦
            let some_wait : 0 < length (waiting m.infos) = ground (arith, sorted.count) in
            elim (Bool-cases m.prune_flag) [
              | inl p ↦
                  rw (apply_marks, v, p)
                    (record {
                      quiet = λ q. cc q;
                      served =
                          Perm.trans (push-perm m.infos pruned some_wait tcp room named)
                            (rw (server_prune-living m.servers) sorted.perm);
                    })
              | inr p ↦
                  rw (apply_marks, v, p)
                    (record {
                      quiet = λ q. cc q;
                      served =
                          Perm.trans (push-perm m.infos marked some_wait tcp room named)
                            (rw (still p) at sorted.perm);
                    })
            ]
        | inr v ↦
            let none_wait : waiting m.infos ≡ [] =
              length_zero (waiting m.infos) (ground (arith, sorted.count)) in
            let alone : Perm (living m.servers) (waiting infos) =
              rw (none_wait, append-nil (living m.servers)) at sorted.perm in
            elim (Bool-cases m.prune_flag) [
              | inl p ↦
                  rw (apply_marks, v, p)
                    (record {
                      quiet = λ q. cc q;
                      served =
                          Perm.trans (run_distribution-perm pruned)
                            (rw (server_prune-living m.servers) alone);
                    })
              | inr p ↦
                  rw (apply_marks, v, p)
                    (record {
                      quiet = λ _. ap (λ l. (success, with_servers mc l)) (sorted.unpruned p);
                      served = rw (still p) at alone;
                    })
            ]
      ]

  empty-Updated :
      (mc : Cluster) (l : List Server)
      → mc.client.servers ≡ l
      → Updated mc [] (elim l [
        | [] ↦ ((success, mc), false)
        | s ∷ rest ↦
            (run_distribution o (with_servers mc (server_prune true mc.client.servers)), true)
      ])
  unfolding addresses server_prune
  empty-Updated mc [] e = record { served = rw e (Perm.refl []); quiet = λ _. refl }
  empty-Updated mc (s ∷ rest) e = record {
    served = run_distribution-perm (with_servers mc []);
    quiet = λ q. cc q;
  }

  -- With a sort that permutes, a client without dead servers, over TCP and with room for the list, that
  -- is given entries of valid names of which none is taken, has their addresses afterwards, each as often, whatever the
  -- return code; and when the call reports no change, it succeeded and left the client as it was.
  pub update_serverlist-Updated :
      (mc : Cluster) (infos : List ServerInfo)
      → All IsAlive mc.client.servers
      → mc.use_udp ≡ false
      → o.list_allocated ≡ true
      → All IsNew infos
      → All IsNamed infos
      → Updated mc (map info_address infos) (update_serverlist o mc infos)
  unfolding update_serverlist
  update_serverlist-Updated mc [] alive tcp room new named = empty-Updated mc mc.client.servers refl
  update_serverlist-Updated mc (info ∷ rest) alive tcp room new named =
      let infos = info ∷ rest in
      let start = waiting-All infos new in
      let sorted =
        mark_servers-Sorted mc.client.servers infos (length infos) alive
          (rw start (sym (length-map infos info_address))) in
      let m = mark_servers mc.client.servers infos (length infos) in
      let named' : All IsNamed m.infos =
        names-IsNamed m.infos
          (subst (All HasName) (sym sorted.names) (names-HasName infos named)) in
      rw (← start) (apply_marks-Updated mc infos m alive sorted tcp room named')
