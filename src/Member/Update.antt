-- ===== src/Member/Update.antt =====
-- A member of a pool has its master's servers, in the master's order.
use mathlib.Core.List.{map-append}
use arcus_c_client.Prelude.{take-length}
use arcus_c_client.Prelude.{
  ℕ, ◌≡◌, refl, sym, ap, ◌∙◌, subst, Bool, true, false, ◌&&◌, ◌||◌, not, List, [], ◌∷◌, ◌++◌, map,
  All, arith, length, if◌then◌else◌, append-nil, append_assoc, take,
}
use arcus_c_client.ReturnCode.{ReturnCode, success, memory_allocation_failure}
use arcus_c_client.Server.{Server, Connection, server_create_with, server_create, server_init}
use arcus_c_client.Rgroup.{Address}
use arcus_c_client.Rgroup.Slots.{address}
use arcus_c_client.Ketama.{update_continuum}
use arcus_c_client.Ketama.Failures.{update_continuum-Kept}
use arcus_c_client.Cluster.{
  Cluster, Outside, with_servers, count_first, sort_hosts, is_consistent, server_prune,
  run_distribution,
}
use arcus_c_client.Cluster.Membership.{living, IsAlive, living-All, server_prune-living}
use arcus_c_client.Member.{
  is_udp, push_one, push_servers, push_end, server_push_with_count, server_push, follow, follow_end,
  update_with_master,
}
use arcus_c_client.Cluster.Update.{map-address_first}
use arcus_c_client.Member.Follow.{Followed, follow-Followed, IsPushable, follow-IsPushable}

created-address :
    (self : Server) (version : ℕ) (s : Server)
    → address (server_create_with self version s.hostname s.port s.weight s.type).1 ≡ address s
unfolding server_create_with server_create server_init
created-address self version s =
    elim s.type
      as (λ t.
        address (server_create_with self version s.hostname s.port s.weight t).1 ≡ address s) [
          | Connection.tcp ↦ refl
          | Connection.udp ↦ refl
          | Connection.unix_socket ↦ refl
        ]

-- A client that has gained addresses and has the flags it had.
pub record Gained (ptr : Cluster) (more : List Address) (ptr' : Cluster) : Type 0 where
  pub addresses : map address ptr'.client.servers ≡ map address ptr.client.servers ++ more
  pub sort_kept : ptr'.use_sort_hosts ≡ ptr.use_sort_hosts

module _ (o : Outside) where
  push_one-Gained : (s : Server) (ptr : Cluster) → Gained ptr (address s ∷ []) (push_one o s ptr)
  unfolding push_one
  push_one-Gained s ptr =
      let new =
        server_create_with o.fresh_memory ptr.server_info_version s.hostname s.port s.weight
          s.type in
      record {
        addresses =
            map-append address ptr.client.servers (new.1 ∷ [])
            ∙ ap (λ a. map address ptr.client.servers ++ (a ∷ []))
                (created-address o.fresh_memory ptr.server_info_version s);
        sort_kept = refl;
      }

  push_servers-Gained :
      (l : List Server) (ptr : Cluster)
      → ptr.use_udp ≡ false
      → All IsPushable l
      → (ptr' : Cluster) × (push_servers o l ptr ≡ (success, ptr'))
        × Gained ptr (map address l) ptr'
  unfolding push_servers
  push_servers-Gained [] ptr tcp h =
      (ptr, refl, record { addresses = sym (append-nil _); sort_kept = refl })
  push_servers-Gained (s ∷ l) ptr tcp h =
      let one = push_one-Gained s ptr in
      let (ptr', run, more) =
        push_servers-Gained l (push_one o s ptr) (unfold push_one in tcp) h.1 in
      let over_tcp : ((ptr.use_udp && not (is_udp s.type)) || (is_udp s.type && not ptr.use_udp))
          ≡ false =
        ground (arith, h.0.not_udp) in
      (
        ptr',
        rw (push_servers, over_tcp, h.0.named) run,
        record {
          addresses =
              more.addresses
              ∙ (ap (λ a. a ++ map address l) one.addresses
                  ∙ append_assoc (map address ptr.client.servers) (address s ∷ []) (map address l));
          sort_kept = more.sort_kept ∙ one.sort_kept;
        },
      )

  -- Without sorting, the distribution leaves the servers as they are.
  run_distribution-servers :
      (mc : Cluster)
      → mc.use_sort_hosts ≡ false
      → (run_distribution o mc).1.client.servers ≡ mc.client.servers
  unfolding run_distribution
  run_distribution-servers mc unsorted =
      let choice : Bool → Cluster =
        λ b. if b then with_servers mc (sort_hosts o mc.client.servers) else mc in
      let mc' : Cluster = choice mc.use_sort_hosts in
      let same : mc'.client.servers ≡ mc.client.servers =
        ap (λ b. (choice b).client.servers) unsorted in
      let ring = (update_continuum-Kept o.primitives o.environment mc'.client).0 in
      elim (is_consistent mc'.client.distribution)
        as (λ (b : Bool).
          (if◌then◌else◌ {A = ReturnCode × Cluster} b
            (let r = update_continuum o.primitives o.environment mc'.client in
              (r.0, record mc' { client = r.1 }))
            (success, mc')).1.client.servers
          ≡ mc.client.servers) [ true ↦ ring ∙ same | false ↦ same ]

  push-steps :
      (l : List Server) (mc : Cluster)
      → o.list_allocated ≡ true
      → server_push_with_count o l mc ≡ push_end o (push_servers o l mc)
  unfolding server_push_with_count
  push-steps l mc room =
      ap (λ b. if b then push_end o (push_servers o l mc) else (memory_allocation_failure, mc)) room

  push-addresses :
      (l : List Server) (mc : Cluster)
      → mc.use_udp ≡ false
      → mc.use_sort_hosts ≡ false
      → o.list_allocated ≡ true
      → All IsPushable l
      → map address (server_push_with_count o l mc).1.client.servers
        ≡ map address mc.client.servers ++ map address l
  unfolding push_end
  push-addresses l mc tcp unsorted room h =
      let (mc₁, run, gained) = push_servers-Gained l mc tcp h in
      let mc₂ : Cluster = with_servers mc₁ (count_first mc₁.client.servers) in
      rw (push-steps l mc room, run)
        (ap (map address) (run_distribution-servers mc₂ (gained.sort_kept ∙ unsorted))
          ∙ (map-address_first mc₁.client.servers ∙ gained.addresses))

  follow-living :
      (mc : Cluster) (masters : List Server) (l rest : List Server) (flag : Bool)
      → All IsAlive mc.client.servers
      → Followed mc.client.servers masters (l, rest, flag)
      → map address (if flag then server_prune false l else l) ≡ living l
  follow-living mc masters l rest true alive f = server_prune-living l
  follow-living mc masters l rest false alive f =
      sym (living-All l (subst (All IsAlive) (sym (f.unpruned refl)) alive))

  follow_end-addresses :
      (mc : Cluster) (masters : List Server) (r : List Server × List Server × Bool)
      → All IsAlive mc.client.servers
      → Followed mc.client.servers masters r
      → mc.use_udp ≡ false
      → mc.use_sort_hosts ≡ false
      → o.list_allocated ≡ true
      → All IsPushable r.1
      → map address (follow_end o mc r).1.client.servers ≡ map address masters
  unfolding follow_end
  follow_end-addresses mc masters (l, [], true) alive f tcp unsorted room h =
      ap (map address) (run_distribution-servers (with_servers mc (server_prune false l)) unsorted)
      ∙ (follow-living mc masters l [] true alive f ∙ (sym (append-nil (living l)) ∙ f.together))
  follow_end-addresses mc masters (l, [], false) alive f tcp unsorted room h =
      follow-living mc masters l [] false alive f ∙ (sym (append-nil (living l)) ∙ f.together)
  follow_end-addresses mc masters (l, (m ∷ more), flag) alive f tcp unsorted room h =
      let mc' : Cluster = with_servers mc (if flag then server_prune false l else l) in
      push-addresses (m ∷ more) mc' tcp unsorted room h
      ∙ (ap (λ a. a ++ map address (m ∷ more)) (follow-living mc masters l (m ∷ more) flag alive f)
          ∙ f.together)

  push_whole-addresses :
      (m : Server) (more : List Server) (mc : Cluster)
      → mc.client.servers ≡ []
      → m.number_of_hosts ≡ length (m ∷ more)
      → mc.use_udp ≡ false
      → mc.use_sort_hosts ≡ false
      → o.list_allocated ≡ true
      → All IsPushable (m ∷ more)
      → map address (server_push o (m ∷ more) mc).1.client.servers ≡ map address (m ∷ more)
  unfolding server_push
  push_whole-addresses m more mc empty counted tcp unsorted room h =
      let whole : take m.number_of_hosts (m ∷ more) ≡ m ∷ more =
        ap (λ n. take n (m ∷ more)) counted ∙ take-length (m ∷ more) in
      ap (λ l. map address (server_push_with_count o l mc).1.client.servers) whole
      ∙ (push-addresses (m ∷ more) mc tcp unsorted room h
          ∙ ap (λ l. map address l ++ map address (m ∷ more)) empty)

  -- The counter of a list's first server is the list's length.
  abbrev pub IsCounted : List Server → Type 0
  IsCounted [] = Unit
  IsCounted (m ∷ more) = m.number_of_hosts ≡ length (m ∷ more)

  update-addresses :
      (mc : Cluster) (masters l : List Server)
      → mc.client.servers ≡ l
      → All IsAlive mc.client.servers
      → IsCounted masters
      → mc.use_udp ≡ false
      → mc.use_sort_hosts ≡ false
      → o.list_allocated ≡ true
      → All IsPushable masters
      → map address
          (elim l as (λ _. ReturnCode × Cluster) [
            | [] ↦ elim masters [ [] ↦ (success, mc) | m ∷ more ↦ server_push o (m ∷ more) mc ]
            | s ∷ rest ↦ elim masters [
              | [] ↦ run_distribution o (with_servers mc (server_prune true (s ∷ rest)))
              | m ∷ more ↦ follow_end o mc (follow (s ∷ rest) (m ∷ more))
            ]
          ]).1.client.servers
        ≡ map address masters
  unfolding server_prune
  update-addresses mc [] [] e alive counted tcp unsorted room h = ap (map address) e
  update-addresses mc (m ∷ more) [] e alive counted tcp unsorted room h =
      push_whole-addresses m more mc e counted tcp unsorted room h
  update-addresses mc [] (s ∷ rest) e alive counted tcp unsorted room h =
      ap (map address) (run_distribution-servers (with_servers mc []) unsorted)
  update-addresses mc (m ∷ more) (s ∷ rest) e alive counted tcp unsorted room h =
      let r = follow (s ∷ rest) (m ∷ more) in
      let f : Followed mc.client.servers (m ∷ more) r =
        subst (λ l. Followed l (m ∷ more) r) (sym e)
          (follow-Followed (s ∷ rest) (m ∷ more) (subst (All IsAlive) e alive)) in
      follow_end-addresses mc (m ∷ more) r alive f tcp unsorted room
        (follow-IsPushable (s ∷ rest) (m ∷ more) h)

  -- A member over TCP that does not sort its servers, has none that is dead and has room for the list
  -- has its master's addresses in the master's order after the update, whatever servers it had, if the
  -- master's first server counts the master's servers and these can be pushed. So an index into the
  -- master's ring, which the member shares, means the same server to both.
  pub update_with_master-addresses :
      (mc : Cluster) (masters : List Server)
      → All IsAlive mc.client.servers
      → IsCounted masters
      → mc.use_udp ≡ false
      → mc.use_sort_hosts ≡ false
      → o.list_allocated ≡ true
      → All IsPushable masters
      → map address (update_with_master o mc masters).1.client.servers ≡ map address masters
  unfolding update_with_master
  update_with_master-addresses mc masters alive counted tcp unsorted room h =
      update-addresses mc masters mc.client.servers refl alive counted tcp unsorted room h
