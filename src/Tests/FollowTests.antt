-- ===== src/Tests/FollowTests.antt =====
-- A member of a pool with two replica groups, whose master has another two.
use arcus_c_client.Prelude.{◌≡◌, refl, some, none, List, [], ◌∷◌, Option, map, arith}
use arcus_c_client.ReturnCode.{ReturnCode}
use arcus_c_client.Server.{server_create_with, server_free, is_valid_servername}
use arcus_c_client.Text.{strcmp, str_eq}
use arcus_c_client.Ring.{Distribution}
use arcus_c_client.Rgroup.{
  Rgroup, Address, server_alloc, server_release, take_server, shift_up, put_slot, shift_down,
  drop_slot, server_insert, server_remove, server_replace, server_switchover, is_same, find_replica,
  find_slave, remove_slaves, insert_slaves, insert_all, remove_all, move_master, update_slaves,
  update_single, rgroup_update,
}
use arcus_c_client.GroupList.{
  RgroupClient, rgroup_create, rgroup_init, grow_count, expand_servers, expand_pool, rgroup_expand,
  add_group, rgroup_addresses, add_rgroups,
}
use arcus_c_client.GroupList.Removal.{
  mark_slots, index_set, remove_replicas, rgroup_destroy, prune_dead, rgroup_prune, rgroup_compare,
  index_groups, rgroup_sort,
}
use arcus_c_client.GroupList.Ring.{run_rgroup_distribution}
use arcus_c_client.GroupList.Listing.{rgroup_push}
use arcus_c_client.GroupList.Follow.{follow_groups, apply_followed, update_rgrouplist_with_master}
use arcus_c_client.GroupList.Members.{entry}
use arcus_c_client.GroupList.Master.{MirrorsAll, update_rgrouplist_with_master-MirrorsAll}
use arcus_c_client.Tests.GroupSamples.{
  server_at, group, client, outside, two, spare, current, current-WellFormed, outside-SortsGroups,
  current-IsSpy,
}

abbrev masters : List Rgroup
masters =
    group 0 "g1" (server_at 0 "e" 5 ∷ server_at 0 "c" 3 ∷ [])
    ∷ group 1 "g2" (server_at 1 "d" 4 ∷ [])
    ∷ []

program : Unit {0}
unfolding strcmp str_eq server_alloc server_release take_server shift_up put_slot shift_down
    drop_slot server_insert server_remove server_replace server_switchover is_same find_replica
    find_slave remove_slaves insert_slaves insert_all remove_all move_master update_slaves
    update_single rgroup_update server_create_with is_valid_servername server_free rgroup_create
    rgroup_init mark_slots index_set remove_replicas rgroup_destroy grow_count expand_servers
    expand_pool rgroup_expand add_group rgroup_addresses add_rgroups prune_dead rgroup_prune
    rgroup_compare index_groups rgroup_sort run_rgroup_distribution rgroup_push follow_groups
    apply_followed update_rgrouplist_with_master
program = tt

abbrev shown : Option (ReturnCode × RgroupClient) → List (List Address)
shown none = []
shown (some r) = map (λ (g : Rgroup). (entry g).addresses) r.1.rgroups

-- "g0" is gone, "g1" has the master's two servers, and "g2" is new.
followed :
    shown (update_rgrouplist_with_master outside (client Distribution.modula spare 7 two) masters)
    ≡ map (λ (g : Rgroup). (entry g).addresses) masters
unfolding program
followed = refl

update_rgrouplist_with_master-MirrorsAll_example :
    (a : ReturnCode × RgroupClient) × (update_rgrouplist_with_master outside current masters
      ≡ some a)
    × MirrorsAll masters a
unfolding is_valid_servername
update_rgrouplist_with_master-MirrorsAll_example =
    update_rgrouplist_with_master-MirrorsAll outside outside-SortsGroups current masters
      current-WellFormed current-IsSpy (refl, (refl, tt)) (omega arith)
      (
        (
          (
            0,
            server_at 0 "e" 5 ∷ server_at 0 "c" 3 ∷ [],
            record {
              nreplica_eq = refl;
              replicas_eq = refl;
              fits = omega arith;
              some_server = omega arith;
              indexed = (refl, (refl, tt));
              in_place = refl;
            },
          ),
          record {
            short = omega arith;
            some_address = omega arith;
            few = omega arith;
            valid = (refl, (refl, tt));
          },
        ),
        (
          (
            (
              1,
              server_at 1 "d" 4 ∷ [],
              record {
                nreplica_eq = refl;
                replicas_eq = refl;
                fits = omega arith;
                some_server = omega arith;
                indexed = (refl, tt);
                in_place = refl;
              },
            ),
            record {
              short = omega arith;
              some_address = omega arith;
              few = omega arith;
              valid = (refl, tt);
            },
          ),
          tt,
        ),
      )
      (omega arith)
