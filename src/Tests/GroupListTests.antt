-- ===== src/Tests/GroupListTests.antt =====
-- A client with two replica groups whose list of servers changes.
use arcus_c_client.Prelude.{
  ℕ, ◌≡◌, refl, some, none, List, [], ◌∷◌, true, false, Bool, Option, map, arith,
}
use arcus_c_client.ReturnCode.{ReturnCode}
use arcus_c_client.Server.{server_create_with, server_free, is_valid_servername}
use arcus_c_client.Text.{codes, strcmp, str_eq}
use arcus_c_client.Ring.{Distribution}
use arcus_c_client.Cluster.{ServerInfo}
use arcus_c_client.GroupInfo.{
  RgroupInfo, Groups, store, is_same_server, has_duplicate, add_master, add_slave, add_found,
  new_group, add_entry, add_entries, check_masters, rgroup_info_create,
}
use arcus_c_client.Rgroup.{
  Rgroup, server_alloc, server_release, take_server, shift_up, put_slot, shift_down, drop_slot,
  server_insert, server_remove, server_replace, server_switchover, is_same, find_replica,
  find_slave, remove_slaves, insert_slaves, insert_all, remove_all, move_master, update_slaves,
  update_single, rgroup_update,
}
use arcus_c_client.GroupList.{
  RgroupClient, rgroup_create, rgroup_init, grow_count, expand_servers, expand_pool, rgroup_expand,
  add_group, info_addresses, add_infos, rgroup_addresses, add_rgroups,
}
use arcus_c_client.GroupList.Removal.{
  mark_slots, index_set, remove_replicas, rgroup_destroy, prune_dead, destroy_all, free_servers,
  rgroup_list_free, rgroup_prune, rgroup_compare, index_groups, rgroup_sort,
}
use arcus_c_client.GroupList.Ring.{
  group_points, group_weights, group_share, add_group_points, group_item_cmp, record_error,
  build_rgroups, update_continuum_based_on_rgroups, run_rgroup_distribution,
}
use arcus_c_client.GroupList.Listing.{
  rgroup_push_with_groupinfo, rgroup_push, find_info, take_group, match_groups, apply_matched,
  update_rgrouplist,
}
use arcus_c_client.GroupList.Members.{Entry, entry}
use arcus_c_client.GroupList.Prune.{Pruned, rgroup_prune-Pruned}
use arcus_c_client.GroupList.Expand.{Expanded, rgroup_expand-Expanded}
use arcus_c_client.GroupList.Push.{Pushed, rgroup_push-Pushed}
use arcus_c_client.GroupList.Update.{Listed, IsCurrent, update_rgrouplist-Listed}
use arcus_c_client.Tests.GroupSamples.{
  server_at, group, client, outside, two, spare, current, current-WellFormed, outside-SortsGroups,
  current-IsSpy,
}
use arcus_c_client.Tests.Samples.{blank}
use Prim.Native.String.{String}

abbrev listed : String → String → ℕ → Bool → ServerInfo
listed g h p m = record {
  groupname = codes g;
  hostname = codes h;
  port = p;
  master = m;
  exist = false;
}

program : Unit {0}
unfolding strcmp str_eq store is_same_server has_duplicate add_master add_slave add_found new_group
    add_entry add_entries check_masters rgroup_info_create server_alloc server_release take_server
    shift_up put_slot shift_down drop_slot server_insert server_remove server_replace
    server_switchover is_same find_replica find_slave remove_slaves insert_slaves insert_all
    remove_all move_master update_slaves update_single rgroup_update server_create_with
    is_valid_servername server_free rgroup_create rgroup_init mark_slots index_set remove_replicas
    rgroup_destroy grow_count expand_servers expand_pool rgroup_expand add_group info_addresses
    add_infos rgroup_addresses add_rgroups prune_dead destroy_all free_servers rgroup_list_free
    rgroup_prune rgroup_compare index_groups rgroup_sort group_points group_weights group_share
    add_group_points group_item_cmp record_error build_rgroups update_continuum_based_on_rgroups
    run_rgroup_distribution rgroup_push_with_groupinfo rgroup_push find_info take_group match_groups
    apply_matched update_rgrouplist
program = tt

abbrev shown : Option ((ReturnCode × RgroupClient) × Bool) → Option (List Entry × ℕ × Bool)
shown none = none
shown (some r) = some (map entry r.0.1.rgroups, r.0.1.memc.server_navail, r.1)

abbrev expected : String → List (String × ℕ) → Entry
expected name l = record {
  groupname = codes name;
  weight = 1;
  addresses = map (λ (a : String × ℕ). record { hostname = codes a.0; port = a.1 }) l;
}

abbrev next_list : List ServerInfo
next_list = listed "g2" "d" 4 true ∷ listed "g0" "a" 1 false ∷ listed "g0" "b" 2 true ∷ []

-- "b" becomes the master of "g0", "g1" is gone, and "g2" is new.
renewed :
    shown (update_rgrouplist outside (client Distribution.modula spare 7 two) next_list)
    ≡ some (expected "g0" (("b", 2) ∷ ("a", 1) ∷ []) ∷ expected "g2" (("d", 4) ∷ []) ∷ [], 4, true)
unfolding program
renewed = refl

-- The pool that a list of four servers needs by `memcached_rgroup_expand` alone, five, is too small
-- when the list moves two servers to a group that comes first: the assertion on a free server fails.
pool_too_small :
    shown (
      update_rgrouplist outside
        (client Distribution.modula (blank ∷ []) 5 (
          group 0 "g0" (server_at 0 "a" 1 ∷ [])
          ∷ group 1 "g1" (server_at 1 "b" 2 ∷ server_at 1 "c" 3 ∷ server_at 1 "d" 4 ∷ [])
          ∷ []))
        (listed "g0" "a" 1 true
          ∷ listed "g0" "c" 3 false
          ∷ listed "g0" "d" 4 false
          ∷ listed "g1" "b" 2 true
          ∷ []))
    ≡ none
unfolding program
pool_too_small = refl

current-IsCurrent : IsCurrent current
unfolding str_eq strcmp
current-IsCurrent = record {
  well_formed = current-WellFormed;
  spy = current-IsSpy;
  alive = (refl, (refl, tt));
  distinct = (refl, (refl, tt));
  room = omega arith;
}

rgroup_prune-Pruned_example :
    (c' : RgroupClient) × (rgroup_prune false current ≡ some c') × Pruned false current c'
rgroup_prune-Pruned_example = rgroup_prune-Pruned false current current-WellFormed

rgroup_expand-Expanded_example :
    (r : Bool × RgroupClient) × (rgroup_expand outside 12 9 current ≡ some r)
    × Expanded outside 12 9 current r
rgroup_expand-Expanded_example =
    rgroup_expand-Expanded outside 12 9 current current-WellFormed (omega arith) (omega arith)

abbrev pushed_groups : List Rgroup
pushed_groups = group 0 "g7" (server_at 0 "e" 5 ∷ server_at 0 "f" 6 ∷ []) ∷ []

rgroup_push-Pushed_example :
    (a : ReturnCode × RgroupClient) × (rgroup_push outside pushed_groups current ≡ some a)
    × Pushed pushed_groups current a
unfolding is_valid_servername
rgroup_push-Pushed_example =
    rgroup_push-Pushed outside outside-SortsGroups pushed_groups current current-WellFormed
      current-IsSpy
      (
        (
          (
            0,
            server_at 0 "e" 5 ∷ server_at 0 "f" 6 ∷ [],
            record {
              nreplica_eq = refl;
              replicas_eq = refl;
              fits = omega arith;
              some_server = omega arith;
              indexed = (refl, (refl, tt));
              in_place = refl;
            },
          ),
          record {
            short = omega arith;
            some_address = omega arith;
            few = omega arith;
            valid = (refl, (refl, tt));
          },
        ),
        tt,
      )
      (omega arith)

abbrev info_of : String → List (Option ServerInfo) → ℕ → RgroupInfo
info_of g l n = record { groupname = codes g; replicas = l; nreplica = n; valid = true }

abbrev next_groups : Groups
next_groups = record {
  groups =
      info_of "g2" (some (listed "g2" "d" 4 true) ∷ none ∷ none ∷ []) 1
      ∷ info_of "g0" (some (listed "g0" "b" 2 true) ∷ some (listed "g0" "a" 1 false) ∷ none ∷ []) 2
      ∷ [];
  valid_ngroup = 2;
}

next_made : rgroup_info_create next_list ≡ some next_groups
unfolding program
next_made = refl

update_rgrouplist-Listed_example :
    (r : (ReturnCode × RgroupClient) × Bool) × (update_rgrouplist outside current next_list
      ≡ some r)
    × Listed next_list next_groups.groups current r
unfolding is_valid_servername
update_rgrouplist-Listed_example =
    update_rgrouplist-Listed outside outside-SortsGroups current next_list next_groups
      current-IsCurrent ((refl, omega arith), ((refl, omega arith), ((refl, omega arith), tt)))
      next_made refl (omega arith) (omega arith) (omega arith)
