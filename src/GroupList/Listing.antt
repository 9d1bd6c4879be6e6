-- ===== src/GroupList/Listing.antt =====
-- Groups that are pushed, and the update of the groups from a list of servers: the functions
-- `memcached_rgroup_push` and `memcached_rgroup_push_with_groupinfo` of libmemcached/rgroup.cc, and
-- `do_memcached_update_rgrouplist` of libmemcached/memcached.cc.
use arcus_c_client.Prelude.{
  ℕ, ◌+◌, ◌*◌, ◌%◌, ◌^◌, Bool, true, false, ◌||◌, Option, none, some, List, [], ◌∷◌, ltb, leb,
  if◌then◌else◌, length,
}
use arcus_c_client.ReturnCode.{ReturnCode, success, memory_allocation_failure}
use arcus_c_client.Text.{Bytes, str_eq}
use arcus_c_client.Cluster.{ServerInfo}
use arcus_c_client.GroupInfo.{RgroupInfo, decrement, rgroup_info_create}
use arcus_c_client.Rgroup.{Rgroup, ServerPool, ◌>>=◌, rgroup_max_replica, rgroup_update}
use arcus_c_client.GroupList.{
  RgroupClient, RgroupOutside, rgroup_expand, info_addresses, add_infos, add_rgroups,
}
use arcus_c_client.GroupList.Removal.{rgroup_prune}
use arcus_c_client.GroupList.Ring.{record_error, run_rgroup_distribution}

-- `memcached_rgroup_push_with_groupinfo`
unfoldable pub rgroup_push_with_groupinfo :
    RgroupOutside → List RgroupInfo → RgroupClient → Option (ReturnCode × RgroupClient)
rgroup_push_with_groupinfo o groupinfo memc =
    if leb (length groupinfo) memc.rgroup_ntotal
    then add_infos o groupinfo memc >>= run_rgroup_distribution o
    else none

-- `memcached_rgroup_push`, of a list that is not NULL
unfoldable pub rgroup_push :
    RgroupOutside → List Rgroup → RgroupClient → Option (ReturnCode × RgroupClient)
rgroup_push o grouplist memc =
    let sum_gcount = (length grouplist + length memc.rgroups) % 2 ^ 32 in
    rgroup_expand o sum_gcount ((sum_gcount * rgroup_max_replica) % 2 ^ 32) memc >>= λ r.
    if r.0
    then add_rgroups o grouplist r.1 >>= run_rgroup_distribution o
    else some (memory_allocation_failure, r.1)

-- The search for the entry of a group's name.
unfoldable pub find_info : Bytes → List RgroupInfo → Option RgroupInfo
find_info groupname [] = none
find_info groupname (g ∷ rest) =
    let later = find_info groupname rest in if str_eq groupname g.groupname then some g else later

-- `groupinfo[y].valid= false` of the entry that is found
unfoldable pub take_group : Bytes → List RgroupInfo → List RgroupInfo
take_group groupname [] = []
take_group groupname (g ∷ rest) =
    let later = take_group groupname rest in
    if str_eq groupname g.groupname then record g { valid = false } ∷ rest else g ∷ later

-- What the loop over the groups leaves.
pub record Matched : Type 0 where
  pub rgroups : List Rgroup
  pub pool : ServerPool
  pub groupinfo : List RgroupInfo
  pub validcount : ℕ
  pub prune_flag : Bool
  pub changed : Bool

-- One group with what the later ones leave.
abbrev pub add_matched : Rgroup → Bool → Bool → Matched → Matched
add_matched g pruned changed m = record m {
  rgroups = g ∷ m.rgroups;
  prune_flag = pruned || m.prune_flag;
  changed = changed || m.changed;
}

-- The loop over the client's groups.
unfoldable pub match_groups : List Rgroup → ServerPool → List RgroupInfo → ℕ → Option Matched
match_groups [] memc infos validcount = some (record {
  rgroups = [];
  pool = memc;
  groupinfo = infos;
  validcount = validcount;
  prune_flag = false;
  changed = false;
})
match_groups (g ∷ rest) memc infos validcount = elim (find_info g.groupname infos) [
  | none ↦ match_groups rest memc infos validcount >>= λ m.
      some (add_matched (record g { is_dead = true }) true false m)
  | some info ↦
      if info.valid
      then (info_addresses info.nreplica info.replicas >>= λ addresses.
          rgroup_update (record { memc = memc; rgroup = g }) addresses >>= λ r.
          match_groups rest (r.0).memc (take_group g.groupname infos) (decrement validcount)
          >>= λ m. some (add_matched (r.0).rgroup false r.1 m))
      else (match_groups rest memc infos validcount >>= λ m. some (add_matched g false false m))
]

-- What follows the loop; the last component is `*serverlist_changed`.
unfoldable pub apply_matched :
    RgroupOutside → RgroupClient → Matched → Option ((ReturnCode × RgroupClient) × Bool)
apply_matched o mc m =
    let marked = record mc { memc = m.pool; rgroups = m.rgroups } in
    if ltb 0 m.validcount
    then ((if m.prune_flag then rgroup_prune false marked else some marked) >>= λ mc'.
        rgroup_push_with_groupinfo o m.groupinfo mc' >>= λ r. some (r, true))
    else if m.prune_flag
    then (rgroup_prune false marked >>= λ mc'.
        run_rgroup_distribution o mc' >>= λ r. some (r, true))
    else some ((success, marked), m.changed)

-- `do_memcached_update_rgrouplist`
unfoldable pub update_rgrouplist :
    RgroupOutside → RgroupClient → List ServerInfo → Option ((ReturnCode × RgroupClient) × Bool)
update_rgrouplist o mc [] = elim mc.rgroups [
  | [] ↦ some ((success, mc), false)
  | g ∷ rest ↦ rgroup_prune true mc >>= λ mc'. run_rgroup_distribution o mc' >>= λ r. some (r, true)
]
update_rgrouplist o mc (server ∷ servers) =
    let serverinfo = server ∷ servers in
    if o.info_allocated
    then (rgroup_info_create serverinfo >>= λ s.
        rgroup_expand o (length s.groups) (length serverinfo) mc >>= λ r.
        if r.0
        then (match_groups r.1.rgroups r.1.memc s.groups s.valid_ngroup >>= λ m.
            apply_matched o r.1 m)
        else some (record_error r.1 memory_allocation_failure, false))
    else some (record_error mc memory_allocation_failure, false)
