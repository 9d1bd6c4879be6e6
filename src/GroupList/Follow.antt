-- ===== src/GroupList/Follow.antt =====
-- The groups of a pool's member, from its master's: `do_memcached_update_rgrouplist_with_master` of
-- libmemcached/memcached.cc.
use arcus_c_client.Prelude.{Bool, true, false, ◌||◌, Option, some, List, [], ◌∷◌, if◌then◌else◌}
use arcus_c_client.ReturnCode.{ReturnCode, success}
use arcus_c_client.Text.{str_eq}
use arcus_c_client.Rgroup.{Rgroup, ServerPool, ◌>>=◌, rgroup_update}
use arcus_c_client.GroupList.{RgroupClient, RgroupOutside, rgroup_addresses}
use arcus_c_client.GroupList.Removal.{rgroup_prune}
use arcus_c_client.GroupList.Ring.{run_rgroup_distribution}
use arcus_c_client.GroupList.Listing.{rgroup_push}

-- What the comparison of the groups leaves: the member's groups, and the master's from index `y` on.
pub record Followed : Type 0 where
  pub rgroups : List Rgroup
  pub pool : ServerPool
  pub remaining : List Rgroup
  pub prune_flag : Bool

abbrev pub add_followed : Rgroup → Bool → Followed → Followed
add_followed g pruned f = record f { rgroups = g ∷ f.rgroups; prune_flag = pruned || f.prune_flag }

-- The loop over the member's groups. The master's are those from index `y` on.
unfoldable pub follow_groups : List Rgroup → ServerPool → List Rgroup → Option Followed
follow_groups [] pool master =
    some (record { rgroups = []; pool = pool; remaining = master; prune_flag = false })
follow_groups (g ∷ rest) pool [] =
    follow_groups rest pool [] >>= λ f. some (add_followed (record g { is_dead = true }) true f)
follow_groups (g ∷ rest) pool (m ∷ master) =
    if str_eq g.groupname m.groupname
    then (rgroup_addresses m.nreplica m.replicas >>= λ addresses.
        rgroup_update (record { memc = pool; rgroup = g }) addresses >>= λ r.
        follow_groups rest (r.0).memc master >>= λ f. some (add_followed (r.0).rgroup false f))
    else (follow_groups rest pool (m ∷ master) >>= λ f.
        some (add_followed (record g { is_dead = true }) true f))

-- What follows the loop.
unfoldable pub apply_followed :
    RgroupOutside → RgroupClient → Followed → Option (ReturnCode × RgroupClient)
apply_followed o mc f =
    let followed = record mc { memc = f.pool; rgroups = f.rgroups } in
    (if f.prune_flag then rgroup_prune false followed else some followed) >>= λ mc'.
    elim f.remaining [
      | [] ↦ if f.prune_flag then run_rgroup_distribution o mc' else some (success, mc')
      | m ∷ master ↦ rgroup_push o (m ∷ master) mc'
    ]

-- `do_memcached_update_rgrouplist_with_master`, of the master's groups
unfoldable pub update_rgrouplist_with_master :
    RgroupOutside → RgroupClient → List Rgroup → Option (ReturnCode × RgroupClient)
update_rgrouplist_with_master o mc [] = elim mc.rgroups [
  | [] ↦ some (success, mc)
  | g ∷ rest ↦ rgroup_prune true mc >>= run_rgroup_distribution o
]
update_rgrouplist_with_master o mc (m ∷ master) = elim mc.rgroups [
  | [] ↦ rgroup_push o (m ∷ master) mc
  | g ∷ rest ↦ follow_groups mc.rgroups mc.memc (m ∷ master) >>= apply_followed o mc
]
