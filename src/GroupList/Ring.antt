-- ===== src/GroupList/Ring.antt =====
-- The hash ring of replica groups: `update_continuum_based_on_rgroups` and `run_distribution` of
-- libmemcached/hosts.cc for a client with replica groups.
use arcus_c_client.Prelude.{
  ℕ, zero, suc, ◌+◌, ◌*◌, ◌/◌, ◌%◌, ◌^◌, Bool, true, false, ◌&&◌, not, Option, none, some, List, [],
  ◌∷◌, ◌++◌, Ordering, ltb, leb, ◌==◌, if◌then◌else◌, length, get_or, take, drop,
}
use arcus_c_client.ReturnCode.{ReturnCode, success, errno, memory_allocation_failure}
use arcus_c_client.Text.{Bytes, strcmp, print_unsigned}
use arcus_c_client.Ring.{ContinuumItem, Distribution}
use arcus_c_client.Ketama.{Primitives, Points, name_points, max_host_sort_length, points_per_server}
use arcus_c_client.Cluster.{is_consistent}
use arcus_c_client.Rgroup.{Rgroup, ◌>>=◌}
use arcus_c_client.GroupList.{RgroupClient, RgroupOutside}
use arcus_c_client.GroupList.Removal.{rgroup_sort}

abbrev pub is_spy : Distribution → Bool
is_spy Distribution.consistent_ketama_spy = true
is_spy _ = false

-- The points of one group: `rounds` names from `pointer_index` on; `none` where a name is too long.
unfoldable pub group_points : (Bytes → Bytes) → ℕ → Bytes → ℕ → ℕ → Option (List ContinuumItem)
unfolding name_points
group_points signature host_index groupname zero pointer_index = some []
group_points signature host_index groupname (suc rounds) pointer_index =
    let sort_host = groupname ++ (b'-' ∷ print_unsigned pointer_index) in
    let later = group_points signature host_index groupname rounds (suc pointer_index) in
    if leb max_host_sort_length (length sort_host)
    then none
    else (later >>= λ points. some (name_points signature host_index sort_host ++ points))

-- The sum of the weights, and whether all are the first one.
unfoldable pub group_weights : ℕ → List Rgroup → ℕ × Bool → ℕ × Bool
group_weights first [] w = w
group_weights first (g ∷ rest) (total_weight, same) =
    group_weights first rest ((total_weight + g.weight) % 2 ^ 64, same && (first == g.weight))

-- `pointer_per_server` of a group; floating point in the source
unfoldable pub group_share : Primitives → Bool → List Rgroup → Rgroup → ℕ
unfolding group_weights
group_share c weighted [] g = points_per_server
group_share c weighted (first ∷ rest) g =
    let w = group_weights first.weight (first ∷ rest) (0, true) in
    if weighted && not w.1
    then c.scaled g.weight w.0 (length (first ∷ rest)) * 4
    else points_per_server

-- The loop over the groups
unfoldable pub add_group_points :
    (Bytes → Bytes) → (Rgroup → ℕ) → ℕ → List Rgroup → Points → Option Points
unfolding group_points
add_group_points signature share host_index [] p = some p
add_group_points signature share host_index (g ∷ rest) p =
    group_points signature host_index g.groupname (share g / 4) 0 >>= λ points.
    add_group_points signature share (suc host_index) rest (record {
      items = p.items ++ points;
      pointer_counter = (p.pointer_counter + share g) % 2 ^ 32;
    })

-- `continuum_item_cmp` with `cmp_rgroups` set; a read outside of the array is the empty name.
unfoldable pub group_item_cmp : List Rgroup → Rgroup → ContinuumItem → ContinuumItem → Ordering
group_item_cmp groups outside ct1 ct2 =
    if ct1.value == ct2.value
    then strcmp (get_or groups ct1.index outside).groupname
        (get_or groups ct2.index outside).groupname
    else if ltb ct2.value ct1.value
    then Ordering.gt
    else Ordering.lt

-- `memcached_set_error`
unfoldable pub record_error : RgroupClient → ReturnCode → ReturnCode × RgroupClient
record_error memc rc = (rc, record memc { memc = record memc.memc { error = some rc } })

-- The ring of a client's groups, whose memory is allocated.
unfoldable pub build_rgroups : RgroupOutside → RgroupClient → ReturnCode × RgroupClient
unfolding record_error group_share group_item_cmp
build_rgroups o ptr =
    let c = o.primitives in
    elim (add_group_points c.signature (group_share c ptr.weighted ptr.rgroups) 0 ptr.rgroups
      (record { items = []; pointer_counter = 0 })) [
        | none ↦ record_error ptr memory_allocation_failure
        | some p ↦ (
          success,
          record ptr {
            info = some (record {
              continuum =
                  c.qsort (group_item_cmp ptr.rgroups o.slot_memory)
                    (take p.pointer_counter p.items)
                  ++ drop p.pointer_counter p.items;
              continuum_points_counter = p.pointer_counter;
            });
          },
        )
      ]

-- `update_continuum_based_on_rgroups`
unfoldable pub update_continuum_based_on_rgroups :
    RgroupOutside → RgroupClient → Option (ReturnCode × RgroupClient)
unfolding record_error
update_continuum_based_on_rgroups o ptr = elim o.environment.pool_master [
  | some master ↦ some (success, record ptr { info = master })
  | none ↦ elim o.environment.now [
    | none ↦ some (record_error ptr errno)
    | some now ↦
        if ptr.auto_eject_hosts
        then none
        else if length ptr.rgroups == 0
        then some (success, ptr)
        else if not (o.environment.info_allocated && o.environment.continuum_allocated)
        then some (memory_allocation_failure, ptr)
        else if is_spy ptr.distribution
        then some (build_rgroups o ptr)
        else none
  ]
]

-- `run_distribution` of a client with replica groups
unfoldable pub run_rgroup_distribution :
    RgroupOutside → RgroupClient → Option (ReturnCode × RgroupClient)
run_rgroup_distribution o ptr =
    (if ptr.use_sort_hosts then rgroup_sort o ptr else some ptr) >>= λ ptr'.
    if is_consistent ptr'.distribution
    then update_continuum_based_on_rgroups o ptr'
    else some (success, ptr')
