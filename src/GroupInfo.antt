-- ===== src/GroupInfo.antt =====
-- The replica groups of a list of servers: `memcached_rgroup_info_create` of libmemcached/rgroup.cc.
pub mod Entries
pub mod Create
pub mod Loops
pub mod Contract
use arcus_c_client.Prelude.{
  ℕ, zero, suc, ◌+◌, ◌-◌, ◌%◌, ◌^◌, Bool, true, false, ◌&&◌, not, Option, none, some, List, [], ◌∷◌,
  ltb, leb, ◌==◌, if◌then◌else◌, length, set, get_elem?, replicate,
}
use arcus_c_client.Text.{Bytes, str_eq}
use arcus_c_client.Cluster.{ServerInfo}
use arcus_c_client.Rgroup.{rgroup_max_replica, ◌>>=◌}

-- `memcached_rgroup_info_st`; an entry that is not set is NULL
pub record RgroupInfo : Type 0 where
  pub groupname : Bytes
  pub replicas : List (Option ServerInfo)
  pub nreplica : ℕ
  pub valid : Bool

abbrev no_replicas : List (Option ServerInfo)
no_replicas = replicate rgroup_max_replica none

-- A read of `replicas[k]`; `none` is a read outside of the array.
abbrev replica : RgroupInfo → ℕ → Option (Option ServerInfo)
replica g k = get_elem? g.replicas k

-- `replicas[k]= &serverinfo[i]; nreplica += 1`
unfoldable pub store : RgroupInfo → ℕ → ServerInfo → Option RgroupInfo
store g k info =
    if ltb k (length g.replicas)
    then some (record g { replicas = set g.replicas k (some info); nreplica = g.nreplica + 1 })
    else none

-- The test for the same host and port
unfoldable pub is_same_server : ServerInfo → ServerInfo → Bool
is_same_server a b = str_eq a.hostname b.hostname && (a.port == b.port)

-- The search for the master's address among `rounds` replicas from `k` on; a read of NULL or outside
-- of the array is `none`.
unfoldable pub has_duplicate : RgroupInfo → ServerInfo → ℕ → ℕ → Option Bool
unfolding is_same_server
has_duplicate g info zero k = some false
has_duplicate g info (suc rounds) k =
    let later = has_duplicate g info rounds (suc k) in
    replica g k >>= λ r. elim r [
      | none ↦ none
      | some other ↦ if is_same_server info other then some true else later
    ]

-- A group that takes an entry, or is invalid from then on. The result says whether it became so.
abbrev refuse : RgroupInfo → RgroupInfo × Bool
refuse g = (record g { valid = false }, true)

unfoldable pub add_master : RgroupInfo → ServerInfo → Option (RgroupInfo × Bool)
unfolding store has_duplicate
add_master g info = replica g 0 >>= λ r. elim r [
  | some other ↦ some (refuse g)
  | none ↦ has_duplicate g info g.nreplica 1 >>= λ d.
      if d then some (refuse g) else (store g 0 info >>= λ g'. some (g', false))
]

unfoldable pub add_slave : RgroupInfo → ServerInfo → Option (RgroupInfo × Bool)
unfolding store
add_slave g info = replica g 0 >>= λ r.
    let k = g.nreplica + (elim r [ none ↦ 1 | some _ ↦ 0 ]) in
    if leb rgroup_max_replica k
    then some (refuse g)
    else (store g k info >>= λ g'. some (g', false))

-- The body of `do { ... } while(0)` for a group that is found.
unfoldable pub add_found : RgroupInfo → ServerInfo → Option (RgroupInfo × Bool)
unfolding add_master add_slave
add_found g info =
    if not g.valid
    then some (g, false)
    else if info.master
    then add_master g info
    else add_slave g info

-- A new group of one entry.
unfoldable pub new_group : ServerInfo → RgroupInfo
new_group info = record {
  groupname = info.groupname;
  replicas = set no_replicas (if info.master then 0 else 1) (some info);
  nreplica = 1;
  valid = true;
}

-- A `uint32_t` decrement
abbrev pub decrement : ℕ → ℕ
decrement v = (v + 0xffffffff) % 2 ^ 32

-- The groups found so far and the count of the valid ones.
pub record Groups : Type 0 where
  pub groups : List RgroupInfo
  pub valid_ngroup : ℕ

-- One round of the first loop: the group of an entry is searched, and the entry is added.
unfoldable pub add_entry : ServerInfo → ℕ → List RgroupInfo → Option Groups
unfolding add_found new_group
add_entry info v [] =
    some (record { groups = new_group info ∷ []; valid_ngroup = (v + 1) % 2 ^ 32 })
add_entry info v (g ∷ rest) =
    let later = add_entry info v rest in
    if str_eq info.groupname g.groupname
    then (add_found g info >>= λ r.
        some (record { groups = r.0 ∷ rest; valid_ngroup = if r.1 then decrement v else v }))
    else (later >>= λ s. some (record s { groups = g ∷ s.groups }))

-- The first loop.
unfoldable pub add_entries : List ServerInfo → Groups → Option Groups
unfolding add_entry
add_entries [] s = some s
add_entries (info ∷ rest) s = add_entry info s.valid_ngroup s.groups >>= add_entries rest

-- The second loop: a group without a master is invalid.
unfoldable pub check_masters : ℕ → List RgroupInfo → Option Groups
check_masters v [] = some (record { groups = []; valid_ngroup = v })
check_masters v (g ∷ rest) = replica g 0 >>= λ r. elim r [
  | none ↦ check_masters (decrement v) rest >>= λ s.
      some (record s { groups = record g { valid = false } ∷ s.groups })
  | some _ ↦ check_masters v rest >>= λ s. some (record s { groups = g ∷ s.groups })
]

-- `memcached_rgroup_info_create`, when its array is allocated. `*groupcount` is the length of the
-- list of groups.
unfoldable pub rgroup_info_create : List ServerInfo → Option Groups
unfolding add_entries check_masters
rgroup_info_create serverinfo =
    add_entries serverinfo (record { groups = []; valid_ngroup = 0 }) >>= λ s.
    check_masters s.valid_ngroup s.groups
