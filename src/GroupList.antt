-- ===== src/GroupList.antt =====
-- The replica groups of a client: the array of groups and the pool of servers, of
-- libmemcached/rgroup.cc, and their update from a list of servers, of libmemcached/memcached.cc.
-- A failed `assert`, a NULL that is followed and a write outside of the array are `none`.
pub mod Removal
pub mod Ring
pub mod Listing
pub mod Members
pub mod Renumber
pub mod Destroy
pub mod Prune
pub mod Add
pub mod Sorting
pub mod Expand
pub mod Asked
pub mod Push
pub mod Names
pub mod One
pub mod Becomes
pub mod Match
pub mod Ready
pub mod Base
pub mod Apply
pub mod Update
pub mod Follow
pub mod Mirror
pub mod Master
use arcus_c_client.Prelude.{
  ℕ, zero, suc, ◌+◌, ◌-◌, ◌*◌, ◌%◌, ◌^◌, Bool, true, false, ◌||◌, not, Option, none, some, List, [],
  ◌∷◌, ◌++◌, Ordering, ltb, leb, ◌==◌, if◌then◌else◌, length, replicate,
}
use arcus_c_client.ReturnCode.{ReturnCode, success, memory_allocation_failure}
use arcus_c_client.Server.{Server}
use arcus_c_client.Text.{Bytes, strcmp, str_eq}
use arcus_c_client.Ring.{Distribution}
use arcus_c_client.Ketama.{KetamaInfo, Primitives, Environment}
use arcus_c_client.Cluster.{ServerInfo, is_consistent}
use arcus_c_client.GroupInfo.{RgroupInfo, decrement, rgroup_info_create}
use arcus_c_client.Rgroup.{
  Rgroup, ServerPool, GroupState, Address, ◌>>=◌, rgroup_max_replica, server_remove, insert_all,
  rgroup_update,
}

abbrev pub rgroup_name_length : ℕ
rgroup_name_length = 128

-- The fields of `memcached_st` for its groups. `rgroups` is the first `number_of_hosts` of the
-- `rgroup_ntotal` slots of the array, and the array is NULL when it has no slots.
pub record RgroupClient : Type 0 where
  pub memc : ServerPool
  pub rgroups : List Rgroup
  pub rgroup_ntotal : ℕ
  pub use_sort_hosts : Bool
  pub distribution : Distribution
  pub auto_eject_hosts : Bool
  pub weighted : Bool
  pub info : Option KetamaInfo

-- What the operations take from outside: the primitives of the ring, the sort of the C library,
-- whether the array and the list of groups are allocated, what a slot of the array holds before its
-- use, and the memory for servers, until there is no more.
pub record RgroupOutside : Type 0 where
  pub primitives : Primitives
  pub environment : Environment
  pub sort_rgroups : (Rgroup → Rgroup → Ordering) → List Rgroup → List Rgroup
  pub rgroups_allocated : Bool
  pub info_allocated : Bool
  pub slot_memory : Rgroup
  pub server_memory : List Server

-- `do_rgroup_create` in a slot of the array
unfoldable pub rgroup_create : Rgroup → Rgroup
rgroup_create self = record self { is_allocated = false; is_initialized = true }

abbrev pub default_group_weight : ℕ → ℕ
default_group_weight zero = 1
default_group_weight (suc w) = suc w

-- `do_rgroup_init`
unfoldable pub rgroup_init : Rgroup → Bytes → ℕ → ℕ → Option Rgroup
rgroup_init self groupname groupindex weight =
    if ltb (length groupname) rgroup_name_length
    then some (record self {
      is_shutting_down = false;
      is_dead = false;
      groupname = groupname;
      groupindex = groupindex;
      weight = default_group_weight weight;
      nreplica = 0;
      replicas = replicate rgroup_max_replica none;
    })
    else none

-- `while (rgroupcount > new_count) new_count += 10;`
unfoldable pub grow_count : ℕ → ℕ → ℕ → Option ℕ
grow_count zero rgroupcount new_count = none
grow_count (suc fuel) rgroupcount new_count =
    let later = grow_count fuel rgroupcount ((new_count + 10) % 2 ^ 32) in
    if ltb new_count rgroupcount then later else some new_count

-- The loop that expands the server space; the result is whether its memory was enough.
unfoldable pub expand_servers : ℕ → List Server → ServerPool → Bool × ServerPool
expand_servers needed [] memc = (leb needed memc.server_ntotal, memc)
expand_servers needed (new_server ∷ memory) memc =
    let later = expand_servers needed memory (record memc {
      servers = new_server ∷ memc.servers;
      server_ntotal = memc.server_ntotal + 1;
      server_navail = memc.server_navail + 1;
    }) in
    if ltb memc.server_ntotal needed then later else (true, memc)

unfoldable pub expand_pool : RgroupOutside → ℕ → RgroupClient → Bool × RgroupClient
unfolding expand_servers
expand_pool o servercount memc =
    let r = expand_servers ((servercount + 1) % 2 ^ 32) o.server_memory memc.memc in
    (r.0, record memc { memc = r.1 })

-- `memcached_rgroup_expand`; `false` is the result -1. The count of slots ends within the fuel,
-- unless it wraps around.
unfoldable pub rgroup_expand : RgroupOutside → ℕ → ℕ → RgroupClient → Option (Bool × RgroupClient)
unfolding grow_count expand_pool
rgroup_expand o rgroupcount servercount memc =
    if ltb memc.rgroup_ntotal rgroupcount
    then (grow_count (suc rgroupcount) rgroupcount ((memc.rgroup_ntotal + 10) % 2 ^ 32) >>= λ n.
        some (
          if o.rgroups_allocated
          then expand_pool o servercount (record memc { rgroup_ntotal = n })
          else (false, memc)))
    else some (expand_pool o servercount memc)

-- A new group of a name and addresses, in the next slot.
unfoldable pub add_group : RgroupOutside → Bytes → List Address → RgroupClient → Option RgroupClient
unfolding rgroup_create
add_group o groupname addresses memc =
    if ltb (length memc.rgroups) memc.rgroup_ntotal
    then (rgroup_init (rgroup_create o.slot_memory) groupname (length memc.rgroups) 0 >>= λ g.
        insert_all 0 addresses (record { memc = memc.memc; rgroup = g }) >>= λ st.
        some (record memc { memc = st.memc; rgroups = memc.rgroups ++ (st.rgroup ∷ []) }))
    else none

-- The addresses of the first `n` replicas of an entry.
unfoldable pub info_addresses : ℕ → List (Option ServerInfo) → Option (List Address)
info_addresses zero slots = some []
info_addresses (suc n) [] = none
info_addresses (suc n) (none ∷ slots) = none
info_addresses (suc n) (some s ∷ slots) =
    info_addresses n slots >>= λ rest. some (record { hostname = s.hostname; port = s.port } ∷ rest)

-- The loop of `memcached_rgroup_push_with_groupinfo`
unfoldable pub add_infos : RgroupOutside → List RgroupInfo → RgroupClient → Option RgroupClient
add_infos o [] memc = some memc
add_infos o (g ∷ rest) memc =
    if g.valid
    then (info_addresses g.nreplica g.replicas >>= λ addresses.
        add_group o g.groupname addresses memc >>= add_infos o rest)
    else add_infos o rest memc

-- The addresses of the first `n` replicas of a group.
unfoldable pub rgroup_addresses : ℕ → List (Option Server) → Option (List Address)
rgroup_addresses zero slots = some []
rgroup_addresses (suc n) [] = none
rgroup_addresses (suc n) (none ∷ slots) = none
rgroup_addresses (suc n) (some s ∷ slots) = rgroup_addresses n slots >>= λ rest.
    some (record { hostname = s.hostname; port = s.port } ∷ rest)

-- The loop of `memcached_rgroup_push`
unfoldable pub add_rgroups : RgroupOutside → List Rgroup → RgroupClient → Option RgroupClient
add_rgroups o [] memc = some memc
add_rgroups o (g ∷ rest) memc = rgroup_addresses g.nreplica g.replicas >>= λ addresses.
    add_group o g.groupname addresses memc >>= λ memc'.
    add_rgroups o rest (if ltb 1 g.weight then record memc' { weighted = true } else memc')
