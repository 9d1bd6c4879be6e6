-- ===== src/GroupList/Removal.antt =====
-- Groups that leave or change places: `do_rgroup_index_set`, `do_rgroup_destroy`,
-- `memcached_rgroup_list_free`, `memcached_rgroup_prune` and `memcached_rgroup_sort` of
-- libmemcached/rgroup.cc.
use arcus_c_client.Prelude.{
  ℕ, zero, suc, ◌-◌, Bool, true, false, Option, none, some, List, [], ◌∷◌, Ordering, ltb, ◌==◌,
  if◌then◌else◌,
}
use arcus_c_client.Server.{Server}
use arcus_c_client.Text.{strcmp}
use arcus_c_client.Rgroup.{Rgroup, ServerPool, GroupState, ◌>>=◌, rgroup_max_replica, server_remove}
use arcus_c_client.GroupList.{RgroupClient, RgroupOutside}

-- `replicas[x]->groupindex= groupindex` of the first `n` slots
unfoldable pub mark_slots : ℕ → ℕ → List (Option Server) → Option (List (Option Server))
mark_slots groupindex zero slots = some slots
mark_slots groupindex (suc n) [] = none
mark_slots groupindex (suc n) (none ∷ slots) = none
mark_slots groupindex (suc n) (some s ∷ slots) = mark_slots groupindex n slots >>= λ r.
    some (some (record s { groupindex = some groupindex }) ∷ r)

-- `do_rgroup_index_set`
unfoldable pub index_set : Rgroup → ℕ → Option Rgroup
index_set self groupindex =
    if self.groupindex == groupindex
    then some self
    else (mark_slots groupindex self.nreplica self.replicas >>= λ slots.
        some (record self { groupindex = groupindex; replicas = slots }))

-- `while (self->nreplica > 0) do_rgroup_server_remove(self, self->nreplica-1);`
unfoldable pub remove_replicas : ℕ → GroupState → Option GroupState
remove_replicas zero st = none
remove_replicas (suc fuel) st =
    if ltb 0 st.rgroup.nreplica
    then server_remove st (st.rgroup.nreplica - 1) >>= remove_replicas fuel
    else some st

-- `do_rgroup_destroy`; a group on the heap by itself is freed.
unfoldable pub rgroup_destroy : GroupState → Option GroupState
rgroup_destroy st = remove_replicas (suc rgroup_max_replica) st >>= λ st'. some (
    if st'.rgroup.is_allocated
    then st'
    else record st' { rgroup = record (st'.rgroup) { is_initialized = false } })

-- The loop of `memcached_rgroup_prune` over the groups from index `x` on.
unfoldable pub prune_dead : ℕ → ℕ → List Rgroup → ServerPool → Option (List Rgroup × ServerPool)
prune_dead x cursor [] memc = some ([], memc)
prune_dead x cursor (g ∷ rest) memc =
    if g.is_dead
    then (rgroup_destroy (record { memc = memc; rgroup = g }) >>= λ st.
        prune_dead (suc x) cursor rest st.memc)
    else ((if ltb cursor x then index_set g cursor else some g) >>= λ g'.
        prune_dead (suc x) (suc cursor) rest memc >>= λ r. some (g' ∷ r.0, r.1))

-- `for (x= 0; x < number_of_hosts; x++) do_rgroup_destroy(&memc->rgroups[x], memc);`
unfoldable pub destroy_all : List Rgroup → ServerPool → Option ServerPool
destroy_all [] memc = some memc
destroy_all (g ∷ rest) memc =
    rgroup_destroy (record { memc = memc; rgroup = g }) >>= λ st. destroy_all rest st.memc

-- `while ((server= do_rgroup_server_alloc(memc)) != NULL) libmemcached_free(memc, server);`, of the
-- servers in the pool
unfoldable pub free_servers : List Server → ServerPool → ServerPool
free_servers [] memc = memc
free_servers (s ∷ rest) memc =
    free_servers rest (record memc { servers = rest; server_navail = memc.server_navail - 1 })

-- `memcached_rgroup_list_free`
unfoldable pub rgroup_list_free : RgroupClient → Option RgroupClient
rgroup_list_free memc =
    if ltb 0 memc.rgroup_ntotal
    then (destroy_all memc.rgroups memc.memc >>= λ pool.
        let empty = free_servers pool.servers pool in
        some (record memc {
          memc = record empty { server_ntotal = 0 };
          rgroups = [];
          rgroup_ntotal = 0;
        }))
    else some memc

-- `memcached_rgroup_prune`, of all groups or of the dead ones only
unfoldable pub rgroup_prune : Bool → RgroupClient → Option RgroupClient
rgroup_prune true memc = rgroup_list_free memc
rgroup_prune false memc =
    prune_dead 0 0 memc.rgroups memc.memc >>= λ r. some (record memc { memc = r.1; rgroups = r.0 })

-- `do_rgroup_compare`
unfoldable pub rgroup_compare : Rgroup → Rgroup → Ordering
rgroup_compare a b = strcmp a.groupname b.groupname

-- `do_rgroup_index_set(&memc->rgroups[x], x)` from index `x` on
unfoldable pub index_groups : ℕ → List Rgroup → Option (List Rgroup)
index_groups x [] = some []
index_groups x (g ∷ rest) =
    index_set g x >>= λ g'. index_groups (suc x) rest >>= λ rest'. some (g' ∷ rest')

-- `memcached_rgroup_sort`
unfoldable pub rgroup_sort : RgroupOutside → RgroupClient → Option RgroupClient
rgroup_sort o memc =
    if ltb 0 memc.rgroup_ntotal
    then (index_groups 0 (o.sort_rgroups rgroup_compare memc.rgroups) >>= λ groups.
        some (record memc { rgroups = groups }))
    else some memc
