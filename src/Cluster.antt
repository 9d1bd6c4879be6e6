-- ===== src/Cluster.antt =====
-- The servers of a client and their update from a list of addresses: the functions of
-- libmemcached/hosts.cc and libmemcached/memcached.cc for a client without replica groups.
pub mod Membership
pub mod Update
use arcus_c_client.Prelude.{
  ℕ, zero, suc, ◌+◌, ◌-◌, Bool, true, false, ◌&&◌, ◌||◌, not, Option, none, some, List, [], ◌∷◌,
  ◌++◌, map, Ordering, compare, ltb, ◌==◌, if◌then◌else◌, length,
}
use arcus_c_client.ReturnCode.{
  ReturnCode, success, invalid_arguments, invalid_host_protocol, memory_allocation_failure,
}
use arcus_c_client.Text.{Bytes, strcmp, str_eq}
use arcus_c_client.Server.{Server, Connection, is_valid_servername, server_create_with}
use arcus_c_client.Ring.{Distribution}
use arcus_c_client.Ketama.{Client, Primitives, Environment, update_continuum}

-- `memcached_server_info_st`
pub record ServerInfo : Type 0 where
  pub groupname : Bytes
  pub hostname : Bytes
  pub port : ℕ
  pub master : Bool
  pub exist : Bool

-- The rest of what `memcached_st` keeps for its servers: its flags and the version counter.
pub record Cluster : Type 0 where
  pub client : Client
  pub server_info_version : ℕ
  pub use_sort_hosts : Bool
  pub use_udp : Bool

-- What the operations take from outside: the primitives of the ring, the sort of the C library, the
-- memory that `realloc` extends an array by, and whether it succeeds.
pub record Outside : Type 0 where
  pub primitives : Primitives
  pub environment : Environment
  pub sort_servers : (Server → Server → Ordering) → List Server → List Server
  pub list_allocated : Bool
  pub fresh_memory : Server

-- `compare_servers`
unfoldable pub compare_servers : Server → Server → Ordering
compare_servers a b = elim (strcmp a.hostname b.hostname) [
  | Ordering.eq ↦ compare a.port b.port
  | Ordering.lt ↦ Ordering.lt
  | Ordering.gt ↦ Ordering.gt
]

-- `instance->number_of_hosts= memcached_server_count(ptr)` of the first server
unfoldable pub count_first : List Server → List Server
count_first [] = []
count_first (s ∷ rest) = record s { number_of_hosts = suc (length rest) } ∷ rest

-- `sort_hosts`
unfoldable pub sort_hosts : Outside → List Server → List Server
unfolding compare_servers count_first
sort_hosts o servers = count_first (o.sort_servers compare_servers servers)

abbrev pub with_servers : Cluster → List Server → Cluster
with_servers mc servers = record mc { client = record mc.client { servers = servers } }

-- The distribution is one of those that have a ring.
abbrev pub is_consistent : Distribution → Bool
is_consistent Distribution.consistent = true
is_consistent Distribution.consistent_ketama = true
is_consistent Distribution.consistent_ketama_spy = true
is_consistent _ = false

-- `run_distribution`, with assertions off.
unfoldable pub run_distribution : Outside → Cluster → ReturnCode × Cluster
run_distribution o ptr =
    let ptr' =
      if ptr.use_sort_hosts then with_servers ptr (sort_hosts o ptr.client.servers) else ptr in
    if is_consistent ptr'.client.distribution
    then (let r = update_continuum o.primitives o.environment ptr'.client in
        (r.0, record ptr' { client = r.1 }))
    else (success, ptr')

-- The servers that are not dead, in order.
unfoldable pub drop_dead : List Server → List Server
drop_dead [] = []
drop_dead (s ∷ rest) = if s.is_dead then drop_dead rest else s ∷ drop_dead rest

-- `memcached_server_prune`, of the dead servers only or of all
unfoldable pub server_prune : Bool → List Server → List Server
unfolding drop_dead
server_prune true servers = []
server_prune false servers =
    let kept = drop_dead servers in
    let counted : Server → Server = λ s. record s { number_of_hosts = length kept } in
    map counted kept

-- The loop of `memcached_server_push_with_serverinfo`
unfoldable pub push_infos : Outside → List ServerInfo → Cluster → ReturnCode × Cluster
push_infos o [] ptr = (success, ptr)
push_infos o (info ∷ rest) ptr =
    let created =
      server_create_with o.fresh_memory ptr.server_info_version info.hostname info.port 0
        (if info.port == 0 then Connection.unix_socket else Connection.tcp) in
    let later =
      push_infos o rest (record (with_servers ptr (ptr.client.servers ++ (created.1 ∷ []))) {
        server_info_version = created.0;
      }) in
    if info.exist
    then push_infos o rest ptr
    else if is_valid_servername info.hostname
    then later
    else (invalid_arguments, ptr)

-- `memcached_set_error`: the code is kept and returned.
unfoldable pub set_error : Cluster → ReturnCode → ReturnCode × Cluster
set_error ptr rc = (rc, record ptr { client = record ptr.client { error = some rc } })

-- The end of a push: the counter of the first server, and the distribution.
unfoldable pub pushed : Outside → ReturnCode × Cluster → ReturnCode × Cluster
unfolding set_error
pushed o (success, ptr) = run_distribution o (with_servers ptr (count_first ptr.client.servers))
pushed o (rc, ptr) = set_error ptr rc

-- `memcached_server_push_with_serverinfo`
unfoldable pub server_push_with_serverinfo :
    Outside → List ServerInfo → Cluster → ReturnCode × Cluster
server_push_with_serverinfo o [] ptr = (success, ptr)
server_push_with_serverinfo o (info ∷ rest) ptr =
    if ptr.use_udp
    then set_error ptr invalid_host_protocol
    else if o.list_allocated
    then pushed o (push_infos o (info ∷ rest) ptr)
    else set_error ptr memory_allocation_failure

-- The test of one address against one server.
unfoldable pub is_server : Server → ServerInfo → Bool
is_server s info = str_eq s.hostname info.hostname && (s.port == info.port)

-- The inner loop: the first entry that is not taken yet and has the server's address is taken; `none`
-- if there is none.
unfoldable pub take_info : Server → List ServerInfo → Option (List ServerInfo)
unfolding is_server
take_info s [] = none
take_info s (info ∷ rest) =
    let later = take_info s rest in
    if not info.exist && is_server s info
    then some (record info { exist = true } ∷ rest)
    else elim later [ none ↦ none | some rest' ↦ some (info ∷ rest') ]

-- What the outer loop leaves.
pub record Marked : Type 0 where
  pub servers : List Server
  pub infos : List ServerInfo
  pub validcount : ℕ
  pub prune_flag : Bool

-- The outer loop over the client's servers.
unfoldable pub mark_servers : List Server → List ServerInfo → ℕ → Marked
unfolding take_info
mark_servers [] infos validcount = record {
  servers = [];
  infos = infos;
  validcount = validcount;
  prune_flag = false;
}
mark_servers (s ∷ rest) infos validcount = elim (take_info s infos) [
  | some infos' ↦
      let m = mark_servers rest infos' (validcount - 1) in record m { servers = s ∷ m.servers }
  | none ↦
      let m = mark_servers rest infos validcount in
      record m { servers = record s { is_dead = true } ∷ m.servers; prune_flag = true }
]

-- What follows the marks; the last component is `*serverlist_changed`.
unfoldable pub apply_marks : Outside → Cluster → Marked → (ReturnCode × Cluster) × Bool
apply_marks o mc m =
    let marked = with_servers mc m.servers in
    let pruned = with_servers mc (server_prune false m.servers) in
    if ltb 0 m.validcount
    then (server_push_with_serverinfo o m.infos (if m.prune_flag then pruned else marked), true)
    else if m.prune_flag
    then (run_distribution o pruned, true)
    else ((success, marked), false)

-- `do_memcached_update_serverlist`
unfoldable pub update_serverlist :
    Outside → Cluster → List ServerInfo → (ReturnCode × Cluster) × Bool
update_serverlist o mc [] = elim mc.client.servers [
  | [] ↦ ((success, mc), false)
  | s ∷ rest ↦ (run_distribution o (with_servers mc (server_prune true mc.client.servers)), true)
]
update_serverlist o mc (info ∷ infos) =
    apply_marks o mc (mark_servers mc.client.servers (info ∷ infos) (length (info ∷ infos)))
