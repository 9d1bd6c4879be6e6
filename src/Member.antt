-- ===== src/Member.antt =====
-- The server list of a member of a pool, which follows its master's: libmemcached/memcached.cc and
-- memcached_server_push of libmemcached/hosts.cc.
pub mod Follow
pub mod Update
use arcus_c_client.Prelude.{
  ℕ, zero, suc, ◌+◌, ◌-◌, Bool, true, false, ◌&&◌, ◌||◌, not, Option, none, some, List, [], ◌∷◌,
  ◌++◌, ltb, ◌==◌, if◌then◌else◌, length, take,
}
use arcus_c_client.ReturnCode.{
  ReturnCode, success, invalid_arguments, invalid_host_protocol, memory_allocation_failure,
}
use arcus_c_client.Text.{str_eq}
use arcus_c_client.Server.{Server, Connection, is_valid_servername, server_create_with}
use arcus_c_client.Cluster.{
  Cluster, Outside, with_servers, count_first, server_prune, run_distribution, set_error,
}

abbrev is_udp : Connection → Bool
is_udp Connection.udp = true
is_udp _ = false

-- A server of the list is created behind the client's own.
unfoldable pub push_one : Outside → Server → Cluster → Cluster
push_one o s ptr =
    let created =
      server_create_with o.fresh_memory ptr.server_info_version s.hostname s.port s.weight s.type in
    record ptr {
      client = record ptr.client {
        servers = ptr.client.servers ++ (created.1 ∷ []);
        weighted = ptr.client.weighted || ltb 1 s.weight;
      };
      server_info_version = created.0;
    }

-- The loop of `memcached_server_push_with_count`
unfoldable pub push_servers : Outside → List Server → Cluster → ReturnCode × Cluster
unfolding push_one
push_servers o [] ptr = (success, ptr)
push_servers o (s ∷ rest) ptr =
    let later = push_servers o rest (push_one o s ptr) in
    if (ptr.use_udp && not (is_udp s.type)) || (is_udp s.type && not ptr.use_udp)
    then (invalid_host_protocol, ptr)
    else if is_valid_servername s.hostname
    then later
    else set_error ptr invalid_arguments

-- The end of a push
unfoldable pub push_end : Outside → ReturnCode × Cluster → ReturnCode × Cluster
push_end o (success, ptr) = run_distribution o (with_servers ptr (count_first ptr.client.servers))
push_end o (rc, ptr) = (rc, ptr)

-- `memcached_server_push_with_count`, of a list of `count` servers that is not NULL
unfoldable pub server_push_with_count : Outside → List Server → Cluster → ReturnCode × Cluster
unfolding push_servers push_end
server_push_with_count o list ptr =
    if o.list_allocated
    then push_end o (push_servers o list ptr)
    else (memory_allocation_failure, ptr)

-- `memcached_server_push`; the empty list is NULL, and any other has as many servers as its first one counts.
unfoldable pub server_push : Outside → List Server → Cluster → ReturnCode × Cluster
unfolding server_push_with_count
server_push o [] ptr = (success, ptr)
server_push o (s ∷ rest) ptr = server_push_with_count o (take s.number_of_hosts (s ∷ rest)) ptr

-- The test for one address
unfoldable pub is_same_address : Server → Server → Bool
is_same_address a b = str_eq a.hostname b.hostname && (a.port == b.port)

-- The loop over the member's servers: the servers with their marks, the master's servers that are not
-- reached, and `prune_flag`
unfoldable pub follow : List Server → List Server → List Server × List Server × Bool
unfolding is_same_address
follow [] masters = ([], masters, false)
follow (s ∷ rest) [] = let r = follow rest [] in (record s { is_dead = true } ∷ r.0, r.1, true)
follow (s ∷ rest) (m ∷ masters) =
    let kept = follow rest masters in
    let lost = follow rest (m ∷ masters) in
    if is_same_address s m
    then (s ∷ kept.0, kept.1, kept.2)
    else (record s { is_dead = true } ∷ lost.0, lost.1, true)

-- What follows the loop
unfoldable pub follow_end :
    Outside → Cluster → List Server × List Server × Bool → ReturnCode × Cluster
follow_end o mc (servers, rest, prune_flag) =
    let mc' = with_servers mc (if prune_flag then server_prune false servers else servers) in
    elim rest [
      | m ∷ more ↦ server_push_with_count o (m ∷ more) mc'
      | [] ↦ if prune_flag then run_distribution o mc' else (success, mc')
    ]

-- `do_memcached_update_serverlist_with_master`, of the master's servers
unfoldable pub update_with_master : Outside → Cluster → List Server → ReturnCode × Cluster
unfolding follow follow_end server_push
update_with_master o mc masters = elim mc.client.servers [
  | [] ↦ elim masters [ [] ↦ (success, mc) | m ∷ more ↦ server_push o (m ∷ more) mc ]
  | s ∷ rest ↦ elim masters [
    | [] ↦ run_distribution o (with_servers mc (server_prune true (s ∷ rest)))
    | m ∷ more ↦ follow_end o mc (follow (s ∷ rest) (m ∷ more))
  ]
]
