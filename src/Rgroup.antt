-- ===== src/Rgroup.antt =====
-- Replica groups: the pool of servers, the replicas of a group, and its update to a new list of
-- addresses (libmemcached/rgroup.cc). A failed `assert` and a NULL that is followed are `none`.
pub mod Slots
pub mod Ops
pub mod Marks
pub mod Slaves
pub mod Halves
pub mod Refinement
pub mod Switchover
pub mod HostPort
pub mod Peer
pub mod Named
pub mod Every
pub mod Kept
use arcus_c_client.Prelude.{
  ℕ, zero, suc, ◌+◌, ◌-◌, ◌<◌, Bool, true, false, ◌&&◌, not, Option, none, some, List, [], ◌∷◌, ltb,
  leb, ◌==◌, if◌then◌else◌, length, get_elem?, get_or, set, replicate, map,
}
use arcus_c_client.ReturnCode.{ReturnCode, invalid_arguments}
use arcus_c_client.Server.{Server, tcp, is_valid_servername, server_create_with, server_free}
use arcus_c_client.Text.{Bytes, str_eq}

abbrev pub rgroup_max_replica : ℕ
rgroup_max_replica = 3

-- `memcached_rgroup_st`; a slot of `replicas` that is NULL is `none`.
pub record Rgroup : Type 0 where
  pub is_allocated : Bool
  pub is_initialized : Bool
  pub is_shutting_down : Bool
  pub is_dead : Bool
  pub groupindex : ℕ
  pub groupname : Bytes
  pub weight : ℕ
  pub nreplica : ℕ
  pub replicas : List (Option Server)

-- The part of the client that a group's replicas are taken from: the list of free servers, its
-- counters, the version counter and the last error.
pub record ServerPool : Type 0 where
  pub servers : List Server
  pub server_ntotal : ℕ
  pub server_navail : ℕ
  pub version : ℕ
  pub error : Option ReturnCode

-- What `do_rgroup_server_*` changes.
pub record GroupState : Type 0 where
  pub memc : ServerPool
  pub rgroup : Rgroup

-- A host and its port, in a `memcached_server_info_st` or a `memcached_server_st`.
pub record Address : Type 0 where
  pub hostname : Bytes
  pub port : ℕ

infixl 5 ◌>>=◌
abbrev pub ◌>>=◌ {ℓ κ} : {A : Type ℓ} {B : Type κ} → Option A → (A → Option B) → Option B
none >>= f = none
some a >>= f = f a

-- The server in a slot; NULL, and a slot that does not exist, are `none`.
abbrev pub slot : List (Option Server) → ℕ → Option Server
slot [] i = none
slot (s ∷ r) zero = s
slot (s ∷ r) (suc i) = slot r i

-- `do_rgroup_server_alloc`
unfoldable pub server_alloc : ServerPool → Option (Server × ServerPool)
server_alloc memc = elim memc.servers [
  | [] ↦ none
  | s ∷ rest ↦ some (s, record memc { servers = rest; server_navail = memc.server_navail - 1 })
]

-- `do_rgroup_server_free`
unfoldable pub server_release : ServerPool → Server → ServerPool
server_release memc s = record memc {
  servers = s ∷ memc.servers;
  server_navail = memc.server_navail + 1;
}

-- A free server of the pool made new, with the group's index set.
unfoldable pub take_server : GroupState → Bytes → ℕ → Option (Server × ServerPool)
take_server st hostname port = server_alloc st.memc >>= λ r.
    let made = server_create_with r.0 st.memc.version hostname port 0 tcp in
    some (
      record (made.1) { groupindex = some st.rgroup.groupindex },
      record (r.1) { version = made.0 },
    )

abbrev pub invalid_hostname : GroupState → GroupState
invalid_hostname st = record st { memc = record (st.memc) { error = some invalid_arguments } }

-- `for (int i= nreplica-1; i >= sindex; i--) replicas[i+1]= replicas[i];`
unfoldable pub shift_up : ℕ → ℕ → List (Option Server) → List (Option Server)
shift_up sindex zero r = r
shift_up sindex (suc i) r = shift_up sindex i (if leb sindex i then set r (suc i) (slot r i) else r)

-- `for (int i= sindex+1; i < nreplica; i++) replicas[i-1]= replicas[i];` in as many rounds
unfoldable pub shift_down : ℕ → ℕ → List (Option Server) → List (Option Server)
shift_down zero i r = r
shift_down (suc rounds) i r = shift_down rounds (suc i) (set r (i - 1) (slot r i))

-- The slots after the insertion of `s` into the first `n`.
unfoldable pub put_slot : List (Option Server) → ℕ → Option ℕ → Server → List (Option Server)
unfolding shift_up
put_slot r n none s = set r n (some s)
put_slot r n (some sindex) s =
    if sindex == n then set r n (some s) else set (shift_up sindex n r) sindex (some s)

abbrev pub index_fits : Option ℕ → ℕ → Bool
index_fits none n = true
index_fits (some sindex) n = leb sindex n

-- `do_rgroup_server_insert`; `none` is the index -1.
unfoldable pub server_insert : GroupState → Option ℕ → Bytes → ℕ → Option GroupState
server_insert st sindex hostname port =
    let g = st.rgroup in
    if ltb g.nreplica rgroup_max_replica && index_fits sindex g.nreplica
    then (if is_valid_servername hostname
        then (take_server st hostname port >>= λ r. some (record {
          memc = r.1;
          rgroup = record g {
            replicas = put_slot g.replicas g.nreplica sindex r.0;
            nreplica = g.nreplica + 1;
          };
        }))
        else some (invalid_hostname st))
    else none

-- The slots after the removal of one of the first `n`.
unfoldable pub drop_slot : List (Option Server) → ℕ → ℕ → List (Option Server)
unfolding shift_down
drop_slot r n sindex =
    if sindex == n - 1
    then set r sindex none
    else set (shift_down (n - (sindex + 1)) (sindex + 1) r) (n - 1) none

-- `do_rgroup_server_remove`
unfoldable pub server_remove : GroupState → ℕ → Option GroupState
server_remove st sindex =
    let g = st.rgroup in
    if ltb sindex g.nreplica
    then (slot g.replicas sindex >>= λ s. some (record {
      memc = server_release st.memc (server_free s);
      rgroup = record g {
        replicas = drop_slot g.replicas g.nreplica sindex;
        nreplica = g.nreplica - 1;
      };
    }))
    else none

-- `do_rgroup_server_replace`
unfoldable pub server_replace : GroupState → ℕ → Bytes → ℕ → Option GroupState
server_replace st sindex hostname port =
    let g = st.rgroup in
    if ltb sindex g.nreplica
    then (if is_valid_servername hostname
        then (take_server st hostname port >>= λ r. slot g.replicas sindex >>= λ old. some (record {
          memc = server_release (r.1) (server_free old);
          rgroup = record g { replicas = set g.replicas sindex (some r.0) };
        }))
        else some (invalid_hostname st))
    else none

-- `do_rgroup_server_switchover`
unfoldable pub server_switchover : GroupState → ℕ → Option GroupState
server_switchover st sindex =
    let g = st.rgroup in
    if ltb 0 sindex && ltb sindex g.nreplica
    then some (record st {
      rgroup = record g {
        replicas = set (set g.replicas 0 (slot g.replicas sindex)) sindex (slot g.replicas 0);
      };
    })
    else none

-- `RGROUP_SERVER_IS_SAME`, of a server and an address
unfoldable pub is_same : Server → Address → Bool
unfolding str_eq
is_same s a = str_eq s.hostname a.hostname && s.port == a.port

-- The master's search for itself among the slaves: `i` and on, in as many rounds; the
-- number of replicas where it is not found.
unfoldable pub find_replica : ℕ → ℕ → Rgroup → Address → Option ℕ
find_replica zero i g a = some i
find_replica (suc rounds) i g a =
    let later = find_replica rounds (suc i) g a in
    slot g.replicas i >>= λ s. if is_same s a then some i else later

-- The search for a new slave that an old one is the same as, and that no other has taken.
unfoldable pub find_slave : Server → ℕ → List Bool → List Address → Option ℕ
find_slave s j exist [] = none
find_slave s j exist (a ∷ more) =
    let later = find_slave s (suc j) exist more in
    if get_or exist j false then later else if is_same s a then some j else later

-- What the loops of the update carry: the group, the marks of the new slaves, and `changed`.
pub record UpdateState : Type 0 where
  pub group : GroupState
  pub exist : List Bool
  pub changed : Bool

-- Removal of the old slaves that have disappeared, from index `i` on.
unfoldable pub remove_slaves : ℕ → ℕ → List Address → UpdateState → Option UpdateState
remove_slaves zero i slaves u = none
remove_slaves (suc fuel) i slaves u =
    if ltb i u.group.rgroup.nreplica
    then (slot u.group.rgroup.replicas i >>= λ s. elim (find_slave s 1 u.exist slaves) [
      | some j ↦ remove_slaves fuel (i + 1) slaves (record u { exist = set u.exist j true })
      | none ↦ server_remove u.group i >>= λ g.
          remove_slaves fuel i slaves (record u { group = g; changed = true })
    ])
    else some u

-- Insertion of the new slaves that have appeared, from index `i` on.
unfoldable pub insert_slaves : ℕ → List Address → UpdateState → Option UpdateState
insert_slaves i [] u = some u
insert_slaves i (a ∷ more) u =
    if get_or u.exist i false
    then insert_slaves (suc i) more u
    else (server_insert u.group none a.hostname a.port >>= λ g.
        insert_slaves (suc i) more (record u { group = g; changed = true }))

-- `for (int i= 1; i < nreplica; i++) do_rgroup_server_insert(rgroup, i, ...)`
unfoldable pub insert_all : ℕ → List Address → GroupState → Option GroupState
insert_all i [] st = some st
insert_all i (a ∷ more) st = server_insert st (some i) a.hostname a.port >>= insert_all (suc i) more

-- `while (rgroup->nreplica > 1) do_rgroup_server_remove(rgroup, rgroup->nreplica-1);`
unfoldable pub remove_all : ℕ → GroupState → Option GroupState
remove_all zero st = none
remove_all (suc fuel) st =
    if ltb 1 st.rgroup.nreplica
    then server_remove st (st.rgroup.nreplica - 1) >>= remove_all fuel
    else some st

-- The master of a group of two or more: switched with the slave that has the new address, or
-- replaced.
unfoldable pub move_master : Address → GroupState → Option (GroupState × Bool)
move_master m st =
    let n = st.rgroup.nreplica in
    slot st.rgroup.replicas 0 >>= λ s.
    if is_same s m
    then some (st, false)
    else (find_replica (n - 1) 1 st.rgroup m >>= λ i.
        (if ltb i n then server_switchover st i else server_replace st 0 m.hostname m.port)
        >>= λ st'. some (st', true))

-- The slaves of a group of two or more.
unfoldable pub update_slaves : List Address → GroupState × Bool → Option (GroupState × Bool)
update_slaves [] (st, changed) = remove_all (suc rgroup_max_replica) st >>= λ st'. some (st', true)
update_slaves (a ∷ slaves) (st, changed) =
    remove_slaves (suc rgroup_max_replica) 1 (a ∷ slaves)
      (record { group = st; exist = replicate rgroup_max_replica false; changed = changed })
    >>= λ u. insert_slaves 1 (a ∷ slaves) u >>= λ u'. some (u'.group, u'.changed)

abbrev pub single_slaves : List Address → GroupState × Bool → Option (GroupState × Bool)
single_slaves [] r = some r
single_slaves (a ∷ slaves) r = insert_all 1 (a ∷ slaves) r.0 >>= λ st'. some (st', true)

-- A group of one replica.
unfoldable pub update_single : Address → List Address → GroupState → Option (GroupState × Bool)
update_single m slaves st = slot st.rgroup.replicas 0 >>= λ s.
    (if is_same s m
      then some (st, false)
      else (server_replace st 0 m.hostname m.port >>= λ st'. some (st', true)))
    >>= λ r. single_slaves slaves r

-- `memcached_rgroup_update` and `memcached_rgroup_update_with_groupinfo`, which differ only in the
-- type that the new addresses, the master first, are read from. The result is `changed`.
unfoldable pub rgroup_update : GroupState → List Address → Option (GroupState × Bool)
rgroup_update st [] = none
rgroup_update st (m ∷ slaves) =
    if st.rgroup.nreplica == 1
    then update_single m slaves st
    else (move_master m st >>= update_slaves slaves)
