-- ===== src/Rgroup/Named.antt =====
-- What a server's line about a switchover does to its group.
use arcus_c_client.Prelude.{
  ◌^◌, ◌<◌, ◌≡◌, refl, subst, true, false, All, none, some, List, [], ◌∷◌, ◌++◌, ltb, lt→ltb,
  length, arith,
}
use arcus_c_client.Server.{Server}
use arcus_c_client.Response.{peer_check, peer_size}
use arcus_c_client.Rgroup.{GroupState, slot, is_same, server_switchover, ◌>>=◌}
use arcus_c_client.Rgroup.Slots.{Replicas, address}
use arcus_c_client.Rgroup.Switchover.{switchover_to, rgroup_switchover}
use arcus_c_client.Rgroup.HostPort.{NoColon, peer_text}
use arcus_c_client.Rgroup.Peer.{told, marked, rgroup_switchover-told}

peer_check-told :
    (st : GroupState) (a : Server) (mid : List Server) (b : Server) (rest : List Server)
    → length (peer_text (address b)) < peer_size
    → peer_check (some (peer_text (address b))) a ≡ told st a mid b rest
unfolding peer_check
peer_check-told st a mid b rest h = rw (lt→ltb (length (peer_text (address b))) peer_size h) refl

-- In a group of at most three servers that carry its index, whose master was told, by a SWITCHOVER or
-- REPL_SLAVE line, the address HOST:PORT of one of its slaves, with a host of at least one byte without a
-- colon, a port from 1 to 65535, and less than 128 bytes in all, memcached_rgroup_switchover succeeds: the
-- first slave with the address becomes the master, the master takes its place, with its address kept, and
-- the others stay where they are, as does the pool.
pub rgroup_switchover-named :
    (st : GroupState) (a : Server) (mid : List Server) (b : Server) (rest : List Server)
    → Replicas st (peer_check (some (peer_text (address b))) a ∷ mid ++ b ∷ rest)
    → length (peer_text (address b)) < peer_size
    → 0 < length b.hostname
    → NoColon b.hostname
    → 0 < b.port
    → b.port < 2 ^ 16
    → All (λ s. is_same s (address b) ≡ false) mid
    → (st' : GroupState) × (a' : Server) × (rgroup_switchover st 0 ≡ some (st', true))
      × Replicas st' (b ∷ mid ++ a' ∷ rest)
      × (address a' ≡ address a)
      × (st'.memc ≡ st.memc)
rgroup_switchover-named st a mid b rest h short n k p w before =
    let heard : Replicas st (told st a mid b rest ∷ mid ++ b ∷ rest) =
      subst (λ s. Replicas st (s ∷ mid ++ b ∷ rest)) (peer_check-told st a mid b rest short) h in
    let (st', run, held, pool) = rgroup_switchover-told st a mid b rest heard n k p w before in
    (st', marked st a mid b rest, run, held, refl, pool)

-- In a group of a master alone, which carries its index, a line that names no peer makes memcached_rgroup_switchover fail the
-- assertion on the index of the slave, which the line has set to 1.
pub rgroup_switchover_alone :
    (st : GroupState) (a : Server)
    → Replicas st (peer_check none a ∷ [])
    → rgroup_switchover st 0 ≡ none
unfolding rgroup_switchover peer_check switchover_to server_switchover
rgroup_switchover_alone st a h =
    let master : slot st.rgroup.replicas 0 ≡ some (record a { switchover_sidx = some 1 }) =
      rw h.replicas_eq refl in
    let few : ltb 1 st.rgroup.nreplica ≡ false = ground (arith, h.nreplica_eq) in
    rw (master, ◌>>=◌, few) refl
