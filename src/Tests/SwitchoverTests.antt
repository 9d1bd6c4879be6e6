-- ===== src/Tests/SwitchoverTests.antt =====
-- The switchover of a group of three servers to the slave that its master names.
use arcus_c_client.Prelude.{
  ℕ, ◌≡◌, refl, Option, Bool, true, false, some, none, List, [], ◌∷◌, map, arith,
}
use arcus_c_client.Text.{codes, print_unsigned, str_eq}
use arcus_c_client.Server.{Server}
use arcus_c_client.Response.{peer_check}
use arcus_c_client.Value.{is_negative}
use arcus_c_client.Rgroup.{GroupState, Address, is_same, find_replica, server_switchover}
use arcus_c_client.Rgroup.Slots.{Replicas, address, pad}
use arcus_c_client.Rgroup.Switchover.{
  until_colon, skip_colons, strtok, port_of, port_token, host_token, peer_address, find_peer,
  cut_peer, switchover_to, rgroup_switchover,
}
use arcus_c_client.Rgroup.HostPort.{peer_text}
use arcus_c_client.Rgroup.Named.{rgroup_switchover-named, rgroup_switchover_alone}
use arcus_c_client.Tests.Samples.{blank}
use Prim.Native.String.{String}

abbrev server_at : String → ℕ → Server
server_at h p = record blank { hostname = codes h; port = p }

abbrev group_of : List Server → ℕ → GroupState
group_of servers n = record {
  memc = record {
    servers = blank ∷ [];
    server_ntotal = 4;
    server_navail = 1;
    version = 4;
    error = none;
  };
  rgroup = record {
    is_allocated = false;
    is_initialized = true;
    is_shutting_down = false;
    is_dead = false;
    groupindex = 7;
    groupname = codes "g";
    weight = 1;
    nreplica = n;
    replicas = pad 3 servers;
  };
}

abbrev told_master : Server
told_master =
    peer_check (some (peer_text (record { hostname = codes "c"; port = 3 }))) (server_at "a" 1)

abbrev three : GroupState
three = group_of (told_master ∷ server_at "b" 2 ∷ server_at "c" 3 ∷ []) 3

program : Unit {0}
unfolding peer_check rgroup_switchover peer_address host_token port_token strtok until_colon
    skip_colons port_of find_peer find_replica is_same switchover_to server_switchover cut_peer
    print_unsigned str_eq is_negative
program = tt

abbrev addresses_of : Option (GroupState × Bool) → List (Option Address)
addresses_of none = []
addresses_of (some r) =
    map (λ s. elim s [ none ↦ none | some x ↦ some (address x) ]) r.0.rgroup.replicas

to_the_second_slave :
    addresses_of (rgroup_switchover three 0)
    ≡ map (λ s. some (address s)) (server_at "c" 3 ∷ server_at "b" 2 ∷ server_at "a" 1 ∷ [])
unfolding program
to_the_second_slave = refl

three-Replicas : Replicas three (told_master ∷ server_at "b" 2 ∷ server_at "c" 3 ∷ [])
unfolding peer_check print_unsigned
three-Replicas = record {
  nreplica_eq = refl;
  replicas_eq = refl;
  fits = omega arith;
  indexed = (refl, (refl, (refl, tt)));
}

rgroup_switchover-named_example :
    (st' : GroupState) × (a' : Server) × (rgroup_switchover three 0 ≡ some (st', true))
    × Replicas st' (server_at "c" 3 ∷ server_at "b" 2 ∷ a' ∷ [])
    × (address a' ≡ address (server_at "a" 1))
    × (st'.memc ≡ three.memc)
unfolding print_unsigned is_same str_eq
rgroup_switchover-named_example =
    rgroup_switchover-named three (server_at "a" 1) (server_at "b" 2 ∷ []) (server_at "c" 3) []
      three-Replicas (omega arith) (omega arith) (omega arith) (omega arith) (omega arith)
      (refl, tt)

abbrev alone : GroupState
alone = group_of (peer_check none (server_at "a" 1) ∷ []) 1

alone-Replicas : Replicas alone (peer_check none (server_at "a" 1) ∷ [])
unfolding peer_check
alone-Replicas = record {
  nreplica_eq = refl;
  replicas_eq = refl;
  fits = omega arith;
  indexed = (refl, tt);
}

rgroup_switchover_alone_example : rgroup_switchover alone 0 ≡ none
rgroup_switchover_alone_example = rgroup_switchover_alone alone (server_at "a" 1) alone-Replicas
