-- ===== src/Tests/RgroupTests.antt =====
-- The update of a replica group of three servers after a failover.
use arcus_c_client.Prelude.{
  ℕ, ◌≡◌, refl, some, none, List, [], ◌∷◌, arith, Option, Bool, true, false, map,
}
use arcus_c_client.Rgroup.{
  GroupState, Address, server_alloc, server_release, take_server, put_slot, drop_slot,
  server_insert, server_remove, server_replace, server_switchover, is_same, find_replica,
  find_slave, remove_slaves, insert_slaves, insert_all, remove_all, move_master, update_slaves,
  update_single, rgroup_update,
}
use arcus_c_client.Rgroup.Refinement.{Updated, rgroup_update-Updated}
use arcus_c_client.Rgroup.Slots.{Holds, address, pad}
use arcus_c_client.Server.{Server, server_create_with, is_valid_servername, server_free}
use arcus_c_client.Tests.Samples.{blank}
use arcus_c_client.Text.{codes}
use Prim.Native.String.{String}

abbrev at : String → ℕ → Address
at h p = record { hostname = codes h; port = p }

abbrev server_at : String → ℕ → Server
server_at h p = record blank { hostname = codes h; port = p }

abbrev old : List Server
old = server_at "a" 1 ∷ server_at "b" 2 ∷ server_at "c" 3 ∷ []

abbrev state : GroupState
state = record {
  memc = record {
    servers = blank ∷ [];
    server_ntotal = 4;
    server_navail = 1;
    version = 4;
    error = none;
  };
  rgroup = record {
    is_allocated = false;
    is_initialized = true;
    is_shutting_down = false;
    is_dead = false;
    groupindex = 7;
    groupname = codes "g";
    weight = 1;
    nreplica = 3;
    replicas = pad 3 old;
  };
}

state-Holds : Holds state old
state-Holds = record {
  nreplica_eq = refl;
  replicas_eq = refl;
  fits = omega arith;
  free = omega arith;
  indexed = (refl, (refl, (refl, tt)));
}

program : Unit {0}
unfolding server_alloc server_release take_server put_slot drop_slot server_insert server_remove
    server_replace server_switchover is_same find_replica find_slave remove_slaves insert_slaves
    insert_all remove_all move_master update_slaves update_single rgroup_update server_create_with
    is_valid_servername server_free
program = tt

abbrev addresses_of : Option (GroupState × Bool) → List (Option Address)
addresses_of none = []
addresses_of (some r) =
    map (λ s. elim s [ none ↦ none | some x ↦ some (address x) ]) r.0.rgroup.replicas

-- "b" takes over from "a", which comes back as a slave; "c" is gone and "d" is new.
failover :
    addresses_of (rgroup_update state (at "b" 2 ∷ at "d" 4 ∷ at "a" 1 ∷ []))
    ≡ some (at "b" 2) ∷ some (at "a" 1) ∷ some (at "d" 4) ∷ []
unfolding program
failover = refl

rgroup_update-Updated_example :
    (st' : GroupState) × (changed : Bool) × (rgroup_update state
        (at "b" 2 ∷ at "d" 4 ∷ at "a" 1 ∷ [])
      ≡ some (st', changed))
    × Updated (at "b" 2) (at "d" 4 ∷ at "a" 1 ∷ []) old state st' changed
unfolding is_valid_servername
rgroup_update-Updated_example =
    rgroup_update-Updated state old (at "b" 2) (at "d" 4 ∷ at "a" 1 ∷ []) state-Holds (omega arith)
      (refl, (refl, (refl, tt))) (omega arith)
