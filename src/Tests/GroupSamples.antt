-- ===== src/Tests/GroupSamples.antt =====
-- A client with two replica groups, and what it takes from outside.
use arcus_c_client.Prelude.{ℕ, refl, some, none, List, [], ◌∷◌, true, false, arith, length}
use arcus_c_client.Server.{Server}
use arcus_c_client.Text.{codes}
use arcus_c_client.Ring.{Distribution}
use arcus_c_client.Rgroup.{Rgroup}
use arcus_c_client.Rgroup.Slots.{pad}
use arcus_c_client.GroupList.{RgroupClient, RgroupOutside}
use arcus_c_client.GroupList.Removal.{rgroup_compare}
use arcus_c_client.GroupList.Members.{WellFormed}
use arcus_c_client.GroupList.Sorting.{SortsGroups, IsSpy}
use arcus_c_client.Tests.InsertionSort.{insertion_sort, insertion_sort-perm_data}
use arcus_c_client.Tests.KetamaTests.{primitives, environment}
use arcus_c_client.Tests.Samples.{blank}
use Prim.Native.String.{String}

abbrev pub server_at : ℕ → String → ℕ → Server
server_at i h p = record blank { hostname = codes h; port = p; groupindex = some i }

abbrev pub group : ℕ → String → List Server → Rgroup
group i name xs = record {
  is_allocated = false;
  is_initialized = true;
  is_shutting_down = false;
  is_dead = false;
  groupindex = i;
  groupname = codes name;
  weight = 1;
  nreplica = length xs;
  replicas = pad 3 xs;
}

abbrev pub client : Distribution → List Server → ℕ → List Rgroup → RgroupClient
client d free total groups = record {
  memc = record {
    servers = free;
    server_ntotal = total;
    server_navail = length free;
    version = 9;
    error = none;
  };
  rgroups = groups;
  rgroup_ntotal = 10;
  use_sort_hosts = true;
  distribution = d;
  auto_eject_hosts = false;
  weighted = false;
  info = none;
}

abbrev pub outside : RgroupOutside
outside = record {
  primitives = primitives;
  environment = environment;
  sort_rgroups = insertion_sort;
  rgroups_allocated = true;
  info_allocated = true;
  slot_memory = group 0 "" [];
  server_memory = blank ∷ blank ∷ blank ∷ blank ∷ [];
}

abbrev pub two : List Rgroup
two =
    group 0 "g0" (server_at 0 "a" 1 ∷ server_at 0 "b" 2 ∷ [])
    ∷ group 1 "g1" (server_at 1 "c" 3 ∷ [])
    ∷ []

abbrev pub spare : List Server
spare = blank ∷ blank ∷ blank ∷ blank ∷ []

abbrev pub current : RgroupClient
current = client Distribution.consistent_ketama_spy spare 7 two

pub current-WellFormed : WellFormed current
current-WellFormed = record {
  numbered = (
    (
      server_at 0 "a" 1 ∷ server_at 0 "b" 2 ∷ [],
      record {
        nreplica_eq = refl;
        replicas_eq = refl;
        fits = omega arith;
        some_server = omega arith;
        indexed = (refl, (refl, tt));
        in_place = refl;
      },
    ),
    (
      (
        server_at 1 "c" 3 ∷ [],
        record {
          nreplica_eq = refl;
          replicas_eq = refl;
          fits = omega arith;
          some_server = omega arith;
          indexed = (refl, tt);
          in_place = refl;
        },
      ),
      tt,
    ),
  );
  within = omega arith;
  total = refl;
  available = refl;
}

pub outside-SortsGroups : SortsGroups outside
outside-SortsGroups l = insertion_sort-perm_data rgroup_compare l

pub current-IsSpy : IsSpy current
current-IsSpy = record { distribution = refl; ejecting = refl }
