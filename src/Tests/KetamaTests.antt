-- ===== src/Tests/KetamaTests.antt =====
-- The ring of two servers, one of which is waiting to be retried.
use arcus_c_client.Prelude.{◌*◌, ◌≡◌, refl, some, none, [], ◌∷◌, ◌++◌, true, arith}
use arcus_c_client.Server.{Server}
use arcus_c_client.Text.{Bytes, codes, strcmp}
use arcus_c_client.Ring.{Distribution}
use arcus_c_client.Ketama.{
  Client, Environment, Primitives, hostport, compare_server_hostport, update_continuum,
}
use arcus_c_client.Ketama.Hostport.{compare_server_hostport-strcmp}
use arcus_c_client.Ketama.Hosts.{live_count}
use arcus_c_client.Ketama.Live.{Rebuilt, CanBuild, update_continuum-Rebuilt}
use arcus_c_client.Ketama.Failures.{Kept, update_continuum-Kept}
use arcus_c_client.Ketama.Order.{SortsConsistently}
use arcus_c_client.Tests.InsertionSort.{insertion_sort, insertion_sort-perm, Ordered-insertion_sort}
use arcus_c_client.Tests.Samples.{blank}

-- A stand-in for the digest.
abbrev signature : Bytes → Bytes
signature name = name ++ name

abbrev pub primitives : Primitives
primitives = record {
  signature = signature;
  scaled = λ weight total live. 40 * live * weight;
  qsort = insertion_sort;
  outside = blank;
}

pub primitives-SortsConsistently : SortsConsistently primitives
primitives-SortsConsistently = record {
  keeps = λ cmp c l. insertion_sort-perm cmp l;
  orders = λ cmp c l. Ordered-insertion_sort cmp c l;
}

abbrev live_server : Server
live_server = record blank { hostname = codes "10.0.0.1"; port = 11211; str_port = codes "11211" }

abbrev ejected_server : Server
ejected_server = record blank {
  hostname = codes "10.0.0.2";
  port = 11212;
  str_port = codes "11212";
  next_retry = 2000;
  weight = 3;
}

abbrev pub client : Client
client = record {
  servers = ejected_server ∷ live_server ∷ [];
  distribution = Distribution.consistent_ketama_spy;
  auto_eject_hosts = true;
  weighted = true;
  next_distribution_rebuild = 0;
  info = none;
  error = none;
}

abbrev pub environment : Environment
environment = record {
  now = some 1000;
  info_allocated = true;
  continuum_allocated = true;
  pool_master = none;
}

pub client-CanBuild : CanBuild primitives primitives-SortsConsistently environment 1000 client
unfolding live_count
client-CanBuild = record {
  info_allocated = refl;
  continuum_allocated = refl;
  weights = λ h. (1, ((λ dead. cc dead), ((λ live. refl), tt)));
  short = ((omega arith, omega arith), ((omega arith, omega arith), tt));
  few = omega arith;
  some_live = omega arith;
}

update_continuum-Rebuilt_example :
    Rebuilt primitives primitives-SortsConsistently environment 1000 client
      (update_continuum primitives environment client)
update_continuum-Rebuilt_example =
    update_continuum-Rebuilt primitives primitives-SortsConsistently environment 1000 client refl
      refl client-CanBuild

update_continuum-Kept_example : Kept client (update_continuum primitives environment client)
update_continuum-Kept_example = update_continuum-Kept primitives environment client

compare_server_hostport-strcmp_example :
    compare_server_hostport live_server ejected_server
    ≡ strcmp (hostport live_server) (hostport ejected_server)
compare_server_hostport-strcmp_example = compare_server_hostport-strcmp live_server ejected_server
