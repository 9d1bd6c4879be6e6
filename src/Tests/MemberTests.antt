-- ===== src/Tests/MemberTests.antt =====
-- A member that has lost sight of two changes of its master.
use arcus_c_client.Prelude.{ℕ, ◌≡◌, refl, none, List, [], ◌∷◌, true, false, map}
use arcus_c_client.Text.{codes, strcmp, str_eq, digits_onto, print_unsigned}
use arcus_c_client.Server.{Server, is_valid_servername, server_create_with}
use arcus_c_client.Ring.{Distribution}
use arcus_c_client.Rgroup.Slots.{address}
use arcus_c_client.Cluster.{
  Cluster, Outside, drop_dead, server_prune, count_first, run_distribution, set_error,
}
use arcus_c_client.Member.{
  push_one, push_servers, push_end, server_push_with_count, server_push, is_same_address, follow,
  follow_end, update_with_master,
}
use arcus_c_client.Member.Follow.{IsPushable}
use arcus_c_client.Member.Update.{update_with_master-addresses}
use arcus_c_client.Tests.InsertionSort.{insertion_sort}
use arcus_c_client.Tests.KetamaTests.{primitives, environment}
use arcus_c_client.Tests.Samples.{blank}
use Prim.Native.String.{String}

abbrev outside : Outside
outside = record {
  primitives = primitives;
  environment = environment;
  sort_servers = insertion_sort;
  list_allocated = true;
  fresh_memory = blank;
}

abbrev server_at : String → ℕ → ℕ → Server
server_at h p n = record blank { hostname = codes h; port = p; number_of_hosts = n }

abbrev masters : List Server
masters = server_at "a" 1 3 ∷ server_at "c" 3 0 ∷ server_at "d" 4 0 ∷ []

abbrev mc : Cluster
mc = record {
  client = record {
    servers = server_at "a" 1 3 ∷ server_at "b" 2 0 ∷ server_at "c" 3 0 ∷ [];
    distribution = Distribution.modula;
    auto_eject_hosts = false;
    weighted = false;
    next_distribution_rebuild = 0;
    info = none;
    error = none;
  };
  server_info_version = 3;
  use_sort_hosts = false;
  use_udp = false;
}

program : Unit {0}
unfolding strcmp str_eq digits_onto print_unsigned drop_dead server_prune count_first
    run_distribution set_error push_one push_servers push_end server_push_with_count server_push
    is_same_address follow follow_end update_with_master is_valid_servername server_create_with
program = tt

followed :
    map address (update_with_master outside mc masters).1.client.servers ≡ map address masters
unfolding program
followed = refl

pushable :
    (h : String) (p n : ℕ) → is_valid_servername (codes h) ≡ true → IsPushable (server_at h p n)
pushable h p n e = record { named = e; not_udp = refl }

update_with_master-addresses_example :
    map address (update_with_master outside mc masters).1.client.servers ≡ map address masters
unfolding is_valid_servername
update_with_master-addresses_example =
    update_with_master-addresses outside mc masters (refl, (refl, (refl, tt))) refl refl refl refl
      (pushable "a" 1 3 refl, (pushable "c" 3 0 refl, (pushable "d" 4 0 refl, tt)))
