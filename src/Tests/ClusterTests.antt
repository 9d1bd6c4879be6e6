-- ===== src/Tests/ClusterTests.antt =====
-- A server list of two that loses one server and gains another.
use arcus_c_client.Prelude.{ℕ, ◌≡◌, refl, none, [], ◌∷◌, true, false, map}
use arcus_c_client.Text.{codes, strcmp, str_eq, digits_onto, print_unsigned}
use arcus_c_client.Server.{is_valid_servername, server_create_with}
use arcus_c_client.Ring.{Distribution}
use arcus_c_client.Rgroup.Slots.{address}
use arcus_c_client.Cluster.{
  ServerInfo, Cluster, Outside, compare_servers, update_serverlist, drop_dead, server_prune,
  push_infos, count_first, sort_hosts, run_distribution, set_error, pushed,
  server_push_with_serverinfo, is_server, take_info, mark_servers, apply_marks,
}
use arcus_c_client.Cluster.Membership.{info_address}
use arcus_c_client.Cluster.Update.{Sorts, Updated, update_serverlist-Updated}
use arcus_c_client.Tests.InsertionSort.{insertion_sort, insertion_sort-perm}
use arcus_c_client.Tests.KetamaTests.{primitives, environment}
use arcus_c_client.Tests.Samples.{blank}
use Prim.Native.String.{String}

abbrev outside : Outside
outside = record {
  primitives = primitives;
  environment = environment;
  sort_servers = insertion_sort;
  list_allocated = true;
  fresh_memory = blank;
}

abbrev entry : String → ℕ → ServerInfo
entry h p = record { groupname = []; hostname = codes h; port = p; master = false; exist = false }

abbrev mc : Cluster
mc = record {
  client = record {
    servers =
        record blank { hostname = codes "a"; port = 1 }
        ∷ record blank { hostname = codes "b"; port = 2 }
        ∷ [];
    distribution = Distribution.modula;
    auto_eject_hosts = false;
    weighted = false;
    next_distribution_rebuild = 0;
    info = none;
    error = none;
  };
  server_info_version = 2;
  use_sort_hosts = false;
  use_udp = false;
}

program : Unit {0}
unfolding strcmp str_eq digits_onto print_unsigned compare_servers update_serverlist drop_dead
    server_prune push_infos count_first sort_hosts run_distribution set_error pushed
    server_push_with_serverinfo is_server take_info mark_servers apply_marks is_valid_servername
    server_create_with
program = tt

replaced :
    map address (update_serverlist outside mc (entry "c" 3 ∷ entry "b" 2 ∷ [])).0.1.client.servers
    ≡ map info_address (entry "b" 2 ∷ entry "c" 3 ∷ [])
unfolding program
replaced = refl

outside-Sorts : Sorts outside
outside-Sorts l = insertion_sort-perm compare_servers l

update_serverlist-Updated_example :
    Updated outside outside-Sorts mc
      (map info_address (entry "c" 3 ∷ entry "b" 2 ∷ []))
      (update_serverlist outside mc (entry "c" 3 ∷ entry "b" 2 ∷ []))
unfolding is_valid_servername
update_serverlist-Updated_example =
    update_serverlist-Updated outside outside-Sorts mc (entry "c" 3 ∷ entry "b" 2 ∷ [])
      (refl, (refl, tt)) refl refl (refl, (refl, tt)) (refl, (refl, tt))
