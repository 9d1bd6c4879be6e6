-- ===== src/Tests/GroupInfoTests.antt =====
-- The groups of a list with a group that is complete and one that is not.
use arcus_c_client.Prelude.{ℕ, ◌≡◌, refl, some, none, List, [], ◌∷◌, true, false, Bool, Option, map}
use arcus_c_client.Text.{codes, strcmp, str_eq}
use arcus_c_client.Cluster.{ServerInfo}
use arcus_c_client.GroupInfo.{
  RgroupInfo, Groups, store, is_same_server, has_duplicate, add_master, add_slave, add_found,
  new_group, add_entry, add_entries, check_masters, rgroup_info_create,
}
use arcus_c_client.GroupInfo.Contract.{Grouped, rgroup_info_create-Grouped}
use Prim.Native.String.{String}

abbrev entry : String → String → ℕ → Bool → ServerInfo
entry g h p m = record {
  groupname = codes g;
  hostname = codes h;
  port = p;
  master = m;
  exist = false;
}

program : Unit {0}
unfolding strcmp str_eq store is_same_server has_duplicate add_master add_slave add_found new_group
    add_entry add_entries check_masters rgroup_info_create
program = tt

abbrev summary : Option Groups → Option (List Bool × ℕ)
summary none = none
summary (some s) = some (map (λ (g : RgroupInfo). g.valid) s.groups, s.valid_ngroup)

abbrev complete_group : List ServerInfo
complete_group = entry "g0" "b" 2 false ∷ entry "g0" "a" 1 true ∷ []

two_groups :
    summary (rgroup_info_create (entry "g1" "c" 3 true ∷ complete_group))
    ≡ some (true ∷ true ∷ [], 2)
unfolding program
two_groups = refl

-- A group of three slaves and no master is counted out twice: the count is 0, though "g0" is valid.
masterless_twice :
    summary (
      rgroup_info_create
        (entry "g1" "c" 3 false ∷ entry "g1" "d" 4 false ∷ entry "g1" "e" 5 false ∷ complete_group))
    ≡ some (false ∷ true ∷ [], 0)
unfolding program
masterless_twice = refl

rgroup_info_create-Grouped_example :
    (s : Groups) × (rgroup_info_create (entry "g1" "c" 3 true ∷ complete_group) ≡ some s)
    × Grouped (entry "g1" "c" 3 true ∷ complete_group) s
rgroup_info_create-Grouped_example =
    rgroup_info_create-Grouped (entry "g1" "c" 3 true ∷ complete_group)
