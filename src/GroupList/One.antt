-- ===== src/GroupList/One.antt =====
-- The update of one of a client's groups, within the client's pool.
use mathlib.Core.List.{Perm}
use arcus_c_client.Prelude.{
  All, ℕ, ◌+◌, ◌≤◌, ◌≡◌, refl, sym, ap, ◌∙◌, subst, Bool, false, some, List, [], ◌∷◌, length, map,
  arith,
}
use arcus_c_client.Server.{Server}
use arcus_c_client.Text.{Bytes}
use arcus_c_client.Rgroup.{Rgroup, ServerPool, GroupState, Address, rgroup_update}
use arcus_c_client.Rgroup.Slots.{address}
use arcus_c_client.Rgroup.Refinement.{rgroup_update-Updated}
use arcus_c_client.Rgroup.Every.{Every-some}
use arcus_c_client.Rgroup.Kept.{Keeps, rgroup_update-Keeps}
use arcus_c_client.GroupList.Members.{Member, Member-Holds, Entry, entry, present, present-pad}
use arcus_c_client.GroupList.Add.{IsGroupable}

-- The addresses that are wanted: the master in front, and the slaves in any order.
pub record SameServers (wanted got : List Address) : Type 0 where
  pub master : Address
  pub slaves : List Address
  pub new_slaves : List Address
  pub wanted_eq : wanted ≡ master ∷ new_slaves
  pub got_eq : got ≡ master ∷ slaves
  pub as_wanted : Perm slaves new_slaves

-- A group that got the addresses which were wanted.
pub record Follows (g : Rgroup) (wanted : List Address) (e : Entry) : Type 0 where
  pub same_name : e.groupname ≡ g.groupname
  pub same_weight : e.weight ≡ g.weight
  pub servers : SameServers wanted e.addresses

-- The update of one group from its entry.
pub record One (i : ℕ) (g : Rgroup) (pool : ServerPool) (wanted : List Address) (st : GroupState)
    (changed : Bool) : Type 0 where
  pub servers : List Server
  pub member : Member i st.rgroup servers
  pub followed : Follows g wanted (entry st.rgroup)
  pub alive : st.rgroup.is_dead ≡ g.is_dead
  pub total : length st.memc.servers + st.rgroup.nreplica ≡ length pool.servers + g.nreplica
  pub ntotal : st.memc.server_ntotal ≡ pool.server_ntotal
  pub navail :
      pool.server_navail ≡ length pool.servers → st.memc.server_navail ≡ length st.memc.servers
  pub quiet : changed ≡ false → entry st.rgroup ≡ entry g

pub update-One :
    (i : ℕ) (g : Rgroup) (xs : List Server) (pool : ServerPool) (name : Bytes)
    (wanted : List Address)
    → IsGroupable name wanted
    → Member i g xs
    → 4 ≤ length pool.servers + length xs
    → (st : GroupState) × (changed : Bool) × (rgroup_update
          (record { memc = pool; rgroup = g })
          wanted
        ≡ some (st, changed))
      × One i g pool wanted st changed
update-One i g xs pool name [] l m free = absurd (omega (arith, l.some_address))
update-One i g xs pool name (a ∷ new) l m free =
    let st₀ : GroupState = record { memc = pool; rgroup = g } in
    let (st, changed, run, u) =
      rgroup_update-Updated st₀ xs a new (Member-Holds i g xs pool m free) m.some_server l.valid
        (omega arith) in
    let kept : Keeps st₀ st =
      Every-some (λ (r : GroupState × Bool). Keeps st₀ r.0) (rgroup_update st₀ (a ∷ new))
        (st, changed) run (rgroup_update-Keeps st₀ (a ∷ new)) in
    let ys : List Server = u.master ∷ u.slaves in
    let place = u.index_kept ∙ m.in_place in
    let shown : present st.rgroup.replicas ≡ map address ys =
      ap present u.holds.replicas_eq ∙ present-pad 3 ys u.holds.fits in
    let before : present g.replicas ≡ map address xs =
      ap present m.replicas_eq ∙ present-pad 3 xs m.fits in
    (
      st,
      changed,
      run,
      record {
        servers = ys;
        member = record {
          nreplica_eq = u.holds.nreplica_eq;
          replicas_eq = u.holds.replicas_eq;
          fits = u.holds.fits;
          some_server = omega arith;
          indexed =
              subst (λ k. All (λ (s : Server). s.groupindex ≡ some k) ys) place u.holds.indexed;
          in_place = place;
        };
        followed = record {
          same_name = kept.groupname;
          same_weight = kept.weight;
          servers = record {
            master = a;
            slaves = map address u.slaves;
            new_slaves = new;
            wanted_eq = refl;
            got_eq = shown ∙ ap (λ x. x ∷ map address u.slaves) u.is_master;
            as_wanted = u.are_slaves;
          };
        };
        alive = kept.is_dead;
        total = kept.total;
        ntotal = kept.ntotal;
        navail = kept.navail;
        quiet = λ q. λ j. record {
          groupname = kept.groupname j;
          weight = kept.weight j;
          addresses = (shown ∙ ap (map address) (u.unchanged q) ∙ sym before) j;
        };
      },
    )
