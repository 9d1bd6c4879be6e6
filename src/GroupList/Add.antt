-- ===== src/GroupList/Add.antt =====
-- New groups in the free slots of the array.
use arcus_c_client.Prelude.{
  ℕ, ◌+◌, ◌*◌, ◌≤◌, ◌<◌, ◌≡◌, refl, sym, ap, ◌∙◌, inr, true, false, some, List, [], ◌∷◌, ◌++◌,
  length, length-append, map, arith, lt→ltb, length-map,
}
use mathlib.Core.List.{map-append}
use arcus_c_client.Server.{Server}
use arcus_c_client.Text.{Bytes}
use arcus_c_client.Rgroup.{Rgroup, GroupState, Address, insert_all}
use arcus_c_client.Rgroup.Slots.{Holds, address, pad}
use arcus_c_client.Rgroup.Ops.{server_insert-Becomes}
use arcus_c_client.Rgroup.Slaves.{AllValid}
use arcus_c_client.Rgroup.Halves.{insert_all-addresses}
use arcus_c_client.Rgroup.Every.{Every-some}
use arcus_c_client.Rgroup.Kept.{Keeps, insert_all-Keeps}
use arcus_c_client.GroupList.{RgroupClient, RgroupOutside, rgroup_init, rgroup_create, add_group}
use arcus_c_client.GroupList.Members.{
  Numbered-append, used-append, used_le, Entry, entry, WellFormed, present-pad, present,
}

-- A name and addresses that a group can be made of.
pub record IsGroupable (name : Bytes) (addresses : List Address) : Type 0 where
  pub short : length name < 128
  pub some_address : 1 ≤ length addresses
  pub few : length addresses ≤ 3
  pub valid : AllValid addresses

-- What a push leaves of a client as it was.
pub record Same (c c' : RgroupClient) : Type 0 where
  pub slots : c'.rgroup_ntotal ≡ c.rgroup_ntotal
  pub servers : c'.memc.server_ntotal ≡ c.memc.server_ntotal
  pub sorted : c'.use_sort_hosts ≡ c.use_sort_hosts
  pub distribution : c'.distribution ≡ c.distribution
  pub ejecting : c'.auto_eject_hosts ≡ c.auto_eject_hosts

pub Same-refl : (c : RgroupClient) → Same c c
Same-refl c = record {
  slots = refl;
  servers = refl;
  sorted = refl;
  distribution = refl;
  ejecting = refl;
}

pub Same-trans : (a b c : RgroupClient) → Same a b → Same b c → Same a c
Same-trans a b c h k = record {
  slots = k.slots ∙ h.slots;
  servers = k.servers ∙ h.servers;
  sorted = k.sorted ∙ h.sorted;
  distribution = k.distribution ∙ h.distribution;
  ejecting = k.ejecting ∙ h.ejecting;
}

-- The pool has room for `n` groups, with one server to spare.
abbrev pub Roomy : ℕ → RgroupClient → Type 0
Roomy n c = 3 * n + 1 ≤ c.memc.server_ntotal

pub Roomy-free :
    (n : ℕ) (c : RgroupClient)
    → WellFormed c
    → Roomy n c
    → length c.rgroups < n
    → 4 ≤ length c.memc.servers
Roomy-free n c w r l = omega (arith, w.total, used_le 0 c.rgroups w.numbered)

-- Replicas that are put into an empty group.
insert_all-empty :
    (st : GroupState) (addresses : List Address)
    → Holds st []
    → 1 ≤ length addresses
    → length addresses ≤ 3
    → AllValid addresses
    → (st' : GroupState) × (xs : List Server) × (insert_all 0 addresses st ≡ some st')
      × Holds st' xs
      × (map address xs ≡ addresses)
      × (st'.rgroup.groupindex ≡ st.rgroup.groupindex)
unfolding insert_all
insert_all-empty st [] h one few v = absurd (omega arith)
insert_all-empty st (a ∷ more) h one few v =
    let (s, fresh, (st₁, run, h₁, i₁)) =
      server_insert-Becomes st [] h (some 0) a.hostname a.port (omega arith) v.0 (inr refl) in
    let (st₂, slaves, later, h₂, same, i₂) =
      insert_all-addresses 1 more st₁ s [] h₁ v.1 refl (omega arith) in
    (st₂, s ∷ slaves, rw run later, h₂, rw (fresh.0, same) refl, i₂ ∙ i₁)

pub record Added (c c' : RgroupClient) (new : List Entry) : Type 0 where
  pub well_formed : WellFormed c'
  pub entries : map entry c'.rgroups ≡ map entry c.rgroups ++ new
  pub same : Same c c'
  pub size : length c'.rgroups ≡ length c.rgroups + length new

pub add_group-Added :
    (o : RgroupOutside) (name : Bytes) (addresses : List Address) (c : RgroupClient)
    → WellFormed c
    → IsGroupable name addresses
    → length c.rgroups < c.rgroup_ntotal
    → 4 ≤ length c.memc.servers
    → (c' : RgroupClient) × (add_group o name addresses c ≡ some c')
      × Added c c' (record { groupname = name; weight = 1; addresses = addresses } ∷ [])
unfolding add_group rgroup_init rgroup_create
add_group-Added o name addresses c w g slot free =
    let i = length c.rgroups in
    let made : Rgroup = record (o.slot_memory) {
      is_allocated = false;
      is_initialized = true;
      is_shutting_down = false;
      is_dead = false;
      groupname = name;
      groupindex = i;
      weight = 1;
      nreplica = 0;
      replicas = pad 3 [];
    } in
    let st : GroupState = record { memc = c.memc; rgroup = made } in
    let (st', xs, run, h, same, index) =
      insert_all-empty st addresses
        (record {
          nreplica_eq = refl;
          replicas_eq = refl;
          fits = omega arith;
          free = omega arith;
          indexed = tt;
        })
        g.some_address g.few g.valid in
    let k =
      Every-some (Keeps st) (insert_all 0 addresses st) st' run (insert_all-Keeps 0 addresses st) in
    let size : length xs ≡ length addresses = sym (length-map xs address) ∙ ap length same in
    let here : 0 + i ≡ i = omega arith in
    let shown : present st'.rgroup.replicas ≡ addresses =
      ap present h.replicas_eq ∙ present-pad 3 xs h.fits ∙ same in
    let c' : RgroupClient = record c {
      memc = st'.memc;
      rgroups = c.rgroups ++ (st'.rgroup ∷ []);
    } in
    let e : Entry = record { groupname = name; weight = 1; addresses = addresses } in
    (
      c',
      rw (lt→ltb i c.rgroup_ntotal slot, lt→ltb (length name) 128 g.short, run),
      record {
        well_formed = record {
          numbered = Numbered-append 0 c.rgroups (st'.rgroup ∷ []) w.numbered (
              rw here (
                (
                  xs,
                  record {
                    nreplica_eq = h.nreplica_eq;
                    replicas_eq = h.replicas_eq;
                    fits = h.fits;
                    some_server = omega (arith, size, g.some_address);
                    indexed = simp index at h.indexed;
                    in_place = index;
                  },
                ),
                tt,
              ));
          within = omega (arith, length-append c.rgroups (st'.rgroup ∷ []));
          total =
              omega (arith, k.total, k.ntotal, w.total, used-append c.rgroups (st'.rgroup ∷ []));
          available = k.navail w.available;
        };
        entries =
            map-append entry c.rgroups (st'.rgroup ∷ [])
            ∙ ap (λ x. map entry c.rgroups ++ x ∷ [])
                (λ j. record {
                  groupname = k.groupname j;
                  weight = k.weight j;
                  addresses = shown j;
                });
        same = record {
          slots = refl;
          servers = k.ntotal;
          sorted = refl;
          distribution = refl;
          ejecting = refl;
        };
        size = length-append c.rgroups (st'.rgroup ∷ []);
      },
    )
