-- ===== src/GroupList/Base.antt =====
-- The prune of the groups that a loop over a client's groups has marked as dead.
use arcus_c_client.Prelude.{
  ◌+◌, ◌≡◌, refl, sym, ap, ◌∙◌, inl, inr, Bool, false, some, List, length, map, arith, Bool-cases,
  if◌then◌else◌,
}
use arcus_c_client.Rgroup.{Rgroup, ServerPool}
use arcus_c_client.GroupList.{RgroupClient}
use arcus_c_client.GroupList.Removal.{rgroup_prune}
use arcus_c_client.GroupList.Members.{Numbered, used, Entry, entry, WellFormed}
use arcus_c_client.GroupList.Prune.{living, rgroup_prune-Pruned}
use arcus_c_client.GroupList.Sorting.{IsSpy}

-- The groups and the pool that a loop over a client's groups leaves: the groups that are not dead are
-- `kept`, and no server is lost.
pub record Looped (c : RgroupClient) (l : List Rgroup) (pool : ServerPool) (flag : Bool)
    (kept : List Entry) : Type 0 where
  pub numbered : Numbered 0 l
  pub groups : length l ≡ length c.rgroups
  pub entries : map entry (living l) ≡ kept
  pub unpruned : flag ≡ false → living l ≡ l
  pub total : length pool.servers + used l ≡ length c.memc.servers + used c.rgroups
  pub ntotal : pool.server_ntotal ≡ c.memc.server_ntotal
  pub navail :
      c.memc.server_navail ≡ length c.memc.servers → pool.server_navail ≡ length pool.servers

-- The client after that, the dead groups pruned.
pub record Base (c c' : RgroupClient) (kept : List Entry) : Type 0 where
  pub well_formed : WellFormed c'
  pub spy : IsSpy c'
  pub entries : map entry c'.rgroups ≡ kept
  pub slots : c'.rgroup_ntotal ≡ c.rgroup_ntotal
  pub servers : c'.memc.server_ntotal ≡ c.memc.server_ntotal

pub pruned-Base :
    (c : RgroupClient) (l : List Rgroup) (pool : ServerPool) (flag : Bool) (kept : List Entry)
    → Looped c l pool flag kept
    → WellFormed c
    → IsSpy c
    → (c' : RgroupClient) × ((if flag
          then rgroup_prune false (record c { memc = pool; rgroups = l })
          else some (record c { memc = pool; rgroups = l }))
        ≡ some c')
      × Base c c' kept
pruned-Base c l pool flag kept w wf spy =
    let marked : RgroupClient = record c { memc = pool; rgroups = l } in
    let good : WellFormed marked = record {
      numbered = w.numbered;
      within = omega (arith, w.groups, wf.within);
      total = omega (arith, w.total, w.ntotal, wf.total);
      available = w.navail wf.available;
    } in
    elim (Bool-cases flag) [
      | inl p ↦
          let (c', run, r) = rgroup_prune-Pruned false marked good in
          (
            c',
            simp p run,
            record {
              well_formed = r.well_formed;
              spy = record {
                distribution = r.settings.0 ∙ spy.distribution;
                ejecting = r.settings.1 ∙ spy.ejecting;
              };
              entries = r.kept ∙ w.entries;
              slots = r.slots refl;
              servers = r.conserved refl ∙ w.ntotal;
            },
          )
      | inr p ↦ (
        marked,
        simp p refl,
        record {
          well_formed = good;
          spy = record { distribution = spy.distribution; ejecting = spy.ejecting };
          entries = ap (map entry) (sym (w.unpruned p)) ∙ w.entries;
          slots = refl;
          servers = w.ntotal;
        },
      )
    ]
