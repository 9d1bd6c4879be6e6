-- ===== src/GroupList/Prune.antt =====
-- `memcached_rgroup_prune`: which groups stay, and where the servers of the others go.
use arcus_c_client.Prelude.{
  All, ℕ, suc, ◌+◌, ◌-◌, ◌≤◌, ◌<◌, ◌≡◌, refl, ap, ◌∙◌, inl, inr, Bool, true, false, some, List, [],
  ◌∷◌, length, map, arith, Bool-cases, ltb, if◌then◌else◌,
}
use arcus_c_client.Server.{Server}
use arcus_c_client.Rgroup.{Rgroup, ServerPool}
use arcus_c_client.GroupList.{RgroupClient}
use arcus_c_client.GroupList.Removal.{
  index_set, prune_dead, free_servers, rgroup_list_free, rgroup_prune,
}
use arcus_c_client.GroupList.Members.{Member, Numbered, used, entry, WellFormed}
use arcus_c_client.GroupList.Renumber.{Moved, Moved-refl, index_set-Moved}
use arcus_c_client.GroupList.Destroy.{rgroup_destroy-Regained, destroy_all-Regained}

-- The groups that are not dead, in order.
abbrev pub living : List Rgroup → List Rgroup
living [] = []
living (g ∷ rest) = if g.is_dead then living rest else g ∷ living rest

abbrev pub IsAlive : Rgroup → Type 0
IsAlive g = g.is_dead ≡ false

-- What the loop leaves from place `cursor` on.
record Compacted (cursor : ℕ) (l l' : List Rgroup) (m m' : ServerPool) : Type 0 where
  pub numbered : Numbered cursor l'
  pub same : map entry l' ≡ map entry (living l)
  pub alive : All IsAlive l'
  pub shorter : length l' ≤ length l
  pub total : length m'.servers + used l' ≡ length m.servers + used l
  pub ntotal : m'.server_ntotal ≡ m.server_ntotal
  pub navail : m.server_navail ≡ length m.servers → m'.server_navail ≡ length m'.servers

move-Moved :
    (x cursor : ℕ) (g : Rgroup) (xs : List Server)
    → cursor ≤ x
    → Member x g xs
    → (g' : Rgroup) × ((if ltb cursor x then index_set g cursor else some g) ≡ some g')
      × Moved cursor g g'
move-Moved x cursor g xs h m = elim (Bool-cases (ltb cursor x)) [
  | inl e ↦ rw e (index_set-Moved x cursor g xs m)
  | inr e ↦
      let same : x ≡ cursor = ground (arith, e) in (g, rw e, Moved-refl cursor g xs (rw same at m))
]

prune_dead-Compacted :
    (x cursor : ℕ) (l : List Rgroup) (m : ServerPool)
    → cursor ≤ x
    → Numbered x l
    → (l' : List Rgroup) × (m' : ServerPool) × (prune_dead x cursor l m ≡ some (l', m'))
      × Compacted cursor l l' m m'
unfolding prune_dead
prune_dead-Compacted x cursor [] m h n = (
  [],
  m,
  refl,
  record {
    numbered = tt;
    same = refl;
    alive = tt;
    shorter = omega arith;
    total = refl;
    ntotal = refl;
    navail = λ e. e;
  },
)
prune_dead-Compacted x cursor (g ∷ l) m h ((xs, mem), n) = elim (Bool-cases g.is_dead) [
  | inl dead ↦
      let (st, run, r) = rgroup_destroy-Regained x g xs m mem in
      let (l', m', later, c) = prune_dead-Compacted (suc x) cursor l st.memc (omega arith) n in
      (
        l',
        m',
        simp (dead, run) later,
        record {
          numbered = c.numbered;
          same = simp dead c.same;
          alive = c.alive;
          shorter = omega (arith, c.shorter);
          total = omega (arith, c.total, r.servers);
          ntotal = c.ntotal ∙ r.ntotal;
          navail = λ e. c.navail (r.navail e);
        },
      )
  | inr live ↦
      let (g', run, moved) = move-Moved x cursor g xs h mem in
      let (l', m', later, c) = prune_dead-Compacted (suc x) (suc cursor) l m (omega arith) n in
      (
        g' ∷ l',
        m',
        simp (live, run, later) refl,
        record {
          numbered = ((moved.servers, moved.member), c.numbered);
          same = simp (live, moved.same, c.same) refl;
          alive = (moved.mark ∙ live, c.alive);
          shorter = omega (arith, c.shorter);
          total = omega (arith, c.total, moved.size);
          ntotal = c.ntotal;
          navail = c.navail;
        },
      )
]

-- The pool when it is emptied.
free_servers-empty :
    (l : List Server) (m : ServerPool)
    → m.servers ≡ l
    → m.server_navail ≡ length l
    → ((free_servers l m).servers ≡ []) × ((free_servers l m).server_navail ≡ 0)
unfolding free_servers
free_servers-empty [] m e a = (e, a)
free_servers-empty (s ∷ l) m e a =
    free_servers-empty l (record m { servers = l; server_navail = m.server_navail - 1 }) refl
      (omega (arith, a))

-- A client after the prune of its dead groups, or of all.
pub record Pruned (all : Bool) (c c' : RgroupClient) : Type 0 where
  pub well_formed : WellFormed c'
  pub kept : map entry c'.rgroups ≡ (if all then [] else map entry (living c.rgroups))
  pub alive : All IsAlive c'.rgroups
  pub conserved : all ≡ false → c'.memc.server_ntotal ≡ c.memc.server_ntotal
  pub slots : all ≡ false → c'.rgroup_ntotal ≡ c.rgroup_ntotal
  pub settings : (c'.distribution ≡ c.distribution) × (c'.auto_eject_hosts ≡ c.auto_eject_hosts)
  pub freed : all ≡ true → 0 < c.rgroup_ntotal → c'.memc.servers ≡ []

prune-Pruned :
    (c : RgroupClient)
    → WellFormed c
    → (c' : RgroupClient) × (rgroup_prune false c ≡ some c') × Pruned false c c'
unfolding rgroup_prune
prune-Pruned c w =
    let (l', m', run, r) = prune_dead-Compacted 0 0 c.rgroups c.memc (omega arith) w.numbered in
    (
      record c { memc = m'; rgroups = l' },
      simp run refl,
      record {
        well_formed = record {
          numbered = r.numbered;
          within = omega (arith, r.shorter, w.within);
          total = omega (arith, r.total, r.ntotal, w.total);
          available = r.navail w.available;
        };
        kept = r.same;
        alive = r.alive;
        conserved = λ _. r.ntotal;
        slots = λ _. refl;
        settings = (refl, refl);
        freed = λ e. cc e;
      },
    )

no_groups : (l : List Rgroup) → length l ≤ 0 → l ≡ []
no_groups [] h = refl
no_groups (g ∷ l) h = absurd (omega arith)

free-Pruned :
    (c : RgroupClient)
    → WellFormed c
    → (c' : RgroupClient) × (rgroup_prune true c ≡ some c') × Pruned true c c'
unfolding rgroup_prune rgroup_list_free
free-Pruned c w = elim (Bool-cases (ltb 0 c.rgroup_ntotal)) [
  | inl e ↦
      let (m, run, r) = destroy_all-Regained 0 c.rgroups c.memc w.numbered in
      let empty = free_servers m.servers m in
      let (gone, zero_left) = free_servers-empty m.servers m refl (r.navail w.available) in
      (
        record c { memc = record empty { server_ntotal = 0 }; rgroups = []; rgroup_ntotal = 0 },
        simp (e, run) refl,
        record {
          well_formed = record {
            numbered = tt;
            within = omega arith;
            total = omega (arith, ap length gone);
            available = omega (arith, zero_left, ap length gone);
          };
          kept = refl;
          alive = tt;
          conserved = λ q. cc q;
          slots = λ q. cc q;
          settings = (refl, refl);
          freed = λ _ _. gone;
        },
      )
  | inr e ↦
      let nothing : c.rgroups ≡ [] = no_groups c.rgroups (ground (arith, e, w.within)) in
      (
        c,
        simp e refl,
        record {
          well_formed = w;
          kept = ap (map entry) nothing;
          alive = simp nothing tt;
          conserved = λ _. refl;
          slots = λ _. refl;
          settings = (refl, refl);
          freed = λ _ pos. absurd (ground (arith, e));
        },
      )
]

-- The prune of a client whose groups are in their places, of the dead groups or of all, fails no
-- assertion and keeps the groups in their places and the pool's counters right. The groups that are
-- not dead stay, in order, with their names, weights and addresses. Pruning the dead ones loses no server and no
-- slot, and pruning all of an array that is not NULL leaves no server in the pool.
pub rgroup_prune-Pruned :
    (all : Bool) (c : RgroupClient)
    → WellFormed c
    → (c' : RgroupClient) × (rgroup_prune all c ≡ some c') × Pruned all c c'
rgroup_prune-Pruned true c w = free-Pruned c w
rgroup_prune-Pruned false c w = prune-Pruned c w
