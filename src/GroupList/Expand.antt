-- ===== src/GroupList/Expand.antt =====
-- `memcached_rgroup_expand`: the room for groups and servers.
use arcus_c_client.Prelude.{
  ℕ, zero, suc, ◌+◌, ◌*◌, ◌%◌, ◌^◌, ◌≤◌, ◌<◌, ◌≡◌, refl, ap, ◌∙◌, inl, inr, ◌⊎◌, Bool, true, false,
  some, List, [], ◌∷◌, length, arith, Bool-cases, ltb,
}
use arcus_c_client.Server.{Server}
use arcus_c_client.Rgroup.{ServerPool}
use arcus_c_client.GroupList.{
  RgroupClient, RgroupOutside, grow_count, expand_servers, expand_pool, rgroup_expand,
}
use arcus_c_client.GroupList.Members.{WellFormed}

-- The count of slots is the first in steps of ten that is large enough.
grow_count-enough :
    (fuel count new : ℕ)
    → count + 10 < 2 ^ 32
    → new < count + 10
    → count + 10 ≤ new + 10 * fuel
    → (n : ℕ) × (grow_count fuel count new ≡ some n)
      × (count ≤ n)
      × (n < count + 10)
      × (n % 10 ≡ new % 10)
unfolding grow_count
grow_count-enough zero count new b l f = absurd (omega arith)
grow_count-enough (suc fuel) count new b l f = elim (Bool-cases (ltb new count)) [
  | inr e ↦ (new, rw e refl, ground (arith, e), l, refl)
  | inl e ↦
      let low : new < count = ground (arith, e) in
      let wrapless : (new + 10) % 2 ^ 32 ≡ new + 10 = omega arith in
      let (n, run, enough, few, steps) =
        grow_count-enough fuel count (new + 10) b (omega arith) (omega arith) in
      (n, rw e (ap (grow_count fuel count) wrapless ∙ run), enough, few, omega (arith, steps))
]

-- The pool after it has got new servers.
record Supplied (needed : ℕ) (memory : List Server) (m : ServerPool) (r : Bool × ServerPool)
    : Type 0 where
  pub enough : r.0 ≡ true → needed ≤ r.1.server_ntotal
  pub failed : r.0 ≡ false → m.server_ntotal + length memory < needed
  pub few : (r.1.server_ntotal ≡ m.server_ntotal) ⊎ (r.1.server_ntotal ≤ needed)
  pub more : m.server_ntotal ≤ r.1.server_ntotal
  pub added : length r.1.servers + m.server_ntotal ≡ length m.servers + r.1.server_ntotal
  pub available : m.server_navail ≡ length m.servers → r.1.server_navail ≡ length r.1.servers

expand_servers-Supplied :
    (needed : ℕ) (memory : List Server) (m : ServerPool)
    → Supplied needed memory m (expand_servers needed memory m)
unfolding expand_servers
expand_servers-Supplied needed [] m = record {
  enough = λ e. ground (arith, e);
  failed = λ e. ground (arith, e);
  few = inl refl;
  more = omega arith;
  added = refl;
  available = λ e. e;
}
expand_servers-Supplied needed (s ∷ memory) m = elim (Bool-cases (ltb m.server_ntotal needed)) [
  | inr e ↦ rw e (record {
    enough = λ _. ground (arith, e);
    failed = λ q. cc q;
    few = inl refl;
    more = omega arith;
    added = refl;
    available = λ a. a;
  })
  | inl e ↦
      let low : m.server_ntotal < needed = ground (arith, e) in
      let m' : ServerPool = record m {
        servers = s ∷ m.servers;
        server_ntotal = m.server_ntotal + 1;
        server_navail = m.server_navail + 1;
      } in
      let r = expand_servers-Supplied needed memory m' in
      rw e (record {
        enough = r.enough;
        failed = λ q. omega (arith, r.failed q);
        few = inr (elim r.few [ inl same ↦ omega (arith, same) | inr le ↦ le ]);
        more = omega (arith, r.more);
        added = omega (arith, r.added);
        available = λ a. r.available (omega (arith, a));
      })
]

-- A client after a call for the room of `groups` groups and `servers` servers.
pub record Expanded (o : RgroupOutside) (groups servers : ℕ) (c : RgroupClient)
    (r : Bool × RgroupClient) : Type 0 where
  pub well_formed : WellFormed r.1
  pub kept : r.1.rgroups ≡ c.rgroups
  pub enough_slots : r.0 ≡ true → groups ≤ r.1.rgroup_ntotal
  pub enough_servers : r.0 ≡ true → servers < r.1.memc.server_ntotal
  pub few_slots : (r.1.rgroup_ntotal ≡ c.rgroup_ntotal) ⊎ (r.1.rgroup_ntotal < groups + 10)
  pub few_servers :
      (r.1.memc.server_ntotal ≡ c.memc.server_ntotal) ⊎ (r.1.memc.server_ntotal ≤ servers + 1)
  pub more_servers : c.memc.server_ntotal ≤ r.1.memc.server_ntotal
  pub failed :
      r.0 ≡ false
      → (o.rgroups_allocated ≡ false)
        ⊎ (c.memc.server_ntotal + length o.server_memory < servers + 1)
  pub settings :
      (r.1.distribution ≡ c.distribution)
      × (r.1.auto_eject_hosts ≡ c.auto_eject_hosts)
      × (r.1.use_sort_hosts ≡ c.use_sort_hosts)

expand_pool-Expanded :
    (o : RgroupOutside) (groups servers : ℕ) (c : RgroupClient) (n : ℕ)
    → WellFormed c
    → servers + 1 < 2 ^ 32
    → groups ≤ n
    → c.rgroup_ntotal ≤ n
    → (n ≡ c.rgroup_ntotal) ⊎ (n < groups + 10)
    → Expanded o groups servers c (expand_pool o servers (record c { rgroup_ntotal = n }))
unfolding expand_pool
expand_pool-Expanded o groups servers c n w b enough more few =
    let wrapless : (servers + 1) % 2 ^ 32 ≡ servers + 1 = omega arith in
    let s = expand_servers-Supplied (servers + 1) o.server_memory c.memc in
    rw wrapless (record {
      well_formed = record {
        numbered = w.numbered;
        within = omega (arith, w.within);
        total = omega (arith, w.total, s.added);
        available = s.available w.available;
      };
      kept = refl;
      enough_slots = λ _. enough;
      enough_servers = λ e. omega (arith, s.enough e);
      few_slots = few;
      few_servers = s.few;
      more_servers = s.more;
      failed = λ e. inr (s.failed e);
      settings = (refl, refl, refl);
    })

-- For up to 2^32 - 11 groups and 2^32 - 2 servers, the loops of the call end and lose no server. The
-- groups stay as they are. If the call succeeds, the array has a slot for each group, and the pool has
-- one server more than asked for, free ones and those of the groups counted; the array grows to less than ten slots too many, the
-- pool to no server too many; and it fails only where an allocation does.
pub rgroup_expand-Expanded :
    (o : RgroupOutside) (groups servers : ℕ) (c : RgroupClient)
    → WellFormed c
    → groups + 10 < 2 ^ 32
    → servers + 1 < 2 ^ 32
    → (r : Bool × RgroupClient) × (rgroup_expand o groups servers c ≡ some r)
      × Expanded o groups servers c r
unfolding rgroup_expand
rgroup_expand-Expanded o groups servers c w b b' = elim (Bool-cases (ltb c.rgroup_ntotal groups)) [
  | inr e ↦
      let r =
        expand_pool-Expanded o groups servers c c.rgroup_ntotal w b' (ground (arith, e))
          (omega arith) (inl refl) in
      (expand_pool o servers c, simp e refl, r)
  | inl e ↦
      let low : c.rgroup_ntotal < groups = ground (arith, e) in
      let wrapless : (c.rgroup_ntotal + 10) % 2 ^ 32 ≡ c.rgroup_ntotal + 10 = omega arith in
      let (n, run, enough, few, steps) =
        grow_count-enough (suc groups) groups (c.rgroup_ntotal + 10) b (omega arith)
          (omega arith) in
      elim (Bool-cases o.rgroups_allocated) [
        | inl a ↦ (
          expand_pool o servers (record c { rgroup_ntotal = n }),
          simp (e, wrapless, run, a) refl,
          expand_pool-Expanded o groups servers c n w b' enough (omega arith) (inr few),
        )
        | inr a ↦ (
          (false, c),
          simp (e, wrapless, run, a) refl,
          record {
            well_formed = w;
            kept = refl;
            enough_slots = λ q. cc q;
            enough_servers = λ q. cc q;
            few_slots = inl refl;
            few_servers = inl refl;
            more_servers = omega arith;
            failed = λ _. inl a;
            settings = (refl, refl, refl);
          },
        )
      ]
]
