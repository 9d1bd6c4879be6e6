-- ===== src/GroupList/Mirror.antt =====
-- The loop of `do_memcached_update_rgrouplist_with_master`: the member's groups that it keeps are the
-- first of the master's.
use mathlib.Core.List.Perm
use arcus_c_client.Prelude.{
  All, ℕ, suc, ◌+◌, ◌*◌, ◌≤◌, ◌≡◌, refl, ap, ◌∙◌, inl, inr, Bool, true, false, some, List, [], ◌∷◌,
  ◌++◌, length, map, arith, Bool-cases,
}
use arcus_c_client.Server.{Server}
use arcus_c_client.Text.{str_eq, str_eq→eq}
use arcus_c_client.Rgroup.{Rgroup, ServerPool, GroupState, Address, rgroup_update}
use arcus_c_client.GroupList.{rgroup_addresses}
use arcus_c_client.GroupList.Members.{Member, Numbered, used, used_le, Entry, entry, present}
use arcus_c_client.GroupList.Prune.{living, IsAlive}
use arcus_c_client.GroupList.Push.{IsPushable, pushed, rgroup_addresses-present}
use arcus_c_client.GroupList.One.{SameServers, One, update-One}
use arcus_c_client.GroupList.Match.{dead-Member}
use arcus_c_client.GroupList.Follow.{Followed, add_followed, follow_groups}

-- A group of the member's that is like one of the master's: with its name and its addresses, the
-- master in front and the slaves in any order.
pub record Mirrors (m : Rgroup) (e : Entry) : Type 0 where
  pub same_name : e.groupname ≡ m.groupname
  pub servers : SameServers (present m.replicas) e.addresses

pub data Mirrored : List Rgroup → List Entry → Type 0 where
  end : Mirrored [] []
  next :
      {m : Rgroup} {ms : List Rgroup} {e : Entry} {es : List Entry}
      → Mirrors m e
      → Mirrored ms es
      → Mirrored (m ∷ ms) (e ∷ es)

pub Mirrored-append :
    (l r : List Rgroup) (es fs : List Entry)
    → Mirrored l es
    → Mirrored r fs
    → Mirrored (l ++ r) (es ++ fs)
Mirrored-append [] r [] fs end k = k
Mirrored-append [] r (e ∷ es) fs h k = elim h [ ]
Mirrored-append (m ∷ l) r [] fs h k = elim h [ ]
Mirrored-append (m ∷ l) r (e ∷ es) fs (next h b) k = next h (Mirrored-append l r es fs b k)

some_master : (l : List Address) → 1 ≤ length l → SameServers l l
some_master [] h = absurd (omega arith)
some_master (a ∷ l) h = record {
  master = a;
  slaves = l;
  new_slaves = l;
  wanted_eq = refl;
  got_eq = refl;
  as_wanted = Perm.refl l;
}

pub pushed-Mirrored : (l : List Rgroup) → All IsPushable l → Mirrored l (map pushed l)
pushed-Mirrored [] h = end
pushed-Mirrored (m ∷ l) h =
    next
      (record { same_name = refl; servers = some_master (present m.replicas) h.0.1.some_address })
      (pushed-Mirrored l h.1)

-- What the loop leaves of the groups from place `i` on.
pub record FollowedWell (i : ℕ) (l : List Rgroup) (pool : ServerPool) (master : List Rgroup)
    (f : Followed) : Type 0 where
  pub numbered : Numbered i f.rgroups
  pub first : List Rgroup
  pub kept : List Entry
  pub mirrored : Mirrored first kept
  pub split : master ≡ first ++ f.remaining
  pub entries : map entry (living f.rgroups) ≡ kept
  pub unpruned : f.prune_flag ≡ false → living f.rgroups ≡ f.rgroups
  pub total : length f.pool.servers + used f.rgroups ≡ length pool.servers + used l
  pub ntotal : f.pool.server_ntotal ≡ pool.server_ntotal
  pub navail :
      pool.server_navail ≡ length pool.servers → f.pool.server_navail ≡ length f.pool.servers
  pub groups : length f.rgroups ≡ length l
  pub few : length first ≤ length l
  pub size : length (living f.rgroups) ≡ length first

FollowedWell-gone :
    (i : ℕ) (g : Rgroup) (xs : List Server) (l : List Rgroup) (pool : ServerPool)
    (master : List Rgroup) (f : Followed)
    → Member i g xs
    → FollowedWell (suc i) l pool master f
    → FollowedWell i (g ∷ l) pool master (add_followed (record g { is_dead = true }) true f)
FollowedWell-gone i g xs l pool master f mem w = record {
  numbered = ((xs, dead-Member i g xs mem), w.numbered);
  first = w.first;
  kept = w.kept;
  mirrored = w.mirrored;
  split = w.split;
  entries = w.entries;
  unpruned = λ q. cc q;
  total = omega (arith, w.total);
  ntotal = w.ntotal;
  navail = w.navail;
  groups = ap suc w.groups;
  few = omega (arith, w.few);
  size = w.size;
}

FollowedWell-next :
    (i : ℕ) (g : Rgroup) (l : List Rgroup) (pool : ServerPool) (m : Rgroup) (master : List Rgroup)
    (st : GroupState) (changed : Bool) (f : Followed)
    → str_eq g.groupname m.groupname ≡ true
    → g.is_dead ≡ false
    → One i g pool (present m.replicas) st changed
    → FollowedWell (suc i) l st.memc master f
    → FollowedWell i (g ∷ l) pool (m ∷ master) (add_followed st.rgroup false f)
FollowedWell-next i g l pool m master st changed f name alive one w =
    let first : living (st.rgroup ∷ f.rgroups) ≡ st.rgroup ∷ living f.rgroups =
      simp (one.alive ∙ alive) refl in
    record {
      numbered = ((one.servers, one.member), w.numbered);
      first = m ∷ w.first;
      kept = entry st.rgroup ∷ w.kept;
      mirrored =
          next
            (record {
              same_name = one.followed.same_name ∙ str_eq→eq g.groupname m.groupname name;
              servers = one.followed.servers;
            })
            w.mirrored;
      split = ap (◌∷◌ m) w.split;
      entries = ap (map entry) first ∙ ap (◌∷◌ (entry st.rgroup)) w.entries;
      unpruned = λ q. first ∙ ap (◌∷◌ st.rgroup) (w.unpruned q);
      total = omega (arith, w.total, one.total);
      ntotal = w.ntotal ∙ one.ntotal;
      navail = λ e. w.navail (one.navail e);
      groups = ap suc w.groups;
      few = omega (arith, w.few);
      size = ap length first ∙ ap suc w.size;
    }

gone_step :
    (g : Rgroup) (l : List Rgroup) (pool : ServerPool) (m : Rgroup) (master : List Rgroup)
    (f : Followed)
    → str_eq g.groupname m.groupname ≡ false
    → follow_groups l pool (m ∷ master) ≡ some f
    → follow_groups (g ∷ l) pool (m ∷ master)
      ≡ some (add_followed (record g { is_dead = true }) true f)
unfolding follow_groups
gone_step g l pool m master f e run = rw (e, follow_groups, run) refl

next_step :
    (g : Rgroup) (l : List Rgroup) (pool : ServerPool) (m : Rgroup) (master : List Rgroup)
    (a : List Address) (st : GroupState) (changed : Bool) (f : Followed)
    → str_eq g.groupname m.groupname ≡ true
    → rgroup_addresses m.nreplica m.replicas ≡ some a
    → rgroup_update (record { memc = pool; rgroup = g }) a ≡ some (st, changed)
    → follow_groups l st.memc master ≡ some f
    → follow_groups (g ∷ l) pool (m ∷ master) ≡ some (add_followed st.rgroup false f)
unfolding follow_groups
next_step g l pool m master a st changed f e r u run = rw (e, follow_groups, r, u) (rw run refl)

pub follow_groups-FollowedWell :
    (i : ℕ) (l : List Rgroup) (pool : ServerPool) (master : List Rgroup)
    → Numbered i l
    → All IsAlive l
    → All IsPushable master
    → 3 * length l + 1 ≤ length pool.servers + used l
    → (f : Followed) × (follow_groups l pool master ≡ some f) × FollowedWell i l pool master f
unfolding follow_groups
follow_groups-FollowedWell i [] pool master n a p room = (
  record { rgroups = []; pool = pool; remaining = master; prune_flag = false },
  refl,
  record {
    numbered = tt;
    first = [];
    kept = [];
    mirrored = end;
    split = refl;
    entries = refl;
    unpruned = λ _. refl;
    total = refl;
    ntotal = refl;
    navail = λ e. e;
    groups = refl;
    few = omega arith;
    size = refl;
  },
)
follow_groups-FollowedWell i (g ∷ l) pool [] ((xs, mem), n) a p room =
    let (f, run, w) =
      follow_groups-FollowedWell (suc i) l pool [] n a.1 p
        (omega (arith, mem.nreplica_eq, mem.fits)) in
    (
      add_followed (record g { is_dead = true }) true f,
      rw run refl,
      FollowedWell-gone i g xs l pool [] f mem w,
    )
follow_groups-FollowedWell i (g ∷ l) pool (m ∷ master) ((xs, mem), n) a p room =
    elim (Bool-cases (str_eq g.groupname m.groupname)) [
      | inr e ↦
          let (f, run, w) =
            follow_groups-FollowedWell (suc i) l pool (m ∷ master) n a.1 p
              (omega (arith, mem.nreplica_eq, mem.fits)) in
          (
            add_followed (record g { is_dead = true }) true f,
            gone_step g l pool m master f e run,
            FollowedWell-gone i g xs l pool (m ∷ master) f mem w,
          )
      | inl e ↦
          let ((j, ys, from), groupable) = p.0 in
          let (st, changed, updated, one) =
            update-One i g xs pool m.groupname (present m.replicas) groupable mem
              (omega (arith, mem.nreplica_eq, used_le (suc i) l n)) in
          let (f, run, w) =
            follow_groups-FollowedWell (suc i) l st.memc master n a.1 p.1
              (omega (arith, one.total, one.member.nreplica_eq, one.member.fits)) in
          (
            add_followed st.rgroup false f,
            next_step g l pool m master (present m.replicas) st changed f e
                (rgroup_addresses-present j m ys from) updated run,
            FollowedWell-next i g l pool m master st changed f e a.0 one w,
          )
    ]
