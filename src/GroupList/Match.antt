-- ===== src/GroupList/Match.antt =====
-- The loop of `do_memcached_update_rgrouplist` over the client's groups.
use arcus_c_client.Prelude.{
  All, ℕ, suc, ◌+◌, ◌*◌, ◌^◌, ◌≤◌, ◌<◌, ◌≡◌, refl, sym, ap, ◌∙◌, subst, inl, inr, Bool, true, false,
  ◌||◌, none, some, List, [], ◌∷◌, length, map, arith, Bool-cases, Option-cases,
}
use arcus_c_client.Server.{Server}
use arcus_c_client.GroupInfo.{RgroupInfo, decrement}
use arcus_c_client.GroupInfo.Create.{Distinct}
use arcus_c_client.Rgroup.{Rgroup, ServerPool, GroupState, Address, rgroup_update}
use arcus_c_client.GroupList.{info_addresses}
use arcus_c_client.GroupList.Listing.{Matched, add_matched, find_info, take_group, match_groups}
use arcus_c_client.GroupList.Members.{Member, Numbered, used, used_le, Entry, entry}
use arcus_c_client.GroupList.Prune.{living, IsAlive}
use arcus_c_client.GroupList.Asked.{listed_addresses, Ready, asked}
use arcus_c_client.GroupList.Names.{
  DistinctGroups, asked_new, asked_new-nil, asked_new-free, asked_new-take_group, asked_new-invalid,
  valid_count, valid_count-take_group, take_group-Distinct, take_group-Ready, length-take_group,
  find_info-Ready, find_info-free,
}
use arcus_c_client.GroupList.One.{Follows, update-One}
use arcus_c_client.GroupList.Becomes.{end, gone, stays, follows, Becoming, Becoming-take_group}

-- What the loop leaves of the groups from place `i` on.
pub record MatchedWell (i : ℕ) (l : List Rgroup) (pool : ServerPool) (infos : List RgroupInfo)
    (m : Matched) : Type 0 where
  pub numbered : Numbered i m.rgroups
  pub kept : List Entry
  pub becoming : Becoming infos l kept
  pub entries : map entry (living m.rgroups) ≡ kept
  pub new : asked m.groupinfo ≡ asked_new l infos
  pub ready : All Ready m.groupinfo
  pub size : length m.groupinfo ≡ length infos
  pub count : m.validcount ≡ valid_count m.groupinfo
  pub unpruned : m.prune_flag ≡ false → living m.rgroups ≡ m.rgroups
  pub quiet : m.prune_flag ≡ false → m.changed ≡ false → map entry m.rgroups ≡ map entry l
  pub total : length m.pool.servers + used m.rgroups ≡ length pool.servers + used l
  pub ntotal : m.pool.server_ntotal ≡ pool.server_ntotal
  pub navail :
      pool.server_navail ≡ length pool.servers → m.pool.server_navail ≡ length m.pool.servers
  pub groups : length m.rgroups ≡ length l

listed_eq :
    (info : RgroupInfo) (l : List Address)
    → info_addresses info.nreplica info.replicas ≡ some l
    → listed_addresses info ≡ l
listed_eq info l r = ap (λ r. elim r [ none ↦ [] | some l ↦ l ]) r

or_false : (a b : Bool) → (a || b) ≡ false → (a ≡ false) × (b ≡ false)
or_false true b e = cc e
or_false false b e = (refl, e)

match_gone :
    (g : Rgroup) (l : List Rgroup) (pool : ServerPool) (infos : List RgroupInfo) (m : Matched)
    → find_info g.groupname infos ≡ none
    → match_groups l pool infos (valid_count infos) ≡ some m
    → match_groups (g ∷ l) pool infos (valid_count infos)
      ≡ some (add_matched (record g { is_dead = true }) true false m)
unfolding match_groups
match_gone g l pool infos m f run = rw (f, match_groups, run) refl

match_invalid :
    (g : Rgroup) (l : List Rgroup) (pool : ServerPool) (infos : List RgroupInfo) (m : Matched)
    (info : RgroupInfo)
    → find_info g.groupname infos ≡ some info
    → info.valid ≡ false
    → match_groups l pool infos (valid_count infos) ≡ some m
    → match_groups (g ∷ l) pool infos (valid_count infos) ≡ some (add_matched g false false m)
unfolding match_groups
match_invalid g l pool infos m info f v run = rw (f, match_groups, v, run) refl

match_valid :
    (g : Rgroup) (l : List Rgroup) (pool : ServerPool) (infos : List RgroupInfo) (m : Matched)
    (info : RgroupInfo) (as' : List Address) (st : GroupState) (changed : Bool)
    → find_info g.groupname infos ≡ some info
    → info.valid ≡ true
    → info_addresses info.nreplica info.replicas ≡ some as'
    → rgroup_update (record { memc = pool; rgroup = g }) as' ≡ some (st, changed)
    → decrement (valid_count infos) ≡ valid_count (take_group g.groupname infos)
    → match_groups l st.memc
        (take_group g.groupname infos)
        (valid_count (take_group g.groupname infos))
      ≡ some m
    → match_groups (g ∷ l) pool infos (valid_count infos)
      ≡ some (add_matched st.rgroup false changed m)
unfolding match_groups
match_valid g l pool infos m info as' st changed f v r u c run =
    rw (f, match_groups, v, r, u) (rw (c, run) refl)

pub dead-Member :
    (i : ℕ) (g : Rgroup) (xs : List Server)
    → Member i g xs
    → Member i (record g { is_dead = true }) xs
dead-Member i g xs m = record {
  nreplica_eq = m.nreplica_eq;
  replicas_eq = m.replicas_eq;
  fits = m.fits;
  some_server = m.some_server;
  indexed = m.indexed;
  in_place = m.in_place;
}

-- A group that stays in the list, in front of the rest.
MatchedWell-cons :
    (i : ℕ) (g g' : Rgroup) (l : List Rgroup) (pool pool' : ServerPool)
    (infos infos' : List RgroupInfo) (m : Matched) (changed : Bool) (xs : List Server)
    (w : MatchedWell (suc i) l pool' infos' m)
    → Member i g' xs
    → g'.is_dead ≡ false
    → Becoming infos (g ∷ l) (entry g' ∷ w.kept)
    → asked_new l infos' ≡ asked_new (g ∷ l) infos
    → length infos' ≡ length infos
    → length pool'.servers + g'.nreplica ≡ length pool.servers + g.nreplica
    → pool'.server_ntotal ≡ pool.server_ntotal
    → (pool.server_navail ≡ length pool.servers → pool'.server_navail ≡ length pool'.servers)
    → (changed ≡ false → entry g' ≡ entry g)
    → MatchedWell i (g ∷ l) pool infos (add_matched g' false changed m)
MatchedWell-cons i g g' l pool pool' infos infos' m changed xs w mem alive b new size total ntotal
      navail same =
    let first : living (g' ∷ m.rgroups) ≡ g' ∷ living m.rgroups = simp alive refl in
    record {
      numbered = ((xs, mem), w.numbered);
      kept = entry g' ∷ w.kept;
      becoming = b;
      entries = ap (map entry) first ∙ ap (◌∷◌ (entry g')) w.entries;
      new = w.new ∙ new;
      ready = w.ready;
      size = w.size ∙ size;
      count = w.count;
      unpruned = λ q. first ∙ ap (◌∷◌ g') (w.unpruned q);
      quiet = λ q c.
          let parts = or_false changed m.changed c in λ j. same parts.0 j ∷ w.quiet q parts.1 j;
      total = omega (arith, w.total, total);
      ntotal = w.ntotal ∙ ntotal;
      navail = λ e. w.navail (navail e);
      groups = ap suc w.groups;
    }

-- The loop of a client whose groups are alive and have names of their own, with a pool that can fill them all.
pub match_groups-MatchedWell :
    (i : ℕ) (l : List Rgroup) (pool : ServerPool) (infos : List RgroupInfo)
    → Numbered i l
    → All IsAlive l
    → DistinctGroups l
    → Distinct infos
    → All Ready infos
    → valid_count infos < 2 ^ 32
    → 3 * length l + 1 ≤ length pool.servers + used l
    → (m : Matched) × (match_groups l pool infos (valid_count infos) ≡ some m)
      × MatchedWell i l pool infos m
unfolding match_groups
match_groups-MatchedWell i [] pool infos n a d d' r b room = (
  record {
    rgroups = [];
    pool = pool;
    groupinfo = infos;
    validcount = valid_count infos;
    prune_flag = false;
    changed = false;
  },
  refl,
  record {
    numbered = tt;
    kept = [];
    becoming = end;
    entries = refl;
    new = sym (asked_new-nil infos);
    ready = r;
    size = refl;
    count = refl;
    unpruned = λ _. refl;
    quiet = λ _ _. refl;
    total = refl;
    ntotal = refl;
    navail = λ e. e;
    groups = refl;
  },
)
match_groups-MatchedWell i (g ∷ l) pool infos ((xs, mem), n) a d d' r b room =
    elim (Option-cases (find_info g.groupname infos)) [
      | inl f ↦
          let (m, run, w) =
            match_groups-MatchedWell (suc i) l pool infos n a.1 d.1 d' r b
              (omega (arith, mem.nreplica_eq, mem.fits)) in
          (
            add_matched (record g { is_dead = true }) true false m,
            match_gone g l pool infos m f run,
            record {
              numbered = ((xs, dead-Member i g xs mem), w.numbered);
              kept = w.kept;
              becoming = gone f w.becoming;
              entries = w.entries;
              new = w.new ∙ sym (asked_new-free g l infos (find_info-free g.groupname infos f));
              ready = w.ready;
              size = w.size;
              count = w.count;
              unpruned = λ q. cc q;
              quiet = λ q. cc q;
              total = omega (arith, w.total);
              ntotal = w.ntotal;
              navail = w.navail;
              groups = ap suc w.groups;
            },
          )
      | inr (info, f) ↦ elim (Bool-cases info.valid) [
        | inr v ↦
            let (m, run, w) =
              match_groups-MatchedWell (suc i) l pool infos n a.1 d.1 d' r b
                (omega (arith, mem.nreplica_eq, mem.fits)) in
            (
              add_matched g false false m,
              match_invalid g l pool infos m info f v run,
              MatchedWell-cons i g g l pool pool infos infos m false xs w mem a.0
                  (stays info f v w.becoming) (sym (asked_new-invalid g l infos info d' f v)) refl
                  refl refl (λ e. e) (λ _. refl),
            )
        | inl v ↦
            let infos' = take_group g.groupname infos in
            let listed = find_info-Ready g.groupname infos info r f v in
            let (st, changed, updated, one) =
              update-One i g xs pool info.groupname listed.addresses listed.groupable mem
                (omega (arith, mem.nreplica_eq, used_le (suc i) l n)) in
            let less = valid_count-take_group g.groupname infos info f v in
            let (m, run, w) =
              match_groups-MatchedWell (suc i) l st.memc infos' n a.1 d.1
                (take_group-Distinct g.groupname infos d') (take_group-Ready g.groupname infos r)
                (omega (arith, less))
                (omega (arith, one.total, one.member.nreplica_eq, one.member.fits)) in
            (
              add_matched st.rgroup false changed m,
              match_valid g l pool infos m info listed.addresses st changed f v listed.reads updated
                  (omega (arith, less)) run,
              MatchedWell-cons i g st.rgroup l pool st.memc infos infos' m changed one.servers w
                  one.member (one.alive ∙ a.0)
                  (follows info (entry st.rgroup) f v
                    (subst (λ a. Follows g a (entry st.rgroup))
                      (sym (listed_eq info listed.addresses listed.reads)) one.followed)
                    (Becoming-take_group g.groupname infos l w.kept d.0 w.becoming))
                  (asked_new-take_group g l infos d') (length-take_group g.groupname infos)
                  one.total one.ntotal one.navail one.quiet,
            )
      ]
    ]
