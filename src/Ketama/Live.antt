-- ===== src/Ketama/Live.antt =====
-- The ring that `update_continuum` makes, and where `dispatch_host` sends a hash on it.
use mathlib.Core.Bool.{Bool-set}
use mathlib.Core.List.{Perm}
use mathlib.Core.List.Perm
use arcus_c_client.Prelude.{take-length, drop-length}
use arcus_c_client.Prelude.{
  All, All-perm, sym, subst, ℕ, ◌+◌, ◌*◌, ◌^◌, ◌<◌, ◌≡◌, refl, ◌∙◌, inl, inr, Bool, true, false,
  none, some, List, [], ◌∷◌, ◌++◌, ◌==◌, if◌then◌else◌, length, length-perm, append-nil, arith,
  Bool-cases, ap, get_elem?, ltb, take, drop,
}
use arcus_c_client.ReturnCode.{ReturnCode, success}
use arcus_c_client.Server.{Server}
use arcus_c_client.Ring.{ContinuumItem, dispatch_continuum}
use arcus_c_client.Ring.Search.{IsSorted, first_at_least, dispatch_continuum-owner}
use arcus_c_client.Ketama.{
  Client, KetamaInfo, Primitives, Environment, Points, share, make_info, live_servers, build,
  update_continuum, ring_of, count_live, no_weights, sum_weights, continuum_item_cmp,
}
use arcus_c_client.Ketama.Order.{
  SortsConsistently, continuum_item_cmp-IsConsistent, Ordered-IsSorted,
}
use arcus_c_client.Ketama.Even.{
  points_of, points_of-perm, points_of-live_points, HaveWeight, share-even,
}
use arcus_c_client.Ketama.Hosts.{
  IsShort, live_at, OnLive, live_count, live_count_all, count_live-live_count,
  add_hosts-live_points, live_points, live_points-OnLive, length-live_points,
}

first_at_least-OnLive :
    (ae : Bool) (now : ℕ) (servers : List Server) (d : ℕ) (c : List ContinuumItem) (hash : ℕ)
    → live_at ae now servers d ≡ true
    → All (OnLive ae now servers) c
    → (i : ℕ) × ((elim (first_at_least c hash) [ none ↦ some d | some item ↦ some item.index ])
        ≡ some i)
      × (live_at ae now servers i ≡ true)
first_at_least-OnLive ae now servers d [] hash e h = (d, refl, e)
first_at_least-OnLive ae now servers d (x ∷ c) hash e h = elim (Bool-cases (ltb x.value hash)) [
  | inl low ↦ rw low (first_at_least-OnLive ae now servers d c hash e h.1)
  | inr high ↦ (x.index, rw high, h.0)
]

-- A ring of 160 points for each of the live hosts and none for any other, in order.
pub record IsLiveRing (auto_ejecting : Bool) (now : ℕ) (servers : List Server)
    (ring : List ContinuumItem) : Type 0 where
  pub sorted : IsSorted ring
  pub size : length ring ≡ 160 * live_count auto_ejecting now servers
  pub on_live : All (OnLive auto_ejecting now servers) ring
  pub even : (i : ℕ) → points_of i ring ≡ (if live_at auto_ejecting now servers i then 160 else 0)

-- Such a ring leads every hash to a live host.
pub leads_live :
    (ae : Bool) (now : ℕ) (servers : List Server) (ring : List ContinuumItem)
    → IsSorted ring
    → All (OnLive ae now servers) ring
    → 0 < length ring
    → (hash : ℕ)
    → (i : ℕ) × (dispatch_continuum ring hash ≡ some i) × (live_at ae now servers i ≡ true)
leads_live ae now servers [] s h pos hash = absurd (omega arith)
leads_live ae now servers (x ∷ c) s h pos hash =
    rw (dispatch_continuum-owner (x ∷ c) hash s pos)
      (first_at_least-OnLive ae now servers x.index (x ∷ c) hash h.0 h)

live_servers-live_count :
    (now : ℕ) (ptr : Client)
    → (live_servers now ptr).0 ≡ live_count ptr.auto_eject_hosts now ptr.servers
unfolding live_servers
live_servers-live_count now ptr = elim (Bool-cases ptr.auto_eject_hosts) [
  | inl e ↦ rw e (omega (arith, count_live-live_count now ptr.servers (0, 0)))
  | inr e ↦ rw (e, live_count_all now ptr.servers)
]

pub live_servers-client :
    (now : ℕ) (ptr : Client)
    → (t : ℕ) × ((live_servers now ptr).1 ≡ record ptr { next_distribution_rebuild = t })
unfolding live_servers
live_servers-client now ptr =
    let choice : Bool → ℕ × Client = λ b.
      if b
      then (let r = count_live now ptr.servers (0, 0) in
          (r.0, record ptr { next_distribution_rebuild = r.1 }))
      else (length ptr.servers, ptr) in
    elim (Bool-cases ptr.auto_eject_hosts) [
      | inl e ↦ ((count_live now ptr.servers (0, 0)).1, ap (λ b. (choice b).1) e)
      | inr e ↦ (ptr.next_distribution_rebuild, ap (λ b. (choice b).1) e)
    ]

module _ (c : Primitives) (sorts : SortsConsistently c) (env : Environment) (now : ℕ) where
  -- The points of a client's live servers, those of 40 names each.
  abbrev pub points_wanted : Client → List ContinuumItem
  points_wanted ptr =
      live_points c.signature ptr.distribution ptr.auto_eject_hosts now 0 ptr.servers

  make_info-IsLiveRing :
      (ptr : Client) (p : Points)
      → p.pointer_counter ≡ length p.items
      → p.items ≡ points_wanted ptr
      → IsLiveRing ptr.auto_eject_hosts now ptr.servers (ring_of (make_info c ptr p))
        × Perm (ring_of (make_info c ptr p)) (points_wanted ptr)
  unfolding make_info
  make_info-IsLiveRing ptr p counted made =
      let ae = ptr.auto_eject_hosts in
      let cmp = continuum_item_cmp ptr.servers c.outside in
      let consistent = continuum_item_cmp-IsConsistent ptr.servers c.outside in
      let sorted = c.qsort cmp p.items in
      let kept : Perm sorted (points_wanted ptr) =
        subst (Perm sorted) made (sorts.keeps cmp consistent p.items) in
      let whole : (k : ℕ) (s : Server)
          → get_elem? ptr.servers k ≡ some s
          → get_elem? ptr.servers (0 + k) ≡ some s =
        λ k s e. let same : 0 + k ≡ k = omega arith in rw same e in
      let on =
        live_points-OnLive c.signature ptr.distribution ae now ptr.servers 0 ptr.servers whole in
      let width = length-perm kept in
      let ring : take p.pointer_counter
            (c.qsort cmp (take p.pointer_counter p.items) ++ drop p.pointer_counter p.items)
          ≡ sorted =
        rw (counted, take-length p.items, drop-length p.items, append-nil sorted)
          (ap (λ (n : ℕ). take n sorted) (sym (length-perm (sorts.keeps cmp consistent p.items)))
            ∙ take-length sorted) in
      rw ring (
        record {
          sorted =
              Ordered-IsSorted ptr.servers c.outside sorted (sorts.orders cmp consistent p.items);
          size = width ∙ length-live_points c.signature ptr.distribution ae now 0 ptr.servers;
          on_live = All-perm _ (λ x. Bool-set _ _) (Perm.symm kept) on;
          even = λ i.
              points_of-perm i kept
              ∙ (let same : 0 + i ≡ i = omega arith in
                  ap (λ (n : ℕ). points_of n (points_wanted ptr)) (sym same)
                  ∙ points_of-live_points c.signature ptr.distribution ae now 0 i ptr.servers);
        },
        kept,
      )

  -- What a client needs so that its ring can be made.
  pub record CanBuild (ptr : Client) : Type 0 where
    pub info_allocated : env.info_allocated ≡ true
    pub continuum_allocated : env.continuum_allocated ≡ true
    pub weights :
        ptr.weighted ≡ true → (weight : ℕ) × HaveWeight ptr.auto_eject_hosts now ptr.servers weight
    pub short : All IsShort ptr.servers
    pub few : 160 * length ptr.servers < 2 ^ 32
    pub some_live : 0 < live_count ptr.auto_eject_hosts now ptr.servers

  -- A successful call that put a ring of the live hosts into the client, and kept its servers.
  pub record Rebuilt (ptr : Client) (r : ReturnCode × Client) : Type 0 where
    pub returns : r.0 ≡ success
    pub servers_kept : r.1.servers ≡ ptr.servers
    pub made : KetamaInfo
    pub is_set : r.1.info ≡ some made
    pub is_live_ring : IsLiveRing ptr.auto_eject_hosts now ptr.servers (ring_of made)
    pub points : Perm (ring_of made) (points_wanted ptr)
    pub leads :
        (hash : ℕ)
        → (i : ℕ) × (dispatch_continuum (ring_of made) hash ≡ some i)
          × (live_at ptr.auto_eject_hosts now ptr.servers i ≡ true)

  build-Rebuilt : (ptr : Client) (live : ℕ) → CanBuild ptr → Rebuilt ptr (build c env now live ptr)
  unfolding build share
  build-Rebuilt ptr live can =
      let ae = ptr.auto_eject_hosts in
      let w = if ptr.weighted then sum_weights ae now ptr.servers no_weights else no_weights in
      let (p, run, counted, items) =
        add_hosts-live_points c.signature ptr.distribution ae now (share c ptr.weighted w live)
          (share-even c ptr.weighted ae now live ptr.servers can.weights) 0 ptr.servers
          (record { items = []; pointer_counter = 0 }) can.short refl (omega (arith, can.few)) in
      let (ring, points) = make_info-IsLiveRing ptr p counted items in
      rw (can.info_allocated, can.continuum_allocated, run)
        (record {
          returns = refl;
          servers_kept = refl;
          made = make_info c ptr p;
          is_set = refl;
          is_live_ring = ring;
          points = points;
          leads =
              leads_live ae now ptr.servers (ring_of (make_info c ptr p)) ring.sorted ring.on_live
                (omega (arith, ring.size, can.some_live));
        })

  update_continuum-build :
      (ptr : Client)
      → env.pool_master ≡ none
      → env.now ≡ some now
      → ((live_servers now ptr).0 == 0) ≡ false
      → update_continuum c env ptr
        ≡ build c env now (live_servers now ptr).0 (live_servers now ptr).1
  unfolding update_continuum build
  update_continuum-build ptr alone clock some_live = rw (alone, clock, some_live) refl

  -- With a `qsort` that sorts, a clock, short host names, no weights or one weight for all live servers,
  -- fewer than 2 ^ 32 points and no failed allocation, a client that is no other member of a pool makes a
  -- ring whenever a server is live, and keeps its servers. The ring is in order, and its points are those of
  -- the 40 names of each live server, four each: 160 points for each live server and none for any other.
  -- Every hash is then dispatched to a live server.
  pub update_continuum-Rebuilt :
      (ptr : Client)
      → env.pool_master ≡ none
      → env.now ≡ some now
      → CanBuild ptr
      → Rebuilt ptr (update_continuum c env ptr)
  update_continuum-Rebuilt ptr alone clock can =
      let (t, same) = live_servers-client now ptr in
      let ptr' : Client = record ptr { next_distribution_rebuild = t } in
      let live = (live_servers now ptr).0 in
      let some_live : (live == 0) ≡ false =
        ground (arith, can.some_live, live_servers-live_count now ptr) in
      let r = build-Rebuilt ptr' live (record {
        info_allocated = can.info_allocated;
        continuum_allocated = can.continuum_allocated;
        weights = can.weights;
        short = can.short;
        few = can.few;
        some_live = can.some_live;
      }) in
      rw (update_continuum-build ptr alone clock some_live, same)
        (record {
          returns = r.returns;
          servers_kept = r.servers_kept;
          made = r.made;
          is_set = r.is_set;
          is_live_ring = r.is_live_ring;
          points = r.points;
          leads = r.leads;
        })
