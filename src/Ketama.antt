-- ===== src/Ketama.antt =====
-- The making of the hash ring from the servers of a client: `update_continuum` of
-- libmemcached/hosts.cc, with its comparison of points.
pub mod Hostport
pub mod Order
pub mod Hosts
pub mod Even
pub mod Live
pub mod Failures
use arcus_c_client.Prelude.{
  ℕ, zero, suc, ◌+◌, ◌-◌, ◌*◌, ◌/◌, ◌%◌, ◌^◌, Bool, true, false, ◌&&◌, ◌||◌, not, Option, none,
  some, List, [], ◌∷◌, ◌++◌, Ordering, compare, ltb, leb, ◌==◌, if◌then◌else◌, length, get_or, take,
  drop, bit_and, bit_or,
}
use arcus_c_client.ReturnCode.{ReturnCode, success, memory_allocation_failure, errno}
use arcus_c_client.Ring.{ContinuumItem, Distribution}
use arcus_c_client.Server.{Server}
use arcus_c_client.Text.{Bytes, strcmp, print_unsigned}

abbrev pub default_port : ℕ
default_port = 11211

abbrev pub points_per_server : ℕ
points_per_server = 160

abbrev pub max_host_sort_length : ℕ
max_host_sort_length = 86

abbrev pub continuum_addition : ℕ
continuum_addition = 10

-- `memcached_ketama_info_st`, less its reference count
pub record KetamaInfo : Type 0 where
  pub continuum : List ContinuumItem
  pub continuum_points_counter : ℕ

-- The fields of `memcached_st` that the ring is made from and kept in.
pub record Client : Type 0 where
  pub servers : List Server
  pub distribution : Distribution
  pub auto_eject_hosts : Bool
  pub weighted : Bool
  pub next_distribution_rebuild : ℕ
  pub info : Option KetamaInfo
  pub error : Option ReturnCode

-- `"%s:%s"` of a host and its port
unfoldable pub hostport : Server → Bytes
hostport s = s.hostname ++ (b':' ∷ s.str_port)

-- `compare_server_hostport`
unfoldable pub compare_server_hostport : Server → Server → Ordering
unfolding hostport
compare_server_hostport a b = elim (strcmp a.hostname b.hostname) [
  | Ordering.eq ↦ strcmp a.str_port b.str_port
  | Ordering.lt ↦
      if length a.hostname == length b.hostname
      then Ordering.lt
      else strcmp (hostport a) (hostport b)
  | Ordering.gt ↦
      if length a.hostname == length b.hostname
      then Ordering.gt
      else strcmp (hostport a) (hostport b)
]

-- `continuum_item_cmp` with `cmp_servers` set; `outside` stands for a read outside of the array.
unfoldable pub continuum_item_cmp : List Server → Server → ContinuumItem → ContinuumItem → Ordering
unfolding compare_server_hostport
continuum_item_cmp servers outside ct1 ct2 =
    if ct1.value == ct2.value
    then compare_server_hostport (get_or servers ct1.index outside)
        (get_or servers ct2.index outside)
    else if ltb ct2.value ct1.value
    then Ordering.gt
    else Ordering.lt

abbrev byte_at : Bytes → ℕ → ℕ
byte_at results i = bit_and (get_or results i 0) 0xff

-- `ketama_server_hash`, of the 16 bytes that `libhashkit_md5_signature` gives
unfoldable pub ketama_server_hash : (Bytes → Bytes) → Bytes → ℕ → ℕ
ketama_server_hash signature key alignment =
    let results = signature key in
    bit_or
      (bit_or
        (bit_or (byte_at results (3 + alignment * 4) * 2 ^ 24)
          (byte_at results (2 + alignment * 4) * 2 ^ 16))
        (byte_at results (1 + alignment * 4) * 2 ^ 8))
      (byte_at results (0 + alignment * 4))

abbrev is_spy : Distribution → Bool
is_spy Distribution.consistent_ketama_spy = true
is_spy _ = false

-- The name that a point is hashed from.
unfoldable pub sort_host : Distribution → Server → ℕ → Bytes
sort_host distribution s pointer_index =
    if s.port == default_port && not (is_spy distribution)
    then s.hostname ++ (b'-' ∷ print_unsigned pointer_index)
    else s.hostname ++ (b':' ∷ (print_unsigned s.port ++ (b'-' ∷ print_unsigned pointer_index)))

-- The four points of one name.
unfoldable pub name_points : (Bytes → Bytes) → ℕ → Bytes → List ContinuumItem
unfolding ketama_server_hash
name_points signature host_index name =
    let point : ℕ → ContinuumItem =
      λ x. record { index = host_index; value = ketama_server_hash signature name x } in
    point 0 ∷ point 1 ∷ point 2 ∷ point 3 ∷ []

-- The points of one host: `rounds` names from `pointer_index` on; `none` where a name is too long.
unfoldable pub host_points :
    (Bytes → Bytes) → Distribution → ℕ → Server → ℕ → ℕ → Option (List ContinuumItem)
unfolding sort_host name_points
host_points signature distribution host_index s zero pointer_index = some []
host_points signature distribution host_index s (suc rounds) pointer_index =
    let later = host_points signature distribution host_index s rounds (suc pointer_index) in
    let name = sort_host distribution s pointer_index in
    if leb max_host_sort_length (length name) then none else elim later [
      | none ↦ none
      | some points ↦ some (name_points signature host_index name ++ points)
    ]

abbrev pub is_live : Bool → ℕ → Server → Bool
is_live auto_ejecting now s = not auto_ejecting || leb s.next_retry now

-- The count of the live servers, and the first retry of the others.
unfoldable pub count_live : ℕ → List Server → ℕ × ℕ → ℕ × ℕ
count_live now [] r = r
count_live now (s ∷ rest) (live, rebuild) = count_live now rest (
    if leb s.next_retry now
    then (live + 1, rebuild)
    else (live, if rebuild == 0 || ltb s.next_retry rebuild then s.next_retry else rebuild))

-- The weights of the live servers: their sum, their number, the first, and whether all are the same.
pub record Weights : Type 0 where
  pub total_weight : ℕ
  pub total_server : ℕ
  pub first_weight : ℕ
  pub all_weights_same : Bool

unfoldable pub sum_weights : Bool → ℕ → List Server → Weights → Weights
sum_weights auto_ejecting now [] w = w
sum_weights auto_ejecting now (s ∷ rest) w = sum_weights auto_ejecting now rest (
    if is_live auto_ejecting now s
    then record {
      total_weight = (w.total_weight + s.weight) % 2 ^ 64;
      total_server = w.total_server + 1;
      first_weight = if w.total_server == 0 then s.weight else w.first_weight;
      all_weights_same =
          if w.total_server == 0
          then w.all_weights_same
          else w.all_weights_same && (w.first_weight == s.weight);
    }
    else w)

-- What the loop over the hosts carries.
pub record Points : Type 0 where
  pub items : List ContinuumItem
  pub pointer_counter : ℕ

-- The loop over the hosts. `share s` is `pointer_per_server` of a host. A name that is too long is
-- `none`.
unfoldable pub add_hosts :
    (Bytes → Bytes)
    → Distribution
    → Bool
    → ℕ
    → (Server → ℕ)
    → ℕ
    → List Server
    → Points
    → Option Points
unfolding host_points
add_hosts signature distribution auto_ejecting now share host_index [] p = some p
add_hosts signature distribution auto_ejecting now share host_index (s ∷ rest) p =
    let again = add_hosts signature distribution auto_ejecting now share (suc host_index) rest in
    if is_live auto_ejecting now s
    then elim (host_points signature distribution host_index s (share s / 4) 0) [
      | none ↦ none
      | some points ↦ again (record {
        items = p.items ++ points;
        pointer_counter = (p.pointer_counter + share s) % 2 ^ 32;
      })
    ]
    else again p

-- What `update_continuum` learns from outside of the client.
pub record Environment : Type 0 where
  -- `gettimeofday`; `none` is its failure
  pub now : Option ℕ
  -- whether each allocation succeeds
  pub info_allocated : Bool
  pub continuum_allocated : Bool
  -- the ring of the pool's master, if the client is another member of a pool
  pub pool_master : Option (Option KetamaInfo)

-- The digest, the floor of a host's share of the points over four (floating point in the source), the
-- sort of the C library, and what a read past the servers would find.
pub record Primitives : Type 0 where
  pub signature : Bytes → Bytes
  pub scaled : ℕ → ℕ → ℕ → ℕ
  pub qsort : (ContinuumItem → ContinuumItem → Ordering) → List ContinuumItem → List ContinuumItem
  pub outside : Server

abbrev pub no_weights : Weights
no_weights = record {
  total_weight = 0;
  total_server = 0;
  first_weight = 0;
  all_weights_same = true;
}

-- `pointer_per_server` of a host
unfoldable pub share : Primitives → Bool → Weights → ℕ → Server → ℕ
share c weighted w live s =
    if weighted && not w.all_weights_same
    then c.scaled s.weight w.total_weight live * 4
    else points_per_server

-- The sorted ring of a client.
unfoldable pub make_info : Primitives → Client → Points → KetamaInfo
unfolding continuum_item_cmp
make_info c ptr p = record {
  continuum =
      c.qsort (continuum_item_cmp ptr.servers c.outside) (take p.pointer_counter p.items)
      ++ drop p.pointer_counter p.items;
  continuum_points_counter = p.pointer_counter;
}

-- The live servers, and the client with its time of the next rebuild.
unfoldable pub live_servers : ℕ → Client → ℕ × Client
unfolding count_live
live_servers now ptr =
    if ptr.auto_eject_hosts
    then (let r = count_live now ptr.servers (0, 0) in
        (r.0, record ptr { next_distribution_rebuild = r.1 }))
    else (length ptr.servers, ptr)

-- The rest of `update_continuum`, with servers to put on the ring.
unfoldable pub build : Primitives → Environment → ℕ → ℕ → Client → ReturnCode × Client
build c env now live ptr =
    if not env.info_allocated
    then (memory_allocation_failure, ptr)
    else if not env.continuum_allocated
    then (memory_allocation_failure, ptr)
    else (let w =
          if ptr.weighted
          then sum_weights ptr.auto_eject_hosts now ptr.servers no_weights
          else no_weights in
        elim (add_hosts c.signature ptr.distribution ptr.auto_eject_hosts now
          (share c ptr.weighted w live) 0 ptr.servers
          (record { items = []; pointer_counter = 0 })) [
            | none ↦
                (memory_allocation_failure, record ptr { error = some memory_allocation_failure })
            | some p ↦ (success, record ptr { info = some (make_info c ptr p) })
          ])

-- `update_continuum`
unfoldable pub update_continuum : Primitives → Environment → Client → ReturnCode × Client
update_continuum c env ptr = elim env.pool_master [
  | some master ↦ (success, record ptr { info = master })
  | none ↦ elim env.now [
    | none ↦ (errno, record ptr { error = some errno })
    | some now ↦
        let r = live_servers now ptr in if r.0 == 0 then (success, r.1) else build c env now r.0 r.1
  ]
]

-- The points that `dispatch_host` searches.
abbrev pub ring_of : KetamaInfo → List ContinuumItem
ring_of info = take info.continuum_points_counter info.continuum
