-- ===== src/Ring.antt =====
-- The hash ring (ketama continuum) and the choice of a server for a hash: libmemcached/hash.cc.
pub mod Search
use arcus_c_client.Prelude.{
  ℕ, zero, suc, ◌+◌, ◌-◌, ◌/◌, ◌%◌, ◌<◌, Bool, true, false, Option, none, some, List, [], ◌∷◌, ltb,
  ◌==◌, if◌then◌else◌, length, get_elem?, bit_and, ◌^◌,
}

-- `memcached_continuum_item_st`: a point of the ring and the host that it belongs to.
pub record ContinuumItem : Type 0 where
  pub index : ℕ
  pub value : ℕ

-- `memcached_server_distribution_t`
pub data Distribution : Type 0 where
  modula : Distribution
  consistent : Distribution
  consistent_ketama : Distribution
  random : Distribution
  consistent_ketama_spy : Distribution
  virtual_bucket : Distribution
  consistent_max : Distribution

-- The `while (left < right)` loop, over offsets into the continuum. A read outside of the
-- continuum and the end of the fuel are `none`.
unfoldable pub lower_bound : ℕ → List ContinuumItem → ℕ → ℕ → ℕ → Option ℕ
lower_bound zero c hash left right = none
lower_bound (suc fuel) c hash left right =
    let middle = left + (right - left) / 2 in
    let go_right = lower_bound fuel c hash (middle + 1) right in
    let go_left = lower_bound fuel c hash left middle in
    if ltb left right
    then elim (get_elem? c middle) [
      | none ↦ none
      | some item ↦ if ltb item.value hash then go_right else go_left
    ]
    else some right

-- `while (right > begin && (right-1)->value == hash) right= right-1;`
unfoldable pub step_back : List ContinuumItem → ℕ → ℕ → Option ℕ
step_back c hash zero = some 0
step_back c hash (suc right) = elim (get_elem? c right) [
  | none ↦ none
  | some item ↦ if item.value == hash then step_back c hash right else some (suc right)
]

abbrev index_at : List ContinuumItem → Option ℕ → Option ℕ
index_at c none = none
index_at c (some right) = elim (get_elem? c right) [ none ↦ none | some item ↦ some item.index ]

abbrev wrap_end : List ContinuumItem → ℕ → Option ℕ → Option ℕ
wrap_end c hash none = none
wrap_end c hash (some right) = step_back c hash (if right == length c then 0 else right)

-- The consistent branch of `dispatch_host`. `length c + 1` rounds are enough for the search.
unfoldable pub dispatch_continuum : List ContinuumItem → ℕ → Option ℕ
dispatch_continuum c hash =
    index_at c (wrap_end c hash (lower_bound (suc (length c)) c hash 0 (length c)))
