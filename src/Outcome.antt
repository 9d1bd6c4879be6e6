-- ===== src/Outcome.antt =====
-- The tests of a return code, of libmemcached/return.h.
use arcus_c_client.Prelude.{Bool, true, false, not, ◌≡◌, ◌≢◌, refl}
use arcus_c_client.ReturnCode.{ReturnCode}

-- `memcached_success`
unfoldable pub memcached_success : ReturnCode → Bool
memcached_success ReturnCode.buffered = true
memcached_success ReturnCode.deleted = true
memcached_success ReturnCode.end = true
memcached_success ReturnCode.item = true
memcached_success ReturnCode.stat = true
memcached_success ReturnCode.stored = true
memcached_success ReturnCode.success = true
memcached_success ReturnCode.value = true
memcached_success _ = false

-- `memcached_failed`
unfoldable pub memcached_failed : ReturnCode → Bool
memcached_failed ReturnCode.success = false
memcached_failed ReturnCode.end = false
memcached_failed ReturnCode.stored = false
memcached_failed ReturnCode.stat = false
memcached_failed ReturnCode.deleted = false
memcached_failed ReturnCode.buffered = false
memcached_failed ReturnCode.value = false
memcached_failed _ = true

-- `memcached_fatal`
unfoldable pub memcached_fatal : ReturnCode → Bool
memcached_fatal ReturnCode.success = false
memcached_fatal ReturnCode.end = false
memcached_fatal ReturnCode.stored = false
memcached_fatal ReturnCode.stat = false
memcached_fatal ReturnCode.deleted = false
memcached_fatal ReturnCode.buffered = false
memcached_fatal ReturnCode.value = false
memcached_fatal _ = true

-- `memcached_continue`
unfoldable pub memcached_continue : ReturnCode → Bool
memcached_continue ReturnCode.in_progress = true
memcached_continue _ = false

-- `rc == MEMCACHED_SUCCESS`
unfoldable pub is_success : ReturnCode → Bool
is_success ReturnCode.success = true
is_success _ = false

-- A code fails exactly if it does not succeed, but for MEMCACHED_ITEM.
pub memcached_failed-memcached_success :
    (rc : ReturnCode) → rc ≢ ReturnCode.item → memcached_failed rc ≡ not (memcached_success rc)
unfolding memcached_failed memcached_success
memcached_failed-memcached_success ReturnCode.item h = absurd (h refl)
memcached_failed-memcached_success _ h = refl

-- MEMCACHED_ITEM succeeds and fails.
pub item_is_both :
    (memcached_success ReturnCode.item ≡ true) × (memcached_failed ReturnCode.item ≡ true)
unfolding memcached_failed memcached_success
item_is_both = (refl, refl)
