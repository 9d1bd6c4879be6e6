-- ===== src/Dispatch/Servers.antt =====
-- The server of a key.
use arcus_c_client.Prelude.{ℕ, ◌<◌, arith, ◌≡◌, refl, Bool, true, some, List}
use arcus_c_client.Text.{Bytes}
use arcus_c_client.Server.{Server}
use arcus_c_client.Ring.{Distribution, dispatch_continuum}
use arcus_c_client.Cluster.{is_consistent}
use arcus_c_client.Ketama.Hosts.{live_at, live_count}
use arcus_c_client.Ketama.Live.{IsLiveRing, leads_live}
use arcus_c_client.Dispatch.{Dispatcher, generate_hash_wrapper, dispatch_host, generate_server}

dispatch_host-continuum :
    (ptr : Dispatcher) (d : Distribution) (random hash : ℕ)
    → is_consistent d ≡ true
    → dispatch_host (record ptr { distribution = d }) random hash ≡ dispatch_continuum ptr.ring hash
unfolding dispatch_host
dispatch_host-continuum ptr Distribution.modula random hash h = cc h
dispatch_host-continuum ptr Distribution.consistent random hash h = refl
dispatch_host-continuum ptr Distribution.consistent_ketama random hash h = refl
dispatch_host-continuum ptr Distribution.random random hash h = cc h
dispatch_host-continuum ptr Distribution.consistent_ketama_spy random hash h = refl
dispatch_host-continuum ptr Distribution.virtual_bucket random hash h = cc h
dispatch_host-continuum ptr Distribution.consistent_max random hash h = cc h

-- A client that has a live server, whose ring is in order and has 160 points for each of its live servers and
-- none for any other, and whose distribution is one of those that have a ring, sends every key to a live
-- server.
pub generate_server-live_at :
    (ptr : Dispatcher) (auto_ejecting : Bool) (now : ℕ) (servers : List Server)
    → IsLiveRing auto_ejecting now servers ptr.ring
    → 0 < live_count auto_ejecting now servers
    → is_consistent ptr.distribution ≡ true
    → (random : ℕ) (key : Bytes)
    → (i : ℕ) × (generate_server ptr random key ≡ some i)
      × (live_at auto_ejecting now servers i ≡ true)
unfolding generate_server
generate_server-live_at ptr auto_ejecting now servers ring some_live consistent random key =
    rw
      (dispatch_host-continuum ptr ptr.distribution random (generate_hash_wrapper ptr key)
        consistent)
      (leads_live auto_ejecting now servers ptr.ring ring.sorted ring.on_live
        (omega (arith, ring.size, some_live)) (generate_hash_wrapper ptr key))
