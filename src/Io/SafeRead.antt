-- ===== src/Io/SafeRead.antt =====
-- memcached_safe_read where the bytes arrive without a wait in vain.
use arcus_c_client.Prelude.{
  ℕ, zero, suc, ◌-◌, ◌≤◌, ◌<◌, ◌≡◌, refl, sym, ap, ◌∙◌, true, false, some, length, length-take,
  take, drop, take-length, arith,
}
use arcus_c_client.ReturnCode.{success, in_progress}
use arcus_c_client.Outcome.{memcached_continue, memcached_failed}
use arcus_c_client.Text.{Bytes}
use arcus_c_client.Io.{Channel, io_read, retry_loop, safe_loop, safe_read}
use arcus_c_client.Io.Stream.{pending, IsReady}
use arcus_c_client.Io.Reads.{io_read-Reads}

-- An attempt that reads all gives the result of the whole.
pub safe_read-first :
    (size : ℕ) (bytes : Bytes) (c c' : Channel)
    → 0 < size
    → length bytes ≡ size
    → retry_loop (suc (length c.incoming)) size c
      ≡ some (record { code = success; stored = bytes; complete = true; channel = c' })
    → safe_read size c ≡ some (success, bytes, c')
unfolding safe_read
safe_read-first zero bytes c c' p h e = absurd (omega arith)
safe_read-first (suc r) bytes c c' p h e =
    let all : take (suc r) bytes ≡ bytes = ap (λ n. take n bytes) (sym h) ∙ take-length bytes in
    let done : suc r - suc r ≡ 0 = omega arith in
    rw (safe_loop, e, memcached_failed, done, all) refl

-- An attempt that succeeds is the last.
retry_loop-first :
    (rounds size : ℕ) (bytes : Bytes) (c c' : Channel)
    → io_read size c
      ≡ some (record { code = success; stored = bytes; complete = true; channel = c' })
    → retry_loop (suc rounds) size c
      ≡ some (record { code = success; stored = bytes; complete = true; channel = c' })
unfolding retry_loop
retry_loop-first rounds size bytes c c' e = rw (e, retry_loop, memcached_continue) refl

-- The attempt before it waited in vain.
pub retry_loop-second :
    (rounds size : ℕ) (lost bytes : Bytes) (c c' c'' : Channel)
    → io_read size c
      ≡ some (record { code = in_progress; stored = lost; complete = false; channel = c' })
    → io_read size c'
      ≡ some (record { code = success; stored = bytes; complete = true; channel = c'' })
    → retry_loop (suc (suc rounds)) size c
      ≡ some (record { code = success; stored = bytes; complete = true; channel = c'' })
unfolding retry_loop
retry_loop-second rounds size lost bytes c c' c'' e h =
    rw (e, retry_loop, memcached_continue) (rw (h, retry_loop, memcached_continue) refl)

-- If at least `size` bytes are still to come on a connection that is ready, memcached_safe_read
-- returns success and exactly the next `size` of them, and leaves the rest to be read, however
-- recv cuts them up, is interrupted or lets the source wait for it with success.
pub safe_read-pending :
    (size : ℕ) (c : Channel)
    → IsReady c
    → size ≤ length (pending c)
    → (c' : Channel) × (safe_read size c ≡ some (success, take size (pending c), c'))
      × (pending c' ≡ drop size (pending c))
      × IsReady c'
unfolding safe_read
safe_read-pending zero c v h = (c, refl, refl, v)
safe_read-pending (suc r) c v h =
    let got = io_read-Reads (suc r) c v h in
    let bytes = take (suc r) (pending c) in
    (
      got.left,
      safe_read-first (suc r) bytes c got.left (omega arith)
          (omega (arith, length-take (suc r) (pending c)))
          (retry_loop-first (length c.incoming) (suc r) bytes c got.left got.returns),
      got.rest,
      got.ready,
    )
