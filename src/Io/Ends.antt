-- ===== src/Io/Ends.antt =====
-- When reading returns.
use arcus_c_client.Prelude.{
  ℕ, zero, suc, ◌-◌, ◌≤◌, ◌<◌, ◌==◌, ◌≡◌, refl, ◌⊎◌, true, false, Bool-cases, inl, inr, Option,
  some, List, [], ◌∷◌, ◌++◌, length, take, arith,
}
use arcus_c_client.ReturnCode.{ReturnCode, success, in_progress, connection_failure, errno}
use arcus_c_client.Outcome.{memcached_success, is_success, memcached_continue, memcached_failed}
use arcus_c_client.Text.{Bytes}
use arcus_c_client.Io.{
  Recv, Channel, Read, io_wait, filled, fill_loop, io_fill, copied, difference, read_loop, io_read,
  retry_loop, safe_loop, safe_read,
}
use arcus_c_client.Io.Reads.{difference_bounds}

-- The end of the stream or a broken connection comes sooner or later.
abbrev pub Ends : List Recv → Type 0
Ends [] = ⊥
Ends (Recv.received [] ∷ more) = Unit {0}
Ends (Recv.received (b ∷ chunk) ∷ more) = Ends more
Ends (Recv.interrupted ∷ more) = Ends more
Ends (Recv.would_block polls ∷ more) = Ends more
Ends (Recv.broken ∷ more) = Unit {0}

-- A code that ends an attempt for good.
record IsFinal (rc : ReturnCode) : Type 0 where
  failed : memcached_failed rc ≡ true
  not_success : is_success rc ≡ false
  not_continue : memcached_continue rc ≡ false

-- Bytes in the buffer; a wait in vain; or a failure.
abbrev Filled : List Recv → Option (ReturnCode × Channel) → Type 0
Filled script result =
    ((c : Channel) × (result ≡ some (success, c))
      × (0 < c.read_buffer_length)
      × Ends c.incoming
      × (length c.incoming ≤ length script))
    ⊎ ((c : Channel) × (result ≡ some (in_progress, c))
        × Ends c.incoming
        × (length c.incoming < length script))
    ⊎ ((rc : ReturnCode) × (c : Channel) × (result ≡ some (rc, c)) × IsFinal rc)

Filled-later :
    (r : Recv) (more : List Recv) {result : Option (ReturnCode × Channel)}
    → Filled more result
    → Filled (r ∷ more) result
Filled-later r more (inl (c, e, b, s, l)) = inl (c, e, b, s, omega arith)
Filled-later r more (inr (inl (c, e, s, l))) = inr (inl (c, e, s, omega arith))
Filled-later r more (inr (inr f)) = inr (inr f)

fill_loop-Filled :
    (script : List Recv) (c : Channel) → Ends script → Filled script (fill_loop script c)
unfolding fill_loop memcached_failed is_success memcached_continue
fill_loop-Filled [] c h = absurd h
fill_loop-Filled (Recv.received [] ∷ more) c h = inr (
    inr (
      connection_failure,
      _,
      refl,
      record { failed = refl; not_success = refl; not_continue = refl },
    ))
fill_loop-Filled (Recv.received (b ∷ chunk) ∷ more) c h =
    inl (filled (b ∷ chunk) more c, refl, omega arith, h, omega arith)
fill_loop-Filled (Recv.interrupted ∷ more) c h =
    Filled-later Recv.interrupted more (fill_loop-Filled more c h)
fill_loop-Filled (Recv.would_block polls ∷ more) c h =
    elim (Bool-cases (memcached_success (io_wait polls c).0)) [
      | inl e ↦
          rw e (
            Filled-later (Recv.would_block polls) more
              (fill_loop-Filled more (io_wait polls c).1 h))
      | inr e ↦ rw e (inr (inl (_, refl, h, omega arith)))
    ]
fill_loop-Filled (Recv.broken ∷ more) c h =
    inr (inr (errno, _, refl, record { failed = refl; not_success = refl; not_continue = refl }))

-- The same of an attempt to read.
abbrev Attempted : ℕ → Option Read → Type 0
Attempted n result =
    ((c : Channel) × (out : Bytes) × (result
        ≡ some (record { code = success; stored = out; complete = true; channel = c }))
      × Ends c.incoming)
    ⊎ ((c : Channel) × (out : Bytes) × (result
          ≡ some (record { code = in_progress; stored = out; complete = false; channel = c }))
        × Ends c.incoming
        × (length c.incoming < n))
    ⊎ ((rc : ReturnCode) × (c : Channel) × (out : Bytes) × (result
          ≡ some (record { code = rc; stored = out; complete = false; channel = c }))
        × IsFinal rc)

read_loop-Attempted :
    (fuel remains n : ℕ) (out : Bytes) (c : Channel)
    → remains ≤ fuel
    → Ends c.incoming
    → length c.incoming ≤ n
    → Attempted n (read_loop fuel remains out c)
unfolding read_loop copied io_fill
read_loop-Attempted fuel zero n out c f h l = inl (c, out, refl, h)
read_loop-Attempted zero (suc r) n out c f h l = absurd (omega arith)
read_loop-Attempted (suc fuel) (suc r) n out c f h l =
    let go =
      λ (c' : Channel) (held : 0 < c'.read_buffer_length) (e : Ends c'.incoming)
          (m : length c'.incoming ≤ n).
        let d = difference (suc r) c' in
        let step = copied d c' in
        read_loop-Attempted fuel (suc r - d) n (out ++ step.0) step.1
          (omega (arith, difference_bounds (suc r) c' (omega arith) held)) e m in
    elim (Bool-cases (c.read_buffer_length == 0)) [
      | inl empty ↦ elim (fill_loop-Filled c.incoming c h) [
        | inl (c', e, held, s, k) ↦ rw (empty, e, is_success) (go c' held s (omega arith))
        | inr (inl (c', e, s, k)) ↦
            rw (empty, e, is_success) (inr (inl (c', out, refl, s, omega arith)))
        | inr (inr (rc, c', e, final)) ↦
            rw (empty, e, final.not_success) (inr (inr (rc, c', out, refl, final)))
      ]
      | inr held ↦ rw held (go c (ground arith) h l)
    ]

io_read-Attempted :
    (size : ℕ) (c : Channel) → Ends c.incoming → Attempted (length c.incoming) (io_read size c)
unfolding io_read memcached_failed is_success memcached_continue
io_read-Attempted size c h = elim (Bool-cases c.is_open) [
  | inl e ↦
      simp e (read_loop-Attempted size size (length c.incoming) [] c (omega arith) h (omega arith))
  | inr e ↦ simp e (
      inr (
        inr (
          connection_failure,
          c,
          [],
          refl,
          record { failed = refl; not_success = refl; not_continue = refl },
        )))
]

-- The retries of an attempt return, with all the bytes or with a failure.
abbrev Retried : Option Read → Type 0
Retried result =
    ((c : Channel) × (out : Bytes) × (result
        ≡ some (record { code = success; stored = out; complete = true; channel = c })))
    ⊎ ((rc : ReturnCode) × (c : Channel) × (out : Bytes) × (result
          ≡ some (record { code = rc; stored = out; complete = false; channel = c }))
        × IsFinal rc)

retry_loop-Retried :
    (rounds size : ℕ) (c : Channel)
    → Ends c.incoming
    → length c.incoming < rounds
    → Retried (retry_loop rounds size c)
unfolding retry_loop memcached_continue
retry_loop-Retried zero size c h l = absurd (omega arith)
retry_loop-Retried (suc rounds) size c h l = elim (io_read-Attempted size c h) [
  | inl (c', out, e, s) ↦ rw (e, retry_loop) (inl (c', out, refl))
  | inr (inl (c', out, e, s, k)) ↦
      rw (e, retry_loop) (retry_loop-Retried rounds size c' s (omega arith))
  | inr (inr (rc, c', out, e, final)) ↦
      rw (e, retry_loop, final.not_continue) (inr (rc, c', out, refl, final))
]

-- If the connection ends sooner or later, memcached_safe_read returns, whatever the size asked
-- for, the state of the connection and the number of waits in vain before that: its result is
-- success or a code that memcached_failed holds of and that is not MEMCACHED_IN_PROGRESS.
pub safe_read-Ends :
    (size : ℕ) (c : Channel)
    → Ends c.incoming
    → (rc : ReturnCode) × (bytes : Bytes) × (c' : Channel) × (safe_read size c
        ≡ some (rc, bytes, c'))
      × ((rc ≡ success) ⊎ ((memcached_failed rc ≡ true) × (memcached_continue rc ≡ false)))
unfolding safe_read memcached_failed
safe_read-Ends zero c h = (success, [], c, refl, inl refl)
safe_read-Ends (suc r) c h =
    elim (retry_loop-Retried (suc (length c.incoming)) (suc r) c h (omega arith)) [
      | inl (c', out, e) ↦
          let done : suc r - suc r ≡ 0 = omega arith in
          (success, take (suc r) out, c', rw (e, safe_loop, done) refl, inl refl)
      | inr (rc, c', out, e, final) ↦ (
        rc,
        out,
        c',
        rw (e, safe_loop, final.failed) refl,
        inr (final.failed, final.not_continue),
      )
    ]
