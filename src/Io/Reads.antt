-- ===== src/Io/Reads.antt =====
-- memcached_io_read against the stream of bytes.
use arcus_c_client.Prelude.{
  ℕ, zero, suc, ◌+◌, ◌-◌, ◌≤◌, ◌<◌, ◌==◌, ◌≡◌, refl, sym, ap, ◌∙◌, inl, inr, true, Option, some, [],
  ◌++◌, append-nil, append_assoc, length, length-drop, take, drop, take-add, drop-drop, Bool-cases,
  arith,
}
use arcus_c_client.ReturnCode.{success}
use arcus_c_client.Outcome.{is_success}
use arcus_c_client.Text.{Bytes}
use arcus_c_client.Io.{Channel, Read, copied, difference, read_loop, io_read}
use arcus_c_client.Io.Stream.{pending, IsReady, io_fill-Refilled, copied_lem}

-- The call returned success with the next `n` bytes after `out`, and the rest is still to be read.
pub record Reads (n : ℕ) (out : Bytes) (c : Channel) (result : Option Read) : Type 0 where
  pub left : Channel
  pub returns :
      result
      ≡ some (record {
        code = success;
        stored = out ++ take n (pending c);
        complete = true;
        channel = left;
      })
  pub rest : pending left ≡ drop n (pending c)
  pub ready : IsReady left

-- What a round of the loop takes is a positive part of what remains and of what the buffer holds.
pub difference_bounds :
    (remains : ℕ) (c : Channel)
    → 0 < remains
    → 0 < c.read_buffer_length
    → (0 < difference remains c)
      × (difference remains c ≤ remains)
      × (difference remains c ≤ c.read_buffer_length)
unfolding difference
difference_bounds remains c h k = ground arith

-- A round on a buffer that holds something, given the rounds after it.
round-Reads :
    (fuel r : ℕ) (out : Bytes) (c : Channel)
    → IsReady c
    → 0 < c.read_buffer_length
    → let n = difference (suc r) c in
      let (bytes, c') = copied n c in
      Reads (suc r - n) (out ++ bytes) c' (read_loop fuel (suc r - n) (out ++ bytes) c')
      → Reads (suc r) out c (read_loop fuel (suc r - n) (out ++ bytes) c')
round-Reads fuel r out c v held later =
    let n = difference (suc r) c in
    let bounds = difference_bounds (suc r) c (omega arith) held in
    let step = copied_lem n c v bounds.2 in
    let size : n + (suc r - n) ≡ suc r = omega (arith, bounds.1) in
    record {
      left = later.left;
      returns =
          later.returns
          ∙ ap
              (λ l.
                some (record { code = success; stored = l; complete = true; channel = later.left }))
              (rw (step.bytes, step.rest)
                (append_assoc out (take n (pending c)) (take (suc r - n) (drop n (pending c)))
                  ∙ ap (λ l. out ++ l)
                      (sym (take-add n (suc r - n) (pending c))
                        ∙ ap (λ k. take k (pending c)) size)));
      rest =
          later.rest
          ∙ ap (drop (suc r - n)) step.rest
          ∙ drop-drop (suc r - n) n (pending c)
          ∙ ap (λ k. drop k (pending c)) size;
      ready = later.ready;
    }

transport :
    {n : ℕ} {out : Bytes} {c c' : Channel} {result : Option Read}
    → pending c' ≡ pending c
    → Reads n out c' result
    → Reads n out c result
transport {n} {out} same r = record {
  left = r.left;
  returns =
      r.returns
      ∙ ap
          (λ l. some (record {
            code = success;
            stored = out ++ take n l;
            complete = true;
            channel = r.left;
          }))
          same;
  rest = r.rest ∙ ap (drop n) same;
  ready = r.ready;
}

read_loop-Reads :
    (fuel remains : ℕ) (out : Bytes) (c : Channel)
    → IsReady c
    → remains ≤ fuel
    → remains ≤ length (pending c)
    → Reads remains out c (read_loop fuel remains out c)
unfolding read_loop
read_loop-Reads fuel zero out c v f h = record {
  left = c;
  returns = rw append-nil refl;
  rest = refl;
  ready = v;
}
read_loop-Reads zero (suc r) out c v f h = absurd (omega arith)
read_loop-Reads (suc fuel) (suc r) out c v f h =
    let later =
      λ (c' : Channel) (w : IsReady c') (held : 0 < c'.read_buffer_length)
          (enough : suc r ≤ length (pending c')).
        let n = difference (suc r) c' in
        let (bytes, c'') = copied n c' in
        let bounds = difference_bounds (suc r) c' (omega arith) held in
        let step = copied_lem n c' w bounds.2 in
        round-Reads fuel r out c' w held (
          read_loop-Reads fuel (suc r - n) (out ++ bytes) c'' step.ready (omega (arith, bounds))
            (omega (arith, bounds, ap length step.rest, length-drop n (pending c')))) in
    elim (Bool-cases (c.read_buffer_length == 0)) [
      | inl empty ↦
          let (c', t) = io_fill-Refilled c v (ground arith) (omega arith) in
          rw (empty, t.returns, is_success)
            (transport t.same_stream
              (later c' t.ready t.some_bytes (omega (arith, ap length t.same_stream))))
      | inr held ↦ rw held (later c v (ground arith) h)
    ]

-- However recv cuts up the bytes and however often it is interrupted or has to wait, if at least
-- `size` bytes are still to come on a connection that is ready, memcached_io_read returns success
-- with exactly the next `size` of them, all reads and writes of the read buffer being within it.
pub io_read-Reads :
    (size : ℕ) (c : Channel)
    → IsReady c
    → size ≤ length (pending c)
    → Reads size [] c (io_read size c)
unfolding io_read
io_read-Reads size c v h = simp v.opened (read_loop-Reads size size [] c v (omega arith) h)
