-- ===== src/Io/Loss.antt =====
-- memcached_safe_read where a wait in vain falls between two pieces of what it reads.
use arcus_c_client.Prelude.{
  ℕ, zero, suc, ◌-◌, ◌≤◌, ◌<◌, ◌==◌, ◌≡◌, refl, sym, ap, subst, ◌∙◌, inl, inr, true, false,
  Bool-cases, inl, inr, some, List, ◌∷◌, ◌++◌, length, length-append, length-drop, length-take,
  take, drop, take-length, take-append_le, arith,
}
use arcus_c_client.ReturnCode.{success, in_progress, timeout}
use arcus_c_client.Outcome.{memcached_success, is_success}
use arcus_c_client.Text.{Bytes}
use arcus_c_client.Io.{
  Poll, Recv, Channel, poll_loop, io_wait, filled, fill_loop, io_fill, copied, difference,
  read_loop, io_read, retry_loop, safe_read,
}
use arcus_c_client.Io.Stream.{arrivals, pending, Delivers, IsReady}
use arcus_c_client.Io.Reads.{io_read-Reads}
use arcus_c_client.Io.SafeRead.{safe_read-first, retry_loop-second}

module _ (polls : ℕ → Poll) (more : List Recv) (late : polls 0 ≡ Poll.timed_out) where
  io_wait_late : (c : Channel) → io_wait polls c ≡ (timeout, c)
  unfolding io_wait
  io_wait_late c = elim (Bool-cases (c.poll_timeout == 0)) [
    | inl e ↦ rw e refl
    | inr e ↦ rw (e, late, poll_loop) refl
  ]

  io_fill_late :
      (c : Channel)
      → c.incoming ≡ Recv.would_block polls ∷ more
      → io_fill c ≡ some (in_progress, record c { incoming = more })
  unfolding io_fill
  io_fill_late c next =
      ap (λ l. fill_loop l c) next ∙ rw (io_wait_late c, fill_loop, memcached_success) refl

  -- With an empty buffer nothing more is read.
  read_loop_late :
      (fuel remains : ℕ) (out : Bytes) (c : Channel)
      → 0 < remains
      → remains ≤ fuel
      → c.read_buffer_length ≡ 0
      → c.incoming ≡ Recv.would_block polls ∷ more
      → read_loop fuel remains out c
        ≡ some (record {
          code = in_progress;
          stored = out;
          complete = false;
          channel = record c { incoming = more };
        })
  unfolding read_loop
  read_loop_late fuel zero out c p f empty next = absurd (omega arith)
  read_loop_late zero (suc r) out c p f empty next = absurd (omega arith)
  read_loop_late (suc fuel) (suc r) out c p f empty next =
      let test : (c.read_buffer_length == 0) ≡ true = ground arith in
      simp (test, io_fill_late c next, is_success) refl

  module _ (b : ℕ) (chunk : Bytes) (c : Channel) (empty : c.read_buffer_length ≡ 0)
      (next : c.incoming ≡ Recv.received (b ∷ chunk) ∷ Recv.would_block polls ∷ more) where
    abbrev one_piece : Channel
    one_piece = filled (b ∷ chunk) (Recv.would_block polls ∷ more) c

    abbrev used_up : Channel
    used_up = (copied (length (b ∷ chunk)) one_piece).1

    io_fill_piece : io_fill c ≡ some (success, one_piece)
    unfolding io_fill filled
    io_fill_piece = ap (λ l. fill_loop l c) next

    -- One piece comes and then a wait in vain: the call gives up with the piece in the buffer.
    io_read_piece :
        (size : ℕ)
        → c.is_open ≡ true
        → length (b ∷ chunk) < size
        → io_read size c
          ≡ some (record {
            code = in_progress;
            stored = b ∷ chunk;
            complete = false;
            channel = record used_up { incoming = more };
          })
    unfolding io_read filled copied difference
    io_read_piece zero opened short = absurd (omega arith)
    io_read_piece (suc r) opened short =
        let test : (c.read_buffer_length == 0) ≡ true = ground arith in
        let part : difference (suc r) one_piece ≡ length (b ∷ chunk) = ground arith in
        let piece : take (length (b ∷ chunk))
              ((b ∷ chunk) ++ drop (length (b ∷ chunk)) c.read_buffer)
            ≡ b ∷ chunk =
          take-append_le (length (b ∷ chunk)) (b ∷ chunk) (drop (length (b ∷ chunk)) c.read_buffer)
            (omega arith)
          ∙ take-length (b ∷ chunk) in
        simp (opened, read_loop, test, io_fill_piece, is_success, part, piece)
          (read_loop_late r (suc r - length (b ∷ chunk)) (b ∷ chunk)
            (record used_up { is_open = true }) (omega arith) (omega arith) (omega arith) refl)

    after-IsReady : IsReady c → IsReady (record used_up { incoming = more })
    unfolding copied filled
    after-IsReady v =
        let delivery : Delivers (Recv.received (b ∷ chunk) ∷ Recv.would_block polls ∷ more) =
          subst Delivers next v.delivery in
        record {
          opened = v.opened;
          waits = v.waits;
          room = omega (
            arith,
            v.room,
            delivery.0,
            length-append (b ∷ chunk) (drop (length (b ∷ chunk)) c.read_buffer),
            length-drop (length (b ∷ chunk)) c.read_buffer,
          );
          window = omega (arith, delivery.0);
          delivery = delivery.1;
        }

    -- If a piece of the answer arrives at an empty buffer, shorter than what memcached_safe_read is
    -- to read, and the wait for the rest then times out, the piece is lost: the call starts over at
    -- the beginning of its buffer and returns success with the first `size` of the bytes that come
    -- after the piece, once there are so many.
    pub safe_read_loses :
        (size : ℕ)
        → IsReady c
        → length (b ∷ chunk) < size
        → size ≤ length (arrivals more)
        → (c' : Channel) × (safe_read size c ≡ some (success, take size (arrivals more), c'))
          × (pending c' ≡ drop size (arrivals more))
    unfolding copied filled
    safe_read_loses size v short enough =
        let after = record used_up { incoming = more } in
        let held : after.read_buffer_length ≡ 0 = omega arith in
        let left : pending after ≡ arrivals more =
          ap (λ n. take n (drop after.read_ptr after.read_buffer) ++ arrivals more) held in
        let again = io_read-Reads size after (after-IsReady v) (omega (arith, ap length left)) in
        let bytes : take size (pending after) ≡ take size (arrivals more) = ap (take size) left in
        let attempts =
          retry_loop-second (suc (length more)) size (b ∷ chunk) (take size (pending after)) c after
            again.left (io_read_piece size v.opened short) again.returns in
        (
          again.left,
          safe_read-first size (take size (pending after)) c again.left (omega arith)
                (omega (arith, length-take size (pending after), ap length left))
                (subst
                  (λ n.
                    retry_loop (suc n) size c
                    ≡ some (record {
                      code = success;
                      stored = take size (pending after);
                      complete = true;
                      channel = again.left;
                    }))
                  (sym (ap length next)) attempts)
              ∙ ap (λ l. some (success, l, again.left)) bytes,
          again.rest ∙ ap (drop size) left,
        )
