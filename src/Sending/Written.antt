-- ===== src/Sending/Written.antt =====
-- What writing hands to a connection is sent, or held in the write buffer, in order and nothing twice.
use arcus_c_client.Prelude.{
  ℕ, zero, suc, ◌+◌, ◌≤◌, ◌<◌, ◌≡◌, refl, sym, ap, subst, ◌∙◌, Bool, true, false, some, List, [],
  ◌∷◌, ◌++◌, append-nil, append_assoc, ◌==◌, length, take, drop, arith, if◌then◌else◌,
  take-append-drop, length-take, length-drop,
}
use mathlib.Core.List.{flatten}
use arcus_c_client.Text.{Bytes}
use arcus_c_client.Io.{max_buffer}
use arcus_c_client.Sending.{Link, io_flush, stored, should_write, write_loop, io_write, io_writev}
use arcus_c_client.Sending.Flush.{Result, Result-and_then, Result-if, Result-map}
use arcus_c_client.Sending.Buffer.{
  should_write_least, should_write_fits, overwritten, length-overwritten, buffered, Ready, Filled,
  Clear, io_flush-Clear,
}

stored-Filled :
    (goal bytes : Bytes) (l : Link)
    → Ready goal l
    → l.write_buffer_offset + length bytes ≤ max_buffer
    → Filled (goal ++ bytes) (stored bytes l)
unfolding stored
stored-Filled goal bytes l h fits =
    let fits' : l.write_buffer_offset + length bytes ≤ length l.write_buffer =
      omega (arith, fits, h.size) in
    record {
      kept =
          ap (◌++◌ l.sent) (overwritten l.write_buffer bytes l.write_buffer_offset fits')
          ∙ (sym (append_assoc l.sent (buffered l) bytes) ∙ ap (λ x. x ++ bytes) h.kept);
      size = length-overwritten l.write_buffer bytes l.write_buffer_offset fits' ∙ h.size;
      answers = h.answers;
      quiet = h.quiet;
    }

not_full : (o m : ℕ) → o ≤ m → (o == m) ≡ false → o < m
not_full o m h e = ground arith

Ready-Filled :
    (goal : Bytes) (l : Link)
    → Filled goal l
    → l.write_buffer_offset ≤ max_buffer
    → (l.write_buffer_offset == max_buffer) ≡ false
    → Ready goal l
Ready-Filled goal l h fits e = record {
  kept = h.kept;
  room = not_full l.write_buffer_offset max_buffer fits e;
  size = h.size;
  answers = h.answers;
  quiet = h.quiet;
}

stored_fits :
    (bytes : Bytes) (l : Link)
    → l.write_buffer_offset + length bytes ≤ max_buffer
    → (stored bytes l).write_buffer_offset ≤ max_buffer
unfolding stored
stored_fits bytes l h = h

write_loop-Ready :
    (fuel : ℕ) (buffer part goal : Bytes) (l : Link)
    → length buffer ≤ fuel
    → Ready part l
    → part ++ buffer ≡ goal
    → Result (Ready goal) goal (write_loop fuel buffer l)
unfolding write_loop
write_loop-Ready fuel [] part goal l enough h e =
    subst (λ g. Ready g l) (sym (append-nil part) ∙ e) h
write_loop-Ready zero (b ∷ buffer) part goal l enough h e = absurd (omega (arith, enough))
write_loop-Ready (suc fuel) (b ∷ buffer) part goal l enough h e =
    let n = should_write (length (b ∷ buffer)) l in
    let now = take n (b ∷ buffer) in
    let later = drop n (b ∷ buffer) in
    let l' = stored now l in
    let fits : l.write_buffer_offset + length now ≤ max_buffer =
      omega (arith, length-take n (b ∷ buffer), should_write_fits (length (b ∷ buffer)) l h.room) in
    let filled = stored-Filled part now l h fits in
    let left : length later ≤ fuel = omega (
      arith,
      length-drop n (b ∷ buffer),
      enough,
      should_write_least (length (b ∷ buffer)) l h.room (omega arith),
    ) in
    let all : (part ++ now) ++ later ≡ goal =
      append_assoc part now later ∙ (ap (◌++◌ part) (take-append-drop n (b ∷ buffer)) ∙ e) in
    Result-if (Ready goal) goal (l'.write_buffer_offset == max_buffer) _ _
      (λ full.
        Result-and_then (Clear (part ++ now)) (Ready goal) (part ++ now) later goal _ _
          (io_flush-Clear (part ++ now) l' filled) all
          λ l'' c. write_loop-Ready fuel later (part ++ now) goal l'' left c.ready all)
      λ room.
        write_loop-Ready fuel later (part ++ now) goal l' left
          (Ready-Filled _ l' filled (stored_fits now l fits) room) all

pub record Written (with_flush : Bool) (goal : Bytes) (l : Link) : Type 0 where
  pub ready : Ready goal l
  pub sent : with_flush ≡ true → l.sent ≡ goal

Filled-Ready : (goal : Bytes) (l : Link) → Ready goal l → Filled goal l
Filled-Ready goal l h = record {
  kept = h.kept;
  size = h.size;
  answers = h.answers;
  quiet = h.quiet;
}

finished-Written :
    (with_flush : Bool) (goal : Bytes) (l : Link)
    → Ready goal l
    → Result (Written with_flush goal) goal (if with_flush then io_flush l else some (true, l))
finished-Written with_flush goal l h =
    Result-if (Written with_flush goal) goal with_flush _ _
      (λ f.
        Result-map (Clear goal) (Written with_flush goal) goal (io_flush l)
          (io_flush-Clear goal l (Filled-Ready goal l h))
          λ l' c. record { ready = c.ready; sent = λ t. c.sent })
      λ f. record { ready = h; sent = λ t. let no : false ≡ true = sym f ∙ t in cc no }

io_write-Written :
    (buffer : Bytes) (with_flush : Bool) (part goal : Bytes) (l : Link)
    → Ready part l
    → part ++ buffer ≡ goal
    → Result (Written with_flush goal) goal (io_write buffer with_flush l)
unfolding io_write
io_write-Written buffer with_flush part goal l h e =
    Result-and_then (Ready goal) (Written with_flush goal) goal [] goal _ _
      (write_loop-Ready (length buffer) buffer part goal l (omega arith) h e) (append-nil goal)
      (finished-Written with_flush goal)

writev-Written :
    (vector : List Bytes) (with_flush : Bool) (part goal : Bytes) (l : Link)
    → Ready part l
    → part ++ flatten vector ≡ goal
    → Result (Written with_flush goal) goal (io_writev vector with_flush l)
unfolding io_writev flatten
writev-Written [] false part goal l h e =
    finished-Written false goal l (subst (λ g. Ready g l) (sym (append-nil part) ∙ e) h)
writev-Written [] true part goal l h e = io_write-Written [] true part goal l h e
writev-Written (buffer ∷ vector) with_flush part goal l h e =
    let all : (part ++ buffer) ++ flatten vector ≡ goal =
      append_assoc part buffer (flatten vector) ∙ e in
    Result-and_then (Written false (part ++ buffer)) (Written with_flush goal) (part ++ buffer)
      (flatten vector) goal _ _ (io_write-Written buffer false part (part ++ buffer) l h refl) all
      λ l' w. writev-Written vector with_flush (part ++ buffer) goal l' w.ready all

-- Let `written` be what a connection has been sent and then what its write buffer holds; let the buffer be
-- of its size and not full, let the responses need no purge however much is sent, and let send fail
-- sooner or later (`Ready`). Then memcached_io_writev returns, whatever send, recv and poll answer. If it
-- succeeds, what was sent and what the buffer then holds are `written` and the bytes of the vectors, in order,
-- the connection is again ready, and with `with_flush` they are all sent. If it fails, the connection
-- is closed, and what was sent is the beginning of these bytes.
pub io_writev-Written :
    (vector : List Bytes) (with_flush : Bool) (written : Bytes) (l : Link)
    → Ready written l
    → Result
        (Written with_flush (written ++ flatten vector))
        (written ++ flatten vector)
        (io_writev vector with_flush l)
io_writev-Written vector with_flush written l h =
    writev-Written vector with_flush written (written ++ flatten vector) l h refl
