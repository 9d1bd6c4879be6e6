-- ===== src/Sending/Buffer.antt =====
-- The write buffer: what it holds after a flush, and after bytes are placed in it.
use arcus_c_client.Prelude.{
  ℕ, ◌+◌, ◌≤◌, ◌<◌, ◌≡◌, refl, sym, ap, ◌∙◌, true, false, [], ◌++◌, append-nil, append_assoc, ◌==◌,
  length, take, drop, arith, take-append_exact, length-append, length-take, length-drop,
}
use arcus_c_client.Text.{Bytes}
use arcus_c_client.Io.{max_buffer}
use arcus_c_client.Sending.{Link, no_purge, io_flush, should_write}
use arcus_c_client.Sending.Flush.{
  ends, is_quiet, no_purge-quiet, Result, Result-and_then, Result-if, Flushed, flush_loop-Flushed,
}

abbrev pub buffered : Link → Bytes
buffered l = take l.write_buffer_offset l.write_buffer

-- A connection to which `goal` has been written, that takes more.
pub record Ready (goal : Bytes) (l : Link) : Type 0 where
  pub kept : l.sent ++ buffered l ≡ goal
  pub room : l.write_buffer_offset < max_buffer
  pub size : length l.write_buffer ≡ max_buffer
  pub answers : ends l.answers ≡ true
  pub quiet : is_quiet l ≡ true

-- As above, its write buffer perhaps full.
pub record Filled (goal : Bytes) (l : Link) : Type 0 where
  pub kept : l.sent ++ buffered l ≡ goal
  pub size : length l.write_buffer ≡ max_buffer
  pub answers : ends l.answers ≡ true
  pub quiet : is_quiet l ≡ true

pub record Clear (goal : Bytes) (l : Link) : Type 0 where
  pub ready : Ready goal l
  pub sent : l.sent ≡ goal

no_offset : (n : ℕ) → (n == 0) ≡ true → n ≡ 0
no_offset n h = ground arith

nothing_left : (l : Link) → l.write_buffer_offset ≡ 0 → l.sent ++ buffered l ≡ l.sent
nothing_left l h = ap (λ n. l.sent ++ take n l.write_buffer) h ∙ append-nil l.sent

emptied-Clear :
    (goal : Bytes) (l : Link)
    → l.sent ≡ goal
    → l.write_buffer_offset ≡ 0
    → length l.write_buffer ≡ max_buffer
    → ends l.answers ≡ true
    → is_quiet l ≡ true
    → Clear goal l
emptied-Clear goal l h e s a q = record {
  ready = record {
    kept = nothing_left l e ∙ h;
    room = omega (arith, e);
    size = s;
    answers = a;
    quiet = q;
  };
  sent = h;
}

pub io_flush-Clear :
    (goal : Bytes) (l : Link) → Filled goal l → Result (Clear goal) goal (io_flush l)
unfolding io_flush
io_flush-Clear goal l h =
    Result-if (Clear goal) goal (no_purge l) _ _
      (λ i.
        Result-if (Clear goal) goal (l.write_buffer_offset == 0) _ _
          (λ z.
            let e = no_offset l.write_buffer_offset z in
            emptied-Clear goal l (sym (nothing_left l e) ∙ h.kept) e h.size h.answers h.quiet)
          λ z.
            Result-and_then (Flushed goal l.write_buffer) (Clear goal) goal [] goal _ _
              (flush_loop-Flushed l.answers (buffered l) goal l.write_buffer l refl h.answers h.kept
                refl h.quiet)
              (append-nil goal)
              λ l' f.
                emptied-Clear goal _ f.sent refl (ap length f.write_buffer ∙ h.size) f.answers
                  f.quiet)
      λ i. let no : false ≡ true = sym i ∙ no_purge-quiet l h.quiet in cc no

module _ (n : ℕ) (l : Link) (room : l.write_buffer_offset < max_buffer) where
  pub should_write_least : 0 < n → 0 < should_write n l
  unfolding should_write
  should_write_least h = ground arith

  pub should_write_fits : l.write_buffer_offset + should_write n l ≤ max_buffer
  unfolding should_write
  should_write_fits = ground arith

module _ (w bytes : Bytes) (o : ℕ) (fits : o + length bytes ≤ length w) where
  length-before : length (take o w) ≡ o
  length-before = length-take o w ∙ omega (arith, fits)

  length-both : length (take o w ++ bytes) ≡ o + length bytes
  length-both = length-append (take o w) bytes ∙ omega (arith, length-before)

  pub overwritten :
      take (o + length bytes) (take o w ++ (bytes ++ drop (o + length bytes) w)) ≡ take o w ++ bytes
  overwritten =
      ap (take (o + length bytes)) (sym (append_assoc (take o w) bytes _))
      ∙ take-append_exact (take o w ++ bytes) _ (o + length bytes) length-both

  pub length-overwritten : length (take o w ++ (bytes ++ drop (o + length bytes) w)) ≡ length w
  length-overwritten =
      length-append (take o w) _
      ∙ (ap (λ k. length (take o w) + k) (length-append bytes _)
          ∙ omega (arith, length-before, length-drop (o + length bytes) w, fits))
