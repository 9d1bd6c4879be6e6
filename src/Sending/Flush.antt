-- ===== src/Sending/Flush.antt =====
-- The loop of `io_flush` sends what it is given, whatever the socket answers, or closes the connection.
use arcus_c_client.Prelude.{
  ℕ, ◌≡◌, refl, sym, ap, ◌∙◌, Bool, true, false, ◌&&◌, ◌||◌, Option, none, some, List, [], ◌∷◌,
  ◌++◌, append-nil, append_assoc, ltb, leb, take, drop, arith, if◌then◌else◌, take-append-drop,
}
use arcus_c_client.Outcome.{memcached_success}
use arcus_c_client.Text.{Bytes}
use arcus_c_client.Io.{quit}
use arcus_c_client.Sending.{
  Send, Link, no_purge, quit_link, repack_input_buffer, took, flush_loop, and_then,
}

-- The script goes on until send fails, as it does in the end, so that no call outlives it.
abbrev pub ends : List Send → Bool
ends [] = false
ends (Send.broken ∷ more) = true
ends (Send.taken n ∷ more) = ends more
ends (Send.no_buffers ∷ more) = ends more
ends (Send.would_block chunk polls ∷ more) = ends more

-- The responses do not have to be purged, however much is sent.
abbrev pub is_quiet : Link → Bool
is_quiet l =
    l.is_purging
    || (l.multi_store || (ltb l.response_count l.io_msg_watermark && ltb l.response_count 2))

-- The result of a call that is to bring out the bytes of `goal`, of which the connection that is closed
-- upon a failure has had a part.
abbrev pub Result : (Link → Type 0) → Bytes → Option (Bool × Link) → Type 0
Result P goal none = ⊥
Result P goal (some (false, l)) =
    (l.channel.is_open ≡ false) × ((unsent : Bytes) × l.sent ++ unsent ≡ goal)
Result P goal (some (true, l)) = P l

pub Result-and_then :
    (P Q : Link → Type 0) (part rest goal : Bytes) (r : Option (Bool × Link))
    (f : Link → Option (Bool × Link))
    → Result P part r
    → part ++ rest ≡ goal
    → ((l : Link) → P l → Result Q goal (f l))
    → Result Q goal (and_then r f)
Result-and_then P Q part rest goal none f h e k = h
Result-and_then P Q part rest goal (some (false, l)) f (c, (unsent, h)) e k =
    (c, (unsent ++ rest, sym (append_assoc l.sent unsent rest) ∙ (ap (λ x. x ++ rest) h ∙ e)))
Result-and_then P Q part rest goal (some (true, l)) f h e k = k l h

pub Result-map :
    (P Q : Link → Type 0) (goal : Bytes) (r : Option (Bool × Link))
    → Result P goal r
    → ((l : Link) → P l → Q l)
    → Result Q goal r
Result-map P Q goal none h k = h
Result-map P Q goal (some (false, l)) h k = h
Result-map P Q goal (some (true, l)) h k = k l h

pub Result-if :
    (P : Link → Type 0) (goal : Bytes) (b : Bool) (x y : Option (Bool × Link))
    → (b ≡ true → Result P goal x)
    → (b ≡ false → Result P goal y)
    → Result P goal (if b then x else y)
Result-if P goal true x y h k = h refl
Result-if P goal false x y h k = k refl

-- The test of `memcached_purge`, of its five comparisons.
either_side :
    (p m few less more single : Bool)
    → p || (m || (few && single)) ≡ true
    → (less ≡ false → more ≡ true)
    → p || (m || (few && less || more && single)) ≡ true
either_side true m few less more single h k = refl
either_side false true few less more single h k = refl
either_side false false true true more true h k = refl
either_side false false true false more true h k = rw (k refl)
either_side false false true less more false h k = cc
either_side false false false less more single h k = cc

not-ltb : (a b : ℕ) → ltb a b ≡ false → leb b a ≡ true
not-ltb a b h = ground arith

pub no_purge-quiet : (l : Link) → is_quiet l ≡ true → no_purge l ≡ true
unfolding no_purge
no_purge-quiet l h =
    either_side l.is_purging l.multi_store _ _ _ _ h
      (not-ltb l.channel.io_bytes_sent l.io_bytes_watermark)

pub record Flushed (goal w : Bytes) (l : Link) : Type 0 where
  pub sent : l.sent ≡ goal
  pub answers : ends l.answers ≡ true
  pub write_buffer : l.write_buffer ≡ w
  pub quiet : is_quiet l ≡ true

pub flush_loop-Flushed :
    (script : List Send) (rest goal w : Bytes) (l : Link)
    → l.answers ≡ script
    → ends script ≡ true
    → l.sent ++ rest ≡ goal
    → l.write_buffer ≡ w
    → is_quiet l ≡ true
    → Result (Flushed goal w) goal (flush_loop script rest l)
unfolding flush_loop quit_link took quit
flush_loop-Flushed [] rest goal w l a e s b q = cc
flush_loop-Flushed (c ∷ more) [] goal w l a e s b q = record {
  sent = sym (append-nil l.sent) ∙ s;
  answers = ap ends a ∙ e;
  write_buffer = b;
  quiet = q;
}
flush_loop-Flushed (Send.taken n ∷ more) (x ∷ rest) goal w l a e s b q =
    flush_loop-Flushed more (drop n (x ∷ rest)) goal w _ refl e
      (append_assoc l.sent (take n (x ∷ rest)) (drop n (x ∷ rest))
        ∙ (ap (◌++◌ l.sent) (take-append-drop n (x ∷ rest)) ∙ s))
      b q
flush_loop-Flushed (Send.no_buffers ∷ more) (x ∷ rest) goal w l a e s b q =
    flush_loop-Flushed more (x ∷ rest) goal w _ refl e s b q
flush_loop-Flushed (Send.would_block chunk polls ∷ more) (x ∷ rest) goal w l a e s b q =
    Result-if (Flushed goal w) goal ((repack_input_buffer chunk l.channel).0) _ _
      (λ h. flush_loop-Flushed more (x ∷ rest) goal w _ refl e s b q)
      λ h.
        Result-if (Flushed goal w) goal (no_purge _) _ _
          (λ k.
            Result-if (Flushed goal w) goal (memcached_success _) _ _
              (λ i. flush_loop-Flushed more (x ∷ rest) goal w _ refl e s b q)
              λ i. (refl, (x ∷ rest, s)))
          λ k. let no : false ≡ true = sym k ∙ no_purge-quiet _ q in cc no
flush_loop-Flushed (Send.broken ∷ more) (x ∷ rest) goal w l a e s b q = (refl, (x ∷ rest, s))
