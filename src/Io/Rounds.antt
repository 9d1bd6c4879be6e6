-- ===== src/Io/Rounds.antt =====
-- The rounds of memcached_io_readline together, against one look at the whole stream.
use arcus_c_client.Prelude.{
  ℕ, zero, suc, ◌+◌, ◌-◌, ◌≤◌, ◌<◌, ◌==◌, ◌≡◌, refl, sym, ap, ◌∙◌, ◌⊎◌, true, false, Bool-cases,
  inl, inr, min, Option, some, [], ◌∷◌, ◌++◌, length, length-append, take, drop, arith,
}
use arcus_c_client.ReturnCode.{ReturnCode, success}
use arcus_c_client.Outcome.{memcached_failed}
use arcus_c_client.Text.{Bytes}
use arcus_c_client.Io.{Channel, copied, io_read}
use arcus_c_client.Io.Line.{copy_line, is_newline, scan_line, line_loop}
use arcus_c_client.Io.Stream.{unread, length-unread, pending, IsReady}
use arcus_c_client.Io.Reads.{io_read-Reads}
use arcus_c_client.Io.Copy.{length-copy_line}
use arcus_c_client.Io.Lines.{
  ending, Line-join, LineOf, Enough, round_end, round_end_complete, copy, scan-LineOf,
}

List-cases : (l : Bytes) → (l ≡ []) ⊎ ((b : ℕ) × (more : Bytes) × (l ≡ b ∷ more))
List-cases [] = inl refl
List-cases (b ∷ more) = inr (b, more, refl)

Enough-some : (n : ℕ) (bytes : Bytes) → 0 < n → Enough n bytes → 0 < length bytes
unfolding copy_line
Enough-some zero bytes h e = absurd (omega arith)
Enough-some (suc n) [] h (inl e) = cc e
Enough-some (suc n) [] h (inr e) = absurd (omega arith)
Enough-some (suc n) (b ∷ bytes) h e = omega arith

copy_line_newline :
    (n b : ℕ) (more : Bytes) → 0 < n → (b == b'\n') ≡ true → copy_line n (b ∷ more) ≡ (b ∷ [], true)
unfolding copy_line
copy_line_newline zero b more h e = absurd (omega arith)
copy_line_newline (suc n) b more h e = rw e refl

copy_line_other :
    (n b : ℕ) (more : Bytes)
    → 0 < n
    → (b == b'\n') ≡ false
    → copy_line n (b ∷ more) ≡ (b ∷ (copy_line (n - 1) more).0, (copy_line (n - 1) more).1)
unfolding copy_line
copy_line_other zero b more h e = absurd (omega arith)
copy_line_other (suc n) b more h e = let before : suc n - 1 ≡ n = omega arith in rw (e, before) refl

Enough-other :
    (n b : ℕ) (more : Bytes)
    → 0 < n
    → (b == b'\n') ≡ false
    → Enough n (b ∷ more)
    → Enough (n - 1) more
Enough-other n b more h e (inl done) =
    inl (ap (λ r. r.1) (sym (copy_line_other n b more h e)) ∙ done)
Enough-other n b more h e (inr l) = inr (omega arith)

-- A byte read on its own, as where the buffer is empty.
first_byte :
    (b : ℕ) (more : Bytes) (c : Channel)
    → IsReady c
    → pending c ≡ b ∷ more
    → (c' : Channel) × (io_read 1 c
        ≡ some (record { code = success; stored = b ∷ []; complete = true; channel = c' }))
      × (pending c' ≡ more)
      × IsReady c'
first_byte b more c v e =
    let got = io_read-Reads 1 c v (omega (arith, ap length e)) in
    (
      got.left,
      got.returns
          ∙ ap
              (λ l.
                some (record {
                  code = success;
                  stored = take 1 l;
                  complete = true;
                  channel = got.left;
                }))
              e,
      got.rest ∙ ap (drop 1) e,
      got.ready,
    )

module _ (size b : ℕ) (line more : Bytes) (c c' : Channel) (short : length line < size)
    (before : pending c ≡ b ∷ more) (after : pending c' ≡ more) where
  LineOf-newline :
      (result : Option (ReturnCode × Bytes × Channel))
      → (b == b'\n') ≡ true
      → IsReady c'
      → result ≡ some (ending size (length (line ++ b ∷ [])), line ++ b ∷ [], c')
      → LineOf size line c result
  LineOf-newline result e v r =
      rw (before, copy_line_newline (size - length line) b more (omega arith) e)
        (record { left = c'; returns = r; rest = after; ready = v })

  LineOf-other :
      (result : Option (ReturnCode × Bytes × Channel))
      → (b == b'\n') ≡ false
      → LineOf size (line ++ b ∷ []) c' result
      → LineOf size line c result
  LineOf-other result e l =
      let room : size - length (line ++ b ∷ []) ≡ size - length line - 1 =
        omega (arith, length-append line (b ∷ [])) in
      rw (before, copy_line_other (size - length line) b more (omega arith) e)
        (rw (after, room) at (Line-join line (b ∷ []) _ l))

module _ (fuel size : ℕ)
    (ih : (line : Bytes) (c : Channel)
      → IsReady c
      → length line < size
      → size ≤ length line + fuel
      → Enough (size - length line) (pending c)
      → LineOf size line c (line_loop fuel size line c)) where
  -- A look into the buffer, and the rounds after it.
  look-LineOf :
      (line : Bytes) (c : Channel)
      → IsReady c
      → length line ≤ size
      → size ≤ length line + fuel + min 1 c.read_buffer_length
      → Enough (size - length line) (pending c)
      → let (line', complete, c') = scan_line size line false c in
        LineOf size line c (round_end size (line', complete, c') (line_loop fuel size line' c'))
  unfolding scan_line copied
  look-LineOf line c v fits f enough =
      let found = copy size line c v fits enough in
      let c' = (copied (length found) c).1 in
      scan-LineOf size line c v fits enough (line_loop fuel size (line ++ found) c')
        (λ not_done w h e.
          ih (line ++ found) c' w h
            (omega (
              arith,
              length-append line found,
              length-copy_line (size - length line) (unread c) not_done,
              length-unread c v,
            ))
            e)

  -- A byte on its own, and the look into the buffer after it.
  byte-LineOf :
      (b : ℕ) (line more : Bytes) (c c' : Channel)
      → length line < size
      → size ≤ length line + suc fuel
      → Enough (size - length line) (pending c)
      → pending c ≡ b ∷ more
      → pending c' ≡ more
      → IsReady c'
      → let (line', complete, c'') = scan_line size (line ++ b ∷ []) (b == b'\n') c' in
        LineOf size line c (round_end size (line', complete, c'') (line_loop fuel size line' c''))
  unfolding scan_line
  byte-LineOf b line more c c' short f enough before after v = elim (Bool-cases (b == b'\n')) [
    | inl e ↦ rw e (
        LineOf-newline size b line more c c' short before after _ e v
          (round_end_complete size (line ++ b ∷ []) c' (line_loop fuel size (line ++ b ∷ []) c')))
    | inr e ↦
        let longer : length (line ++ b ∷ []) ≡ length line + 1 = length-append line (b ∷ []) in
        let room : size - length (line ++ b ∷ []) ≡ size - length line - 1 = omega arith in
        rw e (
          LineOf-other size b line more c c' short before after _ e (
            look-LineOf (line ++ b ∷ []) c' v (omega arith) (omega arith) (
              rw (after, room)
                (Enough-other (size - length line) b more (omega arith) e (rw before at enough)))))
  ]

pub line_loop-LineOf :
    (fuel size : ℕ) (line : Bytes) (c : Channel)
    → IsReady c
    → length line < size
    → size ≤ length line + fuel
    → Enough (size - length line) (pending c)
    → LineOf size line c (line_loop fuel size line c)
unfolding line_loop memcached_failed scan_line is_newline
line_loop-LineOf zero size line c v short f enough = absurd (omega arith)
line_loop-LineOf (suc fuel) size line c v short f enough =
    elim (Bool-cases (c.read_buffer_length == 0)) [
      | inl empty ↦ elim (List-cases (pending c)) [
        | inl none_left ↦ absurd (
            omega (
              arith,
              Enough-some (size - length line) (pending c) (omega arith) enough,
              ap length none_left,
            ))
        | inr (b, more, before) ↦
            let (c', returns, after, w) = first_byte b more c v before in
            rw (empty, returns)
              (byte-LineOf fuel size (line_loop-LineOf fuel size) b line more c c' short f enough
                before after w)
      ]
      | inr held ↦ rw held (
          look-LineOf fuel size (line_loop-LineOf fuel size) line c v (omega arith) (ground arith)
            enough)
    ]
