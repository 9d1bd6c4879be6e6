-- ===== src/Io/Lines.antt =====
-- One round of memcached_io_readline: what it copies out of the read buffer.
use arcus_c_client.Prelude.{
  ℕ, ◌-◌, ◌≤◌, ◌<◌, ◌==◌, ◌≡◌, ◌≢◌, sym, ap, subst, ◌∙◌, ◌⊎◌, Bool, true, false, Bool-cases, inl,
  inr, Option, some, ◌++◌, append-nil, append_assoc, length, length-append, drop, drop-length,
  drop-append_le, drop-drop, arith, if◌then◌else◌,
}
use arcus_c_client.ReturnCode.{ReturnCode, success, protocol_error}
use arcus_c_client.Text.{Bytes}
use arcus_c_client.Io.{Channel, copied}
use arcus_c_client.Io.Line.{copy_line, scan_line}
use arcus_c_client.Io.Stream.{arrivals, unread, length-unread, pending, IsReady, Copied, copied_lem}
use arcus_c_client.Io.Copy.{
  copy_line-append_done, copy_line-append_more, length-copy_line, copy_line_le,
}

unfoldable pub ending : ℕ → ℕ → ReturnCode
ending size n = if n == size then protocol_error else success

-- The call returned with `line ++ found` in its buffer, and `tail` is still to be read.
pub record Line (size : ℕ) (line found tail : Bytes)
    (result : Option (ReturnCode × Bytes × Channel)) : Type 0 where
  pub left : Channel
  pub returns : result ≡ some (ending size (length (line ++ found)), line ++ found, left)
  pub rest : pending left ≡ tail
  pub ready : IsReady left

pub Line-join :
    {size : ℕ} (line m found : Bytes) {tail : Bytes}
    {result : Option (ReturnCode × Bytes × Channel)}
    → Line size (line ++ m) found tail result
    → Line size line (m ++ found) tail result
Line-join {size} line m found l = record {
  left = l.left;
  returns =
      l.returns ∙ ap (λ k. some (ending size (length k), k, l.left)) (append_assoc line m found);
  rest = l.rest;
  ready = l.ready;
}

-- The room for the line ends before the bytes that are to come, or a newline comes before it ends.
abbrev pub Enough : ℕ → Bytes → Type 0
Enough room bytes = ((copy_line room bytes).1 ≡ true) ⊎ (room ≤ length bytes)

abbrev pub LineOf : ℕ → Bytes → Channel → Option (ReturnCode × Bytes × Channel) → Type 0
LineOf size line c result =
    let found = (copy_line (size - length line) (pending c)).0 in
    Line size line found (drop (length found) (pending c)) result

-- The test at the end of a round.
abbrev pub round_end :
    ℕ
    → Bytes × Bool × Channel
    → Option (ReturnCode × Bytes × Channel)
    → Option (ReturnCode × Bytes × Channel)
round_end size (line, complete, c) rest =
    if length line == size
    then some (protocol_error, line, c)
    else if complete
    then some (success, line, c)
    else rest

pub round_end_complete :
    (size : ℕ) (line : Bytes) (c : Channel) (rest : Option (ReturnCode × Bytes × Channel))
    → round_end size (line, true, c) rest ≡ some (ending size (length line), line, c)
unfolding ending
round_end_complete size line c rest = ground arith

round_end-full :
    (size : ℕ) (line : Bytes) (complete : Bool) (c : Channel)
    (rest : Option (ReturnCode × Bytes × Channel))
    → length line ≡ size
    → round_end size (line, complete, c) rest ≡ some (ending size (length line), line, c)
unfolding ending
round_end-full size line complete c rest h = ground arith

round_end-rest :
    (size : ℕ) (line : Bytes) (c : Channel) (rest : Option (ReturnCode × Bytes × Channel))
    → length line < size
    → round_end size (line, false, c) rest ≡ rest
round_end-rest size line c rest h = ground arith

short_lem : {a b : ℕ} → (a == b) ≡ false → a ≢ b
short_lem h = ground arith

module _ (size : ℕ) (line : Bytes) (c : Channel) (v : IsReady c) (fits : length line ≤ size)
    (enough : Enough (size - length line) (pending c)) where
  abbrev pub room : ℕ
  room = size - length line

  abbrev pub copy : Bytes
  copy = (copy_line room (unread c)).0

  abbrev pub scanned : Bytes × Bool × Channel
  scanned = scan_line size line false c

  scan-Copied : Copied (length copy) c
  scan-Copied =
      copied_lem (length copy) c v (omega (arith, copy_line_le room (unread c), length-unread c v))

  -- A newline in the buffer ends the line.
  scan_complete :
      (rest : Option (ReturnCode × Bytes × Channel))
      → (copy_line room (unread c)).1 ≡ true
      → LineOf size line c (round_end size scanned rest)
  unfolding scan_line copied
  scan_complete rest h =
      rw (copy_line-append_done room (unread c) (arrivals c.incoming) h, scan_line, h)
        (record {
          left = (copied (length copy) c).1;
          returns = round_end_complete size (line ++ copy) (copied (length copy) c).1 rest;
          rest = scan-Copied.rest;
          ready = scan-Copied.ready;
        })

  -- So does the end of the caller's buffer.
  scan-full :
      (rest : Option (ReturnCode × Bytes × Channel))
      → (copy_line room (unread c)).1 ≡ false
      → length copy ≡ room
      → LineOf size line c (round_end size scanned rest)
  unfolding scan_line copied
  scan-full rest h full =
      let none_left : room - length copy ≡ 0 = omega arith in
      rw (copy_line-append_more room (unread c) (arrivals c.incoming) h, none_left, append-nil)
        (record {
          left = (copied (length copy) c).1;
          returns =
              round_end-full size (line ++ copy) (copy_line room (unread c)).1
                (copied (length copy) c).1 rest (omega (arith, length-append line copy, full));
          rest = scan-Copied.rest;
          ready = scan-Copied.ready;
        })

  -- Else the buffer is used up, and the rounds that follow go on with what arrives.
  scan-more :
      (rest : Option (ReturnCode × Bytes × Channel))
      → (copy_line room (unread c)).1 ≡ false
      → length copy < room
      → let c' = (copied (length copy) c).1 in
        (IsReady c'
          → length (line ++ copy) < size
          → Enough (size - length (line ++ copy)) (pending c')
          → LineOf size (line ++ copy) c' rest)
        → LineOf size line c (round_end size scanned rest)
  unfolding scan_line copied
  scan-more rest h short later =
      let c' = (copied (length copy) c).1 in
      let all : length copy ≡ length (unread c) =
        omega (arith, length-copy_line room (unread c) h) in
      let left : size - length (line ++ copy) ≡ room - length copy =
        omega (arith, length-append line copy) in
      let rest_arrives : pending c' ≡ arrivals c.incoming =
        scan-Copied.rest
        ∙ ap (λ n. drop n (pending c)) all
        ∙ drop-append_le (length (unread c)) (unread c) (arrivals c.incoming) (omega arith)
        ∙ ap (λ l. l ++ arrivals c.incoming) (drop-length (unread c)) in
      let split = copy_line-append_more room (unread c) (arrivals c.incoming) h in
      let same : copy_line (size - length (line ++ copy)) (pending c')
          ≡ copy_line (room - length copy) (arrivals c.incoming) =
        ap (copy_line (size - length (line ++ copy))) rest_arrives
        ∙ ap (λ n. copy_line n (arrivals c.incoming)) left in
      let found : Bytes = (copy_line (size - length (line ++ copy)) (pending c')).0 in
      let whole : (copy_line room (pending c)).0 ≡ copy ++ found =
        ap (λ r. r.0) split ∙ ap (λ r. copy ++ r.0) (sym same) in
      let goes_on : Enough (size - length (line ++ copy)) (pending c') = elim enough [
        | inl e ↦ inl (ap (λ r. r.1) same ∙ sym (ap (λ r. r.1) split) ∙ e)
        | inr n ↦
            inr (
              omega (arith, ap length rest_arrives, length-append (unread c) (arrivals c.incoming)))
      ] in
      let l = later scan-Copied.ready (omega (arith, length-append line copy)) goes_on in
      let tail : drop (length found) (pending c') ≡ drop (length (copy ++ found)) (pending c) =
        ap (drop (length found)) scan-Copied.rest
        ∙ drop-drop (length found) (length copy) (pending c)
        ∙ ap (λ n. drop n (pending c)) (sym (length-append copy found)) in
      let joined : Line size line (copy ++ found) (drop (length (copy ++ found)) (pending c)) rest =
        subst (λ t. Line size line (copy ++ found) t rest) tail (Line-join line copy found l) in
      let ends : round_end size scanned rest ≡ rest =
        ap (λ b. round_end size (line ++ copy, b, c') rest) h
        ∙ round_end-rest size (line ++ copy) c' rest (omega (arith, length-append line copy)) in
      subst (λ r. LineOf size line c r) (sym ends)
        (subst (λ f. Line size line f (drop (length f) (pending c)) rest) (sym whole) joined)

  -- The round as a whole, given the rounds after it.
  pub scan-LineOf :
      (rest : Option (ReturnCode × Bytes × Channel))
      → ((copy_line room (unread c)).1 ≡ false
          → let c' = (copied (length copy) c).1 in
            IsReady c'
            → length (line ++ copy) < size
            → Enough (size - length (line ++ copy)) (pending c')
            → LineOf size (line ++ copy) c' rest)
      → LineOf size line c (round_end size scanned rest)
  scan-LineOf rest later = elim (Bool-cases (copy_line room (unread c)).1) [
    | inl e ↦ scan_complete rest e
    | inr e ↦ elim (Bool-cases (length copy == room)) [
      | inl full ↦ scan-full rest e (ground arith)
      | inr short ↦
          scan-more rest e (omega (arith, short_lem short, copy_line_le room (unread c))) (later e)
    ]
  ]
