-- ===== src/Io/Readline.antt =====
-- The line that memcached_io_readline stores.
use arcus_c_client.Prelude.{
  ℕ, zero, suc, ◌+◌, ◌-◌, ◌<◌, ◌≡◌, refl, ap, subst, ◌∙◌, true, All, tests, ltb, leb, ◌≢◌,
  Bool-cases, inl, inr, some, [], ◌∷◌, ◌++◌, length, length-append, length-take, take, drop,
  take-append-drop, arith, if◌then◌else◌,
}
use arcus_c_client.ReturnCode.{success, protocol_error}
use arcus_c_client.Text.{Bytes}
use arcus_c_client.Io.{Channel}
use arcus_c_client.Io.Line.{copy_line, readline}
use arcus_c_client.Io.Stream.{pending, IsReady}
use arcus_c_client.Io.Copy.{take-copy_line}
use arcus_c_client.Io.Lines.{ending, Enough}
use arcus_c_client.Io.Rounds.{line_loop-LineOf}

-- The line and its newline, as far as there is room, whatever follows.
copy_line-line :
    (size : ℕ) (line rest : Bytes)
    → All (λ b. b ≢ b'\n') line
    → (copy_line size (line ++ b'\n' ∷ rest)).0 ≡ take size (line ++ b'\n' ∷ [])
unfolding copy_line
copy_line-line zero line rest h = refl
copy_line-line (suc zero) [] rest h = refl
copy_line-line (suc (suc size)) [] rest h = refl
copy_line-line (suc size) (b ∷ line) rest h = ground (arith, h.0, copy_line-line size line rest h.1)

Enough-line :
    (size : ℕ) (line rest : Bytes) → All (λ b. b ≢ b'\n') line → Enough size (line ++ b'\n' ∷ rest)
unfolding copy_line
Enough-line size line rest h = elim (Bool-cases (leb size (length line + 1))) [
  | inl e ↦ inr (omega (tests, length-append line (b'\n' ∷ rest)))
  | inr e ↦ inl (ends size line h (ground arith))
]
  where
    ends :
        (size : ℕ) (line : Bytes)
        → All (λ b. b ≢ b'\n') line
        → length line + 1 < size
        → (copy_line size (line ++ b'\n' ∷ rest)).1 ≡ true
    ends zero line h l = absurd (omega arith)
    ends (suc size) [] h l = refl
    ends (suc size) (b ∷ line) h l = ground (arith, h.0, ends size line h.1)

ending-take :
    (size : ℕ) (line : Bytes)
    → ending size (length (take size (line ++ b'\n' ∷ [])))
      ≡ (if ltb (length line + 1) size then success else protocol_error)
unfolding ending
ending-take size line =
    ground (arith, length-take size (line ++ b'\n' ∷ []), length-append line (b'\n' ∷ []))

-- On a connection that is ready and is to get the bytes `line`, none of them a newline, a newline
-- and then others, memcached_io_readline with a buffer of `size` bytes, `size` not 0, returns. If the
-- line and its newline are shorter than the buffer, the result is success, with both stored; if they
-- fill it or are longer, it is a protocol error, with the first `size` bytes stored. Either way
-- what was stored is what was taken off the stream, however recv cuts it up.
pub readline_lem :
    (size : ℕ) (line rest : Bytes) (c : Channel)
    → IsReady c
    → 0 < size
    → All (λ b. b ≢ b'\n') line
    → pending c ≡ line ++ b'\n' ∷ rest
    → let stored = take size (line ++ b'\n' ∷ []) in
      (c' : Channel) × (readline size c
        ≡ some (if ltb (length line + 1) size then success else protocol_error, stored, c'))
      × (stored ++ pending c' ≡ line ++ b'\n' ∷ rest)
      × IsReady c'
unfolding readline ending
readline_lem size line rest c v h free e =
    let stored : Bytes = take size (line ++ b'\n' ∷ []) in
    let all_room : size - 0 ≡ size = omega arith in
    let enough : Enough (size - 0) (pending c) =
      rw (all_room, e) (Enough-line size line rest free) in
    let l = line_loop-LineOf size size [] c v h (omega arith) enough in
    let whole : (copy_line (size - 0) (pending c)).0 ≡ stored =
      rw (all_room, e) (copy_line-line size line rest free) in
    let part : stored ≡ take (length stored) (pending c) =
      subst (λ f. f ≡ take (length f) (pending c)) whole (take-copy_line (size - 0) (pending c)) in
    (
      l.left,
      l.returns
          ∙ ap (λ f. some (ending size (length f), f, l.left)) whole
          ∙ ap (λ r. some (r, stored, l.left)) (ending-take size line),
      ap (λ k. stored ++ k) (l.rest ∙ ap (λ f. drop (length f) (pending c)) whole)
          ∙ ap (λ k. k ++ drop (length stored) (pending c)) part
          ∙ take-append-drop (length stored) (pending c)
          ∙ e,
      l.ready,
    )
