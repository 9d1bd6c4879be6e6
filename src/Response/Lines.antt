-- ===== src/Response/Lines.antt =====
-- The line of a response against what the buffer held before.
use arcus_c_client.Prelude.{
  ℕ, ◌+◌, ◌≤◌, ◌==◌, ◌≡◌, refl, sym, ap, ◌∙◌, Bool, true, false, Bool-cases, inl, inr, [], ◌∷◌,
  ◌++◌, ◌&&◌, length, if◌then◌else◌, arith,
}
use arcus_c_client.ReturnCode.{ReturnCode}
use arcus_c_client.Text.{Bytes}
use arcus_c_client.Response.{Action, undefined, is_space, scans_unsigned, textual_line, line_other}

-- Only white space, which sscanf skips, the newline included.
unfoldable pub blank : Bytes → Bool
unfolding is_space
blank [] = true
blank (b ∷ body) = is_space b && blank body

scans_unsigned-blank :
    (body stale : Bytes)
    → blank body ≡ true
    → scans_unsigned (body ++ b'\n' ∷ stale) ≡ scans_unsigned stale
unfolding scans_unsigned blank
scans_unsigned-blank [] stale h = refl
scans_unsigned-blank (b ∷ body) stale h = elim (Bool-cases (is_space b)) [
  | inl e ↦ rw e (scans_unsigned-blank body stale (rw e at h))
  | inr e ↦ let no_space : false ≡ true = rw e at h in cc no_space
]

not_letter : (b c : ℕ) → is_space b ≡ true → 65 ≤ c → (b == c) ≡ false
unfolding is_space
not_letter b c h l = ground arith

textual_line-space :
    (s : Bool) (n b : ℕ) (text : Bytes)
    → is_space b ≡ true
    → textual_line s n (b ∷ text) ≡ line_other (b ∷ text)
unfolding textual_line
textual_line-space s n b text h =
    let other = λ (c : ℕ) (l : 65 ≤ c). not_letter b c h l in
    rw
      (
        other b'V' (omega arith),
        other b'O' (omega arith),
        other b'S' (omega arith),
        other b'D' (omega arith),
        other b'N' (omega arith),
        other b'R' (omega arith),
        other b'U' (omega arith),
        other b'E' (omega arith),
        other b'I' (omega arith),
        other b'T' (omega arith),
        other b'C' (omega arith),
        other b'A' (omega arith),
      )
      refl

blank-first :
    (body stale : Bytes)
    → blank body ≡ true
    → (b : ℕ) × (text : Bytes) × (body ++ b'\n' ∷ stale ≡ b ∷ text) × (is_space b ≡ true)
unfolding blank is_space
blank-first [] stale h = (b'\n', stale, refl, refl)
blank-first (b ∷ body) stale h = (b, body ++ b'\n' ∷ stale, refl, ground arith)

-- After memcached_io_readline has stored a line that is empty or only white space, the result hangs
-- on what the buffer held before: it is success if a number stands there, behind white space, and
-- else an undefined response.
pub textual_line-blank :
    (in_sasl_mech : Bool) (body stale : Bytes)
    → blank body ≡ true
    → textual_line in_sasl_mech (length body + 1) (body ++ b'\n' ∷ stale)
      ≡ (if scans_unsigned stale then Action.code ReturnCode.success else undefined)
textual_line-blank s body stale h =
    let (b, text, e, space) = blank-first body stale h in
    ap (textual_line s (length body + 1)) e
    ∙ textual_line-space s (length body + 1) b text space
    ∙ ap line_other (sym e)
    ∙ ap (λ t. if t then Action.code ReturnCode.success else undefined)
        (scans_unsigned-blank body stale h)
