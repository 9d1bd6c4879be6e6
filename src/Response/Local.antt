-- ===== src/Response/Local.antt =====
-- The rows of the table against what the buffer holds after the line.
use arcus_c_client.Prelude.{
  ℕ, ◌≤◌, ◌==◌, ◌≡◌, refl, ap, Bool, true, Bool-cases, inl, inr, List, [], ◌∷◌, ◌++◌, ◌&&◌, not,
  drop, drop-append_le, length, if◌then◌else◌, arith,
}
use arcus_c_client.ReturnCode.{ReturnCode}
use arcus_c_client.Text.{Bytes, codes}
use arcus_c_client.Response.{Action, starts, until_eol, skip_space, peer_name, line_other}
use arcus_c_client.Response.Table.{Row, error_row, table, look_up}

unfoldable pub no_newline : Bytes → Bool
no_newline [] = true
no_newline (b ∷ text) = not (b == b'\n') && no_newline text

-- A word without a newline begins the line or does not, whatever follows the line.
pub starts-line :
    (word body stale : Bytes)
    → no_newline word ≡ true
    → starts word (body ++ b'\n' ∷ stale) ≡ starts word body
unfolding starts no_newline
starts-line [] body stale h = refl
starts-line (x ∷ word) [] stale h = ground arith
starts-line (x ∷ word) (b ∷ body) stale h =
    ap (λ t. b == x && t) (starts-line word body stale (ground arith))

pub starts-length : (word body : Bytes) → starts word body ≡ true → length word ≤ length body
unfolding starts
starts-length [] body h = omega arith
starts-length (x ∷ word) [] h = cc h
starts-length (x ∷ word) (b ∷ body) h = ground (arith, starts-length word body)

until_eol-line :
    (text stale : Bytes) → until_eol (text ++ b'\n' ∷ stale) ≡ until_eol (text ++ b'\n' ∷ [])
unfolding until_eol
until_eol-line [] stale = refl
until_eol-line (b ∷ text) stale = rw (until_eol-line text stale) refl

skip_space-line :
    (text stale : Bytes)
    → until_eol (skip_space (text ++ b'\n' ∷ stale)) ≡ until_eol (skip_space (text ++ b'\n' ∷ []))
unfolding skip_space
skip_space-line [] stale = until_eol-line [] stale
skip_space-line (b ∷ text) stale = elim (Bool-cases (b == b' ')) [
  | inl e ↦ rw e (until_eol-line text stale)
  | inr e ↦ rw e (until_eol-line (b ∷ text) stale)
]

peer_name-line :
    (text stale : Bytes) → peer_name (text ++ b'\n' ∷ stale) ≡ peer_name (text ++ b'\n' ∷ [])
unfolding peer_name
peer_name-line [] stale = refl
peer_name-line (b ∷ text) stale = rw (until_eol-line text stale) refl

-- A row whose word has no newline and that does not read past the end of the line.
pub record IsLocal (stale : Bytes) (r : Row) : Type 0 where
  pub free : no_newline r.0 ≡ true
  pub within : (text : Bytes) → r.1 (text ++ b'\n' ∷ stale) ≡ r.1 (text ++ b'\n' ∷ [])

infixr 2 ◌▸◌
pub data AreLocal (stale : Bytes) : List Row → Type 0 where
  none : AreLocal stale []
  ◌▸◌ :
      {r : Row} {rows : List Row}
      → IsLocal stale r
      → AreLocal stale rows
      → AreLocal stale (r ∷ rows)

pub look_up-line :
    (rows : List Row) (body stale : Bytes)
    → AreLocal stale rows
    → line_other (body ++ b'\n' ∷ stale) ≡ line_other (body ++ b'\n' ∷ [])
    → look_up rows (body ++ b'\n' ∷ stale) ≡ look_up rows (body ++ b'\n' ∷ [])
unfolding look_up
look_up-line [] body stale none o = o
look_up-line ((word, act) ∷ rows) body stale (h ▸ hs) o =
    let here = starts-line word body stale h.free in
    let there = starts-line word body [] h.free in
    elim (Bool-cases (starts word body)) [
      | inl e ↦
          let short = starts-length word body e in
          rw (here, there, e)
            (rw
              (
                drop-append_le (length word) body (b'\n' ∷ stale) short,
                drop-append_le (length word) body (b'\n' ∷ []) short,
              )
              (h.within (drop (length word) body)))
      | inr e ↦ rw (here, there, e) (look_up-line rows body stale hs o)
    ]

module _ (stale : Bytes) where
  fixed : (word : Bytes) (a : Action) → no_newline word ≡ true → IsLocal stale (word, λ rest. a)
  fixed word a h = record { free = h; within = λ text. refl }

  fixed_error :
      (word : Bytes) (rc : ReturnCode) → no_newline word ≡ true → IsLocal stale (error_row word rc)
  fixed_error word rc h = record {
    free = h;
    within = λ text. ap (Action.message rc) (skip_space-line text stale);
  }

  fixed_peer :
      (word : Bytes) (rc : ReturnCode)
      → no_newline word ≡ true
      → IsLocal stale (word, λ rest. Action.peer rc (peer_name rest))
  fixed_peer word rc h = record {
    free = h;
    within = λ text. ap (Action.peer rc) (peer_name-line text stale);
  }

  fixed_sasl :
      (s : Bool)
      → IsLocal stale (
        codes "ERROR",
        λ rest.
            if s
            then Action.code ReturnCode.not_supported
            else Action.message ReturnCode.protocol_error (until_eol (skip_space rest)),
      )
  unfolding no_newline
  fixed_sasl s = record { free = refl; within = λ text. rw (skip_space-line text stale) refl }

  pub table-IsLocal : (s : Bool) (n : ℕ) (buffer : Bytes) → AreLocal stale (table s n buffer)
  unfolding no_newline
  table-IsLocal s n buffer =
      fixed _ _ refl
      ▸ fixed _ _ refl
      ▸ fixed _ _ refl
      ▸ fixed _ _ refl
      ▸ fixed _ _ refl
      ▸ fixed_error _ _ refl
      ▸ fixed _ _ refl
      ▸ fixed _ _ refl
      ▸ fixed _ _ refl
      ▸ fixed _ _ refl
      ▸ fixed_peer _ _ refl
      ▸ fixed _ _ refl
      ▸ fixed _ _ refl
      ▸ fixed _ _ refl
      ▸ fixed _ _ refl
      ▸ fixed_peer _ _ refl
      ▸ fixed _ _ refl
      ▸ fixed _ _ refl
      ▸ fixed_sasl s
      ▸ fixed _ _ refl
      ▸ fixed _ _ refl
      ▸ fixed_error _ _ refl
      ▸ fixed _ _ refl
      ▸ fixed _ _ refl
      ▸ fixed _ _ refl
      ▸ fixed_error _ _ refl
      ▸ fixed _ _ refl
      ▸ none
