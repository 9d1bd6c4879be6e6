-- ===== src/Response/Table.antt =====
-- The words that begin the lines, in one table.
use arcus_c_client.Prelude.{
  ℕ, ◌<◌, ◌==◌, ◌≡◌, ◌≢◌, refl, sym, subst, ==_iff, Bool, true, false, Bool-cases, inl, inr, List,
  [], ◌∷◌, ◌++◌, ◌&&◌, ltb, drop, length, if◌then◌else◌, arith,
}
use arcus_c_client.ReturnCode.{ReturnCode}
use arcus_c_client.Text.{Bytes, codes}
use arcus_c_client.Response.{
  Action, starts, until_eol, skip_space, peer_name, error_message, scans_unsigned, server_too_large,
  client_too_large, textual_line, line_other, after_space, mechanisms,
}

-- A word and what the rest of the line is turned into.
abbrev pub Row : Type 0
Row = Bytes × (Bytes → Action)

abbrev pub row : Bytes → ReturnCode → Row
row word rc = (word, λ rest. Action.code rc)

-- The text of an error: after the word and at most one space, up to the end of the line.
abbrev pub error_row : Bytes → ReturnCode → Row
error_row word rc = (word, λ rest. Action.message rc (until_eol (skip_space rest)))

-- The table, of `total_read` bytes in a buffer, which four of the rows hand on as it is.
abbrev pub table : Bool → ℕ → Bytes → List Row
table in_sasl_mech total_read buffer =
    (codes "VALUE", λ rest. Action.value_fetch buffer)
    ∷ (codes "VERSION", λ rest. Action.version_fetch (after_space buffer))
    ∷ row (codes "OK") ReturnCode.success
    ∷ (codes "STAT", λ rest. Action.counted ReturnCode.stat)
    ∷ row server_too_large ReturnCode.e2big
    ∷ error_row (codes "SERVER_ERROR") ReturnCode.server_error
    ∷ row (codes "STORED") ReturnCode.stored
    ∷ (codes "SASL_MECH", λ rest. Action.sasl_mech (mechanisms total_read buffer))
    ∷ (codes "SASL_CONTINUE", λ rest. Action.sasl_continue_fetch buffer)
    ∷ row (codes "SASL_OK") ReturnCode.success
    ∷ (codes "SWITCHOVER", λ rest. Action.peer ReturnCode.switchover (peer_name rest))
    ∷ row (codes "DELETED") ReturnCode.deleted
    ∷ row (codes "NOT_FOUND") ReturnCode.notfound
    ∷ row (codes "NOT_STORED") ReturnCode.notstored
    ∷ row (codes "NOT_SUPPORTED") ReturnCode.not_supported
    ∷ (codes "REPL_SLAVE", λ rest. Action.peer ReturnCode.repl_slave (peer_name rest))
    ∷ row (codes "UNREADABLE") ReturnCode.unreadable
    ∷ row (codes "END") ReturnCode.end
    ∷ (
      codes "ERROR",
      λ rest.
          if in_sasl_mech
          then Action.code ReturnCode.not_supported
          else Action.message ReturnCode.protocol_error (until_eol (skip_space rest)),
    )
    ∷ row (codes "EXISTS") ReturnCode.data_exists
    ∷ (codes "ITEM", λ rest. Action.counted ReturnCode.item)
    ∷ error_row (codes "INVALID") ReturnCode.invalid_command
    ∷ row (codes "TYPE_MISMATCH") ReturnCode.type_mismatch
    ∷ row (codes "TOUCHED") ReturnCode.success
    ∷ row client_too_large ReturnCode.e2big
    ∷ error_row (codes "CLIENT_ERROR") ReturnCode.client_error
    ∷ row (codes "AUTH_ERROR") ReturnCode.auth_failure
    ∷ []

-- The first row whose word begins the line; else a number, or nothing known.
unfoldable pub look_up : List Row → Bytes → Action
look_up [] line = line_other line
look_up ((word, act) ∷ rows) line =
    if starts word line then act (drop (length word) line) else look_up rows line

-- A text that begins with the longer word begins with the shorter.
starts-append : (a b text : Bytes) → starts (a ++ b) text ≡ true → starts a text ≡ true
unfolding starts
starts-append [] b text h = refl
starts-append (x ∷ a) b [] h = cc h
starts-append (x ∷ a) b (y ∷ text) h = ground (arith, starts-append a b text)

-- The tests of the two server errors, one within the other or one after the other.
pick :
    (stat word big : Bool) (n : ℕ) (a b c d e : Action)
    → (big ≡ true → word ≡ true)
    → (word ≡ true → n ≢ 12)
    → (big ≡ true → 39 < n)
    → (if stat
        then a
        else if word
        then (if n == 12 then b else if ltb 39 n && big then c else d)
        else e)
      ≡ (if stat then a else if big then c else if word then d else e)
pick true word big n a b c d e p q r = refl
pick false true true n a b c d e p q r = ground (arith, q refl, r refl)
pick false true false n a b c d e p q r = ground (arith, q refl)
pick false false true n a b c d e p q r = cc (p refl)
pick false false false n a b c d e p q r = refl

module _ (s : Bool) (n : ℕ) where
  case_v :
      (text : Bytes)
      → textual_line s n (b'V' ∷ text) ≡ look_up (table s n (b'V' ∷ text)) (b'V' ∷ text)
  unfolding textual_line look_up starts scans_unsigned error_message
  case_v text = refl

  case_o :
      (text : Bytes)
      → textual_line s n (b'O' ∷ text) ≡ look_up (table s n (b'O' ∷ text)) (b'O' ∷ text)
  unfolding textual_line look_up starts scans_unsigned error_message
  case_o text = refl

  case_d :
      (text : Bytes)
      → textual_line s n (b'D' ∷ text) ≡ look_up (table s n (b'D' ∷ text)) (b'D' ∷ text)
  unfolding textual_line look_up starts scans_unsigned error_message
  case_d text = refl

  case_n :
      (text : Bytes)
      → textual_line s n (b'N' ∷ text) ≡ look_up (table s n (b'N' ∷ text)) (b'N' ∷ text)
  unfolding textual_line look_up starts scans_unsigned error_message
  case_n text = refl

  case_r :
      (text : Bytes)
      → textual_line s n (b'R' ∷ text) ≡ look_up (table s n (b'R' ∷ text)) (b'R' ∷ text)
  unfolding textual_line look_up starts scans_unsigned error_message
  case_r text = refl

  case_u :
      (text : Bytes)
      → textual_line s n (b'U' ∷ text) ≡ look_up (table s n (b'U' ∷ text)) (b'U' ∷ text)
  unfolding textual_line look_up starts scans_unsigned error_message
  case_u text = refl

  case_e :
      (text : Bytes)
      → textual_line s n (b'E' ∷ text) ≡ look_up (table s n (b'E' ∷ text)) (b'E' ∷ text)
  unfolding textual_line look_up starts scans_unsigned error_message
  case_e text = refl

  case_i :
      (text : Bytes)
      → textual_line s n (b'I' ∷ text) ≡ look_up (table s n (b'I' ∷ text)) (b'I' ∷ text)
  unfolding textual_line look_up starts scans_unsigned error_message
  case_i text = refl

  case_t :
      (text : Bytes)
      → textual_line s n (b'T' ∷ text) ≡ look_up (table s n (b'T' ∷ text)) (b'T' ∷ text)
  unfolding textual_line look_up starts scans_unsigned error_message
  case_t text = refl

  case_a :
      (text : Bytes)
      → textual_line s n (b'A' ∷ text) ≡ look_up (table s n (b'A' ∷ text)) (b'A' ∷ text)
  unfolding textual_line look_up starts scans_unsigned error_message
  case_a text = refl

  case_s :
      (text : Bytes)
      → (starts (codes "SERVER_ERROR") (b'S' ∷ text) ≡ true → n ≢ 12)
      → (starts server_too_large (b'S' ∷ text) ≡ true → 39 < n)
      → textual_line s n (b'S' ∷ text) ≡ look_up (table s n (b'S' ∷ text)) (b'S' ∷ text)
  unfolding textual_line look_up starts scans_unsigned error_message
  case_s text short long =
      pick (starts (codes "STAT") (b'S' ∷ text)) (starts (codes "SERVER_ERROR") (b'S' ∷ text))
        (starts server_too_large (b'S' ∷ text)) n _ _ _ _ _
        (starts-append (codes "SERVER_ERROR") (codes " object too large for cache") (b'S' ∷ text))
        short long

  case_c :
      (text : Bytes)
      → (starts client_too_large (b'C' ∷ text) ≡ true → 39 < n)
      → textual_line s n (b'C' ∷ text) ≡ look_up (table s n (b'C' ∷ text)) (b'C' ∷ text)
  unfolding textual_line look_up starts scans_unsigned error_message
  case_c text long = elim (Bool-cases (starts client_too_large (b'C' ∷ text))) [
    | inl big ↦
        let word : starts (codes "CLIENT_ERROR") (b'C' ∷ text) ≡ true =
          starts-append (codes "CLIENT_ERROR") (codes " object too large for cache") (b'C' ∷ text)
            big in
        ground (arith, long big)
    | inr other ↦ ground arith
  ]

-- `total_read` counts the words that were found.
pub record IsLong (n : ℕ) (buffer : Bytes) : Type 0 where
  pub server : starts (codes "SERVER_ERROR") buffer ≡ true → n ≢ 12
  pub server_large : starts server_too_large buffer ≡ true → 39 < n
  pub client_large : starts client_too_large buffer ≡ true → 39 < n

module _ (s : Bool) (n : ℕ) (text : Bytes) where
  abbrev Agrees : ℕ → Type 0
  Agrees b =
      IsLong n (b ∷ text) → textual_line s n (b ∷ text) ≡ look_up (table s n (b ∷ text)) (b ∷ text)

  at_letter : (b c : ℕ) → (b == c) ≡ true → Agrees c → Agrees b
  at_letter b c e h = subst Agrees (sym ((==_iff b c).0 e)) h

  at_other :
      (b : ℕ)
      → (b == b'V') ≡ false
      → (b == b'O') ≡ false
      → (b == b'S') ≡ false
      → (b == b'D') ≡ false
      → (b == b'N') ≡ false
      → (b == b'R') ≡ false
      → (b == b'U') ≡ false
      → (b == b'E') ≡ false
      → (b == b'I') ≡ false
      → (b == b'T') ≡ false
      → (b == b'C') ≡ false
      → (b == b'A') ≡ false
      → Agrees b
  unfolding textual_line look_up starts
  at_other b not_v not_o not_s not_d not_n not_r not_u not_e not_i not_t not_c not_a long =
      rw (not_v, not_o, not_s, not_d, not_n, not_r, not_u, not_e, not_i, not_t, not_c, not_a) refl

  agrees : (b : ℕ) → Agrees b
  agrees b = elim (Bool-cases (b == b'V')) [
    | inl e ↦ at_letter b b'V' e (λ l. case_v s n text)
    | inr not_v ↦ elim (Bool-cases (b == b'O')) [
      | inl e ↦ at_letter b b'O' e (λ l. case_o s n text)
      | inr not_o ↦ elim (Bool-cases (b == b'S')) [
        | inl e ↦ at_letter b b'S' e (λ l. case_s s n text l.server l.server_large)
        | inr not_s ↦ elim (Bool-cases (b == b'D')) [
          | inl e ↦ at_letter b b'D' e (λ l. case_d s n text)
          | inr not_d ↦ elim (Bool-cases (b == b'N')) [
            | inl e ↦ at_letter b b'N' e (λ l. case_n s n text)
            | inr not_n ↦ elim (Bool-cases (b == b'R')) [
              | inl e ↦ at_letter b b'R' e (λ l. case_r s n text)
              | inr not_r ↦ elim (Bool-cases (b == b'U')) [
                | inl e ↦ at_letter b b'U' e (λ l. case_u s n text)
                | inr not_u ↦ elim (Bool-cases (b == b'E')) [
                  | inl e ↦ at_letter b b'E' e (λ l. case_e s n text)
                  | inr not_e ↦ elim (Bool-cases (b == b'I')) [
                    | inl e ↦ at_letter b b'I' e (λ l. case_i s n text)
                    | inr not_i ↦ elim (Bool-cases (b == b'T')) [
                      | inl e ↦ at_letter b b'T' e (λ l. case_t s n text)
                      | inr not_t ↦ elim (Bool-cases (b == b'C')) [
                        | inl e ↦ at_letter b b'C' e (λ l. case_c s n text l.client_large)
                        | inr not_c ↦ elim (Bool-cases (b == b'A')) [
                          | inl e ↦ at_letter b b'A' e (λ l. case_a s n text)
                          | inr not_a ↦
                              at_other b not_v not_o not_s not_d not_n not_r not_u not_e not_i not_t
                                not_c not_a
                        ]
                      ]
                    ]
                  ]
                ]
              ]
            ]
          ]
        ]
      ]
    ]
  ]

pub textual_line-look_up :
    (s : Bool) (n : ℕ) (buffer : Bytes)
    → IsLong n buffer
    → textual_line s n buffer ≡ look_up (table s n buffer) buffer
unfolding textual_line look_up starts scans_unsigned
textual_line-look_up s n [] long = refl
textual_line-look_up s n (b ∷ text) long = agrees s n text b long
