-- ===== src/Response/Peer.antt =====
-- The peer that a line about a switchover names.
use arcus_c_client.Prelude.{
  ℕ, zero, suc, ◌≤◌, ◌<◌, ◌≡◌, ◌≢◌, refl, sym, Bool, Bool-cases, inl, inr, All, [], ◌∷◌, ◌++◌, none,
  some, ltb, length, length-take, take, if◌then◌else◌, arith,
}
use arcus_c_client.ReturnCode.{ReturnCode}
use arcus_c_client.Text.{Bytes, codes}
use arcus_c_client.Server.{Server}
use arcus_c_client.Response.{
  Action, starts, until_eol, peer_name, peer_check, peer_size, textual_line,
}

until_eol-name :
    (name rest : Bytes)
    → All (λ b. (b ≢ b'\r') × (b ≢ b'\n')) name
    → until_eol (name ++ b'\r' ∷ rest) ≡ name
unfolding until_eol
until_eol-name [] rest h = refl
until_eol-name (b ∷ name) rest h = ground (arith, until_eol-name name rest h.1)

take-all : (n : ℕ) (name : Bytes) → length name ≤ n → take n name ≡ name
take-all zero [] h = refl
take-all zero (b ∷ name) h = absurd (omega arith)
take-all (suc n) [] h = refl
take-all (suc n) (b ∷ name) h = rw (take-all n name (omega arith)) refl

-- A line SWITCHOVER or REPL_SLAVE that names a peer leaves in the server the first 127 bytes of the
-- name, which fit its array, and no slave index if that is the whole name, else the first slave.
pub switchover-peer_check :
    (in_sasl_mech : Bool) (total_read : ℕ) (name rest : Bytes) (s : Server)
    → All (λ b. (b ≢ b'\r') × (b ≢ b'\n')) name
    → let after = peer_check (some name) s in
      (textual_line in_sasl_mech total_read (codes "SWITCHOVER " ++ name ++ b'\r' ∷ rest)
        ≡ Action.peer ReturnCode.switchover (some name))
      × (textual_line in_sasl_mech total_read (codes "REPL_SLAVE " ++ name ++ b'\r' ∷ rest)
          ≡ Action.peer ReturnCode.repl_slave (some name))
      × (after.switchover_peer ≡ take 127 name)
      × (length after.switchover_peer < peer_size)
      × (after.switchover_sidx ≡ (if ltb (length name) peer_size then none else some 1))
unfolding textual_line peer_check peer_name starts
switchover-peer_check m n name rest s h =
    let read = until_eol-name name rest h in
    elim (Bool-cases (ltb (length name) peer_size)) [
      | inl e ↦
          rw (read, e) (refl, refl, sym (take-all 127 name (ground arith)), ground arith, refl)
      | inr e ↦ rw (read, e) (refl, refl, refl, omega (arith, length-take 127 name), refl)
    ]
