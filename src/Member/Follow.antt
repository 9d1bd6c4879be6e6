-- ===== src/Member/Follow.antt =====
-- The loop over a member's servers.
use arcus_c_client.Prelude.{
  ◌≡◌, refl, ap, ◌∙◌, inl, inr, Bool, true, false, List, [], ◌∷◌, ◌++◌, map, All, arith, Bool-cases,
}
use arcus_c_client.Text.{str_eq→eq}
use arcus_c_client.Server.{Server, is_valid_servername}
use arcus_c_client.Rgroup.Slots.{address}
use arcus_c_client.Cluster.Membership.{living, IsAlive}
use arcus_c_client.Member.{is_udp, is_same_address, follow}

is_same_address→eq : (a b : Server) → is_same_address a b ≡ true → address a ≡ address b
unfolding is_same_address
is_same_address→eq a b h = ground (arith, str_eq→eq a.hostname b.hostname)

-- What the loop leaves: the servers that stay and the master's that are not reached are the master's.
pub record Followed (l masters : List Server) (r : List Server × List Server × Bool) : Type 0 where
  pub together : living r.0 ++ map address r.1 ≡ map address masters
  pub unpruned : r.2 ≡ false → r.0 ≡ l

pub follow-Followed :
    (l masters : List Server) → All IsAlive l → Followed l masters (follow l masters)
unfolding follow
follow-Followed [] masters h = record { together = refl; unpruned = λ _. refl }
follow-Followed (s ∷ l) [] h =
    let r = follow-Followed l [] h.1 in record { together = r.together; unpruned = λ p. cc p }
follow-Followed (s ∷ l) (m ∷ masters) h = elim (Bool-cases (is_same_address s m)) [
  | inl e ↦
      let r = follow-Followed l masters h.1 in
      rw (follow, e)
        (record {
          together = simp (h.0) (
              ap (◌∷◌ (address s)) r.together
              ∙ ap (λ a. a ∷ map address masters) (is_same_address→eq s m e));
          unpruned = λ p. ap (◌∷◌ s) (r.unpruned p);
        })
  | inr e ↦
      let r = follow-Followed l (m ∷ masters) h.1 in
      rw (follow, e) (record { together = r.together; unpruned = λ p. cc p })
]

-- A server that a client may push: of a valid name and over TCP or a socket.
pub record IsPushable (s : Server) : Type 0 where
  pub named : is_valid_servername s.hostname ≡ true
  pub not_udp : is_udp s.type ≡ false

pub follow-IsPushable :
    (l masters : List Server) → All IsPushable masters → All IsPushable (follow l masters).1
unfolding follow
follow-IsPushable [] masters h = h
follow-IsPushable (s ∷ l) [] h = follow-IsPushable l [] tt
follow-IsPushable (s ∷ l) (m ∷ masters) h = elim (Bool-cases (is_same_address s m)) [
  | inl e ↦ rw (follow, e) (follow-IsPushable l masters h.1)
  | inr e ↦ rw (follow, e) (follow-IsPushable l (m ∷ masters) h)
]
