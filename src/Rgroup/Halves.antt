-- ===== src/Rgroup/Halves.antt =====
-- The master, and the loops that only add or only remove, in the update of a replica group.
use mathlib.Core.List.{map-append}
use arcus_c_client.Prelude.{
  ℕ, zero, suc, ◌+◌, ◌-◌, ◌≤◌, ◌<◌, ◌≡◌, refl, sym, ap, ◌∙◌, ◌⊎◌, inl, inr, Bool, true, false, some,
  List, [], ◌∷◌, ◌++◌, length, length-append, arith, ltb, lt→ltb, map, Bool-cases, append_assoc,
  append-nil,
}
use arcus_c_client.Server.{Server, is_valid_servername}
use arcus_c_client.Rgroup.{
  GroupState, Address, slot, ◌>>=◌, is_same, find_replica, insert_all, remove_all, server_remove,
  move_master,
}
use arcus_c_client.Rgroup.Slots.{Holds, address, slot-pad}
use arcus_c_client.Rgroup.Ops.{
  Becomes, server_insert-Becomes, server_remove-Becomes, server_replace-Becomes,
  server_switchover-Becomes,
}
use arcus_c_client.Rgroup.Marks.{is_same→eq}
use arcus_c_client.Rgroup.Slaves.{AllValid}

-- The replica that the new master's address is found at, from index `i` on.
find_replica-cases :
    (st : GroupState) (done rest : List Server) (m : Address)
    → Holds st (done ++ rest)
    → ((find_replica (length rest) (length done) st.rgroup m ≡ some (length (done ++ rest))))
      ⊎ ((mid : List Server) × (b : Server) × (later : List Server) × (rest ≡ mid ++ b ∷ later)
          × (address b ≡ m)
          × (find_replica (length rest) (length done) st.rgroup m ≡ some (length (done ++ mid))))
unfolding find_replica
find_replica-cases st done [] m h = inl (rw append-nil)
find_replica-cases st done (s ∷ rest) m h =
    let here : slot st.rgroup.replicas (length done) ≡ some s =
      rw h.replicas_eq
        (slot-pad 3 done s rest (omega (arith, h.fits, length-append done (s ∷ rest)))) in
    elim (Bool-cases (is_same s m)) [
      | inl same ↦ inr ([], s, rest, refl, is_same→eq s m same, rw (here, ◌>>=◌, same, append-nil))
      | inr other ↦
          let again = append_assoc done (s ∷ []) rest in
          let index : suc (length done) ≡ length (done ++ s ∷ []) =
            omega (arith, length-append done (s ∷ [])) in
          elim (find_replica-cases st (done ++ s ∷ []) rest m (rw again h)) [
            | inl e ↦ inl (rw (here, ◌>>=◌, other, index) (rw again at e))
            | inr (mid, b, later, split, found, e) ↦ inr (
              s ∷ mid,
              b,
              later,
              ap (◌∷◌ s) split,
              found,
              rw (here, ◌>>=◌, other, index) (rw (append_assoc done (s ∷ []) mid) at e),
            )
          ]
    ]

-- What the first half of the update leaves: the new master in front of the same number of slaves.
pub record Moved (m : Address) (a : Server) (old : List Server) (st st' : GroupState)
    (changed : Bool) : Type 0 where
  pub master : Server
  pub slaves : List Server
  pub holds : Holds st' (master ∷ slaves)
  pub is_master : address master ≡ m
  pub width : length slaves ≡ length old
  pub index_kept : st'.rgroup.groupindex ≡ st.rgroup.groupindex
  pub unchanged : changed ≡ false → master ∷ slaves ≡ a ∷ old

pub move_master-Moved :
    (st : GroupState) (a : Server) (old : List Server) (m : Address)
    → Holds st (a ∷ old)
    → is_valid_servername m.hostname ≡ true
    → (st' : GroupState) × (changed : Bool) × (move_master m st ≡ some (st', changed))
      × Moved m a old st st' changed
unfolding move_master
move_master-Moved st a old m h valid =
    let here : slot st.rgroup.replicas 0 ≡ some a = rw h.replicas_eq in
    let rounds : st.rgroup.nreplica - 1 ≡ length old = omega (arith, h.nreplica_eq) in
    let search = ap (λ (k : ℕ). find_replica k 1 st.rgroup m) rounds in
    elim (Bool-cases (is_same a m)) [
      | inl same ↦ (
        st,
        false,
        rw (here, ◌>>=◌, same),
        record {
          master = a;
          slaves = old;
          holds = h;
          is_master = is_same→eq a m same;
          width = refl;
          index_kept = refl;
          unchanged = λ _. refl;
        },
      )
      | inr other ↦ elim (find_replica-cases st (a ∷ []) old m h) [
        | inl e ↦
            let (s, fresh, (st', run, h', i)) =
              server_replace-Becomes st a old m.hostname m.port h valid in
            let past : ltb (suc (length old)) st.rgroup.nreplica ≡ false =
              ground (arith, h.nreplica_eq) in
            (
              st',
              true,
              rw (here, ◌>>=◌, other, search ∙ e, past, run),
              record {
                master = s;
                slaves = old;
                holds = h';
                is_master = fresh.0;
                width = refl;
                index_kept = i;
                unchanged = λ c. cc c;
              },
            )
        | inr (mid, b, later, split, found, e) ↦
            let size = ap length split ∙ length-append mid (b ∷ later) in
            let (st', run, h', i) = server_switchover-Becomes st a mid b later (rw split at h) in
            let inside =
              lt→ltb (suc (length mid)) st.rgroup.nreplica (omega (arith, h.nreplica_eq)) in
            (
              st',
              true,
              rw (here, ◌>>=◌, other, search ∙ e, inside, run),
              record {
                master = b;
                slaves = mid ++ a ∷ later;
                holds = h';
                is_master = found;
                width = omega (arith, length-append mid (a ∷ later));
                index_kept = i;
                unchanged = λ c. cc c;
              },
            )
      ]
    ]

-- Insertion of all the slaves of a list behind those that are there.
pub insert_all-addresses :
    (i : ℕ) (as' : List Address) (st : GroupState) (m : Server) (old : List Server)
    → Holds st (m ∷ old)
    → AllValid as'
    → i ≡ suc (length old)
    → length old + length as' ≤ 2
    → (st' : GroupState) × (slaves : List Server) × (insert_all i as' st ≡ some st')
      × Holds st' (m ∷ slaves)
      × (map address slaves ≡ map address old ++ as')
      × (st'.rgroup.groupindex ≡ st.rgroup.groupindex)
unfolding insert_all
insert_all-addresses i [] st m old h v e n = (st, old, refl, h, sym (append-nil _), refl)
insert_all-addresses i (a ∷ more) st m old h v e n =
    let (s, fresh, (st₁, run, h₁, i₁)) =
      server_insert-Becomes st (m ∷ old) h (some i) a.hostname a.port (omega arith) v.0
        (inr (ap some e)) in
    let (st', slaves, later, h', addresses, i') =
      insert_all-addresses (suc i) more st₁ m (old ++ s ∷ []) h₁ v.1
        (omega (arith, length-append old (s ∷ []))) (omega (arith, length-append old (s ∷ []))) in
    (
      st',
      slaves,
      rw run later,
      h',
      addresses ∙ rw (map-append, fresh.0) (append_assoc (map address old) (a ∷ []) more),
      i' ∙ i₁,
    )

-- Removal of the last replica until the master alone is left.
pub remove_all-Becomes :
    (fuel : ℕ) (st : GroupState) (m : Server) (old : List Server)
    → Holds st (m ∷ old)
    → length old < fuel
    → Becomes st (remove_all fuel st) (m ∷ [])
unfolding remove_all
remove_all-Becomes zero st m old h f = absurd (omega arith)
remove_all-Becomes (suc fuel) st m [] h f =
    let done : ltb 1 st.rgroup.nreplica ≡ false = ground (arith, h.nreplica_eq) in
    (st, rw done, h, refl)
remove_all-Becomes (suc fuel) st m (s ∷ []) h f =
    let more = lt→ltb 1 st.rgroup.nreplica (omega (arith, h.nreplica_eq)) in
    let last : st.rgroup.nreplica - 1 ≡ 1 = omega (arith, h.nreplica_eq) in
    let (st₁, run, h₁, i₁) = server_remove-Becomes st (m ∷ []) s [] h in
    let (st', later, h', i') = remove_all-Becomes fuel st₁ m [] h₁ (omega arith) in
    (st', rw (more, ap (server_remove st) last ∙ run) later, h', i' ∙ i₁)
remove_all-Becomes (suc fuel) st m (s ∷ t ∷ []) h f =
    let more = lt→ltb 1 st.rgroup.nreplica (omega (arith, h.nreplica_eq)) in
    let last : st.rgroup.nreplica - 1 ≡ 2 = omega (arith, h.nreplica_eq) in
    let (st₁, run, h₁, i₁) = server_remove-Becomes st (m ∷ s ∷ []) t [] h in
    let (st', later, h', i') = remove_all-Becomes fuel st₁ m (s ∷ []) h₁ (omega arith) in
    (st', rw (more, ap (server_remove st) last ∙ run) later, h', i' ∙ i₁)
remove_all-Becomes (suc fuel) st m (s ∷ t ∷ u ∷ old) h f = absurd (omega (arith, h.fits))
