-- ===== src/Rgroup/Refinement.antt =====
-- The update of a replica group implements its specification: the group gets the new addresses.
use mathlib.Core.List.{Perm}
use mathlib.Core.List.Perm
use arcus_c_client.Prelude.{
  ℕ, zero, suc, ◌≤◌, ◌≡◌, refl, sym, ap, ◌∙◌, inl, inr, Bool, true, false, Option, some, List, [],
  ◌∷◌, length, length-append, length-map, length-perm, get_or, arith, ◌==◌, map, Bool-cases,
  replicate,
}
use arcus_c_client.Server.{Server}
use arcus_c_client.Rgroup.{
  GroupState, Address, UpdateState, slot, ◌>>=◌, is_same, update_slaves, update_single,
  single_slaves, rgroup_update,
}
use arcus_c_client.Rgroup.Slots.{Holds, address}
use arcus_c_client.Rgroup.Ops.{server_replace-Becomes}
use arcus_c_client.Rgroup.Marks.{select, unselect, select-unselect-perm, is_same→eq}
use arcus_c_client.Rgroup.Slaves.{AllValid, remove_slaves-Removed, insert_slaves-Inserted}
use arcus_c_client.Rgroup.Halves.{
  Moved, move_master-Moved, insert_all-addresses, remove_all-Becomes,
}

-- The group after an update to the master `m` and the slaves `new`, from the servers `old`: its
-- master has the new master's address, its slaves have the new slaves' addresses, each as often,
-- its index is kept, and where `changed` is false its servers are the old ones.
pub record Updated (m : Address) (new : List Address) (old : List Server) (st st' : GroupState)
    (changed : Bool) : Type 0 where
  pub master : Server
  pub slaves : List Server
  pub holds : Holds st' (master ∷ slaves)
  pub is_master : address master ≡ m
  pub are_slaves : Perm (map address slaves) new
  pub index_kept : st'.rgroup.groupindex ≡ st.rgroup.groupindex
  pub unchanged : changed ≡ false → master ∷ slaves ≡ old

abbrev Outcome :
    Address → List Address → List Server → GroupState → Option (GroupState × Bool) → Type 0
Outcome m new old st r =
    (st' : GroupState) × (changed : Bool) × (r ≡ some (st', changed))
    × Updated m new old st st' changed

unmarked : (j : ℕ) → get_or (replicate 3 false) j false ≡ false
unmarked zero = refl
unmarked (suc zero) = refl
unmarked (suc (suc zero)) = refl
unmarked (suc (suc (suc j))) = refl

select_none : (j : ℕ) (l : List Address) → select j (replicate 3 false) l ≡ []
select_none j [] = refl
select_none j (a ∷ l) = rw (unmarked j) (select_none (suc j) l)

-- The slaves' half, after the master's.
update_slaves-Outcome :
    (st st₁ : GroupState) (c : Bool) (a : Server) (old : List Server) (m : Address)
    (new : List Address)
    → Moved m a old st st₁ c
    → AllValid new
    → length new ≤ 2
    → Outcome m new (a ∷ old) st (update_slaves new (st₁, c))
unfolding update_slaves
update_slaves-Outcome st st₁ c a old m [] moved v n =
    let (st', run, h', i') =
      remove_all-Becomes 4 st₁ moved.master moved.slaves moved.holds
        (omega (arith, moved.holds.fits)) in
    (
      st',
      true,
      rw run,
      record {
        master = moved.master;
        slaves = [];
        holds = h';
        is_master = moved.is_master;
        are_slaves = Perm.refl [];
        index_kept = i' ∙ moved.index_kept;
        unchanged = λ e. cc e;
      },
    )
update_slaves-Outcome st st₁ c a old m (b ∷ new) moved v n =
    let u₀ : UpdateState = record { group = st₁; exist = replicate 3 false; changed = c } in
    let (u₁, run₁, r) =
      remove_slaves-Removed 4 moved.master [] moved.slaves (b ∷ new) u₀
        (omega (arith, moved.holds.fits)) n refl moved.holds
        (rw (select_none 1 (b ∷ new)) (Perm.refl [])) in
    let all = select-unselect-perm 1 u₁.exist (b ∷ new) in
    let joined = Perm.trans (Perm.append_right (unselect 1 u₁.exist (b ∷ new)) r.pairs) all in
    let sizes = sym (length-append (map address r.kept) _) ∙ length-perm joined in
    let slots = length-map r.kept address in
    let (u₂, run₂, s) =
      insert_slaves-Inserted 1 (b ∷ new) moved.master r.kept u₁ v (omega (arith, sizes)) r.holds in
    (
      u₂.group,
      u₂.changed,
      rw (run₁, ◌>>=◌, run₂),
      record {
        master = moved.master;
        slaves = s.slaves;
        holds = s.holds;
        is_master = moved.is_master;
        are_slaves = rw s.addresses joined;
        index_kept = s.index_kept ∙ r.index_kept ∙ moved.index_kept;
        unchanged = λ e.
            let f = s.unchanged e in
            let g = r.unchanged f.1 in ap (◌∷◌ moved.master) (f.0 ∙ g.0) ∙ moved.unchanged g.1;
      },
    )

-- The slaves of a group of one replica, after its master.
single_slaves-Outcome :
    (st st₁ : GroupState) (c : Bool) (a s : Server) (m : Address) (new : List Address)
    → Holds st₁ (s ∷ [])
    → address s ≡ m
    → st₁.rgroup.groupindex ≡ st.rgroup.groupindex
    → (c ≡ false → s ≡ a)
    → AllValid new
    → length new ≤ 2
    → Outcome m new (a ∷ []) st (single_slaves new (st₁, c))
single_slaves-Outcome st st₁ c a s m [] h is_m i same v n = (
  st₁,
  c,
  refl,
  record {
    master = s;
    slaves = [];
    holds = h;
    is_master = is_m;
    are_slaves = Perm.refl [];
    index_kept = i;
    unchanged = λ e. ap (λ x. x ∷ []) (same e);
  },
)
single_slaves-Outcome st st₁ c a s m (b ∷ new) h is_m i same v n =
    let (st', slaves, run, h', addresses, i') =
      insert_all-addresses 1 (b ∷ new) st₁ s [] h v refl (omega arith) in
    (
      st',
      true,
      rw run,
      record {
        master = s;
        slaves = slaves;
        holds = h';
        is_master = is_m;
        are_slaves = rw addresses (Perm.refl (b ∷ new));
        index_kept = i' ∙ i;
        unchanged = λ e. cc e;
      },
    )

update_single-Outcome :
    (st : GroupState) (a : Server) (m : Address) (new : List Address)
    → Holds st (a ∷ [])
    → AllValid (m ∷ new)
    → length new ≤ 2
    → Outcome m new (a ∷ []) st (update_single m new st)
unfolding update_single
update_single-Outcome st a m new h v n =
    let here : slot st.rgroup.replicas 0 ≡ some a = rw h.replicas_eq in
    elim (Bool-cases (is_same a m)) [
      | inl same ↦
          rw (here, ◌>>=◌, same)
            (single_slaves-Outcome st st false a a m new h (is_same→eq a m same) refl (λ _. refl)
              v.1 n)
      | inr other ↦
          let (s, fresh, (st₁, run, h₁, i₁)) =
            server_replace-Becomes st a [] m.hostname m.port h v.0 in
          rw (here, ◌>>=◌, other, run)
            (single_slaves-Outcome st st₁ true a s m new h₁ fresh.0 i₁ (λ e. cc e) v.1 n)
    ]

-- For a group of one to three servers, with a pool that has a free server more than the group has
-- free slots, an update to a master and at most two slaves with valid host names fails no
-- assertion and ends within its fuel. The group then has the new master in front and servers for
-- the new slaves behind it, keeps its index, and has its old servers where `changed` is false.
pub rgroup_update-Updated :
    (st : GroupState) (old : List Server) (m : Address) (new : List Address)
    → Holds st old
    → 1 ≤ length old
    → AllValid (m ∷ new)
    → length new ≤ 2
    → (st' : GroupState) × (changed : Bool) × (rgroup_update st (m ∷ new) ≡ some (st', changed))
      × Updated m new old st st' changed
unfolding rgroup_update
rgroup_update-Updated st [] m new h one v n = absurd (omega arith)
rgroup_update-Updated st (a ∷ []) m new h one v n =
    let single : (st.rgroup.nreplica == 1) ≡ true = ground (arith, h.nreplica_eq) in
    rw single (update_single-Outcome st a m new h v n)
rgroup_update-Updated st (a ∷ b ∷ old) m new h one v n =
    let several : (st.rgroup.nreplica == 1) ≡ false = ground (arith, h.nreplica_eq) in
    let (st₁, c, run, moved) = move_master-Moved st a (b ∷ old) m h v.0 in
    rw (several, run) (update_slaves-Outcome st st₁ c a (b ∷ old) m new moved v.1 n)
