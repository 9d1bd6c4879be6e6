-- ===== src/Rgroup/Peer.antt =====
-- The peer of a switchover among the slaves of a group.
use arcus_c_client.Prelude.{
  ℕ, suc, ◌+◌, ◌-◌, ◌^◌, ◌<◌, ◌==◌, ◌≡◌, refl, ap, ◌∙◌, true, false, All, none, some, List, [], ◌∷◌,
  ◌++◌, append_assoc, ltb, length, length-append, set, arith,
}
use arcus_c_client.Text.{str_eq_refl, Bytes}
use arcus_c_client.Server.{Server}
use arcus_c_client.Rgroup.{GroupState, Address, slot, is_same, find_replica, ◌>>=◌}
use arcus_c_client.Rgroup.Slots.{Replicas, address, slot-pad}
use arcus_c_client.Rgroup.Ops.{server_switchover-Replicas}
use arcus_c_client.Rgroup.Switchover.{find_peer, cut_peer, switchover_to, rgroup_switchover}
use arcus_c_client.Rgroup.HostPort.{NoColon, peer_text, peer_address-peer_text}

-- The first slave with an address is found.
find_replica-first :
    (st : GroupState) (done mid : List Server) (b : Server) (later : List Server) (m : Address)
    → Replicas st (done ++ (mid ++ b ∷ later))
    → All (λ s. is_same s m ≡ false) mid
    → is_same b m ≡ true
    → find_replica (length (mid ++ b ∷ later)) (length done) st.rgroup m
      ≡ some (length done + length mid)
unfolding find_replica
find_replica-first st done [] b later m h none_before same =
    let here : slot st.rgroup.replicas (length done) ≡ some b =
      rw h.replicas_eq
        (slot-pad 3 done b later (omega (arith, h.fits, length-append done (b ∷ later)))) in
    rw (here, ◌>>=◌, same) (ap some (omega arith))
find_replica-first st done (s ∷ mid) b later m h none_before same =
    let here : slot st.rgroup.replicas (length done) ≡ some s = rw h.replicas_eq (
      slot-pad 3 done s (mid ++ b ∷ later)
        (omega (arith, h.fits, length-append done (s ∷ (mid ++ b ∷ later))))) in
    let again = append_assoc done (s ∷ []) (mid ++ b ∷ later) in
    let index : suc (length done) ≡ length (done ++ s ∷ []) =
      omega (arith, length-append done (s ∷ [])) in
    rw (here, ◌>>=◌, none_before.0, index)
      (find_replica-first st (done ++ s ∷ []) mid b later m (rw again h) none_before.1 same
        ∙ ap some (omega (arith, index)))

with_master : GroupState → Server → GroupState
with_master st a = record st {
  rgroup = record st.rgroup { replicas = set st.rgroup.replicas 0 (some a) };
}

-- The master is another server of the group with the group's index.
with_master-Replicas :
    (st : GroupState) (a a' : Server) (slaves : List Server)
    → Replicas st (a ∷ slaves)
    → a'.groupindex ≡ a.groupindex
    → Replicas (with_master st a') (a' ∷ slaves)
unfolding with_master
with_master-Replicas st a a' slaves h e = record {
  nreplica_eq = h.nreplica_eq;
  replicas_eq = rw h.replicas_eq refl;
  fits = h.fits;
  indexed = (e ∙ h.indexed.0, h.indexed.1);
}

module _ (st : GroupState) (a₀ : Server) (mid : List Server) (b : Server) (rest : List Server) where
  abbrev pub peer : Bytes
  peer = peer_text (address b)

  -- The master that was told of its peer, at the steps of the call.
  abbrev pub told : Server
  told = record a₀ { switchover_peer = peer; switchover_sidx = none }

  abbrev pub cut : Server
  cut = record told { switchover_peer = cut_peer peer }

  abbrev pub marked : Server
  marked = record cut { switchover_sidx = some (suc (length mid)) }

  find_peer-first :
      Replicas st (told ∷ mid ++ b ∷ rest)
      → 0 < b.port
      → All (λ s. is_same s (address b) ≡ false) mid
      → is_same b (address b) ≡ true
      → find_peer st.rgroup (some (address b)) ≡ some (some (suc (length mid)))
  unfolding find_peer
  find_peer-first h p before same =
      let n = length-append mid (b ∷ rest) in
      let port : (b.port == 0) ≡ false = ground arith in
      let rounds : st.rgroup.nreplica - 1 ≡ length (mid ++ b ∷ rest) =
        omega (arith, h.nreplica_eq) in
      let inside : ltb (suc (length mid)) st.rgroup.nreplica ≡ true =
        ground (arith, h.nreplica_eq, n) in
      let found : find_replica (st.rgroup.nreplica - 1) 1 st.rgroup (address b)
          ≡ some (suc (length mid)) =
        ap (λ (k : ℕ). find_replica k 1 st.rgroup (address b)) rounds
        ∙ find_replica-first st (told ∷ []) mid b rest (address b) h before same
        ∙ ap some (omega arith) in
      rw (port, found, ◌>>=◌, inside) refl

  switchover_to-Replicas :
      Replicas (with_master st cut) (cut ∷ mid ++ b ∷ rest)
      → (st' : GroupState) × (switchover_to (with_master st cut) 0 cut (some (suc (length mid)))
          ≡ some (st', true))
        × Replicas st' (b ∷ mid ++ marked ∷ rest)
        × (st'.memc ≡ st.memc)
  unfolding switchover_to with_master
  switchover_to-Replicas h =
      let (st', run, held, index, pool) =
        server_switchover-Replicas (with_master (with_master st cut) marked) marked mid b rest
          (with_master-Replicas (with_master st cut) cut marked (mid ++ b ∷ rest) h refl) in
      (st', rw (run, ◌>>=◌) refl, held, pool)

  pub rgroup_switchover-told :
      Replicas st (told ∷ mid ++ b ∷ rest)
      → 0 < length b.hostname
      → NoColon b.hostname
      → 0 < b.port
      → b.port < 2 ^ 16
      → All (λ s. is_same s (address b) ≡ false) mid
      → (st' : GroupState) × (rgroup_switchover st 0 ≡ some (st', true))
        × Replicas st' (b ∷ mid ++ marked ∷ rest)
        × (st'.memc ≡ st.memc)
  unfolding rgroup_switchover with_master
  rgroup_switchover-told h n k p w before =
      let master : slot st.rgroup.replicas 0 ≡ some told = rw h.replicas_eq refl in
      let same : is_same b (address b) ≡ true =
        unfold is_same in (rw (str_eq_refl b.hostname) (ground arith)) in
      let (st', run, held, pool) =
        switchover_to-Replicas (with_master-Replicas st told cut (mid ++ b ∷ rest) h refl) in
      (
        st',
        rw
            (
              master,
              ◌>>=◌,
              peer_address-peer_text (address b) n k w,
              find_peer-first h p before same,
              run,
            )
            refl,
        held,
        pool,
      )
