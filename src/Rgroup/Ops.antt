-- ===== src/Rgroup/Ops.antt =====
-- Each operation on a group's replicas, on the list of its servers: it does not fail an assertion,
-- and what it does to the list.
use arcus_c_client.Prelude.{
  ap, All-append, All-left, All-right, ℕ, suc, ◌+◌, ◌-◌, ◌≤◌, ◌<◌, ◌≡◌, refl, ◌⊎◌, true, Option,
  none, some, List, [], ◌∷◌, ◌++◌, length, length-append, set, arith, ltb, lt→ltb,
}
use arcus_c_client.Server.{Server, is_valid_servername, server_create_with, server_free, tcp}
use arcus_c_client.Text.{Bytes}
use arcus_c_client.Rgroup.{
  Rgroup, ServerPool, GroupState, slot, server_alloc, server_release, take_server, put_slot,
  drop_slot, server_insert, server_remove, server_replace, server_switchover, index_fits,
}
use arcus_c_client.Rgroup.Slots.{
  Replicas, Replicas-Holds, Holds, address, slot-pad, put_slot-pad, drop_slot-pad, swap-pad,
}

alloc_from :
    (memc : ServerPool) (l : List Server)
    → memc.servers ≡ l
    → 1 ≤ length l
    → (s : Server) × (m : ServerPool) × (server_alloc memc ≡ some (s, m))
      × (length m.servers + 1 ≡ length l)
unfolding server_alloc
alloc_from memc [] e h = absurd (omega arith)
alloc_from memc (s ∷ l) e h =
    (s, record memc { servers = l; server_navail = memc.server_navail - 1 }, rw e, omega arith)

-- What a new server for the address is.
abbrev pub Fresh : GroupState → Bytes → ℕ → Server → Type 0
Fresh st hostname port s =
    (address s ≡ record { hostname = hostname; port = port })
    × (s.groupindex ≡ some st.rgroup.groupindex)

take_server-Fresh :
    (st : GroupState) (hostname : Bytes) (port : ℕ)
    → 1 ≤ length st.memc.servers
    → (s : Server) × (m : ServerPool) × (take_server st hostname port ≡ some (s, m))
      × Fresh st hostname port s
      × (length m.servers + 1 ≡ length st.memc.servers)
unfolding take_server server_create_with
take_server-Fresh st hostname port h =
    let (s, m, e, l) = alloc_from st.memc st.memc.servers refl h in
    let made = server_create_with s st.memc.version hostname port 0 tcp in
    (
      record (made.1) { groupindex = some st.rgroup.groupindex },
      record m { version = made.0 },
      rw e,
      (refl, refl),
      l,
    )

-- The outcome of an operation: a state that holds the list `ys`, with the group's index kept.
abbrev pub Becomes : GroupState → Option GroupState → List Server → Type 0
Becomes st r ys =
    (st' : GroupState) × (r ≡ some st')
    × Holds st' ys
    × (st'.rgroup.groupindex ≡ st.rgroup.groupindex)

index_fits_end :
    (sindex : Option ℕ) (n : ℕ) → (sindex ≡ none) ⊎ (sindex ≡ some n) → index_fits sindex n ≡ true
index_fits_end none n e = refl
index_fits_end (some i) n e = ground arith

module _ (st : GroupState) (xs : List Server) (h : Holds st xs) where
  g : Rgroup
  g = st.rgroup

  room : length xs < 3 → ltb st.rgroup.nreplica 3 ≡ true
  room lt = ground (arith, h.nreplica_eq)

  -- Insertion at the end, as -1 or as the number of replicas, appends a new server.
  pub server_insert-Becomes :
      (sindex : Option ℕ) (hostname : Bytes) (port : ℕ)
      → length xs < 3
      → is_valid_servername hostname ≡ true
      → (sindex ≡ none) ⊎ (sindex ≡ some (length xs))
      → (s : Server) × Fresh st hostname port s
        × Becomes st (server_insert st sindex hostname port) (xs ++ s ∷ [])
  unfolding g
  server_insert-Becomes sindex hostname port lt valid at_end =
      let (s, m, e, fresh, l) = take_server-Fresh st hostname port (omega (arith, h.free)) in
      (s, fresh, appended s m e fresh l)
    where
      appended :
          (s : Server) (m : ServerPool)
          → take_server st hostname port ≡ some (s, m)
          → Fresh st hostname port s
          → length m.servers + 1 ≡ length st.memc.servers
          → Becomes st (server_insert st sindex hostname port) (xs ++ s ∷ [])
      appended s m e fresh l = (
        record {
          memc = m;
          rgroup = record g {
            replicas = put_slot g.replicas g.nreplica sindex s;
            nreplica = g.nreplica + 1;
          };
        },
        unfold server_insert in
            rw (room lt, index_fits_end sindex g.nreplica (rw h.nreplica_eq at_end), valid, e),
        record {
          nreplica_eq = omega (arith, h.nreplica_eq, length-append xs (s ∷ []));
          replicas_eq = simp (h.nreplica_eq, h.replicas_eq) (put_slot-pad xs sindex s lt at_end);
          fits = omega (arith, length-append xs (s ∷ []));
          free = omega (arith, h.free, length-append xs (s ∷ []));
          indexed = All-append _ xs (s ∷ []) h.indexed (fresh.1, tt);
        },
        refl,
      )

-- Removal takes the server at the index out.
pub server_remove-Becomes :
    (st : GroupState) (done : List Server) (s : Server) (rest : List Server)
    → Holds st (done ++ s ∷ rest)
    → Becomes st (server_remove st (length done)) (done ++ rest)
server_remove-Becomes st done s rest h =
    let g = st.rgroup in
    let n = length-append done (s ∷ rest) in
    let n' = length-append done rest in
    (
      record {
        memc = server_release st.memc (server_free s);
        rgroup = record g {
          replicas = drop_slot g.replicas g.nreplica (length done);
          nreplica = g.nreplica - 1;
        };
      },
      unfold server_remove in
          rw (
            lt→ltb (length done) g.nreplica (omega (arith, h.nreplica_eq)),
            h.replicas_eq,
            slot-pad 3 done s rest (omega (arith, h.fits)),
          ),
      record {
        nreplica_eq = omega (arith, h.nreplica_eq);
        replicas_eq = simp (h.nreplica_eq, h.replicas_eq) (drop_slot-pad done s rest h.fits);
        fits = omega (arith, h.fits);
        free = unfold server_release in omega (arith, h.free);
        indexed =
            All-append _ done rest (All-left _ done (s ∷ rest) h.indexed)
              (All-right _ done (s ∷ rest) h.indexed).1;
      },
      refl,
    )

-- The master replaced by a new server.
pub server_replace-Becomes :
    (st : GroupState) (a : Server) (rest : List Server) (hostname : Bytes) (port : ℕ)
    → Holds st (a ∷ rest)
    → is_valid_servername hostname ≡ true
    → (s : Server) × Fresh st hostname port s
      × Becomes st (server_replace st 0 hostname port) (s ∷ rest)
server_replace-Becomes st a rest hostname port h valid =
    let (s, m, e, fresh, l) = take_server-Fresh st hostname port (omega (arith, h.free, h.fits)) in
    (s, fresh, replaced s m e fresh l)
  where
    g : Rgroup
    g = st.rgroup

    replaced :
        (s : Server) (m : ServerPool)
        → take_server st hostname port ≡ some (s, m)
        → Fresh st hostname port s
        → length m.servers + 1 ≡ length st.memc.servers
        → Becomes st (server_replace st 0 hostname port) (s ∷ rest)
    replaced s m e fresh l = (
      record {
        memc = server_release m (server_free a);
        rgroup = record g { replicas = set g.replicas 0 (some s) };
      },
      unfold server_replace in
          rw (lt→ltb 0 g.nreplica (omega (arith, h.nreplica_eq)), valid, e, h.replicas_eq),
      record {
        nreplica_eq = h.nreplica_eq;
        replicas_eq = rw h.replicas_eq;
        fits = h.fits;
        free = unfold server_release in omega (arith, h.free);
        indexed = (fresh.1, h.indexed.1);
      },
      refl,
    )

-- Switchover exchanges the master with a slave, whatever the pool has.
pub server_switchover-Replicas :
    (st : GroupState) (a : Server) (mid : List Server) (b : Server) (rest : List Server)
    → Replicas st (a ∷ mid ++ b ∷ rest)
    → (st' : GroupState) × (server_switchover st (suc (length mid)) ≡ some st')
      × Replicas st' (b ∷ mid ++ a ∷ rest)
      × (st'.rgroup.groupindex ≡ st.rgroup.groupindex)
      × (st'.memc ≡ st.memc)
server_switchover-Replicas st a mid b rest h =
    let g = st.rgroup in
    let n = length-append (a ∷ mid) (b ∷ rest) in
    let n' = length-append (b ∷ mid) (a ∷ rest) in
    let i = h.indexed in
    let others = All-right _ mid (b ∷ rest) i.1 in
    (
      record st {
        rgroup = record g {
          replicas =
              set (set g.replicas 0 (slot g.replicas (suc (length mid)))) (suc (length mid))
                (slot g.replicas 0);
        };
      },
      unfold server_switchover in
          rw (
            lt→ltb 0 (suc (length mid)) (omega arith),
            lt→ltb (suc (length mid)) g.nreplica (omega (arith, h.nreplica_eq)),
          ),
      record {
        nreplica_eq = omega (arith, h.nreplica_eq);
        replicas_eq = rw h.replicas_eq (swap-pad a mid b rest h.fits);
        fits = omega (arith, h.fits);
        indexed =
            (others.0, All-append _ mid (a ∷ rest) (All-left _ mid (b ∷ rest) i.1) (i.0, others.1));
      },
      refl,
      refl,
    )

pub server_switchover-Becomes :
    (st : GroupState) (a : Server) (mid : List Server) (b : Server) (rest : List Server)
    → Holds st (a ∷ mid ++ b ∷ rest)
    → Becomes st (server_switchover st (suc (length mid))) (b ∷ mid ++ a ∷ rest)
server_switchover-Becomes st a mid b rest h =
    let (st', run, r, index, pool) =
      server_switchover-Replicas st a mid b rest (Replicas-Holds h) in
    (
      st',
      run,
      record {
        nreplica_eq = r.nreplica_eq;
        replicas_eq = r.replicas_eq;
        fits = r.fits;
        free = omega (
          arith,
          h.free,
          ap (λ m. length m.servers) pool,
          length-append (a ∷ mid) (b ∷ rest),
          length-append (b ∷ mid) (a ∷ rest),
        );
        indexed = r.indexed;
      },
      index,
    )
