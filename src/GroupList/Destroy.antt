-- ===== src/GroupList/Destroy.antt =====
-- The destruction of groups: their servers go back to the pool.
use arcus_c_client.Prelude.{
  ℕ, zero, suc, ◌+◌, ◌-◌, ◌≤◌, ◌<◌, ◌≡◌, refl, sym, ap, ◌∙◌, Bool, true, false, some, append-nil,
  List, [], ◌∷◌, ◌++◌, length, length-append, arith, ltb, if◌then◌else◌, lt→ltb,
}
use arcus_c_client.Server.{Server, server_free}
use arcus_c_client.Rgroup.{
  Rgroup, ServerPool, GroupState, ◌>>=◌, drop_slot, server_release, server_remove,
}
use arcus_c_client.Rgroup.Slots.{pad, slot-pad, drop_slot-pad}
use arcus_c_client.Rgroup.Every.{Every, Every-bind, Every-if, Every-some}
use arcus_c_client.Rgroup.Kept.{after, itself, Keeps, Keeps-refl, server_remove-Keeps}
use arcus_c_client.GroupList.Removal.{remove_replicas, rgroup_destroy, destroy_all}
use arcus_c_client.GroupList.Members.{Member, Numbered, used}

-- The slots of a group hold `xs`.
record Filled (st : GroupState) (xs : List Server) : Type 0 where
  pub nreplica_eq : st.rgroup.nreplica ≡ length xs
  pub replicas_eq : st.rgroup.replicas ≡ pad 3 xs
  pub fits : length xs ≤ 3

remove_last :
    (st : GroupState) (done : List Server) (s : Server)
    → Filled st (done ++ s ∷ [])
    → (st' : GroupState) × (server_remove st (st.rgroup.nreplica - 1) ≡ some st') × Filled st' done
remove_last st done s h =
    let g = st.rgroup in
    let n = length-append done (s ∷ []) in
    let last : g.nreplica - 1 ≡ length done = omega (arith, h.nreplica_eq) in
    (
      record {
        memc = server_release st.memc (server_free s);
        rgroup = record g {
          replicas = drop_slot g.replicas g.nreplica (length done);
          nreplica = g.nreplica - 1;
        };
      },
      ap (server_remove st) last
          ∙ unfold server_remove in
            rw (
              lt→ltb (length done) g.nreplica (omega (arith, h.nreplica_eq)),
              h.replicas_eq,
              slot-pad 3 done s [] (omega (arith, h.fits)),
            ),
      record {
        nreplica_eq = last;
        replicas_eq =
            simp (h.nreplica_eq, h.replicas_eq)
              (drop_slot-pad done s [] h.fits ∙ ap (pad 3) (append-nil done));
        fits = omega (arith, h.fits);
      },
    )

split_last {ℓ} :
    {A : Type ℓ} (x : A) (xs : List A) → (done : List A) × (s : A) × (x ∷ xs ≡ done ++ s ∷ [])
split_last x [] = ([], x, refl)
split_last x (y ∷ xs) = let (done, s, e) = split_last y xs in (x ∷ done, s, ap (◌∷◌ x) e)

remove_replicas-Filled :
    (fuel : ℕ) (st : GroupState) (xs : List Server)
    → Filled st xs
    → length xs < fuel
    → (st' : GroupState) × (remove_replicas fuel st ≡ some st') × Filled st' []
unfolding remove_replicas
remove_replicas-Filled zero st xs h f = absurd (omega arith)
remove_replicas-Filled (suc fuel) st [] h f =
    let none_left : ltb 0 st.rgroup.nreplica ≡ false = ground (arith, h.nreplica_eq) in
    (st, rw none_left, h)
remove_replicas-Filled (suc fuel) st (x ∷ xs) h f =
    let (done, s, e) = split_last x xs in
    let some_left : ltb 0 st.rgroup.nreplica ≡ true = ground (arith, h.nreplica_eq) in
    let (st₁, run, h₁) = remove_last st done s (rw e at h) in
    let shorter : length done < fuel = omega (arith, ap length e, length-append done (s ∷ [])) in
    let (st₂, later, h₂) = remove_replicas-Filled fuel st₁ done h₁ shorter in
    (st₂, rw (some_left, run, ◌>>=◌) later, h₂)

remove_replicas-Keeps : (fuel : ℕ) (st : GroupState) → Every (Keeps st) (remove_replicas fuel st)
unfolding remove_replicas
remove_replicas-Keeps zero st = tt
remove_replicas-Keeps (suc fuel) st =
    Every-if (Keeps st) (ltb 0 st.rgroup.nreplica) _ _
      (λ _.
        Every-bind (Keeps st) (Keeps st) (server_remove st (st.rgroup.nreplica - 1)) _
          (server_remove-Keeps st (st.rgroup.nreplica - 1))
          λ g h. after itself st g _ h (remove_replicas-Keeps fuel g))
      (Keeps-refl st)

-- The pool after it has got `n` servers back.
pub record Regained (n : ℕ) (m m' : ServerPool) : Type 0 where
  pub servers : length m'.servers ≡ length m.servers + n
  pub ntotal : m'.server_ntotal ≡ m.server_ntotal
  pub navail : m.server_navail ≡ length m.servers → m'.server_navail ≡ length m'.servers

if-memc :
    (b : Bool) (st : GroupState)
    → (if b then st else record st { rgroup = record (st.rgroup) { is_initialized = false } }).memc
      ≡ st.memc
if-memc true st = refl
if-memc false st = refl

pub rgroup_destroy-Regained :
    (i : ℕ) (g : Rgroup) (xs : List Server) (m : ServerPool)
    → Member i g xs
    → (st : GroupState) × (rgroup_destroy (record { memc = m; rgroup = g }) ≡ some st)
      × Regained g.nreplica m st.memc
unfolding rgroup_destroy
rgroup_destroy-Regained i g xs m h =
    let st : GroupState = record { memc = m; rgroup = g } in
    let (st', run, empty) =
      remove_replicas-Filled 4 st xs
        (record { nreplica_eq = h.nreplica_eq; replicas_eq = h.replicas_eq; fits = h.fits })
        (omega (arith, h.fits)) in
    let k = Every-some (Keeps st) (remove_replicas 4 st) st' run (remove_replicas-Keeps 4 st) in
    let end =
      if st'.rgroup.is_allocated
      then st'
      else record st' { rgroup = record (st'.rgroup) { is_initialized = false } } in
    let same = if-memc st'.rgroup.is_allocated st' in
    (
      end,
      rw run,
      record {
        servers =
            ap (λ (p : ServerPool). length p.servers) same
            ∙ omega (arith, k.total, empty.nreplica_eq);
        ntotal = ap (λ (p : ServerPool). p.server_ntotal) same ∙ k.ntotal;
        navail = λ e.
            ap (λ (p : ServerPool). p.server_navail) same
            ∙ k.navail e
            ∙ sym (ap (λ (p : ServerPool). length p.servers) same);
      },
    )

pub destroy_all-Regained :
    (i : ℕ) (l : List Rgroup) (m : ServerPool)
    → Numbered i l
    → (m' : ServerPool) × (destroy_all l m ≡ some m') × Regained (used l) m m'
unfolding destroy_all
destroy_all-Regained i [] m h =
    (m, refl, record { servers = omega arith; ntotal = refl; navail = λ e. e })
destroy_all-Regained i (g ∷ l) m ((xs, h), hs) =
    let (st, run, r) = rgroup_destroy-Regained i g xs m h in
    let (m', later, r') = destroy_all-Regained (suc i) l st.memc hs in
    (
      m',
      rw (run, ◌>>=◌) later,
      record {
        servers = omega (arith, r.servers, r'.servers);
        ntotal = r'.ntotal ∙ r.ntotal;
        navail = λ e. r'.navail (r.navail e);
      },
    )
