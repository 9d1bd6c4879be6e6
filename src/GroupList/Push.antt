-- ===== src/GroupList/Push.antt =====
-- `memcached_rgroup_push`: the groups that it adds.
use mathlib.Core.List.{Perm}
use mathlib.Core.List.Perm
use arcus_c_client.Prelude.{
  All, ℕ, zero, suc, ◌+◌, ◌*◌, ◌%◌, ◌^◌, ◌≤◌, ◌<◌, ◌≡◌, refl, sym, ap, ◌∙◌, inl, inr, ◌⊎◌, Bool,
  true, false, some, List, [], ◌∷◌, ◌++◌, length, map, arith, Bool-cases, ltb, if◌then◌else◌,
}
use arcus_c_client.ReturnCode.{ReturnCode, memory_allocation_failure}
use arcus_c_client.Server.{Server}
use arcus_c_client.Rgroup.{Rgroup, ◌>>=◌}
use arcus_c_client.Rgroup.Slots.{address, pad}
use arcus_c_client.GroupList.{
  RgroupClient, RgroupOutside, rgroup_addresses, add_rgroups, rgroup_expand,
}
use arcus_c_client.GroupList.Ring.{run_rgroup_distribution}
use arcus_c_client.GroupList.Listing.{rgroup_push}
use arcus_c_client.GroupList.Members.{Member, Entry, entry, present, present-pad, WellFormed}
use arcus_c_client.GroupList.Add.{IsGroupable, Roomy, Roomy-free, Added, add_group-Added}
use arcus_c_client.GroupList.Expand.{rgroup_expand-Expanded}
use arcus_c_client.GroupList.Sorting.{
  SortsGroups, IsSpy, IsSpy-Same, run_rgroup_distribution-Rearranged,
}
use arcus_c_client.GroupList.Asked.{Added-refl, Added-trans}

-- What a group of another client is pushed as: with its addresses, and the weight 1.
abbrev pub pushed : Rgroup → Entry
pushed g = record { groupname = g.groupname; weight = 1; addresses = present g.replicas }

-- A group whose name and addresses can be made a group of.
abbrev pub IsPushable : Rgroup → Type 0
IsPushable g =
    ((i : ℕ) × (xs : List Server) × Member i g xs) × IsGroupable g.groupname (present g.replicas)

rgroup_addresses-pad :
    (n : ℕ) (xs : List Server)
    → length xs ≤ n
    → rgroup_addresses (length xs) (pad n xs) ≡ some (map address xs)
unfolding rgroup_addresses
rgroup_addresses-pad n [] h = refl
rgroup_addresses-pad zero (x ∷ xs) h = absurd (omega arith)
rgroup_addresses-pad (suc n) (x ∷ xs) h = rw (rgroup_addresses-pad n xs (omega arith))

pub rgroup_addresses-present :
    (i : ℕ) (g : Rgroup) (xs : List Server)
    → Member i g xs
    → rgroup_addresses g.nreplica g.replicas ≡ some (present g.replicas)
rgroup_addresses-present i g xs m =
    simp (m.nreplica_eq, m.replicas_eq)
      (rgroup_addresses-pad 3 xs m.fits ∙ ap some (sym (present-pad 3 xs m.fits)))

Added-weighted :
    (c c' : RgroupClient) (l : List Entry) (b : Bool)
    → Added c c' l
    → Added c (if b then record c' { weighted = true } else c') l
Added-weighted c c' l true a = record {
  well_formed = record {
    numbered = a.well_formed.numbered;
    within = a.well_formed.within;
    total = a.well_formed.total;
    available = a.well_formed.available;
  };
  entries = a.entries;
  same = record {
    slots = a.same.slots;
    servers = a.same.servers;
    sorted = a.same.sorted;
    distribution = a.same.distribution;
    ejecting = a.same.ejecting;
  };
  size = a.size;
}
Added-weighted c c' l false a = a

add_rgroups-Added :
    (o : RgroupOutside) (l : List Rgroup) (c : RgroupClient)
    → WellFormed c
    → All IsPushable l
    → length c.rgroups + length l ≤ c.rgroup_ntotal
    → Roomy (length c.rgroups + length l) c
    → (c' : RgroupClient) × (add_rgroups o l c ≡ some c') × Added c c' (map pushed l)
unfolding add_rgroups
add_rgroups-Added o [] c w p slots room = (c, refl, Added-refl c w)
add_rgroups-Added o (g ∷ rest) c w (((i, xs, m), ok), p) slots room =
    let (c₀, made, a₀) =
      add_group-Added o g.groupname (present g.replicas) c w ok (omega arith)
        (Roomy-free (length c.rgroups + suc (length rest)) c w room (omega arith)) in
    let c₁ = if ltb 1 g.weight then record c₀ { weighted = true } else c₀ in
    let a₁ = Added-weighted c c₀ (pushed g ∷ []) (ltb 1 g.weight) a₀ in
    let (c₂, run, a₂) =
      add_rgroups-Added o rest c₁ a₁.well_formed p (omega (arith, a₁.size, a₁.same.slots))
        (omega (arith, a₁.size, a₁.same.servers)) in
    (
      c₂,
      simp (rgroup_addresses-present i g xs m) (rw (made, ◌>>=◌) run),
      Added-trans c c₁ c₂ (pushed g ∷ []) (map pushed rest) a₁ a₂,
    )

-- What a call of `memcached_rgroup_push` leaves.
pub record Pushed (l : List Rgroup) (c : RgroupClient) (a : ReturnCode × RgroupClient)
    : Type 0 where
  pub well_formed : WellFormed a.1
  pub outcome :
      Perm (map entry a.1.rgroups) (map entry c.rgroups ++ map pushed l)
      ⊎ ((a.0 ≡ memory_allocation_failure) × (a.1.rgroups ≡ c.rgroups))

module _ (o : RgroupOutside) (sorts : SortsGroups o) where
  expanded-Pushed :
      (l : List Rgroup) (c c₁ : RgroupClient)
      → All IsPushable l
      → IsSpy c₁
      → WellFormed c₁
      → c₁.rgroups ≡ c.rgroups
      → length c.rgroups + length l ≤ c₁.rgroup_ntotal
      → Roomy (length c.rgroups + length l) c₁
      → (a : ReturnCode × RgroupClient) × ((add_rgroups o l c₁ >>= run_rgroup_distribution o)
          ≡ some a)
        × Pushed l c a
  expanded-Pushed l c c₁ p spy w kept slots room =
      let (c₂, run, a) =
        add_rgroups-Added o l c₁ w p (omega (arith, ap length kept))
          (omega (arith, ap length kept)) in
      let (r, ring, d) =
        run_rgroup_distribution-Rearranged o sorts c₂ a.well_formed (IsSpy-Same c₁ c₂ a.same spy) in
      (
        r,
        rw (run, ◌>>=◌) ring,
        record {
          well_formed = d.well_formed;
          outcome = inl (Perm.trans d.entries (rw (a.entries, kept) (Perm.refl _)));
        },
      )

  expand_step :
      (l : List Rgroup) (c : RgroupClient) (r : Bool × RgroupClient)
      → length l + length c.rgroups < 2 ^ 30
      → rgroup_expand o (length l + length c.rgroups) ((length l + length c.rgroups) * 3) c ≡ some r
      → rgroup_push o l c ≡ (
          if r.0
          then add_rgroups o l r.1 >>= run_rgroup_distribution o
          else some (memory_allocation_failure, r.1))
  unfolding rgroup_push
  expand_step l c r few run =
      let e₁ : (length l + length c.rgroups) % 2 ^ 32 ≡ length l + length c.rgroups = omega arith in
      let e₂ : ((length l + length c.rgroups) * 3) % 2 ^ 32 ≡ (length l + length c.rgroups) * 3 =
        omega arith in
      rw (e₁, e₂, run, ◌>>=◌) refl

  -- With a sort that permutes, to a client with replica groups in their places and the distribution of such clients, a
  -- push of groups of one to three valid addresses and short names, with less than 2^30 groups in
  -- all, fails no assertion, writes within the array and takes no server from an empty pool.
  -- Either it is out of memory and the client has the groups that it had, or it has those and the new ones, with
  -- their names and addresses, the weight 1, in any order; the pool's counters are right in any case.
  pub rgroup_push-Pushed :
      (l : List Rgroup) (c : RgroupClient)
      → WellFormed c
      → IsSpy c
      → All IsPushable l
      → length l + length c.rgroups < 2 ^ 30
      → (a : ReturnCode × RgroupClient) × (rgroup_push o l c ≡ some a) × Pushed l c a
  rgroup_push-Pushed l c w spy p few =
      let sum = length l + length c.rgroups in
      let (r, run, x) = rgroup_expand-Expanded o sum (sum * 3) c w (omega arith) (omega arith) in
      let step = expand_step l c r few run in
      elim (Bool-cases r.0) [
        | inl ok ↦
            let spy₁ : IsSpy r.1 = record {
              distribution = x.settings.0 ∙ spy.distribution;
              ejecting = x.settings.1 ∙ spy.ejecting;
            } in
            let (a, later, done) =
              expanded-Pushed l c r.1 p spy₁ x.well_formed x.kept (omega (arith, x.enough_slots ok))
                (omega (arith, x.enough_servers ok)) in
            (
              a,
              step
                  ∙ ap
                      (λ b.
                        if b
                        then (add_rgroups o l r.1 >>= run_rgroup_distribution o)
                        else some (memory_allocation_failure, r.1))
                      ok
                  ∙ later,
              done,
            )
        | inr bad ↦ (
          (memory_allocation_failure, r.1),
          step
              ∙ ap
                  (λ b.
                    if b
                    then (add_rgroups o l r.1 >>= run_rgroup_distribution o)
                    else some (memory_allocation_failure, r.1))
                  bad,
          record { well_formed = x.well_formed; outcome = inr (refl, x.kept) },
        )
      ]
