-- ===== src/Ketama/Failures.antt =====
-- What `update_continuum` keeps when it fails.
use arcus_c_client.Prelude.{
  ℕ, ◌≡◌, refl, ◌⊎◌, inl, inr, Bool, true, false, not, none, some, [], ◌==◌, if◌then◌else◌,
}
use arcus_c_client.ReturnCode.{ReturnCode, success, errno, memory_allocation_failure}
use arcus_c_client.Ketama.{
  Client, Primitives, Environment, add_hosts, share, make_info, live_servers, build,
  update_continuum, no_weights, sum_weights,
}
use arcus_c_client.Ketama.Live.{live_servers-client}

-- The servers are as they were, and so is the ring if the call did not succeed.
abbrev pub Kept : Client → ReturnCode × Client → Type 0
Kept ptr r = (r.1.servers ≡ ptr.servers) × ((r.0 ≡ success) ⊎ (r.1.info ≡ ptr.info))

if-Kept :
    (ptr : Client) (b : Bool) (x y : ReturnCode × Client)
    → Kept ptr x
    → Kept ptr y
    → Kept ptr (if b then x else y)
if-Kept ptr true x y p q = p
if-Kept ptr false x y p q = q

build-Kept :
    (c : Primitives) (env : Environment) (now live : ℕ) (ptr : Client)
    → Kept ptr (build c env now live ptr)
unfolding build
build-Kept c env now live ptr =
    let w =
      if ptr.weighted
      then sum_weights ptr.auto_eject_hosts now ptr.servers no_weights
      else no_weights in
    if-Kept ptr (not env.info_allocated) _ _ (refl, inr refl)
      (if-Kept ptr (not env.continuum_allocated) _ _ (refl, inr refl)
        (elim (add_hosts c.signature ptr.distribution ptr.auto_eject_hosts now
            (share c ptr.weighted w live) 0 ptr.servers
            (record { items = []; pointer_counter = 0 }))
          as (λ o. Kept ptr (elim o [
            | none ↦
                (memory_allocation_failure, record ptr { error = some memory_allocation_failure })
            | some p ↦ (success, record ptr { info = some (make_info c ptr p) })
          ])) [ none ↦ (refl, inr refl) | some p ↦ (refl, inl refl) ]))

-- The client keeps its servers in order, and on any return code but success it keeps the ring it had.
pub update_continuum-Kept :
    (c : Primitives) (env : Environment) (ptr : Client) → Kept ptr (update_continuum c env ptr)
unfolding update_continuum
update_continuum-Kept c env ptr =
    elim env.pool_master
      as (λ m. Kept ptr (elim m [
        | some master ↦ (success, record ptr { info = master })
        | none ↦ elim env.now [
          | none ↦ (errno, record ptr { error = some errno })
          | some now ↦
              let r = live_servers now ptr in
              if r.0 == 0 then (success, r.1) else build c env now r.0 r.1
        ]
      ])) [
        | some master ↦ (refl, inl refl)
        | none ↦
            elim env.now
              as (λ n. Kept ptr (elim n [
                | none ↦ (errno, record ptr { error = some errno })
                | some now ↦
                    let r = live_servers now ptr in
                    if r.0 == 0 then (success, r.1) else build c env now r.0 r.1
              ])) [
                | none ↦ (refl, inr refl)
                | some now ↦
                    if-Kept ptr ((live_servers now ptr).0 == 0) _ _
                      (let (t, same) = live_servers-client now ptr in rw same (refl, inl refl))
                      (let (t, same) = live_servers-client now ptr in
                        rw same (
                          build-Kept c env now (live_servers now ptr).0
                            (record ptr { next_distribution_rebuild = t })))
              ]
      ]
