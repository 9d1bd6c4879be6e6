-- ===== src/Keys/Valid.antt =====
-- The keys that the tests accept.
use arcus_c_client.Prelude.{
  ℕ, ◌≤◌, ◌<◌, ◌≡◌, ◌⊎◌, refl, ◌∙◌, inl, inr, Bool, true, false, ◌&&◌, not, List, [], ◌∷◌, All,
  arith, Bool-cases, length, if◌then◌else◌,
}
use arcus_c_client.ReturnCode.{success, bad_key_provided}
use arcus_c_client.Text.{Bytes}
use arcus_c_client.Keys.{validate_key_length, all_graph, test_keys, key_test}

-- A key that fits the protocol, and whose characters are printable where they are verified.
pub record IsValidKey (isgraph : ℕ → Bool) (verify_key binary : Bool) (key : Bytes) : Type 0 where
  pub some_text : 0 < length key
  pub fits : length key ≤ (if binary then 65535 else 4000)
  pub graph : (verify_key && not binary) ≡ true → All (λ c. isgraph c ≡ true) key

module _ (isgraph : ℕ → Bool) (verify_key binary : Bool) where
  all_graph-All : (key : Bytes) → all_graph isgraph key ≡ true → All (λ c. isgraph c ≡ true) key
  unfolding all_graph
  all_graph-All [] h = tt
  all_graph-All (c ∷ key) h = elim (Bool-cases (isgraph c)) [
    | inl e ↦ (e, all_graph-All key (rw e at h))
    | inr e ↦ cc (rw e at h)
  ]

  All-all_graph : (key : Bytes) → All (λ c. isgraph c ≡ true) key → all_graph isgraph key ≡ true
  unfolding all_graph
  All-all_graph [] h = refl
  All-all_graph (c ∷ key) h = rw h.0 (All-all_graph key h.1)

  validate_key_length-cases :
      (n : ℕ)
      → ((validate_key_length n binary ≡ success)
          × ((0 < n) × (n ≤ (if binary then 65535 else 4000))))
        ⊎ ((validate_key_length n binary ≡ bad_key_provided)
            × (((0 < n) × (n ≤ (if binary then 65535 else 4000))) → ⊥))
  unfolding validate_key_length
  validate_key_length-cases n = ground arith

  -- One key, and the others.
  test_keys-cons :
      (key : Bytes) (keys : List Bytes)
      → ((test_keys isgraph verify_key binary (key ∷ keys)
            ≡ test_keys isgraph verify_key binary keys)
          × IsValidKey isgraph verify_key binary key)
        ⊎ ((test_keys isgraph verify_key binary (key ∷ keys) ≡ bad_key_provided)
            × (IsValidKey isgraph verify_key binary key → ⊥))
  unfolding test_keys
  test_keys-cons key keys = elim (validate_key_length-cases (length key)) [
    | inr (e, bad) ↦ inr (rw (test_keys, e) refl, λ v. bad (v.some_text, v.fits))
    | inl (e, good) ↦
        let bad : Bool = verify_key && not binary && not (all_graph isgraph key) in
        elim (Bool-cases (all_graph isgraph key)) [
          | inl g ↦
              let pass : bad ≡ false = ground arith in
              inl (
                rw (test_keys, e, pass) refl,
                record { some_text = good.0; fits = good.1; graph = λ _. all_graph-All key g },
              )
          | inr n ↦ elim (Bool-cases (verify_key && not binary)) [
            | inl on ↦
                let stop : bad ≡ true = ground arith in
                inr (rw (test_keys, e, stop) refl, λ v. cc (All-all_graph key (v.graph on), n))
            | inr off ↦
                let pass : bad ≡ false = ground arith in
                inl (
                  rw (test_keys, e, pass) refl,
                  record { some_text = good.0; fits = good.1; graph = λ on. cc (on, off) },
                )
          ]
        ]
  ]

  test_keys-IsValidKey :
      (keys : List Bytes)
      → ((test_keys isgraph verify_key binary keys ≡ success)
          × All (IsValidKey isgraph verify_key binary) keys)
        ⊎ ((test_keys isgraph verify_key binary keys ≡ bad_key_provided)
            × (All (IsValidKey isgraph verify_key binary) keys → ⊥))
  unfolding test_keys
  test_keys-IsValidKey [] = inl (refl, tt)
  test_keys-IsValidKey (key ∷ keys) = elim (test_keys-cons key keys) [
    | inr (e, bad) ↦ inr (e, λ v. bad v.0)
    | inl (e, good) ↦ elim (test_keys-IsValidKey keys) [
      | inl (f, rest) ↦ inl (e ∙ f, (good, rest))
      | inr (f, bad) ↦ inr (e ∙ f, λ v. bad v.1)
    ]
  ]

  -- The test of one or more keys succeeds if all of them are valid, and tells of a bad key if one of
  -- them is not.
  pub key_test-IsValidKey :
      (key : Bytes) (keys : List Bytes)
      → ((key_test isgraph verify_key binary (key ∷ keys) ≡ success)
          × All (IsValidKey isgraph verify_key binary) (key ∷ keys))
        ⊎ ((key_test isgraph verify_key binary (key ∷ keys) ≡ bad_key_provided)
            × (All (IsValidKey isgraph verify_key binary) (key ∷ keys) → ⊥))
  unfolding key_test
  key_test-IsValidKey key keys = test_keys-IsValidKey (key ∷ keys)
