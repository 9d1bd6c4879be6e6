-- ===== src/Keys/Namespace.antt =====
-- The namespace of a client is valid whatever it is set to, and setting it leaves the flags as they were.
use arcus_c_client.Prelude.{
  ℕ, zero, suc, ◌<◌, ◌≡◌, ◌⊎◌, refl, inl, inr, Bool, true, Option, none, some, [], arith,
  Bool-cases, length, take, ltb,
}
use arcus_c_client.ReturnCode.{ReturnCode, success}
use arcus_c_client.Outcome.{memcached_failed}
use arcus_c_client.Text.{Bytes}
use arcus_c_client.Keys.{Named, set_given, set_namespace}
use arcus_c_client.Keys.Valid.{IsValidKey, key_test-IsValidKey}

-- A namespace that can stand before a key: it is a valid key of fewer than 128 bytes.
abbrev pub IsNamespace : (ℕ → Bool) → Bool → Option Bytes → Type 0
IsNamespace isgraph binary none = Unit
IsNamespace isgraph binary (some key) = IsValidKey isgraph true binary key × (length key < 128)

-- What a call leaves: the flags as they were, a valid namespace, and on success the one that was asked.
pub record Set (isgraph : ℕ → Bool) (self : Named) (wanted : Option Bytes) (r : ReturnCode × Named)
    : Type 0 where
  pub verify_kept : r.1.verify_key ≡ self.verify_key
  pub binary_kept : r.1.binary_protocol ≡ self.binary_protocol
  pub valid : IsNamespace isgraph self.binary_protocol r.1.name_space
  pub outcome : ((r.0 ≡ success) × (r.1.name_space ≡ wanted)) ⊎ (r.1.error ≡ some r.0)

module _ (isgraph : ℕ → Bool) (allocated : Bool) where
  set_given-Set :
      (self : Named) (key : Bytes)
      → IsNamespace isgraph self.binary_protocol self.name_space
      → Set isgraph self (some key) (set_given isgraph allocated self key)
  unfolding set_given memcached_failed
  set_given-Set self key h = elim (key_test-IsValidKey isgraph true self.binary_protocol key []) [
    | inr (e, bad) ↦
        rw (set_given, e)
          (record { verify_kept = refl; binary_kept = refl; valid = h; outcome = inr refl })
    | inl (e, good) ↦ elim (Bool-cases (ltb 127 (length key))) [
      | inl long ↦
          rw (set_given, e, long)
            (record { verify_kept = refl; binary_kept = refl; valid = h; outcome = inr refl })
      | inr short ↦ elim (Bool-cases allocated) [
        | inl a ↦
            rw (set_given, e, short, a)
              (record {
                verify_kept = refl;
                binary_kept = refl;
                valid = (good.0, ground arith);
                outcome = inl (refl, refl);
              })
        | inr a ↦
            rw (set_given, e, short, a)
              (record { verify_kept = refl; binary_kept = refl; valid = tt; outcome = inr refl })
      ]
    ]
  ]

  -- Whatever namespace is asked for, of whatever length and with or without memory for it, the flags of
  -- a client with a valid namespace are as they were, its namespace is valid, and the call either
  -- succeeds with the namespace that was asked for or keeps its return code as the client's error.
  pub set_namespace-Set :
      (self : Named) (key : Option Bytes) (key_length : ℕ)
      → IsNamespace isgraph self.binary_protocol self.name_space
      → Set isgraph self
          (elim key [ none ↦ none | some text ↦ some (take key_length text) ])
          (set_namespace isgraph allocated self key key_length)
  unfolding set_namespace
  set_namespace-Set self none zero h = record {
    verify_kept = refl;
    binary_kept = refl;
    valid = tt;
    outcome = inl (refl, refl);
  }
  set_namespace-Set self none (suc n) h = record {
    verify_kept = refl;
    binary_kept = refl;
    valid = h;
    outcome = inr refl;
  }
  set_namespace-Set self (some key) zero h = record {
    verify_kept = refl;
    binary_kept = refl;
    valid = h;
    outcome = inr refl;
  }
  set_namespace-Set self (some key) (suc n) h = set_given-Set self (take (suc n) key) h
