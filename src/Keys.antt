-- ===== src/Keys.antt =====
-- The tests of keys, and the namespace of a client: libmemcached/key.cc and libmemcached/namespace.cc.
pub mod Valid
pub mod Namespace
use arcus_c_client.Prelude.{
  ℕ, zero, suc, ◌-◌, Bool, true, false, ◌&&◌, not, Option, none, some, List, [], ◌∷◌, leb, ltb,
  ◌==◌, if◌then◌else◌, length, take,
}
use arcus_c_client.ReturnCode.{
  ReturnCode, success, invalid_arguments, bad_key_provided, key_too_big, memory_allocation_failure,
}
use arcus_c_client.Outcome.{memcached_failed}
use arcus_c_client.Text.{Bytes}

abbrev pub max_key : ℕ
max_key = 4001

abbrev pub prefix_key_max_size : ℕ
prefix_key_max_size = 128

-- `memcached_validate_key_length`
unfoldable pub validate_key_length : ℕ → Bool → ReturnCode
validate_key_length key_length binary =
    if key_length == 0
    then bad_key_provided
    else if binary
    then (if ltb 0xffff key_length then bad_key_provided else success)
    else if leb max_key key_length
    then bad_key_provided
    else success

-- The loop over the characters of a key; `isgraph` is that of the C library.
unfoldable pub all_graph : (ℕ → Bool) → Bytes → Bool
all_graph isgraph [] = true
all_graph isgraph (c ∷ key) = if isgraph c then all_graph isgraph key else false

-- The loop over the keys
unfoldable pub test_keys : (ℕ → Bool) → Bool → Bool → List Bytes → ReturnCode
unfolding validate_key_length all_graph
test_keys isgraph verify_key binary [] = success
test_keys isgraph verify_key binary (key ∷ keys) =
    let later = test_keys isgraph verify_key binary keys in
    elim (validate_key_length (length key) binary) [
      | ReturnCode.success ↦
          if verify_key && not binary && not (all_graph isgraph key)
          then bad_key_provided
          else later
      | rc ↦ rc
    ]

-- `memcached_key_test`, of keys that are not NULL
unfoldable pub key_test : (ℕ → Bool) → Bool → Bool → List Bytes → ReturnCode
unfolding test_keys
key_test isgraph verify_key binary [] = invalid_arguments
key_test isgraph verify_key binary (key ∷ keys) = test_keys isgraph verify_key binary (key ∷ keys)

-- What `memcached_set_namespace` reads and changes of a client
pub record Named : Type 0 where
  pub verify_key : Bool
  pub binary_protocol : Bool
  pub name_space : Option Bytes
  pub error : Option ReturnCode

-- `memcached_set_error`
abbrev set_error : Named → ReturnCode → ReturnCode × Named
set_error self rc = (rc, record self { error = some rc })

-- The branch for a namespace that is given; `allocated` is the success of `memcached_strcpy`.
unfoldable pub set_given : (ℕ → Bool) → Bool → Named → Bytes → ReturnCode × Named
unfolding memcached_failed key_test
set_given isgraph allocated self key =
    let orig = self.verify_key in
    let verifying : Named = record self { verify_key = true } in
    let rc = key_test isgraph verifying.verify_key verifying.binary_protocol (key ∷ []) in
    let restored : Named = record verifying { verify_key = orig } in
    if memcached_failed rc
    then set_error restored rc
    else if ltb (prefix_key_max_size - 1) (length key)
    then set_error restored key_too_big
    else if allocated
    then (success, record restored { name_space = some key })
    else set_error (record restored { name_space = none }) memory_allocation_failure

-- `memcached_set_namespace` of a pointer, `none` for NULL, and a length
unfoldable pub set_namespace : (ℕ → Bool) → Bool → Named → Option Bytes → ℕ → ReturnCode × Named
unfolding set_given
set_namespace isgraph allocated self none zero = (success, record self { name_space = none })
set_namespace isgraph allocated self none (suc key_length) = set_error self invalid_arguments
set_namespace isgraph allocated self (some key) zero = set_error self invalid_arguments
set_namespace isgraph allocated self (some key) (suc key_length) =
    set_given isgraph allocated self (take (suc key_length) key)
