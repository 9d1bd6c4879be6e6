-- ===== src/Dispatch.antt =====
-- From a key to a server: the hash of a key with its namespace and its shard tag, and
-- `dispatch_host`, of libmemcached/hash.cc.
pub mod Shard
pub mod Servers
use arcus_c_client.Prelude.{
  ℕ, zero, suc, ◌+◌, ◌-◌, ◌%◌, ◌^◌, Bool, true, false, Option, none, some, List, [], ◌∷◌, ◌++◌, leb,
  ◌==◌, if◌then◌else◌, length, take, get_elem?, replicate,
}
use arcus_c_client.Text.{Bytes}
use arcus_c_client.Ring.{ContinuumItem, Distribution, dispatch_continuum}

abbrev pub max_key : ℕ
max_key = 4001

-- `memchr`: the text from the first such byte on, within a length.
unfoldable pub memchr : Bytes → ℕ → ℕ → Option Bytes
memchr [] c n = none
memchr (x ∷ text) c zero = none
memchr (x ∷ text) c (suc n) = if x == c then some (x ∷ text) else memchr text c n

-- The key from its second byte on: `left + 1`.
abbrev after : Bytes → Bytes
after [] = []
after (x ∷ text) = text

-- `get_shard_key`; a pointer into the key is the rest of the key from there. `nkey` is a
-- `uint32_t`, and so the key is read modulo 2 ^ 32.
unfoldable pub get_shard_key : Bytes → Bytes
unfolding memchr
get_shard_key key =
    let nkey = length key % 2 ^ 32 in
    elim (memchr key b'{' nkey) [
      | none ↦ take nkey key
      | some left ↦ elim (memchr (after left) b'}' (nkey - (length key - length left) - 1)) [
        | none ↦ take nkey key
        | some right ↦
            if length (after left) == length right
            then take nkey key
            else take (length (after left) - length right) (after left)
      ]
    ]

-- The parts of `memcached_st` that a key is hashed and sent by. `digest` is `hashkit_digest` of the
-- client's `hashkit`.
pub record Dispatcher : Type 0 where
  pub digest : Bytes → ℕ
  pub enable_shard_key : Bool
  pub name_space : Bytes
  pub distribution : Distribution
  pub number_of_hosts : ℕ
  pub ring : List ContinuumItem
  -- `memcached_virtual_bucket_get`
  pub virtual_bucket_get : ℕ → ℕ

-- `generate_hash`
unfoldable pub generate_hash : Dispatcher → Bytes → ℕ
generate_hash ptr key = ptr.digest (if ptr.enable_shard_key then get_shard_key key else key)

-- `strncpy(to, text, length)` of a text of that length: NULs from its first NUL on.
unfoldable pub strncpy : Bytes → Bytes
strncpy [] = []
strncpy (b ∷ text) = if b == 0 then replicate (suc (length text)) 0 else b ∷ strncpy text

-- `_generate_hash_wrapper`
unfoldable pub generate_hash_wrapper : Dispatcher → Bytes → ℕ
unfolding generate_hash
generate_hash_wrapper ptr key =
    if ptr.number_of_hosts == 1
    then 0
    else if length ptr.name_space == 0
    then generate_hash ptr key
    else if leb max_key (length ptr.name_space + length key)
    then 0
    else generate_hash ptr (strncpy ptr.name_space ++ strncpy key)

-- `dispatch_host`; `random` is the value that `random()` returns. `none` stands for a division by no
-- hosts and for a read outside of the ring.
unfoldable pub dispatch_host : Dispatcher → ℕ → ℕ → Option ℕ
unfolding dispatch_continuum
dispatch_host ptr random hash =
    let modulo : ℕ → Option ℕ =
      λ n. if ptr.number_of_hosts == 0 then none else some (n % ptr.number_of_hosts) in
    elim ptr.distribution [
      | Distribution.consistent ↦ dispatch_continuum ptr.ring hash
      | Distribution.consistent_ketama ↦ dispatch_continuum ptr.ring hash
      | Distribution.consistent_ketama_spy ↦ dispatch_continuum ptr.ring hash
      | Distribution.modula ↦ modulo hash
      | Distribution.random ↦ modulo (random % 2 ^ 32)
      | Distribution.virtual_bucket ↦ some (ptr.virtual_bucket_get hash)
      | Distribution.consistent_max ↦ modulo hash
    ]

-- `memcached_generate_hash`
unfoldable pub generate_server : Dispatcher → ℕ → Bytes → Option ℕ
unfolding generate_hash_wrapper dispatch_host
generate_server ptr random key = dispatch_host ptr random (generate_hash_wrapper ptr key)
