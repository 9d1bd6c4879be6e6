-- ===== src/Dispatch/Shard.antt =====
-- The shard tag of a key, against a description that does not search: the text between the first
-- opening brace and the first closing brace after it.
use arcus_c_client.Prelude.{take-append_exact}
use arcus_c_client.Prelude.{
  ℕ, zero, suc, ◌-◌, ◌%◌, ◌^◌, ◌<◌, ◌≡◌, refl, true, false, none, some, [], ◌∷◌, ◌++◌, ◌==◌, length,
  length-append, All, arith,
}
use arcus_c_client.Text.{Bytes}
use arcus_c_client.Dispatch.{memchr, get_shard_key, Dispatcher, generate_hash}

-- A text without a byte.
abbrev pub Without : ℕ → Bytes → Type 0
Without c text = All (λ x. (x == c) ≡ false) text

memchr-Without :
    (a b : Bytes) (c n : ℕ) → Without c a → length a < n → memchr (a ++ (c ∷ b)) c n ≡ some (c ∷ b)
unfolding memchr
memchr-Without [] b c zero w h = absurd (omega arith)
memchr-Without [] b c (suc n) w h = ground arith
memchr-Without (x ∷ a) b c zero w h = absurd (omega arith)
memchr-Without (x ∷ a) b c (suc n) w h = rw w.0 (memchr-Without a b c n w.1 (omega arith))

memchr-none : (a : Bytes) (c n : ℕ) → Without c a → memchr a c n ≡ none
unfolding memchr
memchr-none [] c n w = refl
memchr-none (x ∷ a) c zero w = refl
memchr-none (x ∷ a) c (suc n) w = rw w.0 (memchr-none a c n w.1)

-- The shard tag of a key of fewer than 2 ^ 32 bytes is the text between its first `{` and the first
-- `}` after it, when that text is not empty.
pub get_shard_key-tag :
    (a tag b : Bytes)
    → Without b'{' a
    → Without b'}' tag
    → 0 < length tag
    → length (a ++ (b'{' ∷ (tag ++ (b'}' ∷ b)))) < 2 ^ 32
    → get_shard_key (a ++ (b'{' ∷ (tag ++ (b'}' ∷ b)))) ≡ tag
unfolding get_shard_key
get_shard_key-tag a tag b wa wt pos small =
    let rest = tag ++ (b'}' ∷ b) in
    let l₁ = length-append a (b'{' ∷ rest) in
    let l₂ = length-append tag (b'}' ∷ b) in
    let nkey = length (a ++ (b'{' ∷ rest)) % 2 ^ 32 in
    let left = memchr-Without a rest b'{' nkey wa (omega arith) in
    let right =
      memchr-Without tag b b'}' (nkey - (length (a ++ (b'{' ∷ rest)) - length (b'{' ∷ rest)) - 1) wt
        (omega arith) in
    let ne : (length rest == length (b'}' ∷ b)) ≡ false = ground arith in
    rw (get_shard_key, left, right, ne)
      (take-append_exact tag (b'}' ∷ b) (length rest - length (b'}' ∷ b)) (omega arith))

-- Keys of fewer than 2 ^ 32 bytes with the same shard tag have the same hash when shard keys are
-- enabled, whatever stands before and after the tag.
pub generate_hash-tag :
    (ptr : Dispatcher) (a b c d tag : Bytes)
    → ptr.enable_shard_key ≡ true
    → Without b'{' a
    → Without b'{' c
    → Without b'}' tag
    → 0 < length tag
    → length (a ++ (b'{' ∷ (tag ++ (b'}' ∷ b)))) < 2 ^ 32
    → length (c ++ (b'{' ∷ (tag ++ (b'}' ∷ d)))) < 2 ^ 32
    → generate_hash ptr (a ++ (b'{' ∷ (tag ++ (b'}' ∷ b))))
      ≡ generate_hash ptr (c ++ (b'{' ∷ (tag ++ (b'}' ∷ d))))
unfolding generate_hash
generate_hash-tag ptr a b c d tag on wa wc wt pos small₁ small₂ =
    rw (on, get_shard_key-tag a tag b wa wt pos small₁, get_shard_key-tag c tag d wc wt pos small₂)
      refl
