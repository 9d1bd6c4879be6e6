-- ===== src/Tests/DispatchTests.antt =====
-- Keys with a shard tag.
use arcus_c_client.Prelude.{ℕ, ◌≡◌, refl, some, [], ◌∷◌, ◌++◌, true, arith, length}
use arcus_c_client.Text.{codes}
use arcus_c_client.Ring.{Distribution}
use arcus_c_client.Dispatch.{
  Dispatcher, get_shard_key, generate_hash, memchr, strncpy, generate_hash_wrapper, dispatch_host,
  generate_server,
}
use arcus_c_client.Dispatch.Shard.{get_shard_key-tag, generate_hash-tag}
use arcus_c_client.Dispatch.Servers.{generate_server-live_at}
use arcus_c_client.Ketama.{update_continuum, ring_of}
use arcus_c_client.Ketama.Hosts.{live_at}
use arcus_c_client.Ketama.Live.{Rebuilt, update_continuum-Rebuilt}
use arcus_c_client.Tests.KetamaTests.{
  primitives, primitives-SortsConsistently, environment, client, client-CanBuild,
}

program : Unit {0}
unfolding memchr strncpy get_shard_key generate_hash generate_hash_wrapper dispatch_host
    generate_server
program = tt

shard_first : get_shard_key (codes "user{42}{7}") ≡ codes "42"
unfolding program
shard_first = refl

-- An empty tag is no tag.
shard_empty : get_shard_key (codes "a{}b{c}") ≡ codes "a{}b{c}"
unfolding program
shard_empty = refl

shard_open : get_shard_key (codes "a{b") ≡ codes "a{b"
unfolding program
shard_open = refl

abbrev ptr : Dispatcher
ptr = record {
  digest = length;
  enable_shard_key = true;
  name_space = [];
  distribution = Distribution.modula;
  number_of_hosts = 3;
  ring = [];
  virtual_bucket_get = λ h. 0;
}

server_of_key : generate_server ptr 0 (codes "user{42}") ≡ some 2
unfolding program
server_of_key = refl

-- With a namespace, the key is cut at a NUL and filled up with others.
hash_of_nul :
    generate_hash_wrapper
      (record ptr { name_space = codes "p:"; digest = λ key. length (get_shard_key key) })
      (codes "a" ++ 0 ∷ codes "{b}")
    ≡ 7
unfolding program
hash_of_nul = refl

get_shard_key-tag_example :
    get_shard_key (codes "user" ++ (b'{' ∷ (codes "42" ++ (b'}' ∷ codes "x")))) ≡ codes "42"
get_shard_key-tag_example =
    get_shard_key-tag (codes "user") (codes "42") (codes "x") (refl, (refl, (refl, (refl, tt))))
      (refl, (refl, tt)) (omega arith) (omega arith)

generate_hash-tag_example :
    generate_hash ptr (codes "user" ++ (b'{' ∷ (codes "42" ++ (b'}' ∷ codes "x"))))
    ≡ generate_hash ptr (codes "cart" ++ (b'{' ∷ (codes "42" ++ (b'}' ∷ []))))
generate_hash-tag_example =
    generate_hash-tag ptr (codes "user") (codes "x") (codes "cart") [] (codes "42") refl
      (refl, (refl, (refl, (refl, tt)))) (refl, (refl, (refl, (refl, tt)))) (refl, (refl, tt))
      (omega arith) (omega arith) (omega arith)

abbrev rebuilt :
    Rebuilt primitives primitives-SortsConsistently environment 1000 client
      (update_continuum primitives environment client)
rebuilt =
    update_continuum-Rebuilt primitives primitives-SortsConsistently environment 1000 client refl
      refl client-CanBuild

abbrev on_ring : Dispatcher
on_ring = record ptr {
  distribution = Distribution.consistent_ketama_spy;
  number_of_hosts = 2;
  ring = ring_of rebuilt.made;
}

generate_server-live_at_example :
    (i : ℕ) × (generate_server on_ring 0 (codes "user{42}") ≡ some i)
    × (live_at true 1000 client.servers i ≡ true)
generate_server-live_at_example =
    generate_server-live_at on_ring true 1000 client.servers rebuilt.is_live_ring
      client-CanBuild.some_live refl 0 (codes "user{42}")
