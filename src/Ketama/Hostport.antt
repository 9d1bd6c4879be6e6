-- ===== src/Ketama/Hostport.antt =====
-- The comparison of two servers' names is that of their "host:port" texts, so it is a consistent
-- order, as `qsort` asks.
use arcus_c_client.Prelude.{ℕ, ◌≡◌, ◌≢◌, refl, [], ◌∷◌, ◌++◌, Ordering, length, arith}
use arcus_c_client.Server.{Server}
use arcus_c_client.Text.{Bytes, strcmp}
use arcus_c_client.Ketama.{hostport, compare_server_hostport}

strcmp-append :
    (a b x y : Bytes)
    → length a ≡ length b
    → strcmp a b ≢ Ordering.eq
    → strcmp (a ++ x) (b ++ y) ≡ strcmp a b
unfolding strcmp
strcmp-append [] [] x y l n = absurd (n refl)
strcmp-append [] (c ∷ b) x y l n = absurd (omega arith)
strcmp-append (c ∷ a) [] x y l n = absurd (omega arith)
strcmp-append (c ∷ a) (d ∷ b) x y l n = ground (arith, strcmp-append a b x y)

strcmp-append_same :
    (a b x y : Bytes) → strcmp a b ≡ Ordering.eq → strcmp (a ++ x) (b ++ y) ≡ strcmp x y
unfolding strcmp
strcmp-append_same [] [] x y h = refl
strcmp-append_same [] (c ∷ b) x y h = cc
strcmp-append_same (c ∷ a) [] x y h = cc
strcmp-append_same (c ∷ a) (d ∷ b) x y h = ground (arith, strcmp-append_same a b x y)

strcmp_cons : (c : ℕ) (x y : Bytes) → strcmp (c ∷ x) (c ∷ y) ≡ strcmp x y
unfolding strcmp
strcmp_cons c x y = ground arith

-- The three ways in which `compare_server_hostport` compares are one: the comparison of the texts
-- "host:port" as wholes.
pub compare_server_hostport-strcmp :
    (a b : Server) → compare_server_hostport a b ≡ strcmp (hostport a) (hostport b)
unfolding compare_server_hostport
compare_server_hostport-strcmp a b = ground (
  arith,
  strcmp-append a.hostname b.hostname (b':' ∷ a.str_port) (b':' ∷ b.str_port),
  strcmp-append_same a.hostname b.hostname (b':' ∷ a.str_port) (b':' ∷ b.str_port),
  strcmp_cons b':' a.str_port b.str_port,
)
