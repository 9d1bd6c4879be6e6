-- ===== src/Rgroup/Switchover.antt =====
-- memcached_rgroup_switchover, of libmemcached/rgroup.cc: a group's master changes places with the
-- slave that its server names.
use arcus_c_client.Prelude.{
  ℕ, ◌-◌, ◌%◌, ◌^◌, ◌==◌, Bool, true, false, not, Option, none, some, [], ◌∷◌, ltb, leb, length,
  set, if◌then◌else◌,
}
use arcus_c_client.Text.{Bytes}
use arcus_c_client.Response.{starts_digit}
use arcus_c_client.Value.{digits_value, skip_spaces, skip_sign, is_negative}
use arcus_c_client.Server.{Server}
use arcus_c_client.Rgroup.{
  Rgroup, GroupState, Address, slot, find_replica, server_switchover, ◌>>=◌,
}

-- The bytes before the next colon, and those behind it.
unfoldable pub until_colon : Bytes → Bytes × Bytes
until_colon [] = ([], [])
until_colon (b ∷ text) =
    let (token, rest) = until_colon text in if b == b':' then ([], text) else (b ∷ token, rest)

unfoldable pub skip_colons : Bytes → Bytes
skip_colons [] = []
skip_colons (b ∷ text) = if b == b':' then skip_colons text else b ∷ text

-- `strtok_r(text, ":", &buffer)`: the token, `none` if nothing is left, and the rest.
unfoldable pub strtok : Bytes → Option Bytes × Bytes
unfolding until_colon skip_colons
strtok text =
    let (token, rest) = until_colon (skip_colons text) in
    if length (skip_colons text) == 0 then (none, []) else (some token, rest)

-- `port= atoi(token)`: the value of `strtol`, cut to 16 bits.
unfoldable pub port_of : Bytes → ℕ
unfolding digits_value skip_spaces skip_sign is_negative starts_digit
port_of token =
    let digits = skip_sign (skip_spaces token) in
    let v = (digits_value 0 digits).0 in
    if not (starts_digit digits)
    then 0
    else if is_negative (skip_spaces token)
    then (if ltb (2 ^ 63) v then 0 else (2 ^ 16 - v % 2 ^ 16) % 2 ^ 16)
    else if leb (2 ^ 63) v
    then 2 ^ 16 - 1
    else v % 2 ^ 16

-- A port of 0 where there is no second token.
unfoldable pub port_token : Option Bytes → ℕ
port_token none = 0
port_token (some token) = port_of token

unfoldable pub host_token : Option Bytes × Bytes → Option Address
unfolding port_token
host_token (none, rest) = none
host_token (some hostname, rest) =
    some (record { hostname = hostname; port = port_token (strtok rest).0 })

-- The host and the port of a peer; `none` where there is no host.
unfoldable pub peer_address : Bytes → Option Address
unfolding host_token
peer_address peer = host_token (strtok peer)

-- The search for the peer among the slaves.
unfoldable pub find_peer : Rgroup → Option Address → Option (Option ℕ)
find_peer g none = some none
find_peer g (some a) =
    if a.port == 0
    then some none
    else (find_replica (g.nreplica - 1) 1 g a >>= λ c.
        some (if ltb c g.nreplica then some c else none))

-- What strtok_r leaves of the peer: it ends with the host.
unfoldable pub cut_peer : Bytes → Bytes
cut_peer [] = []
cut_peer (b ∷ peer) = if b == b':' then b ∷ cut_peer peer else b ∷ (until_colon peer).0

-- The exchange, as for the index in the server. The server that is given is the replica in slot
-- `at`, so what is set in it is set in the group.
unfoldable pub switchover_to : GroupState → ℕ → Server → Option ℕ → Option (GroupState × Bool)
switchover_to st at server none = some (st, false)
switchover_to st at server (some sidx) =
    let g = st.rgroup in
    let marked = set g.replicas at (some (record server { switchover_sidx = some sidx })) in
    server_switchover (record st { rgroup = record g { replicas = marked } }) sidx >>= λ st'.
    some (st', true)

-- `memcached_rgroup_switchover`, with the group that the server is in; `none` is a failed assertion.
unfoldable pub rgroup_switchover : GroupState → ℕ → Option (GroupState × Bool)
rgroup_switchover st at = slot st.rgroup.replicas at >>= λ server. elim server.switchover_sidx [
  | some sidx ↦ switchover_to st at server (some sidx)
  | none ↦ find_peer st.rgroup (peer_address server.switchover_peer) >>= λ found.
      let cut = record server { switchover_peer = cut_peer server.switchover_peer } in
      let st' = record st {
        rgroup = record st.rgroup { replicas = set st.rgroup.replicas at (some cut) };
      } in
      switchover_to st' at cut found
]
