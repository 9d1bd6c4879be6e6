-- ===== src/Cluster/Membership.antt =====
-- What the loops over the servers and the addresses keep: the addresses that are yet to be served.
use mathlib.Core.List.{Perm, map-append}
use mathlib.Core.List.Perm
use arcus_c_client.Prelude.{
  ℕ, ◌-◌, ◌≡◌, refl, sym, ap, ◌∙◌, ◌⊎◌, inl, inr, Bool, true, false, ◌&&◌, not, none, some, List,
  [], ◌∷◌, ◌++◌, map, All, arith, Bool-cases, length, if◌then◌else◌, ◌==◌, length-perm, append-nil,
  append_assoc,
}
use arcus_c_client.ReturnCode.{success}
use arcus_c_client.Text.{str_eq→eq}
use arcus_c_client.Server.{
  Server, Connection, is_valid_servername, server_create_with, server_create, server_init,
}
use arcus_c_client.Rgroup.{Address}
use arcus_c_client.Rgroup.Slots.{address}
use arcus_c_client.Cluster.{
  ServerInfo, Cluster, Outside, Marked, is_server, take_info, mark_servers, drop_dead, server_prune,
  push_infos, with_servers,
}

abbrev pub info_address : ServerInfo → Address
info_address info = record { hostname = info.hostname; port = info.port }

-- The addresses of the entries that are not taken.
abbrev pub waiting : List ServerInfo → List Address
waiting [] = []
waiting (info ∷ rest) = if info.exist then waiting rest else info_address info ∷ waiting rest

-- The addresses of the servers that are not dead.
abbrev pub living : List Server → List Address
living [] = []
living (s ∷ rest) = if s.is_dead then living rest else address s ∷ living rest

abbrev pub IsAlive : Server → Type 0
IsAlive s = s.is_dead ≡ false

abbrev pub IsNew : ServerInfo → Type 0
IsNew info = info.exist ≡ false

abbrev pub IsNamed : ServerInfo → Type 0
IsNamed info = is_valid_servername info.hostname ≡ true

pub waiting-All :
    (infos : List ServerInfo) → All IsNew infos → waiting infos ≡ map info_address infos
waiting-All [] h = refl
waiting-All (info ∷ rest) h = simp (h.0, waiting-All rest h.1)

pub living-All : (l : List Server) → All IsAlive l → living l ≡ map address l
living-All [] h = refl
living-All (s ∷ l) h = simp (h.0, living-All l h.1)

is_server→eq :
    (s : Server) (info : ServerInfo) → is_server s info ≡ true → address s ≡ info_address info
unfolding is_server
is_server→eq s info h = ground (arith, str_eq→eq s.hostname info.hostname)

-- An entry that is taken: its address waited, and every name is as it was.
abbrev Taken : Server → List ServerInfo → List ServerInfo → Type 0
Taken s infos infos' =
    Perm (waiting infos) (address s ∷ waiting infos')
    × (map info_address infos' ≡ map info_address infos)

take_info-Taken :
    (s : Server) (infos : List ServerInfo)
    → (take_info s infos ≡ none)
      ⊎ ((infos' : List ServerInfo) × (take_info s infos ≡ some infos') × Taken s infos infos')
unfolding take_info
take_info-Taken s [] = inl refl
take_info-Taken s (info ∷ rest) = elim (Bool-cases (not info.exist && is_server s info)) [
  | inl e ↦
      let new : info.exist ≡ false = ground arith in
      let same : is_server s info ≡ true = ground arith in
      let here : Perm (waiting (info ∷ rest)) (address s ∷ waiting rest) =
        simp (new, is_server→eq s info same) (Perm.refl _) in
      inr (record info { exist = true } ∷ rest, rw e refl, (here, refl))
  | inr e ↦ elim (take_info-Taken s rest) [
    | inl n ↦ inl (rw (e, n) refl)
    | inr (rest', run, (perm, names)) ↦
        let past : Perm (waiting (info ∷ rest)) (address s ∷ waiting (info ∷ rest')) =
          elim (Bool-cases info.exist) [
            | inl x ↦ simp x perm
            | inr x ↦ simp x (Perm.trans (Perm.cons (info_address info) perm) (Perm.swap _ _ _))
          ] in
        inr (info ∷ rest', rw (e, run) refl, (past, ap (◌∷◌ (info_address info)) names))
  ]
]

-- What the outer loop leaves of servers that were alive: the addresses that waited are those of the
-- servers that live on and those that still wait.
pub record Sorted (servers : List Server) (infos : List ServerInfo) (m : Marked) : Type 0 where
  pub perm : Perm (living m.servers ++ waiting m.infos) (waiting infos)
  pub names : map info_address m.infos ≡ map info_address infos
  pub count : m.validcount ≡ length (waiting m.infos)
  pub unpruned : m.prune_flag ≡ false → m.servers ≡ servers

pub mark_servers-Sorted :
    (servers : List Server) (infos : List ServerInfo) (validcount : ℕ)
    → All IsAlive servers
    → validcount ≡ length (waiting infos)
    → Sorted servers infos (mark_servers servers infos validcount)
unfolding mark_servers
mark_servers-Sorted [] infos v alive count = record {
  perm = Perm.refl _;
  names = refl;
  count = count;
  unpruned = λ _. refl;
}
mark_servers-Sorted (s ∷ rest) infos v alive count = elim (take_info-Taken s infos) [
  | inl n ↦
      let r = mark_servers-Sorted rest infos v alive.1 count in
      rw (mark_servers, n)
        (record { perm = r.perm; names = r.names; count = r.count; unpruned = λ p. cc p })
  | inr (infos', run, (perm, names)) ↦
      let fewer = length-perm perm in
      let r = mark_servers-Sorted rest infos' (v - 1) alive.1 (omega arith) in
      rw (mark_servers, run)
        (record {
          perm = simp (alive.0) (Perm.trans (Perm.cons (address s) r.perm) (Perm.symm perm));
          names = r.names ∙ names;
          count = r.count;
          unpruned = λ p. ap (◌∷◌ s) (r.unpruned p);
        })
]

module _ where
  pub map-address_drop : (l : List Server) → map address (drop_dead l) ≡ living l
  unfolding drop_dead
  map-address_drop [] = refl
  map-address_drop (s ∷ l) = elim (Bool-cases s.is_dead) [
    | inl e ↦ rw e (map-address_drop l)
    | inr e ↦ simp (e, map-address_drop l)
  ]

  map-address_counted :
      (n : ℕ) (l : List Server)
      → map address (map (λ (s : Server). record s { number_of_hosts = n }) l) ≡ map address l
  map-address_counted n [] = refl
  map-address_counted n (s ∷ l) = ap (◌∷◌ (address s)) (map-address_counted n l)

  pub server_prune-living : (l : List Server) → map address (server_prune false l) ≡ living l
  unfolding server_prune
  server_prune-living l =
      map-address_counted (length (drop_dead l)) (drop_dead l) ∙ map-address_drop l

server_create_with-address :
    (self : Server) (version : ℕ) (info : ServerInfo)
    → address
        (server_create_with self version info.hostname info.port 0
          (if info.port == 0 then Connection.unix_socket else Connection.tcp)).1
      ≡ info_address info
unfolding server_create_with server_create server_init
server_create_with-address self version info =
    elim (info.port == 0)
      as (λ (b : Bool).
        address
          (server_create_with self version info.hostname info.port 0
            (if b then Connection.unix_socket else Connection.tcp)).1
        ≡ info_address info) [ true ↦ refl | false ↦ refl ]

-- A push of valid names appends the addresses that wait, and changes nothing else of the client.
pub push_infos-waiting :
    (o : Outside) (infos : List ServerInfo) (ptr : Cluster)
    → All IsNamed infos
    → (l : List Server) × (v : ℕ) × (push_infos o infos ptr
        ≡ (success, record (with_servers ptr l) { server_info_version = v }))
      × (map address l ≡ map address ptr.client.servers ++ waiting infos)
unfolding push_infos
push_infos-waiting o [] ptr n =
    (ptr.client.servers, ptr.server_info_version, refl, sym (append-nil _))
push_infos-waiting o (info ∷ rest) ptr n = elim (Bool-cases info.exist) [
  | inl e ↦
      let (l, v, run, same) = push_infos-waiting o rest ptr n.1 in (l, v, rw e run, simp e same)
  | inr e ↦
      let (v, s) =
        server_create_with o.fresh_memory ptr.server_info_version info.hostname info.port 0
          (if info.port == 0 then Connection.unix_socket else Connection.tcp) in
      let made : address s ≡ info_address info =
        server_create_with-address o.fresh_memory ptr.server_info_version info in
      let ptr' : Cluster = record (with_servers ptr (ptr.client.servers ++ (s ∷ []))) {
        server_info_version = v;
      } in
      let (l, v', run, same) = push_infos-waiting o rest ptr' n.1 in
      let last : (address s ∷ waiting rest) ≡ waiting (info ∷ rest) =
        simp e (ap (λ a. a ∷ waiting rest) made) in
      let old = map address ptr.client.servers in
      let joined : map address (ptr.client.servers ++ (s ∷ [])) ≡ old ++ (address s ∷ []) =
        map-append address ptr.client.servers (s ∷ []) in
      (
        l,
        v',
        simp (e, n.0) run,
        same
            ∙ (ap (λ (a : List Address). a ++ waiting rest) joined
                ∙ (append_assoc old (address s ∷ []) (waiting rest) ∙ ap (λ a. old ++ a) last)),
      )
]
