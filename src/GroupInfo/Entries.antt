-- ===== src/GroupInfo/Entries.antt =====
-- What a group holds of the entries with its name: its master first, and its slaves in order.
use mathlib.Core.List.{append-nil}
use arcus_c_client.Prelude.{
  ℕ, zero, suc, ◌+◌, ◌≤◌, ◌≡◌, refl, ap, ◌⊎◌, inl, inr, Bool, true, false, Option, none, some, List,
  [], ◌∷◌, ◌++◌, arith, Bool-cases, length, if◌then◌else◌, ltb,
}
use arcus_c_client.Text.{Bytes, str_eq}
use arcus_c_client.Cluster.{ServerInfo}
use arcus_c_client.GroupInfo.{
  RgroupInfo, store, is_same_server, has_duplicate, add_master, add_slave, add_found,
}

-- The entries with a group's name.
abbrev pub entries : Bytes → List ServerInfo → List ServerInfo
entries name [] = []
entries name (i ∷ rest) =
    if str_eq i.groupname name then i ∷ entries name rest else entries name rest

abbrev pub masters : List ServerInfo → List ServerInfo
masters [] = []
masters (i ∷ rest) = if i.master then i ∷ masters rest else masters rest

abbrev pub slaves : List ServerInfo → List ServerInfo
slaves [] = []
slaves (i ∷ rest) = if i.master then slaves rest else i ∷ slaves rest

pub entries-append :
    (name : Bytes) (a b : List ServerInfo)
    → entries name (a ++ b) ≡ entries name a ++ entries name b
entries-append name [] b = refl
entries-append name (i ∷ a) b = elim (Bool-cases (str_eq i.groupname name)) [
  | inl e ↦ simp (e, entries-append name a b)
  | inr e ↦ simp (e, entries-append name a b)
]

pub masters-append : (a b : List ServerInfo) → masters (a ++ b) ≡ masters a ++ masters b
masters-append [] b = refl
masters-append (i ∷ a) b = elim (Bool-cases i.master) [
  | inl e ↦ simp (e, masters-append a b)
  | inr e ↦ simp (e, masters-append a b)
]

pub slaves-append : (a b : List ServerInfo) → slaves (a ++ b) ≡ slaves a ++ slaves b
slaves-append [] b = refl
slaves-append (i ∷ a) b = elim (Bool-cases i.master) [
  | inl e ↦ simp (e, slaves-append a b)
  | inr e ↦ simp (e, slaves-append a b)
]

abbrev pub padded : ℕ → List ServerInfo → List (Option ServerInfo)
padded zero l = []
padded (suc n) [] = none ∷ padded n []
padded (suc n) (x ∷ l) = some x ∷ padded n l

abbrev pub listed : Option ServerInfo → List ServerInfo
listed none = []
listed (some m) = m ∷ []

-- A valid group of a master, if there is one, and of slaves.
abbrev pub shaped : Bytes → Option ServerInfo → List ServerInfo → RgroupInfo
shaped name m ss = record {
  groupname = name;
  replicas = m ∷ padded 2 ss;
  nreplica = length (listed m) + length ss;
  valid = true;
}

-- A group that has taken an entry after a master and slaves, or is invalid.
abbrev pub Joined : Bytes → Option ServerInfo → List ServerInfo → ServerInfo → RgroupInfo → Type 0
Joined name m ss info g =
    (g.valid ≡ false)
    ⊎ ((m' : Option ServerInfo) × (ss' : List ServerInfo) × (g ≡ shaped name m' ss')
        × (length ss' ≤ 2)
        × (listed m' ≡ listed m ++ masters (info ∷ []))
        × (ss' ≡ ss ++ slaves (info ∷ [])))

abbrev pub Takes : Bytes → Option ServerInfo → List ServerInfo → ServerInfo → Type 0
Takes name m ss info =
    (g : RgroupInfo) × (b : Bool) × (add_found (shaped name m ss) info ≡ some (g, b))
    × (g.groupname ≡ name)
    × (length g.replicas ≡ 3)
    × Joined name m ss info g

abbrev Searched : Bytes → List ServerInfo → ServerInfo → Type 0
Searched name ss info =
    (d : Bool) × (has_duplicate (shaped name none ss) info (0 + length ss) 1 ≡ some d)

searched :
    (name : Bytes) (ss : List ServerInfo) (info : ServerInfo)
    → length ss ≤ 2
    → Searched name ss info
unfolding has_duplicate
searched name [] info h = (false, refl)
searched name (a ∷ []) info h = elim (Bool-cases (is_same_server info a)) [
  | inl e ↦ (true, rw e refl)
  | inr e ↦ (false, rw e refl)
]
searched name (a ∷ b ∷ []) info h = elim (Bool-cases (is_same_server info a)) [
  | inl e ↦ (true, rw e refl)
  | inr e ↦ elim (Bool-cases (is_same_server info b)) [
    | inl f ↦ (true, rw (e, f) refl)
    | inr f ↦ (false, rw (e, f) refl)
  ]
]
searched name (a ∷ b ∷ c ∷ l) info h = absurd (omega arith)

length-padded : (n : ℕ) (l : List ServerInfo) → length (padded n l) ≡ n
length-padded zero l = refl
length-padded (suc n) [] = ap suc (length-padded n [])
length-padded (suc n) (x ∷ l) = ap suc (length-padded n l)

Takes-first :
    (name : Bytes) (ss : List ServerInfo) (info : ServerInfo) (d : Bool)
    → length ss ≤ 2
    → info.master ≡ true
    → has_duplicate (shaped name none ss) info (0 + length ss) 1 ≡ some d
    → Takes name none ss info
unfolding add_found add_master store
Takes-first name ss info true h e run = (
  record (shaped name none ss) { valid = false },
  true,
  rw (e, run) refl,
  refl,
  ap suc (length-padded 2 ss),
  inl refl,
)
Takes-first name ss info false h e run =
    let made : RgroupInfo = record (shaped name (some info) ss) { nreplica = 0 + length ss + 1 } in
    let same : 0 + length ss + 1 ≡ 1 + length ss = omega arith in
    let room : ltb 0 (suc (length (padded 2 ss))) ≡ true = rw (length-padded 2 ss) refl in
    (
      made,
      false,
      rw (e, run, room) refl,
      refl,
      ap suc (length-padded 2 ss),
      inr (some info, ss, rw same refl, h, rw e refl, rw (e, append-nil ss) refl),
    )

Takes-second :
    (name : Bytes) (m : ServerInfo) (ss : List ServerInfo) (info : ServerInfo)
    → info.master ≡ true
    → Takes name (some m) ss info
unfolding add_found add_master
Takes-second name m ss info e = (
  record (shaped name (some m) ss) { valid = false },
  true,
  rw e refl,
  refl,
  ap suc (length-padded 2 ss),
  inl refl,
)

Takes-slave :
    (name : Bytes) (m : Option ServerInfo) (ss : List ServerInfo) (info : ServerInfo)
    → length ss ≤ 2
    → info.master ≡ false
    → Takes name m ss info
unfolding add_found add_slave store
Takes-slave name none [] info h e = (
  shaped name none (info ∷ []),
  false,
  rw e refl,
  refl,
  refl,
  inr (none, info ∷ [], refl, omega arith, rw e refl, rw e refl),
)
Takes-slave name none (a ∷ []) info h e = (
  shaped name none (a ∷ info ∷ []),
  false,
  rw e refl,
  refl,
  refl,
  inr (none, a ∷ info ∷ [], refl, omega arith, rw e refl, rw e refl),
)
Takes-slave name none (a ∷ b ∷ []) info h e = (
  record (shaped name none (a ∷ b ∷ [])) { valid = false },
  true,
  rw e refl,
  refl,
  refl,
  inl refl,
)
Takes-slave name (some m) [] info h e = (
  shaped name (some m) (info ∷ []),
  false,
  rw e refl,
  refl,
  refl,
  inr (some m, info ∷ [], refl, omega arith, rw e refl, rw e refl),
)
Takes-slave name (some m) (a ∷ []) info h e = (
  shaped name (some m) (a ∷ info ∷ []),
  false,
  rw e refl,
  refl,
  refl,
  inr (some m, a ∷ info ∷ [], refl, omega arith, rw e refl, rw e refl),
)
Takes-slave name (some m) (a ∷ b ∷ []) info h e = (
  record (shaped name (some m) (a ∷ b ∷ [])) { valid = false },
  true,
  rw e refl,
  refl,
  refl,
  inl refl,
)
Takes-slave name m (a ∷ b ∷ c ∷ ss) info h e = absurd (omega arith)

-- A valid group takes an entry within its array, or becomes invalid.
pub add_found-Takes :
    (name : Bytes) (m : Option ServerInfo) (ss : List ServerInfo) (info : ServerInfo)
    → length ss ≤ 2
    → Takes name m ss info
add_found-Takes name none ss info h = elim (Bool-cases info.master) [
  | inl e ↦ let (d, run) = searched name ss info h in Takes-first name ss info d h e run
  | inr e ↦ Takes-slave name none ss info h e
]
add_found-Takes name (some m) ss info h = elim (Bool-cases info.master) [
  | inl e ↦ Takes-second name m ss info e
  | inr e ↦ Takes-slave name (some m) ss info h e
]
