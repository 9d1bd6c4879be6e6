-- ===== src/Ketama/Hosts.antt =====
-- The points that the loop over the hosts makes, where all weights count alike: 160 for each live
-- host, and none for any other.
use arcus_c_client.Prelude.{
  All, All-append, sym, ◌∙◌, append-nil, append_assoc, ℕ, zero, suc, ◌+◌, ◌*◌, ◌/◌, ◌%◌, ◌^◌, ◌≤◌,
  ◌<◌, ◌≡◌, refl, inl, inr, Bool, true, false, ◌||◌, none, some, List, [], ◌∷◌, ◌++◌, ◌==◌,
  if◌then◌else◌, length, length-append, arith, Bool-cases, get_elem?, ltb, leb,
}
use arcus_c_client.Server.{Server}
use arcus_c_client.Text.{Bytes, digits_onto, print_unsigned}
use arcus_c_client.Ring.{ContinuumItem, Distribution}
use arcus_c_client.Ketama.{
  sort_host, name_points, host_points, is_live, add_hosts, Points, count_live,
}

module _ where
  digits1 :
      (f n : ℕ) (rest : Bytes) → n < 10 → length (digits_onto (suc f) n rest) ≤ 1 + length rest
  unfolding digits_onto
  digits1 f n rest h = ground arith

  digits2 :
      (f n : ℕ) (rest : Bytes)
      → n < 100
      → length (digits_onto (suc (suc f)) n rest) ≤ 2 + length rest
  digits2 f n rest h =
      unfold digits_onto in ground (arith, digits1 f (n / 10) ((b'0' + n % 10) ∷ rest))

  digits3 :
      (f n : ℕ) (rest : Bytes)
      → n < 1000
      → length (digits_onto (suc (suc (suc f))) n rest) ≤ 3 + length rest
  digits3 f n rest h =
      unfold digits_onto in ground (arith, digits2 f (n / 10) ((b'0' + n % 10) ∷ rest))

  digits4 :
      (f n : ℕ) (rest : Bytes)
      → n < 10000
      → length (digits_onto (suc (suc (suc (suc f)))) n rest) ≤ 4 + length rest
  digits4 f n rest h =
      unfold digits_onto in ground (arith, digits3 f (n / 10) ((b'0' + n % 10) ∷ rest))

  digits5 :
      (f n : ℕ) (rest : Bytes)
      → n < 100000
      → length (digits_onto (suc (suc (suc (suc (suc f))))) n rest) ≤ 5 + length rest
  digits5 f n rest h =
      unfold digits_onto in ground (arith, digits4 f (n / 10) ((b'0' + n % 10) ∷ rest))

pub print_unsigned-length2 : (n : ℕ) → n < 100 → length (print_unsigned n) ≤ 2
unfolding print_unsigned
print_unsigned-length2 n h = omega (arith, digits2 18 n [])

pub print_unsigned-length5 : (n : ℕ) → n < 100000 → length (print_unsigned n) ≤ 5
unfolding print_unsigned
print_unsigned-length5 n h = omega (arith, digits5 15 n [])

-- A host whose names all fit: the longest is "host:65535-39".
abbrev pub IsShort : Server → Type 0
IsShort s = (length s.hostname ≤ 76) × (s.port < 65536)

sort_host-length :
    (d : Distribution) (s : Server) (i : ℕ)
    → IsShort s
    → i < 100
    → leb 86 (length (sort_host d s i)) ≡ false
unfolding sort_host
sort_host-length d s i h r =
    let a = length-append s.hostname (b'-' ∷ print_unsigned i) in
    let b =
      length-append s.hostname (b':' ∷ (print_unsigned s.port ++ (b'-' ∷ print_unsigned i))) in
    let e = length-append (print_unsigned s.port) (b'-' ∷ print_unsigned i) in
    let f = print_unsigned-length2 i r in
    let g = print_unsigned-length5 s.port (omega arith) in ground arith

abbrev HasIndex : ℕ → ContinuumItem → Type 0
HasIndex i item = item.index ≡ i

-- The points of `rounds` names of a host, from the name with the number `i` on.
unfoldable pub named_points :
    (Bytes → Bytes) → Distribution → ℕ → Server → ℕ → ℕ → List ContinuumItem
named_points signature d host_index s zero i = []
named_points signature d host_index s (suc rounds) i =
    name_points signature host_index (sort_host d s i)
    ++ named_points signature d host_index s rounds (suc i)

host_points-named_points :
    (signature : Bytes → Bytes) (d : Distribution) (host_index : ℕ) (s : Server) (rounds i : ℕ)
    → IsShort s
    → i + rounds ≤ 100
    → host_points signature d host_index s rounds i
      ≡ some (named_points signature d host_index s rounds i)
unfolding host_points named_points
host_points-named_points signature d host_index s zero i h r = refl
host_points-named_points signature d host_index s (suc rounds) i h r =
    rw
      (
        sort_host-length d s i h (omega arith),
        host_points-named_points signature d host_index s rounds (suc i) h (omega arith),
      )
      refl

length-named_points :
    (signature : Bytes → Bytes) (d : Distribution) (host_index : ℕ) (s : Server) (rounds i : ℕ)
    → length (named_points signature d host_index s rounds i) ≡ 4 * rounds
unfolding named_points name_points
length-named_points signature d host_index s zero i = omega arith
length-named_points signature d host_index s (suc rounds) i =
    omega (arith, length-named_points signature d host_index s rounds (suc i))

named_points-HasIndex :
    (signature : Bytes → Bytes) (d : Distribution) (host_index : ℕ) (s : Server) (rounds i : ℕ)
    → All (HasIndex host_index) (named_points signature d host_index s rounds i)
unfolding named_points name_points
named_points-HasIndex signature d host_index s zero i = tt
named_points-HasIndex signature d host_index s (suc rounds) i =
    (refl, (refl, (refl, (refl, named_points-HasIndex signature d host_index s rounds (suc i)))))

-- Whether an index is that of a live host.
abbrev pub live_at : Bool → ℕ → List Server → ℕ → Bool
live_at auto_ejecting now servers i = elim (get_elem? servers i) [
  | none ↦ false
  | some s ↦ is_live auto_ejecting now s
]

-- A point of a live host of the client.
abbrev pub OnLive : Bool → ℕ → List Server → ContinuumItem → Type 0
OnLive auto_ejecting now servers item = live_at auto_ejecting now servers item.index ≡ true

unfoldable pub live_count : Bool → ℕ → List Server → ℕ
live_count auto_ejecting now [] = 0
live_count auto_ejecting now (s ∷ rest) =
    (if is_live auto_ejecting now s then 1 else 0) + live_count auto_ejecting now rest

pub live_count_all : (now : ℕ) (l : List Server) → live_count false now l ≡ length l
unfolding live_count
live_count_all now [] = refl
live_count_all now (s ∷ l) = omega (arith, live_count_all now l)

pub count_live-live_count :
    (now : ℕ) (l : List Server) (r : ℕ × ℕ) → (count_live now l r).0 ≡ r.0 + live_count true now l
unfolding count_live live_count
count_live-live_count now [] (a, b) = omega arith
count_live-live_count now (s ∷ l) (a, b) = ground (
  arith,
  count_live-live_count now l (a + 1, b),
  count_live-live_count now l (a, if b == 0 || ltb s.next_retry b then s.next_retry else b),
)

All-HasIndex :
    (ae : Bool) (now : ℕ) (servers : List Server) (i : ℕ) (s : Server) (l : List ContinuumItem)
    → get_elem? servers i ≡ some s
    → is_live ae now s ≡ true
    → All (HasIndex i) l
    → All (OnLive ae now servers) l
All-HasIndex ae now servers i s [] e live h = tt
All-HasIndex ae now servers i s (x ∷ l) e live h =
    (rw (h.0, live_at, e) live, All-HasIndex ae now servers i s l e live h.1)

-- The points of the hosts of a list whose first has the index `i`: those of 40 names for a live host.
unfoldable pub live_points :
    (Bytes → Bytes) → Distribution → Bool → ℕ → ℕ → List Server → List ContinuumItem
live_points signature d auto_ejecting now i [] = []
live_points signature d auto_ejecting now i (s ∷ rest) =
    (if is_live auto_ejecting now s then named_points signature d i s 40 0 else [])
    ++ live_points signature d auto_ejecting now (suc i) rest

module _ (signature : Bytes → Bytes) (d : Distribution) (ae : Bool) (now : ℕ) where
  pub length-live_points :
      (i : ℕ) (rest : List Server)
      → length (live_points signature d ae now i rest) ≡ 160 * live_count ae now rest
  unfolding live_points live_count
  length-live_points i [] = omega arith
  length-live_points i (s ∷ rest) =
      let later = live_points signature d ae now (suc i) rest in
      let n = length-live_points (suc i) rest in
      let k = length-named_points signature d i s 40 0 in
      elim (Bool-cases (is_live ae now s)) [
        | inl live ↦
            rw live (omega (arith, n, k, length-append (named_points signature d i s 40 0) later))
        | inr dead ↦ rw dead (omega (arith, n))
      ]

  pub live_points-OnLive :
      (servers : List Server) (i : ℕ) (rest : List Server)
      → ((k : ℕ) (s : Server) → get_elem? rest k ≡ some s → get_elem? servers (i + k) ≡ some s)
      → All (OnLive ae now servers) (live_points signature d ae now i rest)
  unfolding live_points
  live_points-OnLive servers i [] suffix = tt
  live_points-OnLive servers i (s ∷ rest) suffix =
      let suffix' : (k : ℕ) (t : Server)
          → get_elem? rest k ≡ some t
          → get_elem? servers (suc i + k) ≡ some t =
        λ k t e. let same : suc i + k ≡ i + suc k = omega arith in rw same (suffix (suc k) t e) in
      let same : i + 0 ≡ i = omega arith in
      let here : get_elem? servers i ≡ some s = rw same at (suffix 0 s refl) in
      let later = live_points-OnLive servers (suc i) rest suffix' in
      elim (Bool-cases (is_live ae now s)) [
        | inl live ↦ rw live (
            All-append _ (named_points signature d i s 40 0) _
              (All-HasIndex ae now servers i s _ here live
                (named_points-HasIndex signature d i s 40 0))
              later)
        | inr dead ↦ rw dead later
      ]

  pub add_hosts-live_points :
      (share : Server → ℕ)
      → ((s : Server) → share s ≡ 160)
      → (i : ℕ) (rest : List Server) (p : Points) → All IsShort rest
      → p.pointer_counter ≡ length p.items
      → length p.items + 160 * length rest < 2 ^ 32
      → (q : Points) × (add_hosts signature d ae now share i rest p ≡ some q)
        × (q.pointer_counter ≡ length q.items)
        × (q.items ≡ p.items ++ live_points signature d ae now i rest)
  unfolding add_hosts live_points
  add_hosts-live_points share even i [] p short counted bound =
      (p, refl, counted, sym (append-nil p.items))
  add_hosts-live_points share even i (s ∷ rest) p short counted bound =
      elim (Bool-cases (is_live ae now s)) [
        | inr dead ↦
            let (q, run, c, e) =
              add_hosts-live_points share even (suc i) rest p short.1 counted (omega arith) in
            (q, rw dead run, c, rw dead e)
        | inl live ↦
            let points = named_points signature d i s 40 0 in
            let rounds : share s / 4 ≡ 40 = omega (arith, even s) in
            let run : host_points signature d i s (share s / 4) 0 ≡ some points =
              rw rounds (host_points-named_points signature d i s 40 0 short.0 (omega arith)) in
            let k = length-named_points signature d i s 40 0 in
            let wide = length-append p.items points in
            let p₁ : Points = record {
              items = p.items ++ points;
              pointer_counter = (p.pointer_counter + share s) % 2 ^ 32;
            } in
            let (q, later, c, e) =
              add_hosts-live_points share even (suc i) rest p₁ short.1 (omega (arith, even s))
                (omega (arith, k)) in
            (
              q,
              rw (live, run) later,
              c,
              rw live
                  (e ∙ append_assoc p.items points (live_points signature d ae now (suc i) rest)),
            )
      ]
