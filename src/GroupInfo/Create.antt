-- ===== src/GroupInfo/Create.antt =====
-- `memcached_rgroup_info_create` against its contract.
use arcus_c_client.Prelude.{
  ◌≤◌, ◌≡◌, refl, sym, ap, ◌∙◌, inl, inr, Bool, true, false, Option, none, some, List, [], ◌∷◌,
  ◌++◌, All, arith, Bool-cases, length, if◌then◌else◌, append-nil,
}
use arcus_c_client.Text.{Bytes, str_eq, str_eq_refl}
use arcus_c_client.Cluster.{ServerInfo}
use arcus_c_client.GroupInfo.{RgroupInfo, add_found, new_group}
use arcus_c_client.GroupInfo.Entries.{
  entries, masters, slaves, entries-append, masters-append, slaves-append, listed, shaped, Joined,
  add_found-Takes,
}

pub str_eq_comm : (a b : Bytes) → str_eq a b ≡ str_eq b a
unfolding str_eq
str_eq_comm [] [] = refl
str_eq_comm [] (y ∷ b) = refl
str_eq_comm (x ∷ a) [] = refl
str_eq_comm (x ∷ a) (y ∷ b) = ground (arith, str_eq_comm a b)

-- What a valid group holds of its entries.
pub record Shape (g : RgroupInfo) (es : List ServerInfo) : Type 0 where
  pub master : Option ServerInfo
  pub others : List ServerInfo
  pub is_shaped : g ≡ shaped g.groupname master others
  pub fits : length others ≤ 2
  pub masters_eq : masters es ≡ listed master
  pub slaves_eq : slaves es ≡ others

-- A group after some entries of the list.
pub record IsGroup (done : List ServerInfo) (g : RgroupInfo) : Type 0 where
  pub size : length g.replicas ≡ 3
  pub shape : g.valid ≡ true → Shape g (entries g.groupname done)

abbrev pub has_name : Bytes → List RgroupInfo → Bool
has_name name [] = false
has_name name (g ∷ rest) = if str_eq name g.groupname then true else has_name name rest

abbrev pub Distinct : List RgroupInfo → Type 0
Distinct [] = Unit
Distinct (g ∷ rest) = (has_name g.groupname rest ≡ false) × Distinct rest

-- An entry of another name leaves a group as it was.
pub other-IsGroup :
    (done : List ServerInfo) (info : ServerInfo) (g : RgroupInfo)
    → str_eq info.groupname g.groupname ≡ false
    → IsGroup done g
    → IsGroup (done ++ (info ∷ [])) g
other-IsGroup done info g e h = record {
  size = h.size;
  shape = λ v.
      let same : entries g.groupname (done ++ (info ∷ [])) ≡ entries g.groupname done =
        entries-append g.groupname done (info ∷ [])
        ∙ rw (e, append-nil (entries g.groupname done)) refl in
      rw same (h.shape v);
}

Shape-Joined :
    (g g' : RgroupInfo) (es : List ServerInfo) (info : ServerInfo) (s : Shape g es)
    → g'.valid ≡ true
    → Joined g.groupname s.master s.others info g'
    → g'.groupname ≡ g.groupname
    → Shape g' (es ++ (info ∷ []))
Shape-Joined g g' es info s v (inl bad) name = cc v
Shape-Joined g g' es info s v (inr (m, ss, is, fits, ms, others)) name = record {
  master = m;
  others = ss;
  is_shaped = is ∙ ap (λ n. shaped n m ss) (sym name);
  fits = fits;
  masters_eq =
      masters-append es (info ∷ []) ∙ (ap (λ l. l ++ masters (info ∷ [])) s.masters_eq ∙ sym ms);
  slaves_eq =
      slaves-append es (info ∷ []) ∙ (ap (λ l. l ++ slaves (info ∷ [])) s.slaves_eq ∙ sym others);
}

add_found-invalid :
    (g : RgroupInfo) (info : ServerInfo) → g.valid ≡ false → add_found g info ≡ some (g, false)
unfolding add_found
add_found-invalid g info bad = rw bad refl

pub add_found-IsGroup :
    (done : List ServerInfo) (info : ServerInfo) (g : RgroupInfo)
    → str_eq info.groupname g.groupname ≡ true
    → IsGroup done g
    → (g' : RgroupInfo) × (b : Bool) × (add_found g info ≡ some (g', b))
      × (g'.groupname ≡ g.groupname)
      × IsGroup (done ++ (info ∷ [])) g'
add_found-IsGroup done info g e h = elim (Bool-cases g.valid) [
  | inr bad ↦ (
    g,
    false,
    add_found-invalid g info bad,
    refl,
    record { size = h.size; shape = λ v. cc (bad, v) },
  )
  | inl v ↦
      let s = h.shape v in
      let (g', b, run, name, size, joined) =
        add_found-Takes g.groupname s.master s.others info s.fits in
      let grown : entries g.groupname (done ++ (info ∷ []))
          ≡ entries g.groupname done ++ (info ∷ []) =
        entries-append g.groupname done (info ∷ []) ∙ rw e refl in
      (
        g',
        b,
        ap (λ x. add_found x info) s.is_shaped ∙ run,
        name,
        record {
          size = size;
          shape = λ v'.
              rw (name, grown) (Shape-Joined g g' (entries g.groupname done) info s v' joined name);
        },
      )
]

has_name-same : (n m : Bytes) (gs : List RgroupInfo) → n ≡ m → has_name n gs ≡ has_name m gs
has_name-same n m gs e = ap (λ x. has_name x gs) e

-- Once a group has taken an entry, the groups behind it are of other names.
pub others-IsGroup :
    (done : List ServerInfo) (info : ServerInfo) (gs : List RgroupInfo)
    → has_name info.groupname gs ≡ false
    → All (IsGroup done) gs
    → All (IsGroup (done ++ (info ∷ []))) gs
others-IsGroup done info [] n h = tt
others-IsGroup done info (g ∷ gs) n h = elim (Bool-cases (str_eq info.groupname g.groupname)) [
  | inl e ↦ cc (rw e at n)
  | inr e ↦ (other-IsGroup done info g e h.0, others-IsGroup done info gs (rw e at n) h.1)
]

-- The groups of the entries so far: distinct names, and a group for each entry.
pub record Grouping (done : List ServerInfo) (gs : List RgroupInfo) : Type 0 where
  pub groups : All (IsGroup done) gs
  pub distinct : Distinct gs
  pub covers : (name : Bytes) → has_name name gs ≡ false → entries name done ≡ []

pub new_group-IsGroup :
    (done : List ServerInfo) (info : ServerInfo)
    → entries info.groupname done ≡ []
    → IsGroup (done ++ (info ∷ [])) (new_group info)
unfolding new_group
new_group-IsGroup done info h =
    let only : entries info.groupname (done ++ (info ∷ [])) ≡ info ∷ [] =
      entries-append info.groupname done (info ∷ []) ∙ rw (h, str_eq_refl info.groupname) refl in
    elim (Bool-cases info.master) [
      | inl m ↦ record {
        size = rw m refl;
        shape = λ v. rw only (record {
          master = some info;
          others = [];
          is_shaped = simp m refl;
          fits = omega arith;
          masters_eq = simp m refl;
          slaves_eq = simp m refl;
        });
      }
      | inr m ↦ record {
        size = rw m refl;
        shape = λ v. rw only (record {
          master = none;
          others = info ∷ [];
          is_shaped = simp m refl;
          fits = omega arith;
          masters_eq = simp m refl;
          slaves_eq = simp m refl;
        });
      }
    ]
