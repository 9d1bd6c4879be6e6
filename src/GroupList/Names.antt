-- ===== src/GroupList/Names.antt =====
-- The entries of a list of servers and the client's groups of the same names.
use mathlib.Core.Option.{some-injective}
use arcus_c_client.Prelude.{
  All, ℕ, suc, ◌+◌, ◌≤◌, ◌≡◌, refl, sym, ap, ◌∙◌, subst, inl, inr, Bool, true, false, ◌&&◌, not,
  none, some, List, [], ◌∷◌, length, arith, Bool-cases, if◌then◌else◌,
}
use arcus_c_client.Text.{Bytes, str_eq, str_eq→eq, str_eq_refl}
use arcus_c_client.GroupInfo.{RgroupInfo}
use arcus_c_client.GroupInfo.Create.{has_name, Distinct, str_eq_comm}
use arcus_c_client.Rgroup.{Rgroup}
use arcus_c_client.GroupList.Listing.{find_info, take_group}
use arcus_c_client.GroupList.Members.{Entry}
use arcus_c_client.GroupList.Asked.{Ready, asked, listed_addresses}

-- Whether a group of the list has a name.
abbrev pub named : Bytes → List Rgroup → Bool
named name [] = false
named name (g ∷ rest) = if str_eq g.groupname name then true else named name rest

-- No two groups have one name.
abbrev pub DistinctGroups : List Rgroup → Type 0
DistinctGroups [] = Unit
DistinctGroups (g ∷ rest) = (named g.groupname rest ≡ false) × DistinctGroups rest

-- The groups that the valid entries of new names ask for.
abbrev pub asked_new : List Rgroup → List RgroupInfo → List Entry
asked_new l [] = []
asked_new l (g ∷ rest) =
    if g.valid && not (named g.groupname l)
    then record { groupname = g.groupname; weight = 1; addresses = listed_addresses g }
      ∷ asked_new l rest
    else asked_new l rest

-- The number of entries whose name a group has.
abbrev pub covered : List Rgroup → List RgroupInfo → ℕ
covered l [] = 0
covered l (g ∷ rest) = (if named g.groupname l then 1 else 0) + covered l rest

pub covered-asked_new :
    (l : List Rgroup) (infos : List RgroupInfo)
    → covered l infos + length (asked_new l infos) ≤ length infos
covered-asked_new l [] = omega arith
covered-asked_new l (g ∷ rest) = ground (arith, covered-asked_new l rest)

pub asked_new-nil : (infos : List RgroupInfo) → asked_new [] infos ≡ asked infos
asked_new-nil [] = refl
asked_new-nil (g ∷ rest) = elim (Bool-cases g.valid) [
  | inl e ↦ simp (e, asked_new-nil rest) refl
  | inr e ↦ simp (e, asked_new-nil rest) refl
]

covered_more :
    (g : Rgroup) (l : List Rgroup) (infos : List RgroupInfo)
    → covered l infos ≤ covered (g ∷ l) infos
covered_more g l [] = omega arith
covered_more g l (x ∷ rest) = ground (arith, covered_more g l rest)

named_eq :
    (a b : Bytes) (l : List Rgroup) → str_eq a b ≡ true → named a l ≡ false → named b l ≡ false
named_eq a b l e h = subst (λ n. named n l ≡ false) (str_eq→eq a b e) h

-- A group that has an entry, and a name of its own, adds to the number.
pub covered-found :
    (g : Rgroup) (l : List Rgroup) (infos : List RgroupInfo) (info : RgroupInfo)
    → named g.groupname l ≡ false
    → find_info g.groupname infos ≡ some info
    → suc (covered l infos) ≤ covered (g ∷ l) infos
unfolding find_info
covered-found g l [] info h e = cc
covered-found g l (x ∷ rest) info h e = elim (Bool-cases (str_eq g.groupname x.groupname)) [
  | inl s ↦
      let free = named_eq g.groupname x.groupname l s h in
      let more = covered_more g l rest in simp (s, free) (omega arith)
  | inr s ↦ let later = covered-found g l rest info h (simp s at e) in simp s (omega arith)
]

pub covered_step :
    (g : Rgroup) (l : List Rgroup) (infos : List RgroupInfo)
    → covered l infos ≤ covered (g ∷ l) infos
covered_step g l infos = covered_more g l infos

take_group-has_name :
    (n m : Bytes) (infos : List RgroupInfo) → has_name m (take_group n infos) ≡ has_name m infos
unfolding take_group
take_group-has_name n m [] = refl
take_group-has_name n m (x ∷ rest) = ground (arith, take_group-has_name n m rest)

pub take_group-Distinct :
    (n : Bytes) (infos : List RgroupInfo) → Distinct infos → Distinct (take_group n infos)
unfolding take_group
take_group-Distinct n [] d = tt
take_group-Distinct n (x ∷ rest) d = elim (Bool-cases (str_eq n x.groupname)) [
  | inl s ↦ simp s d
  | inr s ↦ simp s (take_group-has_name n x.groupname rest ∙ d.0, take_group-Distinct n rest d.1)
]

pub take_group-Ready :
    (n : Bytes) (infos : List RgroupInfo) → All Ready infos → All Ready (take_group n infos)
unfolding take_group
take_group-Ready n [] r = tt
take_group-Ready n (x ∷ rest) r = elim (Bool-cases (str_eq n x.groupname)) [
  | inl s ↦ simp s ((λ e. cc e), r.1)
  | inr s ↦ simp s (r.0, take_group-Ready n rest r.1)
]

pub length-take_group :
    (n : Bytes) (infos : List RgroupInfo) → length (take_group n infos) ≡ length infos
unfolding take_group
length-take_group n [] = refl
length-take_group n (x ∷ rest) = ground (arith, length-take_group n rest)

pub find_info-Ready :
    (n : Bytes) (infos : List RgroupInfo) (info : RgroupInfo)
    → All Ready infos
    → find_info n infos ≡ some info
    → Ready info
unfolding find_info
find_info-Ready n [] info r e = cc
find_info-Ready n (x ∷ rest) info r e = elim (Bool-cases (str_eq n x.groupname)) [
  | inl s ↦ subst Ready (some-injective x info (simp s at e)) r.0
  | inr s ↦ find_info-Ready n rest info r.1 (simp s at e)
]

pub named-cons :
    (n : Bytes) (g : Rgroup) (l : List Rgroup)
    → named n (g ∷ l) ≡ false
    → (str_eq n g.groupname ≡ false) × (named n l ≡ false)
named-cons n g l h = elim (Bool-cases (str_eq g.groupname n)) [
  | inl s ↦ let bad : true ≡ false = simp s at h in cc bad
  | inr s ↦ (str_eq_comm n g.groupname ∙ s, simp s at h)
]

-- A mark on one name's entry is not seen at another name.
pub find_info-take_group :
    (n m : Bytes) (infos : List RgroupInfo)
    → str_eq n m ≡ false
    → find_info m (take_group n infos) ≡ find_info m infos
unfolding find_info take_group
find_info-take_group n m [] h = refl
find_info-take_group n m (x ∷ rest) h = ground (
  arith,
  find_info-take_group n m rest h,
  str_eq→eq m x.groupname,
  str_eq→eq n x.groupname,
  str_eq_refl n,
)

pub find_info-free :
    (n : Bytes) (infos : List RgroupInfo) → find_info n infos ≡ none → has_name n infos ≡ false
unfolding find_info
find_info-free n [] e = refl
find_info-free n (x ∷ rest) e = elim (Bool-cases (str_eq n x.groupname)) [
  | inl s ↦ let bad : some x ≡ none = simp s at e in cc bad
  | inr s ↦ simp s (find_info-free n rest (simp s at e))
]

and_false : (b : Bool) → (b && false) ≡ false
and_false true = refl
and_false false = refl

-- The number of valid entries.
abbrev pub valid_count : List RgroupInfo → ℕ
valid_count [] = 0
valid_count (g ∷ rest) = (if g.valid then 1 else 0) + valid_count rest

pub length-asked : (infos : List RgroupInfo) → length (asked infos) ≡ valid_count infos
length-asked [] = refl
length-asked (g ∷ rest) = elim (Bool-cases g.valid) [
  | inl e ↦ simp e (omega (arith, length-asked rest))
  | inr e ↦ simp e (omega (arith, length-asked rest))
]

-- The count of valid entries when one is taken.
pub valid_count-take_group :
    (n : Bytes) (infos : List RgroupInfo) (info : RgroupInfo)
    → find_info n infos ≡ some info
    → info.valid ≡ true
    → valid_count infos ≡ suc (valid_count (take_group n infos))
unfolding find_info take_group
valid_count-take_group n [] info e v = cc
valid_count-take_group n (x ∷ rest) info e v = elim (Bool-cases (str_eq n x.groupname)) [
  | inl s ↦
      let same = some-injective x info (simp s at e) in
      let valid : x.valid ≡ true = ap (λ (y : RgroupInfo). y.valid) same ∙ v in
      simp (s, valid) (omega arith)
  | inr s ↦ simp s (omega (arith, valid_count-take_group n rest info (simp s at e) v))
]

abbrev new_entry : RgroupInfo → Entry
new_entry g = record { groupname = g.groupname; weight = 1; addresses = listed_addresses g }

-- One entry's part of the list.
abbrev put : Bool → RgroupInfo → List Entry → List Entry
put b g l = if b then new_entry g ∷ l else l

-- A group whose name no entry has.
pub asked_new-free :
    (g : Rgroup) (l : List Rgroup) (infos : List RgroupInfo)
    → has_name g.groupname infos ≡ false
    → asked_new (g ∷ l) infos ≡ asked_new l infos
asked_new-free g l [] h = refl
asked_new-free g l (x ∷ rest) h = elim (Bool-cases (str_eq g.groupname x.groupname)) [
  | inl s ↦ let bad : true ≡ false = simp s at h in cc bad
  | inr s ↦
      simp s
        (ap (put (x.valid && not (named x.groupname l)) x) (asked_new-free g l rest (simp s at h)))
]

has_name_eq :
    (a b : Bytes) (l : List RgroupInfo)
    → str_eq a b ≡ true
    → has_name b l ≡ false
    → has_name a l ≡ false
has_name_eq a b l e h = subst (λ n. has_name n l ≡ false) (sym (str_eq→eq a b e)) h

-- A group whose entry is taken.
pub asked_new-take_group :
    (g : Rgroup) (l : List Rgroup) (infos : List RgroupInfo)
    → Distinct infos
    → asked_new l (take_group g.groupname infos) ≡ asked_new (g ∷ l) infos
unfolding take_group
asked_new-take_group g l [] d = refl
asked_new-take_group g l (x ∷ rest) d = elim (Bool-cases (str_eq g.groupname x.groupname)) [
  | inl s ↦
      simp (s, and_false x.valid)
        (sym (asked_new-free g l rest (has_name_eq g.groupname x.groupname rest s d.0)))
  | inr s ↦
      simp s (ap (put (x.valid && not (named x.groupname l)) x) (asked_new-take_group g l rest d.1))
]

-- A group whose entry is not valid.
pub asked_new-invalid :
    (g : Rgroup) (l : List Rgroup) (infos : List RgroupInfo) (info : RgroupInfo)
    → Distinct infos
    → find_info g.groupname infos ≡ some info
    → info.valid ≡ false
    → asked_new (g ∷ l) infos ≡ asked_new l infos
unfolding find_info
asked_new-invalid g l [] info d e v = refl
asked_new-invalid g l (x ∷ rest) info d e v = elim (Bool-cases (str_eq g.groupname x.groupname)) [
  | inl s ↦
      let same = some-injective x info (simp s at e) in
      let invalid : x.valid ≡ false = ap (λ (y : RgroupInfo). y.valid) same ∙ v in
      simp (s, invalid) (asked_new-free g l rest (has_name_eq g.groupname x.groupname rest s d.0))
  | inr s ↦ simp s (
      ap (put (x.valid && not (named x.groupname l)) x)
        (asked_new-invalid g l rest info d.1 (simp s at e) v))
]
