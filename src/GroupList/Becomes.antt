-- ===== src/GroupList/Becomes.antt =====
-- What becomes of a client's groups when the list of servers is new.
use arcus_c_client.Prelude.{
  ◌≤◌, ◌≡◌, sym, ◌∙◌, true, false, none, some, List, [], ◌∷◌, length, arith,
}
use arcus_c_client.Text.{Bytes}
use arcus_c_client.GroupInfo.{RgroupInfo}
use arcus_c_client.Rgroup.{Rgroup}
use arcus_c_client.GroupList.Listing.{find_info, take_group}
use arcus_c_client.GroupList.Members.{Entry, entry}
use arcus_c_client.GroupList.Asked.{listed_addresses}
use arcus_c_client.GroupList.Names.{
  named, named-cons, DistinctGroups, covered, covered-found, covered_step, find_info-take_group,
}
use arcus_c_client.GroupList.One.{Follows}

-- What becomes of the groups of a client: a group that no entry names is gone, one whose entry is not
-- valid stays as it was, and one whose entry is valid follows it.
pub data Becoming (infos : List RgroupInfo) : List Rgroup → List Entry → Type 0 where
  end : Becoming infos [] []
  gone :
      {g : Rgroup} {l : List Rgroup} {es : List Entry}
      → find_info g.groupname infos ≡ none
      → Becoming infos l es
      → Becoming infos (g ∷ l) es
  stays :
      {g : Rgroup} {l : List Rgroup} {es : List Entry} (info : RgroupInfo)
      → find_info g.groupname infos ≡ some info
      → info.valid ≡ false
      → Becoming infos l es
      → Becoming infos (g ∷ l) (entry g ∷ es)
  follows :
      {g : Rgroup} {l : List Rgroup} {es : List Entry} (info : RgroupInfo) (e : Entry)
      → find_info g.groupname infos ≡ some info
      → info.valid ≡ true
      → Follows g (listed_addresses info) e
      → Becoming infos l es
      → Becoming infos (g ∷ l) (e ∷ es)

-- A mark on the entry of a name that no group of the list has.
pub Becoming-take_group :
    (n : Bytes) (infos : List RgroupInfo) (l : List Rgroup) (es : List Entry)
    → named n l ≡ false
    → Becoming (take_group n infos) l es
    → Becoming infos l es
Becoming-take_group n infos [] es h end = end
Becoming-take_group n infos (g ∷ l) es h (gone f b) =
    let (other, h') = named-cons n g l h in
    gone (sym (find_info-take_group n g.groupname infos other) ∙ f)
      (Becoming-take_group n infos l es h' b)
Becoming-take_group n infos (g ∷ l) (_ ∷ es) h (stays info f v b) =
    let (other, h') = named-cons n g l h in
    stays info (sym (find_info-take_group n g.groupname infos other) ∙ f) v
      (Becoming-take_group n infos l es h' b)
Becoming-take_group n infos (g ∷ l) (_ ∷ es) h (follows info e f v w b) =
    let (other, h') = named-cons n g l h in
    follows info e (sym (find_info-take_group n g.groupname infos other) ∙ f) v w
      (Becoming-take_group n infos l es h' b)

pub Becoming-length :
    (infos : List RgroupInfo) (l : List Rgroup) (es : List Entry)
    → DistinctGroups l
    → Becoming infos l es
    → length es ≤ covered l infos
Becoming-length infos [] es d end = omega arith
Becoming-length infos (g ∷ l) es d (gone f b) =
    omega (arith, Becoming-length infos l es d.1 b, covered_step g l infos)
Becoming-length infos (g ∷ l) (_ ∷ es) d (stays info f v b) =
    omega (arith, Becoming-length infos l es d.1 b, covered-found g l infos info d.0 f)
Becoming-length infos (g ∷ l) (_ ∷ es) d (follows info e f v w b) =
    omega (arith, Becoming-length infos l es d.1 b, covered-found g l infos info d.0 f)
