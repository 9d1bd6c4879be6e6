-- ===== src/GroupList/Asked.antt =====
-- The groups that the valid entries of a list ask for, and `memcached_rgroup_push_with_groupinfo`.
use arcus_c_client.Prelude.{
  All, suc, ◌+◌, ◌≤◌, ◌≡◌, refl, sym, ap, subst, ◌∙◌, inl, inr, true, false, none, some, List, [],
  ◌∷◌, ◌++◌, length, length-append, map, arith, Bool-cases, if◌then◌else◌, append-nil, append_assoc,
}
use arcus_c_client.GroupInfo.{RgroupInfo}
use arcus_c_client.Rgroup.{Address, ◌>>=◌}
use arcus_c_client.GroupList.{RgroupClient, RgroupOutside, info_addresses, add_group, add_infos}
use arcus_c_client.GroupList.Members.{Entry, entry, WellFormed}
use arcus_c_client.GroupList.Add.{
  IsGroupable, Same-refl, Same-trans, Roomy, Roomy-free, Added, add_group-Added,
}

-- The addresses that an entry of a list lists.
abbrev pub listed_addresses : RgroupInfo → List Address
listed_addresses g = elim (info_addresses g.nreplica g.replicas) [ none ↦ [] | some l ↦ l ]

-- A valid entry that a group can be made of.
pub record IsListed (g : RgroupInfo) : Type 0 where
  pub addresses : List Address
  pub reads : info_addresses g.nreplica g.replicas ≡ some addresses
  pub groupable : IsGroupable g.groupname addresses

abbrev pub Ready : RgroupInfo → Type 0
Ready g = g.valid ≡ true → IsListed g

-- The groups that the valid entries ask for.
abbrev pub asked : List RgroupInfo → List Entry
asked [] = []
asked (g ∷ rest) =
    if g.valid
    then record { groupname = g.groupname; weight = 1; addresses = listed_addresses g } ∷ asked rest
    else asked rest

pub Added-refl : (c : RgroupClient) → WellFormed c → Added c c []
Added-refl c w = record {
  well_formed = w;
  entries = sym (append-nil (map entry c.rgroups));
  same = Same-refl c;
  size = omega arith;
}

pub Added-trans :
    (a b c : RgroupClient) (l r : List Entry) → Added a b l → Added b c r → Added a c (l ++ r)
Added-trans a b c l r h k = record {
  well_formed = k.well_formed;
  entries = k.entries ∙ ap (λ x. x ++ r) h.entries ∙ append_assoc (map entry a.rgroups) l r;
  same = Same-trans a b c h.same k.same;
  size = omega (arith, h.size, k.size, length-append l r);
}

add_infos-valid :
    (o : RgroupOutside) (g : RgroupInfo) (rest : List RgroupInfo) (c c' : RgroupClient)
    (l : List Address)
    → g.valid ≡ true
    → info_addresses g.nreplica g.replicas ≡ some l
    → add_group o g.groupname l c ≡ some c'
    → add_infos o (g ∷ rest) c ≡ add_infos o rest c'
unfolding add_infos
add_infos-valid o g rest c c' l e r m = rw (e, r, ◌>>=◌, m) refl

add_infos-invalid :
    (o : RgroupOutside) (g : RgroupInfo) (rest : List RgroupInfo) (c : RgroupClient)
    → g.valid ≡ false
    → add_infos o (g ∷ rest) c ≡ add_infos o rest c
unfolding add_infos
add_infos-invalid o g rest c e = rw e refl

asked-valid :
    (g : RgroupInfo) (rest : List RgroupInfo) (l : List Address)
    → g.valid ≡ true
    → info_addresses g.nreplica g.replicas ≡ some l
    → asked (g ∷ rest) ≡ record { groupname = g.groupname; weight = 1; addresses = l } ∷ asked rest
asked-valid g rest l e r =
    let same : listed_addresses g ≡ l = ap (λ a. elim a [ none ↦ [] | some l ↦ l ]) r in
    simp e
      (ap (λ a. record { groupname = g.groupname; weight = 1; addresses = a } ∷ asked rest) same)

asked-invalid :
    (g : RgroupInfo) (rest : List RgroupInfo) → g.valid ≡ false → asked (g ∷ rest) ≡ asked rest
asked-invalid g rest e = simp e refl

pub add_infos-Added :
    (o : RgroupOutside) (infos : List RgroupInfo) (c : RgroupClient)
    → WellFormed c
    → All Ready infos
    → length c.rgroups + length (asked infos) ≤ c.rgroup_ntotal
    → Roomy (length c.rgroups + length (asked infos)) c
    → (c' : RgroupClient) × (add_infos o infos c ≡ some c') × Added c c' (asked infos)
unfolding add_infos
add_infos-Added o [] c w ready slots room = (c, refl, Added-refl c w)
add_infos-Added o (g ∷ rest) c w ready slots room = elim (Bool-cases g.valid) [
  | inr e ↦
      let none_asked = asked-invalid g rest e in
      let (c', run, a) =
        add_infos-Added o rest c w ready.1 (omega (arith, ap length none_asked))
          (omega (arith, ap length none_asked)) in
      (c', add_infos-invalid o g rest c e ∙ run, subst (Added c c') (sym none_asked) a)
  | inl e ↦
      let l = ready.0 e in
      let one_asked = asked-valid g rest l.addresses e l.reads in
      let size : length (asked (g ∷ rest)) ≡ suc (length (asked rest)) = ap length one_asked in
      let (c₁, made, a₁) =
        add_group-Added o g.groupname l.addresses c w l.groupable (omega (arith, size)) (
          Roomy-free (length c.rgroups + length (asked (g ∷ rest))) c w room
            (omega (arith, size))) in
      let (c₂, run, a₂) =
        add_infos-Added o rest c₁ a₁.well_formed ready.1
          (omega (arith, size, a₁.size, a₁.same.slots))
          (omega (arith, size, a₁.size, a₁.same.servers)) in
      (
        c₂,
        add_infos-valid o g rest c c₁ l.addresses e l.reads made ∙ run,
        subst (Added c c₂) (sym one_asked) (Added-trans c c₁ c₂ _ _ a₁ a₂),
      )
]
