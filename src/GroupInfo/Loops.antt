-- ===== src/GroupInfo/Loops.antt =====
-- The two loops of `memcached_rgroup_info_create`.
use arcus_c_client.Prelude.{
  ℕ, ◌+◌, ◌%◌, ◌^◌, ◌≡◌, refl, ap, ◌∙◌, inl, inr, true, false, ◌||◌, some, List, [], ◌∷◌, ◌++◌, All,
  arith, Bool-cases, if◌then◌else◌, append-nil, append_assoc,
}
use arcus_c_client.Text.{Bytes, str_eq, str_eq→eq}
use arcus_c_client.Cluster.{ServerInfo}
use arcus_c_client.GroupInfo.{RgroupInfo, Groups, decrement, new_group, add_entry, add_entries}
use arcus_c_client.GroupInfo.Entries.{entries, entries-append}
use arcus_c_client.GroupInfo.Create.{
  str_eq_comm, IsGroup, has_name, Distinct, add_found-IsGroup, others-IsGroup, other-IsGroup,
  new_group-IsGroup, Grouping,
}

record Added (done : List ServerInfo) (info : ServerInfo) (gs gs' : List RgroupInfo) : Type 0 where
  groups : All (IsGroup (done ++ (info ∷ []))) gs'
  distinct : Distinct gs'
  names : (n : Bytes) → has_name n gs' ≡ (has_name n gs || str_eq n info.groupname)

replaced_names :
    (g g' : RgroupInfo) (info : ServerInfo) (rest : List RgroupInfo) (n : Bytes)
    → g'.groupname ≡ g.groupname
    → info.groupname ≡ g.groupname
    → has_name n (g' ∷ rest) ≡ (has_name n (g ∷ rest) || str_eq n info.groupname)
replaced_names g g' info rest n a b =
    let lhs : has_name n (g' ∷ rest) ≡ (if str_eq n g.groupname then true else has_name n rest) =
      ap (λ x. if str_eq n x then true else has_name n rest) a in
    let rhs : (has_name n (g ∷ rest) || str_eq n info.groupname)
        ≡ (has_name n (g ∷ rest) || str_eq n g.groupname) =
      ap (λ x. has_name n (g ∷ rest) || str_eq n x) b in
    ground (arith, lhs, rhs)

new_names :
    (n : Bytes) (info : ServerInfo)
    → has_name n (new_group info ∷ []) ≡ (false || str_eq n info.groupname)
unfolding new_group
new_names n info = ground arith

add_entry-Added :
    (done : List ServerInfo) (info : ServerInfo) (v : ℕ) (gs : List RgroupInfo)
    → All (IsGroup done) gs
    → Distinct gs
    → (has_name info.groupname gs ≡ false → entries info.groupname done ≡ [])
    → (s : Groups) × (add_entry info v gs ≡ some s) × Added done info gs s.groups
unfolding add_entry
add_entry-Added done info v [] h d c = (
  record { groups = new_group info ∷ []; valid_ngroup = (v + 1) % 2 ^ 32 },
  refl,
  record {
    groups = (new_group-IsGroup done info (c refl), tt);
    distinct = (refl, tt);
    names = λ n. new_names n info;
  },
)
add_entry-Added done info v (g ∷ rest) h d c =
    elim (Bool-cases (str_eq info.groupname g.groupname)) [
      | inl e ↦
          let same = str_eq→eq info.groupname g.groupname e in
          let (g', b, run, name, is) = add_found-IsGroup done info g e h.0 in
          (
            record { groups = g' ∷ rest; valid_ngroup = if b then decrement v else v },
            rw (e, run) refl,
            record {
              groups =
                  (is, others-IsGroup done info rest (ap (λ x. has_name x rest) same ∙ d.0) h.1);
              distinct = (ap (λ x. has_name x rest) name ∙ d.0, d.1);
              names = λ n. replaced_names g g' info rest n name same;
            },
          )
      | inr e ↦
          let (s, run, added) = add_entry-Added done info v rest h.1 d.1 (λ n. c (rw e n)) in
          (
            record s { groups = g ∷ s.groups },
            rw (e, run) refl,
            record {
              groups = (other-IsGroup done info g e h.0, added.groups);
              distinct = (
                added.names g.groupname ∙ rw (d.0, str_eq_comm g.groupname info.groupname, e) refl,
                added.distinct,
              );
              names = λ n. ground (arith, added.names n);
            },
          )
    ]

add_entry-Grouping :
    (done : List ServerInfo) (info : ServerInfo) (s : Groups)
    → Grouping done s.groups
    → (s' : Groups) × (add_entry info s.valid_ngroup s.groups ≡ some s')
      × Grouping (done ++ (info ∷ [])) s'.groups
add_entry-Grouping done info s h =
    let (s', run, added) =
      add_entry-Added done info s.valid_ngroup s.groups h.groups h.distinct
        (h.covers info.groupname) in
    (
      s',
      run,
      record {
        groups = added.groups;
        distinct = added.distinct;
        covers = λ n free.
            let new : str_eq info.groupname n ≡ false =
              ground (arith, added.names n, str_eq_comm info.groupname n) in
            let old : has_name n s.groups ≡ false = ground (arith, added.names n) in
            entries-append n done (info ∷ []) ∙ rw (new, h.covers n old) refl;
      },
    )

pub add_entries-Grouping :
    (done infos : List ServerInfo) (s : Groups)
    → Grouping done s.groups
    → (s' : Groups) × (add_entries infos s ≡ some s') × Grouping (done ++ infos) s'.groups
unfolding add_entries
add_entries-Grouping done [] s h = (s, refl, rw (append-nil done) h)
add_entries-Grouping done (info ∷ infos) s h =
    let (s₁, run₁, h₁) = add_entry-Grouping done info s h in
    let (s₂, run₂, h₂) = add_entries-Grouping (done ++ (info ∷ [])) infos s₁ h₁ in
    (s₂, rw run₁ run₂, rw (append_assoc done (info ∷ []) infos) at h₂)
