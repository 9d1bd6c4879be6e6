-- ===== src/GroupList/Ready.antt =====
-- The valid groups of a list of servers can be made groups of a client.
use arcus_c_client.Prelude.{
  All, ℕ, zero, suc, ◌≤◌, ◌<◌, ◌≡◌, refl, ap, ◌∙◌, subst, inl, inr, true, none, some, List, [], ◌∷◌,
  length, length-map, map, arith, Bool-cases,
}
use arcus_c_client.Server.{is_valid_servername}
use arcus_c_client.Text.{Bytes, str_eq, str_eq→eq}
use arcus_c_client.Cluster.{ServerInfo}
use arcus_c_client.Cluster.Membership.{info_address}
use arcus_c_client.GroupInfo.{RgroupInfo}
use arcus_c_client.GroupInfo.Entries.{entries, masters, slaves, padded}
use arcus_c_client.GroupInfo.Contract.{Complete, IsComplete}
use arcus_c_client.Rgroup.Slaves.{AllValid}
use arcus_c_client.GroupList.{info_addresses}
use arcus_c_client.GroupList.Asked.{Ready, IsListed, listed_addresses}

-- A server of a list with a host name and a group name that fit.
abbrev pub IsFit : ServerInfo → Type 0
IsFit info = (is_valid_servername info.hostname ≡ true) × (length info.groupname < 128)

module _ (P : ServerInfo → Type 0) where
  All-entries : (n : Bytes) (l : List ServerInfo) → All P l → All P (entries n l)
  All-entries n [] h = tt
  All-entries n (i ∷ l) h = elim (Bool-cases (str_eq i.groupname n)) [
    | inl e ↦ simp e (h.0, All-entries n l h.1)
    | inr e ↦ simp e (All-entries n l h.1)
  ]

  All-masters : (l : List ServerInfo) → All P l → All P (masters l)
  All-masters [] h = tt
  All-masters (i ∷ l) h = elim (Bool-cases i.master) [
    | inl e ↦ simp e (h.0, All-masters l h.1)
    | inr e ↦ simp e (All-masters l h.1)
  ]

  All-slaves : (l : List ServerInfo) → All P l → All P (slaves l)
  All-slaves [] h = tt
  All-slaves (i ∷ l) h = elim (Bool-cases i.master) [
    | inl e ↦ simp e (All-slaves l h.1)
    | inr e ↦ simp e (h.0, All-slaves l h.1)
  ]

entries-named :
    (n : Bytes) (l : List ServerInfo)
    → All (λ (i : ServerInfo). str_eq i.groupname n ≡ true) (entries n l)
entries-named n [] = tt
entries-named n (i ∷ l) = elim (Bool-cases (str_eq i.groupname n)) [
  | inl e ↦ simp e (refl, entries-named n l)
  | inr e ↦ simp e (entries-named n l)
]

fit-AllValid : (l : List ServerInfo) → All IsFit l → AllValid (map info_address l)
fit-AllValid [] h = tt
fit-AllValid (i ∷ l) h = (h.0.0, fit-AllValid l h.1)

info_addresses-padded :
    (n : ℕ) (l : List ServerInfo)
    → length l ≤ n
    → info_addresses (length l) (padded n l) ≡ some (map info_address l)
unfolding info_addresses
info_addresses-padded n [] h = refl
info_addresses-padded zero (i ∷ l) h = absurd (omega arith)
info_addresses-padded (suc n) (i ∷ l) h = rw (info_addresses-padded n l (omega arith))

-- What a valid group of a list lists: its master's address, and those of its slaves in order.
pub record Lists (infos : List ServerInfo) (g : RgroupInfo) : Type 0 where
  pub master : ServerInfo
  pub only_master : masters (entries g.groupname infos) ≡ master ∷ []
  pub addresses :
      listed_addresses g
      ≡ info_address master ∷ map info_address (slaves (entries g.groupname infos))

abbrev pub IsListing : List ServerInfo → RgroupInfo → Type 0
IsListing infos g = g.valid ≡ true → Lists infos g

Complete-reads :
    (infos : List ServerInfo) (g : RgroupInfo) (c : Complete infos g)
    → info_addresses g.nreplica g.replicas
      ≡ some (info_address c.master ∷ map info_address (slaves (entries g.groupname infos)))
Complete-reads infos g c =
    let ss = slaves (entries g.groupname infos) in
    let few : length ss ≤ 2 = omega (arith, c.fits, c.nreplica_eq) in
    (λ i. info_addresses (c.nreplica_eq i) (c.replicas_eq i))
    ∙ unfold info_addresses in rw (info_addresses-padded 2 ss few) refl

Complete-IsListed :
    (infos : List ServerInfo) (g : RgroupInfo) → All IsFit infos → Complete infos g → IsListed g
Complete-IsListed infos g fit c =
    let es = entries g.groupname infos in
    let ss = slaves es in
    let es_fit = All-entries IsFit g.groupname infos fit in
    let master_fit : IsFit c.master =
      (subst (All IsFit) c.master_eq (All-masters IsFit es es_fit)).0 in
    let Named : ServerInfo → Type 0 = λ i. str_eq i.groupname g.groupname ≡ true in
    let same_name : Named c.master =
      (subst (All Named) c.master_eq (All-masters Named es (entries-named g.groupname infos))).0 in
    record {
      addresses = info_address c.master ∷ map info_address ss;
      reads = Complete-reads infos g c;
      groupable = record {
        short =
            subst (λ n. length n < 128) (str_eq→eq c.master.groupname g.groupname same_name)
              master_fit.1;
        some_address = omega arith;
        few = omega (arith, length-map ss info_address, c.fits, c.nreplica_eq);
        valid = (master_fit.0, fit-AllValid ss (All-slaves IsFit es es_fit));
      };
    }

pub IsComplete-Ready :
    (infos : List ServerInfo) (l : List RgroupInfo)
    → All IsFit infos
    → All (IsComplete infos) l
    → All Ready l × All (IsListing infos) l
IsComplete-Ready infos [] fit h = (tt, tt)
IsComplete-Ready infos (g ∷ l) fit h =
    let (ready, listing) = IsComplete-Ready infos l fit h.1 in
    (
      ((λ v. Complete-IsListed infos g fit (h.0 v)), ready),
      (
        (λ v. record {
          master = (h.0 v).master;
          only_master = (h.0 v).master_eq;
          addresses = ap (λ r. elim r [ none ↦ [] | some l ↦ l ]) (Complete-reads infos g (h.0 v));
        }),
        listing,
      ),
    )
