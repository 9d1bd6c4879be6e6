-- ===== src/Rgroup/Kept.antt =====
-- What the operations on a replica group leave as it was: the servers of the pool and of the group
-- are none lost and none made up, and the group keeps its name, its place, its weight and its marks.
use arcus_c_client.Prelude.{
  ℕ, zero, suc, inl, inr, Option-cases, ◌+◌, ◌-◌, ◌≡◌, refl, ◌∙◌, Bool, true, false, Option, none,
  some, List, [], ◌∷◌, length, arith, ◌==◌, if◌then◌else◌, ltb, get_or, set, replicate, ◌&&◌,
}
use arcus_c_client.Server.{Server, is_valid_servername}
use arcus_c_client.Text.{Bytes}
use arcus_c_client.Rgroup.{
  ServerPool, GroupState, Address, UpdateState, ◌>>=◌, slot, server_alloc, server_release,
  take_server, server_insert, server_remove, server_replace, server_switchover, index_fits, is_same,
  find_replica, find_slave, remove_slaves, insert_slaves, insert_all, remove_all, move_master,
  update_slaves, single_slaves, update_single, rgroup_update,
}
use arcus_c_client.Rgroup.Every.{Every, Every-bind, Every-if, Every-any}

pub record Keeps (st st' : GroupState) : Type 0 where
  pub total :
      length st'.memc.servers + st'.rgroup.nreplica ≡ length st.memc.servers + st.rgroup.nreplica
  pub ntotal : st'.memc.server_ntotal ≡ st.memc.server_ntotal
  pub navail :
      st.memc.server_navail ≡ length st.memc.servers
      → st'.memc.server_navail ≡ length st'.memc.servers
  pub groupname : st'.rgroup.groupname ≡ st.rgroup.groupname
  pub groupindex : st'.rgroup.groupindex ≡ st.rgroup.groupindex
  pub is_dead : st'.rgroup.is_dead ≡ st.rgroup.is_dead
  pub is_allocated : st'.rgroup.is_allocated ≡ st.rgroup.is_allocated
  pub weight : st'.rgroup.weight ≡ st.rgroup.weight

pub Keeps-refl : (st : GroupState) → Keeps st st
Keeps-refl st = record {
  total = refl;
  ntotal = refl;
  navail = λ e. e;
  groupname = refl;
  groupindex = refl;
  is_dead = refl;
  is_allocated = refl;
  weight = refl;
}

pub Keeps-trans : (a b c : GroupState) → Keeps a b → Keeps b c → Keeps a c
Keeps-trans a b c h k = record {
  total = k.total ∙ h.total;
  ntotal = k.ntotal ∙ h.ntotal;
  navail = λ e. k.navail (h.navail e);
  groupname = k.groupname ∙ h.groupname;
  groupindex = k.groupindex ∙ h.groupindex;
  is_dead = k.is_dead ∙ h.is_dead;
  is_allocated = k.is_allocated ∙ h.is_allocated;
  weight = k.weight ∙ h.weight;
}

-- A server that is taken out of the pool.
record Taken (m m' : ServerPool) : Type 0 where
  pub servers : length m.servers ≡ suc (length m'.servers)
  pub ntotal : m'.server_ntotal ≡ m.server_ntotal
  pub navail : m.server_navail ≡ length m.servers → m'.server_navail ≡ length m'.servers

head-Taken :
    (m : ServerPool) (l : List Server)
    → length m.servers ≡ length l
    → Every
        (λ (r : Server × ServerPool). Taken m r.1)
        (elim l [
          | [] ↦ none
          | s ∷ rest ↦ some (s, record m { servers = rest; server_navail = m.server_navail - 1 })
        ])
head-Taken m [] e = tt
head-Taken m (s ∷ l) e = record { servers = e; ntotal = refl; navail = λ a. omega (arith, a, e) }

server_alloc-Taken :
    (m : ServerPool) → Every (λ (r : Server × ServerPool). Taken m r.1) (server_alloc m)
unfolding server_alloc
server_alloc-Taken m = head-Taken m m.servers refl

take_server-Taken :
    (st : GroupState) (hostname : Bytes) (port : ℕ)
    → Every (λ (r : Server × ServerPool). Taken st.memc r.1) (take_server st hostname port)
unfolding take_server
take_server-Taken st hostname port =
    Every-bind (λ r. Taken st.memc r.1) (λ r. Taken st.memc r.1) (server_alloc st.memc) _
      (server_alloc-Taken st.memc)
      λ a h. record { servers = h.servers; ntotal = h.ntotal; navail = h.navail }

-- A state with another pool and other slots.
Keeps-slots :
    (st : GroupState) (m : ServerPool) (n : ℕ) (slots : List (Option Server))
    → length m.servers + n ≡ length st.memc.servers + st.rgroup.nreplica
    → m.server_ntotal ≡ st.memc.server_ntotal
    → (st.memc.server_navail ≡ length st.memc.servers → m.server_navail ≡ length m.servers)
    → Keeps st (record { memc = m; rgroup = record st.rgroup { nreplica = n; replicas = slots } })
Keeps-slots st m n slots total same navail = record {
  total = total;
  ntotal = same;
  navail = navail;
  groupname = refl;
  groupindex = refl;
  is_dead = refl;
  is_allocated = refl;
  weight = refl;
}

pub server_insert-Keeps :
    (st : GroupState) (sindex : Option ℕ) (hostname : Bytes) (port : ℕ)
    → Every (Keeps st) (server_insert st sindex hostname port)
unfolding server_insert
server_insert-Keeps st sindex hostname port =
    Every-if (Keeps st) (ltb st.rgroup.nreplica 3 && index_fits sindex st.rgroup.nreplica) _ _
      (λ _.
        Every-if (Keeps st) (is_valid_servername hostname) _ _
          (λ _.
            Every-bind (λ r. Taken st.memc r.1) (Keeps st) (take_server st hostname port) _
              (take_server-Taken st hostname port)
              λ r h. Keeps-slots st r.1 _ _ (omega (arith, h.servers)) h.ntotal h.navail)
          (Keeps-slots st _ _ _ refl refl (λ e. e)))
      tt

pub server_remove-Keeps :
    (st : GroupState) (sindex : ℕ) → Every (Keeps st) (server_remove st sindex)
unfolding server_remove server_release
server_remove-Keeps st sindex =
    Every-if (Keeps st) (ltb sindex st.rgroup.nreplica) _ _
      (λ b.
        Every-bind (λ _. Unit) (Keeps st) (slot st.rgroup.replicas sindex) _ (Every-any _)
          λ s _. Keeps-slots st _ _ _ (ground (arith, b)) refl (λ e. omega (arith, e)))
      tt

server_replace-Keeps :
    (st : GroupState) (sindex : ℕ) (hostname : Bytes) (port : ℕ)
    → Every (Keeps st) (server_replace st sindex hostname port)
unfolding server_replace server_release
server_replace-Keeps st sindex hostname port =
    Every-if (Keeps st) (ltb sindex st.rgroup.nreplica) _ _
      (λ _.
        Every-if (Keeps st) (is_valid_servername hostname) _ _
          (λ _.
            Every-bind (λ r. Taken st.memc r.1) (Keeps st) (take_server st hostname port) _
              (take_server-Taken st hostname port)
              λ r h.
                Every-bind (λ _. Unit) (Keeps st) (slot st.rgroup.replicas sindex) _ (Every-any _)
                  λ s _.
                    Keeps-slots st _ _ _ (omega (arith, h.servers)) h.ntotal
                      (λ e. omega (arith, h.navail e)))
          (Keeps-slots st _ _ _ refl refl (λ e. e)))
      tt

server_switchover-Keeps :
    (st : GroupState) (sindex : ℕ) → Every (Keeps st) (server_switchover st sindex)
unfolding server_switchover
server_switchover-Keeps st sindex =
    Every-if (Keeps st) (ltb 0 sindex && ltb sindex st.rgroup.nreplica) _ _
      (λ _. Keeps-slots st _ _ _ refl refl (λ e. e)) tt

-- What has been kept so far, and by the next step.
pub after {ℓ} :
    {A : Type ℓ} (group : A → GroupState) (st st' : GroupState) (r : Option A)
    → Keeps st st'
    → Every (λ a. Keeps st' (group a)) r
    → Every (λ a. Keeps st (group a)) r
after group st st' none h k = tt
after group st st' (some a) h k = Keeps-trans st st' (group a) h k

abbrev group_of : UpdateState → GroupState
group_of u = u.group

abbrev pub itself : GroupState → GroupState
itself st = st

abbrev first_of : GroupState × Bool → GroupState
first_of r = r.0

remove_slaves-Keeps :
    (fuel i : ℕ) (slaves : List Address) (u : UpdateState)
    → Every (λ (u' : UpdateState). Keeps u.group u'.group) (remove_slaves fuel i slaves u)
unfolding remove_slaves
remove_slaves-Keeps zero i slaves u = tt
remove_slaves-Keeps (suc fuel) i slaves u =
    let P : UpdateState → Type 0 = λ u'. Keeps u.group u'.group in
    Every-if P (ltb i u.group.rgroup.nreplica) _ _
      (λ _.
        Every-bind (λ _. Unit {0}) P (slot u.group.rgroup.replicas i) _ (Every-any _)
          λ s _. elim (Option-cases (find_slave s 1 u.exist slaves)) [
            | inl e ↦ rw e (
                Every-bind (Keeps u.group) P (server_remove u.group i) _
                  (server_remove-Keeps u.group i)
                  λ g h.
                    after group_of u.group g _ h
                      (remove_slaves-Keeps fuel i slaves (record u { group = g; changed = true })))
            | inr (j, e) ↦
                rw e (
                  remove_slaves-Keeps fuel (i + 1) slaves (record u { exist = set u.exist j true }))
          ])
      (Keeps-refl u.group)

insert_slaves-Keeps :
    (i : ℕ) (slaves : List Address) (u : UpdateState)
    → Every (λ (u' : UpdateState). Keeps u.group u'.group) (insert_slaves i slaves u)
unfolding insert_slaves
insert_slaves-Keeps i [] u = Keeps-refl u.group
insert_slaves-Keeps i (a ∷ more) u =
    Every-if (λ (u' : UpdateState). Keeps u.group u'.group) (get_or u.exist i false) _ _
      (λ _. insert_slaves-Keeps (suc i) more u)
      (Every-bind (Keeps u.group) (λ (u' : UpdateState). Keeps u.group u'.group)
        (server_insert u.group none a.hostname a.port) _
        (server_insert-Keeps u.group none a.hostname a.port)
        λ g h.
          after group_of u.group g _ h
            (insert_slaves-Keeps (suc i) more (record u { group = g; changed = true })))

pub insert_all-Keeps :
    (i : ℕ) (l : List Address) (st : GroupState) → Every (Keeps st) (insert_all i l st)
unfolding insert_all
insert_all-Keeps i [] st = Keeps-refl st
insert_all-Keeps i (a ∷ more) st =
    Every-bind (Keeps st) (Keeps st) (server_insert st (some i) a.hostname a.port) _
      (server_insert-Keeps st (some i) a.hostname a.port)
      λ g h. after itself st g _ h (insert_all-Keeps (suc i) more g)

remove_all-Keeps : (fuel : ℕ) (st : GroupState) → Every (Keeps st) (remove_all fuel st)
unfolding remove_all
remove_all-Keeps zero st = tt
remove_all-Keeps (suc fuel) st =
    Every-if (Keeps st) (ltb 1 st.rgroup.nreplica) _ _
      (λ _.
        Every-bind (Keeps st) (Keeps st) (server_remove st (st.rgroup.nreplica - 1)) _
          (server_remove-Keeps st (st.rgroup.nreplica - 1))
          λ g h. after itself st g _ h (remove_all-Keeps fuel g))
      (Keeps-refl st)

move_master-Keeps :
    (m : Address) (st : GroupState)
    → Every (λ (r : GroupState × Bool). Keeps st r.0) (move_master m st)
unfolding move_master
move_master-Keeps m st =
    let P : GroupState × Bool → Type 0 = λ r. Keeps st r.0 in
    let n = st.rgroup.nreplica in
    Every-bind (λ _. Unit {0}) P (slot st.rgroup.replicas 0) _ (Every-any _)
      λ s _.
        Every-if P (is_same s m) _ _ (λ _. Keeps-refl st)
          (Every-bind (λ _. Unit {0}) P (find_replica (n - 1) 1 st.rgroup m) _ (Every-any _)
            λ i _.
              Every-bind (Keeps st) P
                (if ltb i n then server_switchover st i else server_replace st 0 m.hostname m.port)
                _
                (Every-if (Keeps st) (ltb i n) _ _ (λ _. server_switchover-Keeps st i)
                  (server_replace-Keeps st 0 m.hostname m.port))
                λ g h. h)

update_slaves-Keeps :
    (l : List Address) (st : GroupState) (c : Bool)
    → Every (λ (r : GroupState × Bool). Keeps st r.0) (update_slaves l (st, c))
unfolding update_slaves
update_slaves-Keeps [] st c =
    Every-bind (Keeps st) (λ r. Keeps st r.0) (remove_all 4 st) _ (remove_all-Keeps 4 st) λ g h. h
update_slaves-Keeps (a ∷ slaves) st c =
    let u₀ : UpdateState = record { group = st; exist = replicate 3 false; changed = c } in
    let P : GroupState × Bool → Type 0 = λ r. Keeps st r.0 in
    Every-bind (λ u. Keeps st u.group) P (remove_slaves 4 1 (a ∷ slaves) u₀) _
      (remove_slaves-Keeps 4 1 (a ∷ slaves) u₀)
      λ u h.
        Every-bind (λ u'. Keeps u.group u'.group) P (insert_slaves 1 (a ∷ slaves) u) _
          (insert_slaves-Keeps 1 (a ∷ slaves) u) λ u' k. Keeps-trans st u.group u'.group h k

single_slaves-Keeps :
    (l : List Address) (r : GroupState × Bool)
    → Every (λ (r' : GroupState × Bool). Keeps r.0 r'.0) (single_slaves l r)
single_slaves-Keeps [] r = Keeps-refl r.0
single_slaves-Keeps (a ∷ slaves) r =
    Every-bind (Keeps r.0) (λ r'. Keeps r.0 r'.0) (insert_all 1 (a ∷ slaves) r.0) _
      (insert_all-Keeps 1 (a ∷ slaves) r.0) λ g h. h

update_single-Keeps :
    (m : Address) (l : List Address) (st : GroupState)
    → Every (λ (r : GroupState × Bool). Keeps st r.0) (update_single m l st)
unfolding update_single
update_single-Keeps m l st =
    let P : GroupState × Bool → Type 0 = λ r. Keeps st r.0 in
    Every-bind (λ _. Unit {0}) P (slot st.rgroup.replicas 0) _ (Every-any _)
      λ s _.
        Every-bind P P
          (if is_same s m
            then some (st, false)
            else (server_replace st 0 m.hostname m.port >>= λ st'. some (st', true)))
          _
          (Every-if P (is_same s m) _ _ (λ _. Keeps-refl st)
            (Every-bind (Keeps st) P (server_replace st 0 m.hostname m.port) _
              (server_replace-Keeps st 0 m.hostname m.port) λ g h. h))
          λ r h. after first_of st r.0 _ h (single_slaves-Keeps l r)

-- The update of a group.
pub rgroup_update-Keeps :
    (st : GroupState) (l : List Address)
    → Every (λ (r : GroupState × Bool). Keeps st r.0) (rgroup_update st l)
unfolding rgroup_update
rgroup_update-Keeps st [] = tt
rgroup_update-Keeps st (m ∷ l) =
    let P : GroupState × Bool → Type 0 = λ r. Keeps st r.0 in
    Every-if P (st.rgroup.nreplica == 1) _ _ (λ _. update_single-Keeps m l st)
      (Every-bind P P (move_master m st) _ (move_master-Keeps m st)
        λ r h. after first_of st r.0 _ h (update_slaves-Keeps l r.0 r.1))
