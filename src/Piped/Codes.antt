-- ===== src/Piped/Codes.antt =====
-- The code of a piped command, against a description of what it tells about the responses.
use arcus_c_client.Prelude.{
  ◌≡◌, refl, sym, ap, ◌∙◌, inl, inr, Bool, true, false, ◌&&◌, ◌||◌, not, List, [], ◌∷◌, arith,
  Bool-cases,
}
use arcus_c_client.ReturnCode.{ReturnCode}
use arcus_c_client.Piped.{
  is_exist, is_not_exist, is_stored, exist_step, insert_step, aggregate, first_code,
  aggregate_pipe_responses,
}

abbrev pub any : (ReturnCode → Bool) → List ReturnCode → Bool
any p [] = false
any p (rc ∷ rest) = p rc || any p rest

-- What an exist command tells: whether any element exists, any does not, and anything failed.
abbrev pub exist_code : Bool → Bool → Bool → ReturnCode
exist_code true true false = ReturnCode.some_exist
exist_code true false false = ReturnCode.all_exist
exist_code false true false = ReturnCode.all_not_exist
exist_code false false false = ReturnCode.maximum_return
exist_code true false true = ReturnCode.some_success
exist_code true true true = ReturnCode.some_success
exist_code false true true = ReturnCode.some_success
exist_code false false true = ReturnCode.all_failure

-- What an insert command tells: whether anything was stored, and anything failed.
abbrev pub insert_code : Bool → Bool → ReturnCode
insert_code true false = ReturnCode.all_success
insert_code true true = ReturnCode.some_success
insert_code false true = ReturnCode.all_failure
insert_code false false = ReturnCode.maximum_return

abbrev pub is_failed_exist : ReturnCode → Bool
is_failed_exist rc = not (is_exist rc || is_not_exist rc)

abbrev pub is_failed_insert : ReturnCode → Bool
is_failed_insert rc = not (is_stored rc)

-- Once something has succeeded and something failed, no response changes the code.
exist_code-mixed :
    (e n f x y z : Bool)
    → (f && (e || n)) ≡ true
    → exist_code (e || x) (n || y) (f || z) ≡ exist_code e n f
exist_code-mixed e n f x y z h = ground arith

apart : (rc : ReturnCode) → (is_exist rc && is_not_exist rc) ≡ false
apart ReturnCode.exist = refl
apart _ = refl

step_code :
    (rc : ReturnCode) (e n f : Bool)
    → ((exist_step rc (exist_code e n f)).0
        ≡ exist_code (e || is_exist rc) (n || is_not_exist rc) (f || is_failed_exist rc))
unfolding exist_step
step_code rc e n f = ground (arith, apart rc)

step_ends :
    (rc : ReturnCode) (e n f : Bool)
    → (exist_step rc (exist_code e n f)).1 ≡ true
    → ((f || is_failed_exist rc) && ((e || is_exist rc) || (n || is_not_exist rc))) ≡ true
unfolding exist_step
step_ends rc e n f h = ground (arith, apart rc)

or_assoc : (a b c : Bool) → ((a || b) || c) ≡ (a || (b || c))
or_assoc true b c = refl
or_assoc false b c = refl

aggregate-exist_step :
    (l : List ReturnCode) (e n f : Bool)
    → aggregate exist_step l (exist_code e n f)
      ≡ exist_code (e || any is_exist l) (n || any is_not_exist l) (f || any is_failed_exist l)
unfolding aggregate
aggregate-exist_step [] e n f = ground arith
aggregate-exist_step (rc ∷ l) e n f =
    let code = step_code rc e n f in
    let later =
      aggregate-exist_step l (e || is_exist rc) (n || is_not_exist rc) (f || is_failed_exist rc) in
    let target : exist_code ((e || is_exist rc) || any is_exist l)
          ((n || is_not_exist rc) || any is_not_exist l)
          ((f || is_failed_exist rc) || any is_failed_exist l)
        ≡ exist_code (e || any is_exist (rc ∷ l)) (n || any is_not_exist (rc ∷ l))
            (f || any is_failed_exist (rc ∷ l)) =
      rw
        (
          or_assoc e (is_exist rc) (any is_exist l),
          or_assoc n (is_not_exist rc) (any is_not_exist l),
          or_assoc f (is_failed_exist rc) (any is_failed_exist l),
        )
        refl in
    elim (Bool-cases (exist_step rc (exist_code e n f)).1) [
      | inr goes ↦ rw (goes, code) (later ∙ target)
      | inl ends ↦
          let mixed =
            exist_code-mixed (e || is_exist rc) (n || is_not_exist rc) (f || is_failed_exist rc)
              (any is_exist l) (any is_not_exist l) (any is_failed_exist l)
              (step_ends rc e n f ends) in
          rw (ends, code) (sym mixed ∙ target)
    ]

insert_code-mixed :
    (s f y z : Bool) → (f && s) ≡ true → insert_code (s || y) (f || z) ≡ insert_code s f
insert_code-mixed s f y z h = ground arith

insert_step_code :
    (rc : ReturnCode) (s f : Bool)
    → (insert_step rc (insert_code s f)).0
      ≡ insert_code (s || is_stored rc) (f || is_failed_insert rc)
unfolding insert_step
insert_step_code rc s f = ground arith

insert_step_ends :
    (rc : ReturnCode) (s f : Bool)
    → (insert_step rc (insert_code s f)).1 ≡ true
    → ((f || is_failed_insert rc) && (s || is_stored rc)) ≡ true
unfolding insert_step
insert_step_ends rc s f h = ground arith

aggregate-insert_step :
    (l : List ReturnCode) (s f : Bool)
    → aggregate insert_step l (insert_code s f)
      ≡ insert_code (s || any is_stored l) (f || any is_failed_insert l)
unfolding aggregate
aggregate-insert_step [] s f = ground arith
aggregate-insert_step (rc ∷ l) s f =
    let code = insert_step_code rc s f in
    let later = aggregate-insert_step l (s || is_stored rc) (f || is_failed_insert rc) in
    let target : insert_code ((s || is_stored rc) || any is_stored l)
          ((f || is_failed_insert rc) || any is_failed_insert l)
        ≡ insert_code (s || any is_stored (rc ∷ l)) (f || any is_failed_insert (rc ∷ l)) =
      rw
        (
          or_assoc s (is_stored rc) (any is_stored l),
          or_assoc f (is_failed_insert rc) (any is_failed_insert l),
        )
        refl in
    elim (Bool-cases (insert_step rc (insert_code s f)).1) [
      | inr goes ↦ rw (goes, code) (later ∙ target)
      | inl ends ↦
          let mixed =
            insert_code-mixed (s || is_stored rc) (f || is_failed_insert rc) (any is_stored l)
              (any is_failed_insert l) (insert_step_ends rc s f ends) in
          rw (ends, code) (sym mixed ∙ target)
    ]

abbrev pub is_success : ReturnCode → Bool
is_success ReturnCode.success = true
is_success _ = false

first_exist : (rc : ReturnCode) → first_code rc ≡ exist_code false false (not (is_success rc))
first_exist ReturnCode.success = refl
first_exist _ = refl

first_insert : (rc : ReturnCode) → first_code rc ≡ insert_code false (not (is_success rc))
first_insert ReturnCode.success = refl
first_insert _ = refl

-- The code of a piped exist command tells whether any element exists, whether any does not, and
-- whether any response or the call itself failed; the code of a piped insert command tells whether any
-- element was stored, and whether any response or the call itself failed. The loops' early ends lose
-- nothing.
pub aggregate_pipe_responses_lem :
    (rc : ReturnCode) (l : List ReturnCode)
    → (aggregate_pipe_responses rc b'e' l
        ≡ exist_code
            (any is_exist l)
            (any is_not_exist l)
            (not (is_success rc) || any is_failed_exist l))
      × (aggregate_pipe_responses rc b'i' l
          ≡ insert_code (any is_stored l) (not (is_success rc) || any is_failed_insert l))
unfolding aggregate_pipe_responses
aggregate_pipe_responses_lem rc l = (
  ap (aggregate exist_step l) (first_exist rc)
      ∙ aggregate-exist_step l false false (not (is_success rc)),
  ap (aggregate insert_step l) (first_insert rc)
      ∙ aggregate-insert_step l false (not (is_success rc)),
)
