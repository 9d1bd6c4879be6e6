-- ===== src/Piped.antt =====
-- The code of a piped collection command: libmemcached/collection.cc.
pub mod Codes
use arcus_c_client.Prelude.{
  ℕ, zero, suc, ◌+◌, Bool, true, false, ◌&&◌, ◌||◌, not, List, [], ◌∷◌, leb, ltb, ◌==◌,
  if◌then◌else◌,
}
use arcus_c_client.ReturnCode.{ReturnCode}

abbrev pub is_exist : ReturnCode → Bool
is_exist ReturnCode.exist = true
is_exist _ = false

abbrev pub is_not_exist : ReturnCode → Bool
is_not_exist ReturnCode.not_exist = true
is_not_exist _ = false

abbrev pub is_stored : ReturnCode → Bool
is_stored ReturnCode.stored = true
is_stored ReturnCode.created_stored = true
is_stored _ = false

-- The three branches of the loop for an exist command, by the code so far: the new code, and whether
-- the loop ends.
abbrev on_exist : ReturnCode → ReturnCode × Bool
on_exist ReturnCode.maximum_return = (ReturnCode.all_exist, false)
on_exist ReturnCode.all_not_exist = (ReturnCode.some_exist, false)
on_exist ReturnCode.all_failure = (ReturnCode.some_success, true)
on_exist res = (res, false)

abbrev on_not_exist : ReturnCode → ReturnCode × Bool
on_not_exist ReturnCode.maximum_return = (ReturnCode.all_not_exist, false)
on_not_exist ReturnCode.all_exist = (ReturnCode.some_exist, false)
on_not_exist ReturnCode.all_failure = (ReturnCode.some_success, true)
on_not_exist res = (res, false)

abbrev on_failure : ReturnCode → ReturnCode × Bool
on_failure ReturnCode.maximum_return = (ReturnCode.all_failure, false)
on_failure ReturnCode.all_failure = (ReturnCode.all_failure, false)
on_failure res = (ReturnCode.some_success, true)

-- The body of the loop for an exist command, of a response and the code so far
unfoldable pub exist_step : ReturnCode → ReturnCode → ReturnCode × Bool
exist_step rc res =
    if is_exist rc
    then on_exist res
    else if is_not_exist rc
    then on_not_exist res
    else on_failure res

-- The first branch of the loop for an insert command
abbrev on_stored : ReturnCode → ReturnCode × Bool
on_stored ReturnCode.maximum_return = (ReturnCode.all_success, false)
on_stored ReturnCode.all_failure = (ReturnCode.some_success, true)
on_stored res = (res, false)

-- The body of the loop for an insert command
unfoldable pub insert_step : ReturnCode → ReturnCode → ReturnCode × Bool
insert_step rc res = if is_stored rc then on_stored res else on_failure res

-- A loop over the responses, with its `break`
unfoldable pub aggregate :
    (ReturnCode → ReturnCode → ReturnCode × Bool) → List ReturnCode → ReturnCode → ReturnCode
aggregate step [] res = res
aggregate step (rc ∷ rest) res =
    let r = step rc res in let later = aggregate step rest r.0 in if r.1 then r.0 else later

abbrev first_code : ReturnCode → ReturnCode
first_code ReturnCode.success = ReturnCode.maximum_return
first_code _ = ReturnCode.all_failure

-- `do_aggregate_pipe_responses`, of the fifth letter of the command and the responses to it
unfoldable pub aggregate_pipe_responses : ReturnCode → ℕ → List ReturnCode → ReturnCode
unfolding aggregate exist_step insert_step
aggregate_pipe_responses rc op_code responses =
    let res = first_code rc in
    if op_code == b'e'
    then aggregate exist_step responses res
    else if op_code == b'i'
    then aggregate insert_step responses res
    else res
