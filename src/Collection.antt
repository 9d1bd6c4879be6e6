-- ===== src/Collection.antt =====
-- The words of the collection commands: libmemcached/collection.cc.
pub mod Words
use arcus_c_client.Prelude.{
  ℕ, zero, suc, ◌+◌, Bool, true, false, ◌&&◌, ◌||◌, not, List, [], ◌∷◌, leb, ltb, ◌==◌,
  if◌then◌else◌,
}
use arcus_c_client.ReturnCode.{ReturnCode}
use arcus_c_client.Text.{Bytes, codes}

-- `memcached_coll_action_t`
pub data CollAction : Type 0 where
  lop_insert_op : CollAction
  lop_get_op : CollAction
  lop_delete_op : CollAction
  sop_insert_op : CollAction
  sop_get_op : CollAction
  sop_delete_op : CollAction
  sop_exist_op : CollAction
  mop_insert_op : CollAction
  mop_upsert_op : CollAction
  mop_update_op : CollAction
  mop_get_op : CollAction
  mop_delete_op : CollAction
  bop_insert_op : CollAction
  bop_get_op : CollAction
  bop_delete_op : CollAction
  setattrs_op : CollAction
  getattrs_op : CollAction
  lop_create_op : CollAction
  sop_create_op : CollAction
  mop_create_op : CollAction
  bop_create_op : CollAction
  bop_upsert_op : CollAction
  bop_update_op : CollAction
  bop_incr_op : CollAction
  bop_decr_op : CollAction
  bop_count_op : CollAction
  bop_smget_op : CollAction
  bop_mget_op : CollAction
  bop_posi_op : CollAction
  bop_gbp_op : CollAction
  bop_pwg_op : CollAction
  unknown_op : CollAction

-- `coll_op_string`
unfoldable pub coll_op_string : CollAction → Bytes
coll_op_string CollAction.lop_insert_op = codes "lop insert "
coll_op_string CollAction.lop_get_op = codes "lop get "
coll_op_string CollAction.lop_delete_op = codes "lop delete "
coll_op_string CollAction.sop_insert_op = codes "sop insert "
coll_op_string CollAction.sop_get_op = codes "sop get "
coll_op_string CollAction.sop_delete_op = codes "sop delete "
coll_op_string CollAction.sop_exist_op = codes "sop exist "
coll_op_string CollAction.mop_insert_op = codes "mop insert "
coll_op_string CollAction.mop_upsert_op = codes "mop upsert "
coll_op_string CollAction.mop_update_op = codes "mop update "
coll_op_string CollAction.mop_get_op = codes "mop get "
coll_op_string CollAction.mop_delete_op = codes "mop delete "
coll_op_string CollAction.bop_insert_op = codes "bop insert "
coll_op_string CollAction.bop_get_op = codes "bop get "
coll_op_string CollAction.bop_delete_op = codes "bop delete "
coll_op_string CollAction.setattrs_op = codes "setattr "
coll_op_string CollAction.getattrs_op = codes "getattr "
coll_op_string CollAction.lop_create_op = codes "lop create "
coll_op_string CollAction.sop_create_op = codes "sop create "
coll_op_string CollAction.mop_create_op = codes "mop create "
coll_op_string CollAction.bop_create_op = codes "bop create "
coll_op_string CollAction.bop_upsert_op = codes "bop upsert "
coll_op_string CollAction.bop_update_op = codes "bop update "
coll_op_string CollAction.bop_incr_op = codes "bop incr "
coll_op_string CollAction.bop_decr_op = codes "bop decr "
coll_op_string CollAction.bop_count_op = codes "bop count "
coll_op_string CollAction.bop_smget_op = codes "bop smget "
coll_op_string CollAction.bop_mget_op = codes "bop mget "
coll_op_string CollAction.bop_posi_op = codes "bop position "
coll_op_string CollAction.bop_gbp_op = codes "bop gbp "
coll_op_string CollAction.bop_pwg_op = codes "bop pwg "
coll_op_string CollAction.unknown_op = codes "unknown"

-- `coll_op_length`
unfoldable pub coll_op_length : CollAction → ℕ
coll_op_length CollAction.lop_insert_op = 11
coll_op_length CollAction.lop_get_op = 8
coll_op_length CollAction.lop_delete_op = 11
coll_op_length CollAction.sop_insert_op = 11
coll_op_length CollAction.sop_get_op = 8
coll_op_length CollAction.sop_delete_op = 11
coll_op_length CollAction.sop_exist_op = 10
coll_op_length CollAction.mop_insert_op = 11
coll_op_length CollAction.mop_upsert_op = 11
coll_op_length CollAction.mop_update_op = 11
coll_op_length CollAction.mop_get_op = 8
coll_op_length CollAction.mop_delete_op = 11
coll_op_length CollAction.bop_insert_op = 11
coll_op_length CollAction.bop_get_op = 8
coll_op_length CollAction.bop_delete_op = 11
coll_op_length CollAction.setattrs_op = 8
coll_op_length CollAction.getattrs_op = 8
coll_op_length CollAction.lop_create_op = 11
coll_op_length CollAction.sop_create_op = 11
coll_op_length CollAction.mop_create_op = 11
coll_op_length CollAction.bop_create_op = 11
coll_op_length CollAction.bop_upsert_op = 11
coll_op_length CollAction.bop_update_op = 11
coll_op_length CollAction.bop_incr_op = 9
coll_op_length CollAction.bop_decr_op = 9
coll_op_length CollAction.bop_count_op = 10
coll_op_length CollAction.bop_smget_op = 10
coll_op_length CollAction.bop_mget_op = 9
coll_op_length CollAction.bop_posi_op = 13
coll_op_length CollAction.bop_gbp_op = 8
coll_op_length CollAction.bop_pwg_op = 8
coll_op_length CollAction.unknown_op = 0

-- `memcached_coll_overflowaction_t`
pub data OverflowAction : Type 0 where
  none_action : OverflowAction
  error_action : OverflowAction
  head_trim_action : OverflowAction
  tail_trim_action : OverflowAction
  smallest_trim_action : OverflowAction
  largest_trim_action : OverflowAction
  smallest_silent_trim_action : OverflowAction
  largest_silent_trim_action : OverflowAction

-- `coll_overflowaction_string`
unfoldable pub coll_overflowaction_string : OverflowAction → Bytes
coll_overflowaction_string OverflowAction.none_action = codes "uninitialized"
coll_overflowaction_string OverflowAction.error_action = codes "error"
coll_overflowaction_string OverflowAction.head_trim_action = codes "head_trim"
coll_overflowaction_string OverflowAction.tail_trim_action = codes "tail_trim"
coll_overflowaction_string OverflowAction.smallest_trim_action = codes "smallest_trim"
coll_overflowaction_string OverflowAction.largest_trim_action = codes "largest_trim"
coll_overflowaction_string OverflowAction.smallest_silent_trim_action = codes "smallest_silent_trim"
coll_overflowaction_string OverflowAction.largest_silent_trim_action = codes "largest_silent_trim"

-- `strncmp(a, b, n) == 0`; the end of a list is its NUL
unfoldable pub strncmp_eq : Bytes → Bytes → ℕ → Bool
strncmp_eq a b zero = true
strncmp_eq [] [] (suc n) = true
strncmp_eq [] (y ∷ b) (suc n) = false
strncmp_eq (x ∷ a) [] (suc n) = false
strncmp_eq (x ∷ a) (y ∷ b) (suc n) = if x == y then strncmp_eq a b n else false

-- `str_to_overflowaction`
unfoldable pub str_to_overflowaction : Bytes → ℕ → OverflowAction
unfolding strncmp_eq
str_to_overflowaction value value_length =
    if strncmp_eq (codes "error") value value_length
    then OverflowAction.error_action
    else if strncmp_eq (codes "head_trim") value value_length
    then OverflowAction.head_trim_action
    else if strncmp_eq (codes "tail_trim") value value_length
    then OverflowAction.tail_trim_action
    else if strncmp_eq (codes "smallest_trim") value value_length
    then OverflowAction.smallest_trim_action
    else if strncmp_eq (codes "largest_trim") value value_length
    then OverflowAction.largest_trim_action
    else if strncmp_eq (codes "smallest_silent_trim") value value_length
    then OverflowAction.smallest_silent_trim_action
    else if strncmp_eq (codes "largest_silent_trim") value value_length
    then OverflowAction.largest_silent_trim_action
    else OverflowAction.none_action

-- `memcached_coll_type_t`
pub data CollType : Type 0 where
  coll_none : CollType
  coll_kv : CollType
  coll_list : CollType
  coll_set : CollType
  coll_map : CollType
  coll_btree : CollType

-- `str_to_type`
unfoldable pub str_to_type : Bytes → ℕ → CollType
unfolding strncmp_eq
str_to_type value value_length =
    if strncmp_eq (codes "kv") value value_length
    then CollType.coll_kv
    else if strncmp_eq (codes "list") value value_length
    then CollType.coll_list
    else if strncmp_eq (codes "set") value value_length
    then CollType.coll_set
    else if strncmp_eq (codes "map") value value_length
    then CollType.coll_map
    else if strncmp_eq (codes "b+tree") value value_length
    then CollType.coll_btree
    else CollType.coll_none

-- `find_collection_type_by_opcode`, of the command's text; the end of the list is its NUL
unfoldable pub find_collection_type_by_opcode : Bytes → CollType
find_collection_type_by_opcode [] = CollType.coll_none
find_collection_type_by_opcode (c ∷ opcode) =
    if c == b'l'
    then CollType.coll_list
    else if c == b's'
    then CollType.coll_set
    else if c == b'm'
    then CollType.coll_map
    else if c == b'b'
    then CollType.coll_btree
    else CollType.coll_none
