-- ===== src/Collection/Words.antt =====
-- The words of the collection commands are consistent.
use arcus_c_client.Prelude.{◌≡◌, ◌≢◌, refl, ◌++◌, length}
use arcus_c_client.Text.{Bytes}
use arcus_c_client.Collection.{
  CollAction, coll_op_string, coll_op_length, OverflowAction, coll_overflowaction_string,
  str_to_overflowaction,
}

-- The length that is kept for a command is that of its text, for all commands but the unknown one.
pub coll_op_length-coll_op_string :
    (verb : CollAction)
    → verb ≢ CollAction.unknown_op
    → coll_op_length verb ≡ length (coll_op_string verb)
unfolding coll_op_length coll_op_string
coll_op_length-coll_op_string CollAction.lop_insert_op h = refl
coll_op_length-coll_op_string CollAction.lop_get_op h = refl
coll_op_length-coll_op_string CollAction.lop_delete_op h = refl
coll_op_length-coll_op_string CollAction.sop_insert_op h = refl
coll_op_length-coll_op_string CollAction.sop_get_op h = refl
coll_op_length-coll_op_string CollAction.sop_delete_op h = refl
coll_op_length-coll_op_string CollAction.sop_exist_op h = refl
coll_op_length-coll_op_string CollAction.mop_insert_op h = refl
coll_op_length-coll_op_string CollAction.mop_upsert_op h = refl
coll_op_length-coll_op_string CollAction.mop_update_op h = refl
coll_op_length-coll_op_string CollAction.mop_get_op h = refl
coll_op_length-coll_op_string CollAction.mop_delete_op h = refl
coll_op_length-coll_op_string CollAction.bop_insert_op h = refl
coll_op_length-coll_op_string CollAction.bop_get_op h = refl
coll_op_length-coll_op_string CollAction.bop_delete_op h = refl
coll_op_length-coll_op_string CollAction.setattrs_op h = refl
coll_op_length-coll_op_string CollAction.getattrs_op h = refl
coll_op_length-coll_op_string CollAction.lop_create_op h = refl
coll_op_length-coll_op_string CollAction.sop_create_op h = refl
coll_op_length-coll_op_string CollAction.mop_create_op h = refl
coll_op_length-coll_op_string CollAction.bop_create_op h = refl
coll_op_length-coll_op_string CollAction.bop_upsert_op h = refl
coll_op_length-coll_op_string CollAction.bop_update_op h = refl
coll_op_length-coll_op_string CollAction.bop_incr_op h = refl
coll_op_length-coll_op_string CollAction.bop_decr_op h = refl
coll_op_length-coll_op_string CollAction.bop_count_op h = refl
coll_op_length-coll_op_string CollAction.bop_smget_op h = refl
coll_op_length-coll_op_string CollAction.bop_mget_op h = refl
coll_op_length-coll_op_string CollAction.bop_posi_op h = refl
coll_op_length-coll_op_string CollAction.bop_gbp_op h = refl
coll_op_length-coll_op_string CollAction.bop_pwg_op h = refl
coll_op_length-coll_op_string CollAction.unknown_op h = absurd (h refl)

-- The text of an overflow action is read back as the action, whatever stands behind it.
pub str_to_overflowaction-coll_overflowaction_string :
    (action : OverflowAction) (rest : Bytes)
    → str_to_overflowaction
        (coll_overflowaction_string action ++ rest)
        (length (coll_overflowaction_string action))
      ≡ action
unfolding str_to_overflowaction coll_overflowaction_string
str_to_overflowaction-coll_overflowaction_string OverflowAction.none_action rest = refl
str_to_overflowaction-coll_overflowaction_string OverflowAction.error_action rest = refl
str_to_overflowaction-coll_overflowaction_string OverflowAction.head_trim_action rest = refl
str_to_overflowaction-coll_overflowaction_string OverflowAction.tail_trim_action rest = refl
str_to_overflowaction-coll_overflowaction_string OverflowAction.smallest_trim_action rest = refl
str_to_overflowaction-coll_overflowaction_string OverflowAction.largest_trim_action rest = refl
str_to_overflowaction-coll_overflowaction_string OverflowAction.smallest_silent_trim_action rest =
    refl
str_to_overflowaction-coll_overflowaction_string OverflowAction.largest_silent_trim_action rest =
    refl
