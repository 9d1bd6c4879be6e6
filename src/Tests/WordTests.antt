-- ===== src/Tests/WordTests.antt =====
-- Byte arrays in hexadecimal, the words of collection commands, keys and namespaces.
use arcus_c_client.Prelude.{
  ℕ, ◌≡◌, ◌⊎◌, refl, ◌==◌, ◌++◌, ◌||◌, not, some, none, List, [], ◌∷◌, true, false, Bool, arith,
  leb, ◌&&◌, if◌then◌else◌, length, All, take,
}
use arcus_c_client.ReturnCode.{ReturnCode, success, bad_key_provided}
use arcus_c_client.Outcome.{memcached_success, memcached_failed, memcached_failed-memcached_success}
use arcus_c_client.Text.{Bytes, codes, strcmp}
use arcus_c_client.Hex.{
  convert_hex_to_str, hex_digit, convert_pairs, convert_str_to_hex, conv_hex_to_str,
  conv_str_to_hex, first_difference, compare_two_hexadecimal,
}
use arcus_c_client.Hex.Order.{compare_two_hexadecimal-convert_hex_to_str}
use arcus_c_client.Hex.RoundTrip.{conv_str_to_hex-conv_hex_to_str}
use arcus_c_client.Collection.{
  CollAction, coll_op_string, coll_op_length, OverflowAction, CollType, coll_overflowaction_string,
  strncmp_eq, str_to_overflowaction, str_to_type, find_collection_type_by_opcode,
}
use arcus_c_client.Piped.{
  is_exist, is_not_exist, is_stored, exist_step, insert_step, aggregate, aggregate_pipe_responses,
}
use arcus_c_client.Collection.Words.{
  coll_op_length-coll_op_string, str_to_overflowaction-coll_overflowaction_string,
}
use arcus_c_client.Piped.Codes.{
  any, exist_code, insert_code, is_failed_exist, is_failed_insert, is_success,
  aggregate_pipe_responses_lem,
}
use arcus_c_client.Keys.{
  Named, validate_key_length, all_graph, test_keys, key_test, set_given, set_namespace,
}
use arcus_c_client.Keys.Valid.{IsValidKey, key_test-IsValidKey}
use arcus_c_client.Keys.Namespace.{Set, set_namespace-Set}

program : Unit {0}
unfolding convert_hex_to_str hex_digit convert_pairs convert_str_to_hex conv_hex_to_str
    conv_str_to_hex first_difference compare_two_hexadecimal strncmp_eq str_to_type
    find_collection_type_by_opcode exist_step insert_step aggregate aggregate_pipe_responses
    validate_key_length all_graph test_keys key_test set_given set_namespace memcached_failed
program = tt

hex_text : convert_hex_to_str (0x0A ∷ 0xF0 ∷ []) ≡ codes "0AF0"
unfolding program
hex_text = refl

-- A text that is not hexadecimal is reported as a success, with the array as it is left.
hex_invalid :
    conv_str_to_hex (λ n. some (7 ∷ 7 ∷ [])) (codes "0AxF") 4 ≡ (success, some (10 ∷ 7 ∷ []))
unfolding program
hex_invalid = refl

abbrev two_bytes : Bytes
two_bytes = 0x0A ∷ 0xF0 ∷ []

conv_str_to_hex-conv_hex_to_str_example :
    (str : Bytes) × (conv_hex_to_str two_bytes 63 ≡ (success, some str))
    × (conv_str_to_hex
          (λ n. if n == length two_bytes then some (7 ∷ 7 ∷ []) else none)
          str
          (length str)
        ≡ (success, some two_bytes))
conv_str_to_hex-conv_hex_to_str_example =
    conv_str_to_hex-conv_hex_to_str two_bytes (7 ∷ 7 ∷ []) 63 (omega arith, (omega arith, tt))
      (omega arith) (omega arith) (omega arith) refl

compare_two_hexadecimal-convert_hex_to_str_example :
    compare_two_hexadecimal (9 ∷ 1 ∷ []) (160 ∷ [])
    ≡ strcmp (convert_hex_to_str (9 ∷ 1 ∷ [])) (convert_hex_to_str (160 ∷ []))
compare_two_hexadecimal-convert_hex_to_str_example =
    compare_two_hexadecimal-convert_hex_to_str (9 ∷ 1 ∷ []) (160 ∷ [])
      (omega arith, (omega arith, tt)) (omega arith, tt)

coll_op_length-coll_op_string_example :
    coll_op_length CollAction.bop_posi_op ≡ length (coll_op_string CollAction.bop_posi_op)
coll_op_length-coll_op_string_example =
    coll_op_length-coll_op_string CollAction.bop_posi_op (λ e. cc e)

str_to_overflowaction-coll_overflowaction_string_example :
    str_to_overflowaction
      (coll_overflowaction_string OverflowAction.smallest_trim_action ++ codes " ok")
      (length (coll_overflowaction_string OverflowAction.smallest_trim_action))
    ≡ OverflowAction.smallest_trim_action
str_to_overflowaction-coll_overflowaction_string_example =
    str_to_overflowaction-coll_overflowaction_string OverflowAction.smallest_trim_action
      (codes " ok")

type_of_tree :
    (str_to_type (codes "b+tree") 6 ≡ CollType.coll_btree)
    × (find_collection_type_by_opcode (codes "bop get ") ≡ CollType.coll_btree)
unfolding program
type_of_tree = (refl, refl)

abbrev answers : List ReturnCode
answers = ReturnCode.exist ∷ ReturnCode.not_exist ∷ ReturnCode.server_error ∷ []

piped : aggregate_pipe_responses success b'e' answers ≡ ReturnCode.some_success
unfolding program
piped = refl

aggregate_pipe_responses_lem_example :
    (aggregate_pipe_responses success b'e' answers
      ≡ exist_code
          (any is_exist answers)
          (any is_not_exist answers)
          (not (is_success success) || any is_failed_exist answers))
    × (aggregate_pipe_responses success b'i' answers
        ≡ insert_code
            (any is_stored answers)
            (not (is_success success) || any is_failed_insert answers))
aggregate_pipe_responses_lem_example = aggregate_pipe_responses_lem success answers

-- `isgraph` of the C locale
abbrev isgraph : ℕ → Bool
isgraph c = leb 33 c && leb c 126

key_test-IsValidKey_example :
    ((key_test isgraph true false (codes "k1" ∷ codes "k 2" ∷ []) ≡ success)
      × All (IsValidKey isgraph true false) (codes "k1" ∷ codes "k 2" ∷ []))
    ⊎ ((key_test isgraph true false (codes "k1" ∷ codes "k 2" ∷ []) ≡ bad_key_provided)
        × (All (IsValidKey isgraph true false) (codes "k1" ∷ codes "k 2" ∷ []) → ⊥))
key_test-IsValidKey_example = key_test-IsValidKey isgraph true false (codes "k1") (codes "k 2" ∷ [])

bad_key : key_test isgraph true false (codes "k1" ∷ codes "k 2" ∷ []) ≡ bad_key_provided
unfolding program
bad_key = refl

abbrev unnamed : Named
unnamed = record { verify_key = false; binary_protocol = false; name_space = none; error = none }

set_namespace-Set_example :
    Set isgraph unnamed
      (some (take 3 (codes "app:")))
      (set_namespace isgraph true unnamed (some (codes "app:")) 3)
set_namespace-Set_example = set_namespace-Set isgraph true unnamed (some (codes "app:")) 3 tt

memcached_failed-memcached_success_example :
    memcached_failed ReturnCode.notfound ≡ not (memcached_success ReturnCode.notfound)
memcached_failed-memcached_success_example =
    memcached_failed-memcached_success ReturnCode.notfound (λ e. cc e)
