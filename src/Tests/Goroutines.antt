-- ===== src/Tests/Goroutines.antt =====
-- The conversion of rows in goroutines, at concrete inputs.
use ultipa_go_driver.Prelude.{
  ℕ, ◌≡◌, refl, true, false, [], ◌∷◌, Option, none, some, text_eq, bytes, Result, ok, err, length,
  lookup, get_elem?,
}
use ultipa_go_driver.Prelude.Int.{to_bits}
use ultipa_go_driver.Types.{Value, type_eq}
use ultipa_go_driver.Serial.BigEndian.{put_be}
use ultipa_go_driver.Serial.Encode.{convert_interface_to_bytes_safe, convert_interface_to_bytes}
use ultipa_go_driver.Serial.Encode
use ultipa_go_driver.Rows.{Node, EntityRow, RowError, is_written, is_id_type, is_ignore}
use ultipa_go_driver.Rows.Check.{check_node_properties, check_values_and_properties, find_lacking}
use ultipa_go_driver.Rows.Write.{do_convert_node, row_values, property_bytes}
use ultipa_go_driver.Rows.Batch.{
  State, Reach, here, next, check_passes, select_default, convert_ends, wait_ends, start, ended,
  convert_loses_error,
}
use ultipa_go_driver.Rows.Batch.Complete.{Filled, numbered, convert_complete}
use ultipa_go_driver.Tests.{test_runtime}
use ultipa_go_driver.Tests.Records.{user, ann, ann-passes}

abbrev check_user : Node → Option RowError
check_user n = check_node_properties user (some n)

abbrev convert_user : Node → Result RowError EntityRow
convert_user = do_convert_node test_runtime none user

-- Its age is a boolean.
abbrev odd : Node
odd = record ann { values = some ((bytes "age", Value.boolean true) ∷ []) }

abbrev ann_row : EntityRow
ann_row = record {
  id = bytes "ann";
  uuid = 1;
  schema_name = bytes "user";
  from_id = [];
  from_uuid = 0;
  to_id = [];
  to_uuid = 0;
  is_null = false;
  values = (0 ∷ 0 ∷ 0 ∷ 30 ∷ []) ∷ [];
}

odd-passes : check_user odd ≡ none
unfolding check_node_properties check_values_and_properties find_lacking is_written is_id_type
    is_ignore type_eq lookup text_eq
odd-passes = refl

odd-fails : convert_user odd ≡ err (RowError.not_serialized (bytes "age"))
unfolding do_convert_node row_values property_bytes is_written is_id_type is_ignore type_eq lookup
    text_eq convert_interface_to_bytes_safe Encode.convert_with convert_interface_to_bytes
odd-fails = refl

ann-converts : convert_user ann ≡ ok ann_row
unfolding do_convert_node row_values property_bytes is_written is_id_type is_ignore type_eq lookup
    text_eq convert_interface_to_bytes_safe Encode.convert_with convert_interface_to_bytes put_be
    to_bits
ann-converts = refl

convert_loses_error_example :
    Reach Node EntityRow RowError check_user convert_user
      (start ((0, odd) ∷ (1, ann) ∷ []))
      (ended none true ((1, ann_row) ∷ []))
convert_loses_error_example =
    convert_loses_error check_user convert_user odd ann (RowError.not_serialized (bytes "age"))
      ann_row odd-passes ann-passes odd-fails ann-converts

-- Two rows, of which the goroutine of the second ends first.
abbrev bob : Node
bob = record ann { id = bytes "bob" }

abbrev bob_row : EntityRow
bob_row = record ann_row { id = bytes "bob" }

bob-passes : check_user bob ≡ none
unfolding check_node_properties check_values_and_properties find_lacking is_written is_id_type
    is_ignore type_eq lookup text_eq
bob-passes = refl

bob-converts : convert_user bob ≡ ok bob_row
unfolding do_convert_node row_values property_bytes is_written is_id_type is_ignore type_eq lookup
    text_eq convert_interface_to_bytes_safe Encode.convert_with convert_interface_to_bytes put_be
    to_bits
bob-converts = refl

abbrev both_end : State Node EntityRow RowError
both_end = ended none false ((1, bob_row) ∷ (0, ann_row) ∷ [])

both-Reach :
    Reach Node EntityRow RowError check_user convert_user
      (start (numbered 0 (ann ∷ bob ∷ [])))
      both_end
unfolding numbered
both-Reach =
    next
      (next
        (next
          (next
            (next
              (next (next here (check_passes _ 0 ann ((1, bob) ∷ []) refl refl ann-passes))
                (select_default _ refl refl))
              (check_passes _ 1 bob [] refl refl bob-passes))
            (select_default _ refl refl))
          (convert_ends _ 1 bob ((0, ann) ∷ []) [] bob_row refl bob-converts))
        (convert_ends _ 0 ann [] [] ann_row refl ann-converts))
      (wait_ends _ refl refl refl)

convert_complete_example :
    (◌≡◌ {A = Option RowError} none none)
    × (length both_end.rows ≡ 2)
    × ((i : ℕ) (n : Node)
        → get_elem? (ann ∷ bob ∷ []) i ≡ some n
        → Filled check_user convert_user both_end.rows (i, n))
unfolding numbered
convert_complete_example =
    convert_complete check_user convert_user (ann ∷ bob ∷ []) both_end none
      ((ann-passes, (ann_row, ann-converts)), ((bob-passes, (bob_row, bob-converts)), tt))
      both-Reach refl
