-- ===== src/Tests/Records.antt =====
-- Rows and names, at concrete inputs.
use mathlib.Core.List.Perm
use ultipa_go_driver.Prelude.{
  ◌≡◌, ◌≤◌, ◌≢◌, ◌↔◌, ◌⊎◌, refl, true, false, List, [], ◌∷◌, ◌++◌, Option, none, some, Text, bytes,
  ok, insert, any_of, SameOutcome, arith, All, lookup, keep_if, length, text_eq, text_contains,
  has_prefix,
}
use ultipa_go_driver.Prelude.Int.{pos}
use ultipa_go_driver.Types.{PropertyType, Value, type_eq}
use ultipa_go_driver.Serial.RoundTrip.{Storable}
use ultipa_go_driver.Rows.{
  Property, Schema, Values, Node, Edge, EntityRow, is_written, is_id_type, is_ignore,
}
use ultipa_go_driver.Rows.Check.{
  check_node_properties, check_edge_properties, check_values_and_properties,
  check_values_and_properties_iff, check_edge_rows, check_ends, Covers, find_lacking, has_end,
}
use ultipa_go_driver.Rows.Write.{table_schema, convert_node_row, convert_edge_row}
use ultipa_go_driver.Rows.Read.{schema_map, node_table_to_nodes, edge_table_to_edges}
use ultipa_go_driver.Rows.RoundTrip.{node_round_trip, edge_round_trip, ComesBack}
use ultipa_go_driver.Rows.Collected.{
  get_schemas, collect, add_names, get_schemas_lem, has_property, names_of_properties, all_distinct,
}
use ultipa_go_driver.Rows.Compare.{compare_properties, compare_schemas}
use ultipa_go_driver.Rows.Fits.{compare_properties-SameOutcome}
use ultipa_go_driver.Rows.Accepted.{Accepted, Refused, compare_schemas_lem}
use ultipa_go_driver.Rows.Texts.{convert_values}
use ultipa_go_driver.Rows.Converted.{IsFromText, is_named, convert_node_values_lem}
use ultipa_go_driver.Names.{
  check_name, check_replace_schema_property_name, check_replace_lem, start_with_tilde, is_reserved,
}
use ultipa_go_driver.Tests.{test_runtime}

-- A schema with an identifier, which is not written, and an age.
abbrev pub age : Property
age = record { name = bytes "age"; type = PropertyType.int32; sub_types = none }

abbrev pub user : Schema
user = record {
  name = bytes "user";
  properties = record { name = bytes "_id"; type = PropertyType.id; sub_types = none } ∷ age ∷ [];
}

abbrev pub aged : Values
aged = (bytes "age", Value.int32 (pos 30)) ∷ []

abbrev pub ann : Node
ann = record { id = bytes "ann"; uuid = 1; schema = bytes "user"; values = some aged }

abbrev knows : Edge
knows = record {
  uuid = 3;
  from_uuid = 1;
  to_uuid = 2;
  from = bytes "ann";
  to = bytes "bob";
  schema = bytes "user";
  values = some aged;
}

written_age : keep_if is_written user.properties ≡ age ∷ []
unfolding is_written is_id_type is_ignore type_eq
written_age = refl

pub ann-passes : check_node_properties user (some ann) ≡ none
unfolding check_node_properties check_values_and_properties find_lacking is_written is_id_type
    is_ignore type_eq lookup text_eq
ann-passes = refl

knows-passes : check_edge_properties user (some knows) ≡ none
unfolding check_edge_properties check_edge_rows check_ends has_end check_values_and_properties
    find_lacking is_written is_id_type is_ignore type_eq lookup text_eq
knows-passes = refl

age-Stored : (v : Value) × (lookup age.name aged ≡ some v) × Storable age.type v
unfolding lookup text_eq
age-Stored = (Value.int32 (pos 30), refl, Storable.int32 (pos 30) (omega arith))

node_round_trip_example :
    (row : EntityRow) × (convert_node_row test_runtime none user (some ann) ≡ ok row)
    × ((e : Values) × (node_table_to_nodes test_runtime
            (record { schemas = table_schema user ∷ []; rows = row ∷ [] })
          ≡ ok (
            record { id = bytes "ann"; uuid = 1; schema = bytes "user"; values = some e } ∷ [],
            schema_map (table_schema user ∷ []) [],
          ))
        × All (ComesBack test_runtime none aged e) (keep_if is_written user.properties))
unfolding is_written is_id_type is_ignore type_eq
node_round_trip_example =
    node_round_trip test_runtime none user ann aged refl ann-passes (age-Stored, tt) (tt, tt)

edge_round_trip_example :
    (row : EntityRow) × (convert_edge_row test_runtime none user (some knows) ≡ ok row)
    × ((e : Values) × (edge_table_to_edges test_runtime
            (record { schemas = table_schema user ∷ []; rows = row ∷ [] })
          ≡ ok (
            record knows { schema = bytes "user"; values = some e } ∷ [],
            schema_map (table_schema user ∷ []) [],
          ))
        × All (ComesBack test_runtime none aged e) (keep_if is_written user.properties))
unfolding is_written is_id_type is_ignore type_eq
edge_round_trip_example =
    edge_round_trip test_runtime none user knows aged refl knows-passes (age-Stored, tt) (tt, tt)

check_values_and_properties_iff_example :
    (check_values_and_properties user.properties (some aged) ≡ none) ↔ (
      (length aged ≡ length (keep_if is_written user.properties))
      × Covers (keep_if is_written user.properties) aged)
check_values_and_properties_iff_example = check_values_and_properties_iff user.properties aged

user_quoted : check_replace_schema_property_name (bytes "user") ≡ ok (bytes "`user`")
unfolding check_replace_schema_property_name check_name text_eq text_contains has_prefix
    start_with_tilde is_reserved
user_quoted = refl

check_replace_lem_example :
    ((bytes "`user`" ≡ bytes "user") × ((bytes "user" ≡ []) ⊎ (bytes "user" ≡ bytes "*")))
    ⊎ ((bytes "`user`" ≡ bytes "`" ++ (bytes "user" ++ bytes "`"))
        × All (λ c. c ≢ 96) (bytes "user")
        × (2 ≤ length (bytes "user"))
        × (length (bytes "user") ≤ 127))
check_replace_lem_example = check_replace_lem (bytes "user") (bytes "`user`") user_quoted

abbrev by_schema : Node → Text
by_schema n = n.schema

abbrev by_values : Node → Option Values
by_values n = n.values

abbrev collected : List (Text × Schema)
collected =
    (
      bytes "user",
      record {
        name = bytes "user";
        properties =
            record { name = bytes "age"; type = PropertyType.unset; sub_types = none } ∷ [];
      },
    )
    ∷ []

ann-collected : get_schemas by_schema by_values (ann ∷ ann ∷ []) ≡ ok collected
unfolding get_schemas collect add_names insert lookup text_eq
ann-collected = refl

get_schemas_lem_example :
    (all_distinct (names_of_properties (lookup (bytes "user") collected)) ≡ true)
    × (any_of (text_eq (bytes "age")) (names_of_properties (lookup (bytes "user") collected))
        ≡ any_of (has_property by_schema by_values (bytes "user") (bytes "age")) (ann ∷ ann ∷ []))
get_schemas_lem_example =
    get_schemas_lem by_schema by_values (ann ∷ ann ∷ []) collected (bytes "user") (bytes "age")
      ann-collected

abbrev bare : Schema
bare = record { name = bytes "user"; properties = [] }

compare_schemas_lem_example :
    Accepted true user bare (compare_schemas (some user) (some bare) true)
    ⊎ Refused true user bare (compare_schemas (some user) (some bare) true)
compare_schemas_lem_example = compare_schemas_lem true user bare

abbrev name_entry : Text × Property
name_entry =
    (bytes "name", record { name = bytes "name"; type = PropertyType.string; sub_types = none })

compare_properties-SameOutcome_example :
    SameOutcome
      (compare_properties true ((bytes "age", age) ∷ name_entry ∷ []) [])
      (compare_properties true (name_entry ∷ (bytes "age", age) ∷ []) [])
compare_properties-SameOutcome_example =
    compare_properties-SameOutcome true ((bytes "age", age) ∷ name_entry ∷ [])
      (name_entry ∷ (bytes "age", age) ∷ []) [] (Perm.swap name_entry (bytes "age", age) [])

-- The age as a text.
abbrev spelled : Values
spelled = (bytes "age", Value.str (bytes "30")) ∷ []

convert_node_values_lem_example :
    (d : Values) × (convert_values test_runtime none (ok []) user.properties spelled ≡ ok d)
    × All (IsFromText test_runtime none spelled d) user.properties
    × ((name : Text)
        → any_of (is_named name) user.properties ≡ false
        → lookup name d ≡ lookup name spelled)
unfolding text_eq
convert_node_values_lem_example =
    convert_node_values_lem test_runtime none user.properties spelled (refl, (refl, tt))
