-- ===== src/Rows.antt =====
-- The rows that are inserted and read back. Here: sdk/structs (property.go, schema.go, values.go,
-- node.go, edge.go) as far as the rows need them. A `*Values` that is nil is `none`; its map is an
-- association list. The children: Check (sdk/api/check.rows.go), Write (insert.nodes.go and
-- insert.edges.go), Batch (the goroutines of these), Read (sdk/http/dataitem.go,
-- NewNodeFromNodeRow, NewEdgeFromEdgeRow), RoundTrip.
pub mod Check
pub mod Compare
pub mod Collected
pub mod Fits
pub mod Latest
pub mod Accepted
pub mod Texts
pub mod Converted
pub mod Write
pub mod Read
pub mod RoundTrip
pub mod Batch
use ultipa_go_driver.Prelude.{ℕ, Bool, ◌||◌, not, List, [], ◌∷◌, Option, Text, any_of}
use ultipa_go_driver.Types.{PropertyType, Value, type_eq}

-- The fields of `Property` that a row depends on.
pub record Property : Type 0 where
  pub name : Text
  pub type : PropertyType
  pub sub_types : Option (List PropertyType)

pub record Schema : Type 0 where
  pub name : Text
  pub properties : List Property

abbrev pub Values : Type 0
Values = List (Text × Value)

pub record Node : Type 0 where
  pub id : Text
  pub uuid : ℕ
  pub schema : Text
  pub values : Option Values

pub record Edge : Type 0 where
  pub uuid : ℕ
  pub from_uuid : ℕ
  pub to_uuid : ℕ
  pub from : Text
  pub to : Text
  pub schema : Text
  pub values : Option Values

-- `EntityRow` of rpc/ultipa.proto.
pub record EntityRow : Type 0 where
  pub id : Text
  pub uuid : ℕ
  pub schema_name : Text
  pub from_id : Text
  pub from_uuid : ℕ
  pub to_id : Text
  pub to_uuid : ℕ
  pub is_null : Bool
  pub values : List Text

-- The messages of the errors, less the number of the row; `panics` is a run-time panic.
pub data RowError : Type 0 where
  row_nil values_empty values_larger values_smaller properties_empty : RowError
  lacks not_serialized : Text → RowError
  no_ends to_null from_null to_uuid_null from_uuid_null : RowError
  not_read panics : RowError

abbrev pub id_types : List PropertyType
id_types =
    PropertyType.id ∷ PropertyType.uuid ∷ PropertyType.from ∷ PropertyType.to
    ∷ PropertyType.from_uuid ∷ PropertyType.to_uuid ∷ []

unfoldable pub is_id_type : Property → Bool
unfolding type_eq
is_id_type p = any_of (type_eq p.type) id_types

unfoldable pub is_ignore : Property → Bool
unfolding type_eq
is_ignore p = type_eq p.type PropertyType.ignore

-- The loops over the properties pass over the others.
unfoldable pub is_written : Property → Bool
unfolding is_id_type is_ignore
is_written p = not (is_id_type p || is_ignore p)
