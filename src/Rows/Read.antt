-- ===== src/Rows/Read.antt =====
-- sdk/structs/node.go and edge.go: `NewNodeFromNodeRow`, `NewEdgeFromEdgeRow`; sdk/http/dataitem.go:
-- `NodeTableToNodes`, `EdgeTableToEdges`, `NodeTableToUUIDs`. The maps from numbers to nodes and edges
-- that the tables also give are left out.
use ultipa_go_driver.Prelude.{
  ℕ, List, [], ◌∷◌, none, some, Text, Result, ok, err, ◌>>=◌, traverse, map, keep_if, lookup,
  insert, not,
}
use ultipa_go_driver.Runtime.{Runtime}
use ultipa_go_driver.Serial.{SerialError}
use ultipa_go_driver.Serial.Decode.{convert_bytes_to_interface}
use ultipa_go_driver.Rows.{Property, Schema, Values, Node, Edge, EntityRow, RowError}

-- The error of `ConvertBytesToInterface`; a panic stays a panic.
abbrev pub converted : {A : Type 0} → Result SerialError A → Result RowError A
converted (ok a) = ok a
converted (err SerialError.panics) = err RowError.panics
converted (err _) = err RowError.not_read

-- `EntityTable`
pub record EntityTable : Type 0 where
  pub schemas : List Schema
  pub rows : List EntityRow

-- `schemas[schema.Name] = schema`, for each in turn.
unfoldable pub schema_map : List Schema → List (Text × Schema) → List (Text × Schema)
schema_map [] m = m
schema_map (s ∷ ss) m = schema_map ss (insert s.name s m)

-- The properties of a schema that the map lacks are those of a nil pointer, which panics at the
-- first value, as no property does.
abbrev pub properties_in : List (Text × Schema) → Text → List Property
properties_in m name = elim (lookup name m) [ none ↦ [] | some s ↦ s.properties ]

module _ (rt : Runtime) where
  -- The loop over the values of a row: a value past the last property panics.
  unfoldable pub read_values : List Property → List Text → Values → Result RowError Values
  read_values ps [] d = ok d
  read_values [] (b ∷ bs) d = err RowError.panics
  read_values (p ∷ ps) (b ∷ bs) d = do
    v ← converted (convert_bytes_to_interface rt b p.type p.sub_types)
    read_values ps bs (insert p.name v d)

  unfoldable pub new_node_from_row : Schema → EntityRow → Result RowError Node
  unfolding read_values
  new_node_from_row s row = do
    d ← read_values s.properties row.values []
    ok record { id = row.id; uuid = row.uuid; schema = s.name; values = some d }

  unfoldable pub new_edge_from_row : Schema → EntityRow → Result RowError Edge
  unfolding read_values
  new_edge_from_row s row = do
    d ← read_values s.properties row.values []
    ok record {
      uuid = row.uuid;
      from_uuid = row.from_uuid;
      to_uuid = row.to_uuid;
      from = row.from_id;
      to = row.to_id;
      schema = row.schema_name;
      values = some d;
    }

  unfoldable pub table_node : List (Text × Schema) → EntityRow → Result RowError Node
  unfolding read_values
  table_node m row = do
    d ← read_values (properties_in m row.schema_name) row.values []
    ok record { id = row.id; uuid = row.uuid; schema = row.schema_name; values = some d }

  unfoldable pub table_edge : List (Text × Schema) → EntityRow → Result RowError Edge
  unfolding read_values
  table_edge m row = do
    d ← read_values (properties_in m row.schema_name) row.values []
    ok record {
      uuid = row.uuid;
      from_uuid = row.from_uuid;
      to_uuid = row.to_uuid;
      from = row.from_id;
      to = row.to_id;
      schema = row.schema_name;
      values = some d;
    }

  unfoldable pub node_table_to_nodes :
      EntityTable → Result RowError (List Node × List (Text × Schema))
  unfolding table_node schema_map
  node_table_to_nodes t = do
    nodes ← traverse (table_node (schema_map t.schemas [])) (keep_if (λ r. not r.is_null) t.rows)
    ok (nodes, schema_map t.schemas [])

  unfoldable pub edge_table_to_edges :
      EntityTable → Result RowError (List Edge × List (Text × Schema))
  unfolding table_edge schema_map
  edge_table_to_edges t = do
    edges ← traverse (table_edge (schema_map t.schemas [])) (keep_if (λ r. not r.is_null) t.rows)
    ok (edges, schema_map t.schemas [])

unfoldable pub node_table_to_uuids : EntityTable → List ℕ
node_table_to_uuids t = map (λ r. r.uuid) (keep_if (λ r. not r.is_null) t.rows)
