-- ===== src/Rows/Write.antt =====
-- sdk/api/insert.nodes.go and insert.edges.go: a row as it is sent. The request enters by the
-- location that it names.
use ultipa_go_driver.Prelude.{
  false, List, [], Option, none, some, Text, Result, ok, err, ◌>>=◌, traverse, keep_if, lookup,
}
use ultipa_go_driver.Runtime.{Runtime, Location}
use ultipa_go_driver.Serial.{SerialError}
use ultipa_go_driver.Serial.Encode.{convert_interface_to_bytes_safe}
use ultipa_go_driver.Rows.{Property, Schema, Values, Node, Edge, EntityRow, RowError, is_written}
use ultipa_go_driver.Rows.Check.{check_node_properties, check_edge_properties}

-- The error of a value that is not converted; a panic stays a panic.
abbrev pub serialized : {A : Type 0} → Text → Result SerialError A → Result RowError A
serialized name (ok a) = ok a
serialized name (err SerialError.panics) = err RowError.panics
serialized name (err _) = err (RowError.not_serialized name)

abbrev pub or_error : {A : Type 0} → RowError → Option A → Result RowError A
or_error e none = err e
or_error e (some a) = ok a

-- The headers of the properties that the table is sent with, in `InsertNodesBatchBySchema`.
unfoldable pub table_schema : Schema → Schema
table_schema s = record s { properties = keep_if is_written s.properties }

module _ (rt : Runtime) (l : Option Location) where
  -- The body of the loop over the properties.
  unfoldable pub property_bytes : Option Values → Property → Result RowError Text
  property_bytes values p = do
    d ← or_error RowError.panics values
    v ← or_error (RowError.lacks p.name) (lookup p.name d)
    serialized p.name (convert_interface_to_bytes_safe rt l v p.type p.sub_types)

  unfoldable pub row_values : List Property → Option Values → Result RowError (List Text)
  unfolding property_bytes
  row_values ps values = traverse (property_bytes values) (keep_if is_written ps)

  unfoldable pub do_convert_node : Schema → Node → Result RowError EntityRow
  unfolding row_values
  do_convert_node s n = do
    values ← row_values s.properties n.values
    ok record {
      id = n.id;
      uuid = n.uuid;
      schema_name = s.name;
      from_id = [];
      from_uuid = 0;
      to_id = [];
      to_uuid = 0;
      is_null = false;
      values = values;
    }

  unfoldable pub do_convert_edge : Schema → Edge → Result RowError EntityRow
  unfolding row_values
  do_convert_edge s e = do
    values ← row_values s.properties e.values
    ok record {
      id = [];
      uuid = e.uuid;
      schema_name = s.name;
      from_id = e.from;
      from_uuid = e.from_uuid;
      to_id = e.to;
      to_uuid = e.to_uuid;
      is_null = false;
      values = values;
    }

  abbrev node_checked : Schema → Option Node → Option RowError → Result RowError EntityRow
  node_checked s row (some e) = err e
  node_checked s none none = err RowError.row_nil
  node_checked s (some n) none = do_convert_node s n

  -- `convertSdkNodeRowToUltipaNodeRow`
  unfoldable pub convert_node_row : Schema → Option Node → Result RowError EntityRow
  unfolding do_convert_node
  convert_node_row s row = node_checked s row (check_node_properties s row)

  abbrev edge_checked : Schema → Option Edge → Option RowError → Result RowError EntityRow
  edge_checked s row (some e) = err e
  edge_checked s none none = err RowError.row_nil
  edge_checked s (some n) none = do_convert_edge s n

  -- `convertSdkEdgeRowToUltipaEdgeRow`
  unfoldable pub convert_edge_row : Schema → Option Edge → Result RowError EntityRow
  unfolding do_convert_edge
  convert_edge_row s row = edge_checked s row (check_edge_properties s row)
