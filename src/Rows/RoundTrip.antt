-- ===== src/Rows/RoundTrip.antt =====
-- A node or an edge that is inserted and read back from a table with the schema it was sent with.
use ultipa_go_driver.Prelude.{
  ◌≡◌, refl, ◌∙◌, false, List, [], ◌∷◌, Option, none, some, Text, text_eq, text_eq_refl, ok,
  traverse, if◌then◌else◌, keep_if, lookup, insert, lookup-insert, All,
}
use ultipa_go_driver.Types.{Value}
use ultipa_go_driver.Runtime.{Runtime, Location}
use ultipa_go_driver.Serial.Null.{is_null}
use ultipa_go_driver.Serial.Encode.{convert_interface_to_bytes_safe}
use ultipa_go_driver.Serial.Decode.{convert_bytes_to_interface}
use ultipa_go_driver.Serial.RoundTrip.{Storable, sent, encode-Storable, decode-Storable}
use ultipa_go_driver.Rows.{Property, Schema, Values, Node, Edge, EntityRow, is_written}
use ultipa_go_driver.Rows.Check.{check_node_properties, check_edge_properties}
use ultipa_go_driver.Rows.Write.{
  property_bytes, row_values, table_schema, do_convert_node, do_convert_edge, convert_node_row,
  convert_edge_row,
}
use ultipa_go_driver.Rows.Read.{
  properties_in, read_values, schema_map, table_node, table_edge, node_table_to_nodes,
  edge_table_to_edges,
}

-- No property of the list has the name.
abbrev Fresh : Text → List Property → Type 0
Fresh m ps = All (λ q. text_eq q.name m ≡ false) ps

abbrev pub DistinctNames : List Property → Type 0
DistinctNames [] = Unit {0}
DistinctNames (p ∷ ps) = Fresh p.name ps × DistinctNames ps

-- Each property has a value of its type in the map.
abbrev pub Stored : List Property → Values → Type 0
Stored ps d = All (λ p. (v : Value) × (lookup p.name d ≡ some v) × Storable p.type v) ps

module _ (rt : Runtime) (l : Option Location) where
  abbrev pub back_as : Property → Option Value → Option Value
  back_as p none = none
  back_as p (some v) = some (if is_null rt p.type (sent v) then Value.nil else v)

  -- What the property has in the map read back.
  abbrev pub ComesBack : Values → Values → Property → Type 0
  ComesBack d e p = lookup p.name e ≡ back_as p (lookup p.name d)

  -- The values read into a map, and the names that they leave alone.
  abbrev Reads : List Property → List Text → Values → Values → Type 0
  Reads ps bss d acc =
      (e : Values) × (read_values rt ps bss acc ≡ ok e)
      × ((m : Text) → Fresh m ps → lookup m e ≡ lookup m acc)
      × All (ComesBack d e) ps

  property_bytes_lem :
      (p : Property) (d : Values) (v : Value)
      → lookup p.name d ≡ some v
      → Storable p.type v
      → property_bytes rt l (some d) p ≡ ok (sent v)
  unfolding property_bytes convert_interface_to_bytes_safe
  property_bytes_lem p d v found h = rw (found, encode-Storable rt l p.sub_types _ h)

  traverse-Reads :
      (ps : List Property) (d : Values)
      → Stored ps d
      → DistinctNames ps
      → (bss : List Text) × (traverse (property_bytes rt l (some d)) ps ≡ ok bss)
        × ((acc : Values) → Reads ps bss d acc)
  unfolding read_values convert_bytes_to_interface
  traverse-Reads [] d s n = ([], refl, λ acc. (acc, refl, λ m f. refl, tt))
  traverse-Reads (p ∷ ps) d ((v, found, h), s) (fresh, n) =
      (let (bss, written, reads) = traverse-Reads ps d s n in
        let x : Value = if is_null rt p.type (sent v) then Value.nil else v in
        (
          sent v ∷ bss,
          rw (property_bytes_lem p d v found h, written),
          λ acc.
              (let (e, read, kept, back) = reads (insert p.name x acc) in
                (
                  e,
                  rw (decode-Storable rt l p.sub_types _ h) read,
                  λ m f. kept m f.1 ∙ rw (lookup-insert p.name m x acc, f.0),
                  (
                    kept p.name fresh
                        ∙ rw (lookup-insert p.name p.name x acc, text_eq_refl p.name, found),
                    back,
                  ),
                )),
        ))

  table_properties : (s : Schema) → properties_in (schema_map (s ∷ []) []) s.name ≡ s.properties
  unfolding schema_map insert lookup
  table_properties s = rw (properties_in, text_eq_refl s.name) refl

  -- A node that passes the check of its rows, whose properties that are written have distinct names
  -- and storable values (in range, of one of the types INT32, INT64, UINT32, UINT64, FLOAT, DOUBLE,
  -- STRING, TEXT, BLOB, BOOL and, where they are not empty, DECIMAL), is converted without an error; the table of its row and of the schema
  -- it is sent with is read as one node with its identifiers, in which each of these properties has
  -- the value that was inserted, or nil where the bytes of that value are the null pattern.
  pub node_round_trip :
      (s : Schema) (n : Node) (d : Values)
      → n.values ≡ some d
      → check_node_properties s (some n) ≡ none
      → Stored (keep_if is_written s.properties) d
      → DistinctNames (keep_if is_written s.properties)
      → (row : EntityRow) × (convert_node_row rt l s (some n) ≡ ok row)
        × ((e : Values) × (node_table_to_nodes rt
                (record { schemas = table_schema s ∷ []; rows = row ∷ [] })
              ≡ ok (
                record { id = n.id; uuid = n.uuid; schema = s.name; values = some e } ∷ [],
                schema_map (table_schema s ∷ []) [],
              ))
            × All (ComesBack d e) (keep_if is_written s.properties))
  unfolding convert_node_row do_convert_node row_values node_table_to_nodes table_node table_schema
  node_round_trip s n d hv passed stored distinct =
      (let (bss, written, reads) =
          traverse-Reads (keep_if is_written s.properties) d stored distinct in
        let (e, read, kept, back) = reads [] in
        (
          record {
            id = n.id;
            uuid = n.uuid;
            schema_name = s.name;
            from_id = [];
            from_uuid = 0;
            to_id = [];
            to_uuid = 0;
            is_null = false;
            values = bss;
          },
          rw (passed, hv, written),
          (e, rw (table_properties (table_schema s), read), back),
        ))

  -- The same of an edge, with its ends.
  pub edge_round_trip :
      (s : Schema) (n : Edge) (d : Values)
      → n.values ≡ some d
      → check_edge_properties s (some n) ≡ none
      → Stored (keep_if is_written s.properties) d
      → DistinctNames (keep_if is_written s.properties)
      → (row : EntityRow) × (convert_edge_row rt l s (some n) ≡ ok row)
        × ((e : Values) × (edge_table_to_edges rt
                (record { schemas = table_schema s ∷ []; rows = row ∷ [] })
              ≡ ok (
                record n { schema = s.name; values = some e } ∷ [],
                schema_map (table_schema s ∷ []) [],
              ))
            × All (ComesBack d e) (keep_if is_written s.properties))
  unfolding convert_edge_row do_convert_edge row_values edge_table_to_edges table_edge table_schema
  edge_round_trip s n d hv passed stored distinct =
      (let (bss, written, reads) =
          traverse-Reads (keep_if is_written s.properties) d stored distinct in
        let (e, read, kept, back) = reads [] in
        (
          record {
            id = [];
            uuid = n.uuid;
            schema_name = s.name;
            from_id = n.from;
            from_uuid = n.from_uuid;
            to_id = n.to;
            to_uuid = n.to_uuid;
            is_null = false;
            values = bss;
          },
          rw (passed, hv, written),
          (e, rw (table_properties (table_schema s), read), back),
        ))
