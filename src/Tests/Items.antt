-- ===== src/Tests/Items.antt =====
-- Paths, attributes and tables of a reply, at concrete inputs.
use ultipa_go_driver.Prelude.{
  ℕ, suc, ◌≡◌, ◌≢◌, refl, subst, false, List, [], ◌∷◌, Option, none, some, Text, bytes, ok, err,
  length, All, arith, get_at, put_at, get_elem?, lookup, insert, text_eq, some_inj,
}
use ultipa_go_driver.Types.{PropertyType, ResultType, Value, Table}
use ultipa_go_driver.Serial.Null.{is_null, get_null_bytes, bytes_equal}
use ultipa_go_driver.Serial.Decode.{convert_bytes_to_interface}
use ultipa_go_driver.Serial.Decode
use ultipa_go_driver.Rows.{Values, Node, Edge, EntityRow}
use ultipa_go_driver.Rows.Read.{
  EntityTable, node_table_to_nodes, edge_table_to_edges, node_table_to_uuids, table_node,
  table_edge, read_values, schema_map,
}
use ultipa_go_driver.Items.{PathMessage, AttrMessage, GraphPath, ItemError}
use ultipa_go_driver.Items.Paths.{parse_path, keyed}
use ultipa_go_driver.Items.Closed.{parse_path_lem}
use ultipa_go_driver.Items.Attrs.{ListMessage, MapMessage, AttrCodec, parse_attr}
use ultipa_go_driver.Items.Fuel.{Within, CodecLaws, parse_attr_terminates}
use ultipa_go_driver.Items.Tables.{GoTable, to_kv, read_table, read_fields}
use ultipa_go_driver.Items.Columns.{AreDistinct, to_kv-read_table}
use ultipa_go_driver.Tests.{test_runtime}

abbrev bare_row : ℕ → EntityRow
bare_row uuid = record {
  id = bytes "x";
  uuid = uuid;
  schema_name = bytes "a";
  from_id = [];
  from_uuid = 0;
  to_id = [];
  to_uuid = 0;
  is_null = false;
  values = [];
}

abbrev table_of_rows : List EntityRow → EntityTable
table_of_rows rows = record {
  schemas = record { name = bytes "a"; properties = [] } ∷ [];
  rows = rows;
}

-- A path over two nodes and one edge.
abbrev test_path : PathMessage
test_path = record {
  node_table = some (table_of_rows (bare_row 7 ∷ bare_row 9 ∷ []));
  edge_table = some (table_of_rows (bare_row 3 ∷ []));
}

abbrev bare_node : ℕ → Node
bare_node uuid = record { id = bytes "x"; uuid = uuid; schema = bytes "a"; values = some [] }

abbrev bare_edge : ℕ → Edge
bare_edge uuid = record {
  uuid = uuid;
  from_uuid = 0;
  to_uuid = 0;
  from = [];
  to = [];
  schema = bytes "a";
  values = some [];
}

abbrev read_path : GraphPath
read_path = record {
  node_uuids = 7 ∷ 9 ∷ [];
  edge_uuids = 3 ∷ [];
  nodes = (7, bare_node 7) ∷ (9, bare_node 9) ∷ [];
  edges = (3, bare_edge 3) ∷ [];
}

path-read : parse_path test_runtime test_path ≡ ok read_path
unfolding parse_path keyed put_at node_table_to_nodes edge_table_to_edges node_table_to_uuids
    table_node table_edge read_values schema_map insert lookup text_eq
path-read = refl

parse_path_lem_example :
    All (λ u. (n : Node) × (get_at u read_path.nodes ≡ some n) × (n.uuid ≡ u)) (7 ∷ 9 ∷ [])
    × All (λ u. (e : Edge) × (get_at u read_path.edges ≡ some e) × (e.uuid ≡ u)) (3 ∷ [])
parse_path_lem_example = parse_path_lem test_runtime test_path read_path path-read

-- A list message is a 1 and the bytes of its only attribute, a list again.
abbrev nested : Text → ListMessage
nested rest = record {
  type = ResultType.attr;
  nodes = none;
  edges = none;
  paths = [];
  attrs = record { value_type = PropertyType.list; values = some (rest ∷ []) } ∷ [];
  is_null = false;
}

abbrev read_nested : Text → Option ListMessage
read_nested [] = none
read_nested (c ∷ rest) = some (nested rest)

abbrev test_codec : AttrCodec
test_codec = record { unmarshal_attr_list = read_nested; unmarshal_attr_map = λ v. none }

nested_longer :
    (v : Text) (d : ListMessage)
    → read_nested v ≡ some d
    → All (λ a. Within (length v) (some a)) d.attrs
nested_longer [] d h = cc
nested_longer (c ∷ rest) d h =
    subst (λ x. All (λ a. Within (suc (length rest)) (some a)) x.attrs) (some_inj h)
      ((omega arith, tt), tt)

no_map :
    (v : Text) (d : MapMessage)
    → none ≡ some d
    → Within (length v) d.key × Within (length v) d.value
no_map v d h = cc

test_codec-CodecLaws : CodecLaws test_codec
test_codec-CodecLaws = record { list_longer = nested_longer; map_longer = no_map }

abbrev deep : Option AttrMessage
deep = some (record { value_type = PropertyType.list; values = some ((1 ∷ 1 ∷ []) ∷ []) })

parse_attr_terminates_example :
    (parse_attr test_runtime test_codec 4 (bytes "l") deep
      ≡ parse_attr test_runtime test_codec 9 (bytes "l") deep)
    × (parse_attr test_runtime test_codec 4 (bytes "l") deep ≢ err ItemError.out_of_fuel)
parse_attr_terminates_example =
    parse_attr_terminates test_runtime test_codec test_codec-CodecLaws 3 4 9 (bytes "l") deep
      (omega arith) (omega arith) (omega arith, tt)

-- A table of two columns.
abbrev test_table : Table
test_table = record {
  table_name = bytes "t";
  headers = (bytes "name", PropertyType.string) ∷ (bytes "kind", PropertyType.string) ∷ [];
  table_rows = (bytes "n" ∷ bytes "k" ∷ []) ∷ [];
}

abbrev converted_table : GoTable
converted_table = record {
  name = bytes "t";
  headers = test_table.headers;
  rows = (Value.str (bytes "n") ∷ Value.str (bytes "k") ∷ []) ∷ [];
}

table-read : read_table test_runtime test_table ≡ ok converted_table
unfolding read_table read_fields convert_bytes_to_interface Decode.convert_with is_null
    get_null_bytes bytes_equal
table-read = refl

headers-distinct : AreDistinct test_table.headers
unfolding text_eq
headers-distinct = (refl, (refl, tt))

to_kv-read_table_example :
    (kvs : List Values) × (to_kv converted_table ≡ ok kvs)
    × (kv : Values) × (v : Value) × (get_elem? kvs 0 ≡ some kv)
    × (lookup (bytes "kind") kv ≡ some v)
    × (convert_bytes_to_interface test_runtime (bytes "k") PropertyType.string none ≡ ok v)
to_kv-read_table_example =
    to_kv-read_table test_runtime test_table converted_table 0 1 (bytes "n" ∷ bytes "k" ∷ [])
      (bytes "kind") PropertyType.string (bytes "k") headers-distinct (refl, tt) table-read refl
      refl refl
