-- ===== src/Items/Attrs.antt =====
-- sdk/http/dataitem.go: `parseAttr`, `handleAttrValues`, `parseAttrList` and `parseAttrMap`. A list
-- or a map is a protobuf message in the bytes of one value, whose attributes hold bytes in turn: the
-- recursion is on fuel, which Items/Fuel bounds by the length of the bytes.
use ultipa_go_driver.Prelude.{
  ℕ, zero, suc, Bool, List, [], ◌∷◌, ◌++◌, Option, none, some, Text, Result, ok, err, ◌>>=◌,
  traverse, if◌then◌else◌,
}
use ultipa_go_driver.Types.{PropertyType, ResultType, Value}
use ultipa_go_driver.Runtime.{Runtime}
use ultipa_go_driver.Serial.{SerialError}
use ultipa_go_driver.Serial.Decode.{convert_bytes_to_interface}
use ultipa_go_driver.Rows.{Node, Edge}
use ultipa_go_driver.Rows.Read.{EntityTable, node_table_to_nodes, edge_table_to_edges}
use ultipa_go_driver.Items.{PathMessage, AttrMessage, GraphPath, ItemError, of_row}
use ultipa_go_driver.Items.Paths.{followed, parse_paths}

-- AttrListData and AttrMapData of the protocol.
pub record ListMessage : Type 0 where
  pub type : ResultType
  pub nodes : Option EntityTable
  pub edges : Option EntityTable
  pub paths : List PathMessage
  pub attrs : List AttrMessage
  pub is_null : Bool

pub record MapMessage : Type 0 where
  pub key : Option AttrMessage
  pub value : Option AttrMessage

-- `proto.Unmarshal` on the two messages.
pub record AttrCodec : Type 0 where
  pub unmarshal_attr_list : Text → Option ListMessage
  pub unmarshal_attr_map : Text → Option MapMessage

-- What the values of an Attr hold: a converted value (nil among them), the values of a list of
-- attributes, an AttrListData of nodes, edges or paths, an AttrMapData, or what ListAttrAsAttr makes of
-- lists of nodes, edges or paths.
mutual
  pub data AttrValue : Type 0 where
    scalar : Value → AttrValue
    row : AttrValues → AttrValue
    node_list : List Node → AttrValue
    edge_list : List Edge → AttrValue
    path_list : List GraphPath → AttrValue
    map_data : Attr → Attr → AttrValue
    attr_nodes : List (List Node) → AttrValue
    attr_edges : List (List Edge) → AttrValue
    attr_paths : List (List GraphPath) → AttrValue

  pub data AttrValues : Type 0 where
    end : AttrValues
    item : AttrValue → AttrValues → AttrValues

  -- `Attr` of sdk/structs/attr.go, whose values are never nil here: a name, the property type, the
  -- result type and the values.
  pub data Attr : Type 0 where
    attr : Text → PropertyType → ResultType → AttrValues → Attr

unfoldable pub to_values : List AttrValue → AttrValues
to_values [] = AttrValues.end
to_values (v ∷ vs) = AttrValues.item v (to_values vs)

unfoldable pub of_values : AttrValues → List AttrValue
of_values AttrValues.end = []
of_values (AttrValues.item v vs) = v ∷ of_values vs

abbrev pub attr_values : Attr → List AttrValue
attr_values (attr _ _ _ vs) = of_values vs

abbrev pub nil_value : AttrValue
nil_value = AttrValue.scalar Value.nil

abbrev pub converted_value : Result SerialError Value → Result ItemError AttrValue
converted_value (ok v) = ok (AttrValue.scalar v)
converted_value (err SerialError.panics) = err ItemError.panics
converted_value (err _) = err ItemError.not_read

abbrev pub unmarshalled : {A : Type 0} → Option A → Result ItemError A
unmarshalled none = err ItemError.bad_message
unmarshalled (some a) = ok a

-- The result type is that of the first list which is not null.
abbrev pub first_type : ResultType → ResultType → ResultType
first_type ResultType.unset t = t
first_type seen t = seen

-- The values that were appended so far, and the result type that was seen.
abbrev pub Seen : Type 0
Seen = List AttrValue × ResultType

-- `row = append(row, subAttr.Values...)`, for each.
abbrev pub concat_values : List Attr → List AttrValue
concat_values [] = []
concat_values (a ∷ rest) = attr_values a ++ concat_values rest

module _ (rt : Runtime) (codec : AttrCodec) (sub : Option AttrMessage → Result ItemError Attr) where
  -- A list of one kind is appended; a list of no kind, or of tables, is passed over.
  abbrev pub append_list : ResultType → ListMessage → Seen → Result ItemError Seen
  append_list ResultType.node d (vs, seen) = do
    table ← followed d.nodes
    (nodes, _) ← of_row (node_table_to_nodes rt table)
    ok (vs ++ (AttrValue.node_list nodes ∷ []), first_type seen ResultType.node)
  append_list ResultType.edge d (vs, seen) = do
    table ← followed d.edges
    (edges, _) ← of_row (edge_table_to_edges rt table)
    ok (vs ++ (AttrValue.edge_list edges ∷ []), first_type seen ResultType.edge)
  append_list ResultType.path d (vs, seen) = do
    paths ← parse_paths rt d.paths
    ok (vs ++ (AttrValue.path_list paths ∷ []), first_type seen ResultType.path)
  append_list ResultType.attr d (vs, seen) = do
    subs ← traverse (λ a. sub (some a)) d.attrs
    ok (
      vs ++ (AttrValue.row (to_values (concat_values subs)) ∷ []),
      first_type seen ResultType.attr,
    )
  append_list _ d (vs, seen) = ok (vs, seen)

  -- One round of the loop of `parseAttrList`; a list that is null is a nil value.
  unfoldable pub append_value : Text → Seen → Result ItemError Seen
  unfolding parse_paths node_table_to_nodes edge_table_to_edges to_values of_values
  append_value v (vs, seen) = do
    d ← unmarshalled (codec.unmarshal_attr_list v)
    if d.is_null then ok (vs ++ (nil_value ∷ []), seen) else append_list d.type d (vs, seen)

  unfoldable pub append_values : List Text → Seen → Result ItemError Seen
  unfolding append_value
  append_values [] s = ok s
  append_values (v ∷ vs) s = do t ← append_value v s; append_values vs t

  -- `parseAttrList`: the values, and the result type.
  unfoldable pub parse_attr_list : List Text → Result ItemError Seen
  unfolding append_values
  parse_attr_list vs = do
    (values, seen) ← append_values vs ([], ResultType.unset)
    ok (values, first_type seen ResultType.attr)

  -- One round of `parseAttrMap`.
  unfoldable pub parse_attr_entry : Text → Result ItemError AttrValue
  parse_attr_entry v = do
    d ← unmarshalled (codec.unmarshal_attr_map v)
    key ← sub d.key
    value ← sub d.value
    ok (AttrValue.map_data key value)

  unfoldable pub parse_attr_map : List Text → Result ItemError Seen
  unfolding parse_attr_entry
  parse_attr_map vs = do rows ← traverse parse_attr_entry vs; ok (rows, ResultType.unset)

  unfoldable pub parse_scalars : PropertyType → List Text → Result ItemError Seen
  unfolding convert_bytes_to_interface
  parse_scalars t vs = do
    values ← traverse (λ v. converted_value (convert_bytes_to_interface rt v t none)) vs
    ok (values, ResultType.attr)

  -- `handleAttrValues`: by the property type.
  unfoldable pub handle_attr_values : PropertyType → List Text → Result ItemError Seen
  unfolding parse_attr_list parse_attr_map parse_scalars
  handle_attr_values PropertyType.set vs = parse_attr_list vs
  handle_attr_values PropertyType.list vs = parse_attr_list vs
  handle_attr_values PropertyType.map vs = parse_attr_map vs
  handle_attr_values t vs = parse_scalars t vs

  abbrev pub parse_values : Text → PropertyType → Option (List Text) → Result ItemError Attr
  parse_values name t none = ok (attr name t ResultType.unset AttrValues.end)
  parse_values name t (some vs) = do
    (values, seen) ← handle_attr_values t vs
    ok (attr name t seen (to_values values))

  -- The body of `parseAttr`: the type is read through the pointer before its test for nil.
  unfoldable pub parse_attr_with : Text → Option AttrMessage → Result ItemError Attr
  unfolding handle_attr_values to_values
  parse_attr_with name none = err ItemError.panics
  parse_attr_with name (some a) = parse_values name a.value_type a.values

-- `parseAttr`: the attributes of a list or a map have no name.
unfoldable pub parse_attr :
    Runtime → AttrCodec → ℕ → Text → Option AttrMessage → Result ItemError Attr
unfolding parse_attr_with
parse_attr rt codec zero name a = err ItemError.out_of_fuel
parse_attr rt codec (suc fuel) name a =
    parse_attr_with rt codec (λ b. parse_attr rt codec fuel [] b) name a
