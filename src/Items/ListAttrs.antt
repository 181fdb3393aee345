-- ===== src/Items/ListAttrs.antt =====
-- sdk/structs/attr.func.go: `ListAttrAsAttrNodes`, `…Edges`, `…Paths` and `ListAttrAsAttr`;
-- sdk/http/dataitem.go: `AsAttr`, `AsAttrNodes`, `AsAttrEdges`, `AsAttrPaths`.
use ultipa_go_driver.Prelude.{
  ℕ, ◌+◌, Bool, true, false, ◌||◌, List, [], ◌∷◌, Option, none, some, Text, Result, ok, err, ◌>>=◌,
  traverse, length, if◌then◌else◌, leb,
}
use ultipa_go_driver.Types.{PropertyType, ResultType, type_eq}
use ultipa_go_driver.Runtime.{Runtime}
use ultipa_go_driver.Rows.{Node, Edge}
use ultipa_go_driver.Items.{AttrMessage, Data, DataItem, GraphPath, ItemError}
use ultipa_go_driver.Items.Attrs.{
  AttrCodec, AttrValue, AttrValues, Attr, attr, of_values, parse_attr,
}

-- `row.(*AttrListData).Nodes`: nil in a list of another kind, and a panic where the row is nil or is no
-- AttrListData.
abbrev pub nodes_of : AttrValue → Result ItemError (List Node)
nodes_of (AttrValue.node_list ns) = ok ns
nodes_of (AttrValue.edge_list _) = ok []
nodes_of (AttrValue.path_list _) = ok []
nodes_of _ = err ItemError.panics

abbrev pub edges_of : AttrValue → Result ItemError (List Edge)
edges_of (AttrValue.node_list _) = ok []
edges_of (AttrValue.edge_list es) = ok es
edges_of (AttrValue.path_list _) = ok []
edges_of _ = err ItemError.panics

abbrev pub paths_of : AttrValue → Result ItemError (List GraphPath)
paths_of (AttrValue.node_list _) = ok []
paths_of (AttrValue.edge_list _) = ok []
paths_of (AttrValue.path_list ps) = ok ps
paths_of _ = err ItemError.panics

-- The three functions: no rows without values, else the rows of the result type that is asked for.
abbrev pub rows_of :
    {A : Type 0}
    → Bool
    → (AttrValue → Result ItemError A)
    → List AttrValue
    → Result ItemError (List A)
rows_of right_type row [] = ok []
rows_of true row (v ∷ vs) = traverse row (v ∷ vs)
rows_of false row (v ∷ vs) = err ItemError.not_list

abbrev pub is_node : ResultType → Bool
is_node ResultType.node = true
is_node _ = false

abbrev pub is_edge : ResultType → Bool
is_edge ResultType.edge = true
is_edge _ = false

abbrev pub is_path : ResultType → Bool
is_path ResultType.path = true
is_path _ = false

unfoldable pub list_attr_as_attr_nodes : Attr → Result ItemError (List (List Node))
unfolding type_eq of_values
list_attr_as_attr_nodes (attr name t seen vs) =
    if type_eq t PropertyType.list
    then rows_of (is_node seen) nodes_of (of_values vs)
    else err ItemError.not_list

unfoldable pub list_attr_as_attr_edges : Attr → Result ItemError (List (List Edge))
unfolding type_eq of_values
list_attr_as_attr_edges (attr name t seen vs) =
    if type_eq t PropertyType.list
    then rows_of (is_edge seen) edges_of (of_values vs)
    else err ItemError.not_list

unfoldable pub list_attr_as_attr_paths : Attr → Result ItemError (List (List GraphPath))
unfolding type_eq of_values
list_attr_as_attr_paths (attr name t seen vs) =
    if type_eq t PropertyType.list
    then rows_of (is_path seen) paths_of (of_values vs)
    else err ItemError.not_list

-- The switch of `ListAttrAsAttr` on the result type; without a case the attribute stays nil.
abbrev pub by_result_type : Attr → Result ItemError (Option Attr)
by_result_type (attr name t ResultType.attr vs) = ok (some (attr name t ResultType.attr vs))
by_result_type (attr name t ResultType.path vs) = do
  paths ← list_attr_as_attr_paths (attr name t ResultType.path vs)
  ok (
      some
        (attr name t ResultType.path (AttrValues.item (AttrValue.attr_paths paths) AttrValues.end)))
by_result_type (attr name t ResultType.node vs) = do
  nodes ← list_attr_as_attr_nodes (attr name t ResultType.node vs)
  ok (
      some
        (attr name t ResultType.node (AttrValues.item (AttrValue.attr_nodes nodes) AttrValues.end)))
by_result_type (attr name t ResultType.edge vs) = do
  edges ← list_attr_as_attr_edges (attr name t ResultType.edge vs)
  ok (
      some
        (attr name t ResultType.edge (AttrValues.item (AttrValue.attr_edges edges) AttrValues.end)))
by_result_type _ = ok none

-- `ListAttrAsAttr`: an attribute without values keeps nothing but its name.
unfoldable pub list_attr_as_attr : Attr → Result ItemError (Option Attr)
unfolding type_eq list_attr_as_attr_nodes list_attr_as_attr_edges list_attr_as_attr_paths
list_attr_as_attr (attr name t seen AttrValues.end) =
    if type_eq t PropertyType.list || type_eq t PropertyType.set
    then ok (some (attr name PropertyType.unset ResultType.unset AttrValues.end))
    else err ItemError.not_list
list_attr_as_attr (attr name t seen (AttrValues.item v vs)) =
    if type_eq t PropertyType.list || type_eq t PropertyType.set
    then by_result_type (attr name t seen (AttrValues.item v vs))
    else err ItemError.not_list

-- Fuel above the length of the longest value.
abbrev pub longest : List Text → ℕ
longest [] = 0
longest (v ∷ vs) = let n = longest vs in if leb n (length v) then length v else n

abbrev pub attr_fuel : Option AttrMessage → ℕ
attr_fuel none = 2
attr_fuel (some a) = elim (a.values) [ none ↦ 2 | some vs ↦ longest vs + 2 ]

module _ (rt : Runtime) (codec : AttrCodec) where
  -- The common beginning: nil, an error, or the parsed attribute.
  abbrev pub attr_in : Data → Result ItemError (Option Attr)
  attr_in (Data.attr_alias name o) = do a ← parse_attr rt codec (attr_fuel o) name o; ok (some a)
  attr_in _ = err ItemError.panics

  abbrev pub attr_of_type : ResultType → Data → Result ItemError (Option Attr)
  attr_of_type t Data.no_data = ok none
  attr_of_type ResultType.unset d = ok none
  attr_of_type ResultType.attr d = attr_in d
  attr_of_type _ d = err ItemError.wrong_type

  -- The switch of `AsAttr` on the property type.
  abbrev pub unlisted : Option Attr → Result ItemError (Option Attr)
  unlisted none = ok none
  unlisted (some (attr name PropertyType.list seen vs)) =
      list_attr_as_attr (attr name PropertyType.list seen vs)
  unlisted (some (attr name PropertyType.set seen vs)) =
      list_attr_as_attr (attr name PropertyType.set seen vs)
  unlisted (some (attr name PropertyType.map seen vs)) = err ItemError.not_supported
  unlisted (some a) = ok (some a)

  abbrev pub for_attr :
      {A : Type 0} → (Attr → Result ItemError A) → Option Attr → Result ItemError (Option A)
  for_attr f none = ok none
  for_attr f (some a) = do r ← f a; ok (some r)

  unfoldable pub as_attr : DataItem → Result ItemError (Option Attr)
  unfolding parse_attr list_attr_as_attr
  as_attr di = do a ← attr_of_type di.type di.content; unlisted a

  unfoldable pub as_attr_nodes : DataItem → Result ItemError (Option (List (List Node)))
  unfolding parse_attr list_attr_as_attr_nodes
  as_attr_nodes di = do a ← attr_of_type di.type di.content; for_attr list_attr_as_attr_nodes a

  unfoldable pub as_attr_edges : DataItem → Result ItemError (Option (List (List Edge)))
  unfolding parse_attr list_attr_as_attr_edges
  as_attr_edges di = do a ← attr_of_type di.type di.content; for_attr list_attr_as_attr_edges a

  unfoldable pub as_attr_paths : DataItem → Result ItemError (Option (List (List GraphPath)))
  unfolding parse_attr list_attr_as_attr_paths
  as_attr_paths di = do a ← attr_of_type di.type di.content; for_attr list_attr_as_attr_paths a
