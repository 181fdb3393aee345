-- ===== src/Items/Paths.antt =====
-- sdk/http/dataitem.go: `AsNodes`, `AsEdges`, `AsPaths`, `parsePaths`, and the maps by number that
-- `NodeTableToNodes` and `EdgeTableToEdges` give; sdk/structs/path.go.
use ultipa_go_driver.Prelude.{
  ℕ, ◌-◌, List, [], ◌∷◌, Option, none, some, Text, Result, ok, err, ◌>>=◌, traverse, put_at, length,
  get_elem?,
}
use ultipa_go_driver.Types.{ResultType}
use ultipa_go_driver.Runtime.{Runtime}
use ultipa_go_driver.Rows.{Schema, Node, Edge}
use ultipa_go_driver.Rows.Read.{node_table_to_nodes, edge_table_to_edges, node_table_to_uuids}
use ultipa_go_driver.Items.{PathMessage, Data, DataItem, GraphPath, ItemError, of_row}

-- `nodesMap[node.UUID] = node`, for each in turn.
unfoldable pub keyed : {V : Type 0} → (V → ℕ) → List V → List (ℕ × V) → List (ℕ × V)
unfolding put_at
keyed key [] m = m
keyed key (v ∷ vs) m = keyed key vs (put_at (key v) v m)

abbrev pub node_uuid : Node → ℕ
node_uuid n = n.uuid

abbrev pub edge_uuid : Edge → ℕ
edge_uuid e = e.uuid

-- A pointer that is followed.
abbrev pub followed : {A : Type 0} → Option A → Result ItemError A
followed none = err ItemError.panics
followed (some a) = ok a

module _ (rt : Runtime) where
  -- One round of `parsePaths`.
  unfoldable pub parse_path : PathMessage → Result ItemError GraphPath
  unfolding keyed node_table_to_nodes edge_table_to_edges node_table_to_uuids
  parse_path p = do
    node_table ← followed p.node_table
    (nodes, _) ← of_row (node_table_to_nodes rt node_table)
    edge_table ← followed p.edge_table
    (edges, _) ← of_row (edge_table_to_edges rt edge_table)
    ok (record {
      node_uuids = node_table_to_uuids node_table;
      edge_uuids = node_table_to_uuids edge_table;
      nodes = keyed node_uuid nodes [];
      edges = keyed edge_uuid edges [];
    })

  unfoldable pub parse_paths : List PathMessage → Result ItemError (List GraphPath)
  unfolding parse_path
  parse_paths ps = traverse parse_path ps

  -- The type assertion `di.Data.(*NodeAlias)`.
  abbrev pub nodes_in : Data → Result ItemError (Option (List Node × List (Text × Schema)))
  nodes_in (Data.node_alias t) = do
    table ← followed t
    r ← of_row (node_table_to_nodes rt table)
    ok (some r)
  nodes_in _ = err ItemError.panics

  abbrev pub edges_in : Data → Result ItemError (Option (List Edge × List (Text × Schema)))
  edges_in (Data.edge_alias t) = do
    table ← followed t
    r ← of_row (edge_table_to_edges rt table)
    ok (some r)
  edges_in _ = err ItemError.panics

  abbrev nodes_of_type :
      ResultType → Data → Result ItemError (Option (List Node × List (Text × Schema)))
  nodes_of_type t Data.no_data = ok none
  nodes_of_type ResultType.unset d = ok none
  nodes_of_type ResultType.node d = nodes_in d
  nodes_of_type ResultType.attr d = nodes_in d
  nodes_of_type _ d = err ItemError.wrong_type

  abbrev edges_of_type :
      ResultType → Data → Result ItemError (Option (List Edge × List (Text × Schema)))
  edges_of_type t Data.no_data = ok none
  edges_of_type ResultType.unset d = ok none
  edges_of_type ResultType.edge d = edges_in d
  edges_of_type ResultType.attr d = edges_in d
  edges_of_type _ d = err ItemError.wrong_type

  abbrev paths_in : Data → Result ItemError (Option (List GraphPath))
  paths_in (Data.path_alias ps) = do paths ← parse_paths ps; ok (some paths)
  paths_in _ = err ItemError.panics

  abbrev paths_of_type : ResultType → Data → Result ItemError (Option (List GraphPath))
  paths_of_type t Data.no_data = ok none
  paths_of_type ResultType.unset d = ok none
  paths_of_type ResultType.path d = paths_in d
  paths_of_type _ d = err ItemError.wrong_type

  -- `AsNodes`, `AsEdges`, `AsPaths`; nil is `none`.
  unfoldable pub as_nodes : DataItem → Result ItemError (Option (List Node × List (Text × Schema)))
  unfolding node_table_to_nodes
  as_nodes di = nodes_of_type di.type di.content

  unfoldable pub as_edges : DataItem → Result ItemError (Option (List Edge × List (Text × Schema)))
  unfolding edge_table_to_edges
  as_edges di = edges_of_type di.type di.content

  unfoldable pub as_paths : DataItem → Result ItemError (Option (List GraphPath))
  unfolding parse_paths
  as_paths di = paths_of_type di.type di.content

-- `Length`, and `GetLastNode`, whose index is -1 in a path without nodes.
unfoldable pub path_length : GraphPath → ℕ
path_length p = length p.edge_uuids

unfoldable pub get_last_node : GraphPath → Result ItemError ℕ
get_last_node p = followed (get_elem? p.node_uuids (length p.node_uuids - 1))
