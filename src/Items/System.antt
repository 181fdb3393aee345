-- ===== src/Items/System.antt =====
-- sdk/http/dataitem.go: further tables by which the server describes itself, and `AsGraph`;
-- sdk/structs: exta.go, process.go, algo.go, HDCGraph.go, project.go, Graph.go.
use ultipa_go_driver.Prelude.{
  ℕ, List, [], ◌∷◌, Option, none, some, Text, bytes, Result, ok, err, ◌>>=◌, traverse, lookup,
}
use ultipa_go_driver.Types.{ResultType, Value}
use ultipa_go_driver.Runtime.{Runtime}
use ultipa_go_driver.Rows.{Values, Node, Edge}
use ultipa_go_driver.Rows.Read.{node_table_to_nodes, edge_table_to_edges}
use ultipa_go_driver.Items.{PathMessage, Data, DataItem, GraphPath, ItemError, of_row}
use ultipa_go_driver.Items.Paths.{keyed, node_uuid, edge_uuid, followed, as_paths}
use ultipa_go_driver.Items.Tables.{GoTable, to_kv, as_table, table_named, value_at, over_rows}

pub record Exta : Type 0 where
  pub name : Text
  pub author : Text
  pub version : Text
  pub detail : Text

abbrev pub exta_row : List Text → Result ItemError Exta
exta_row values = do
  name ← value_at values 0
  author ← value_at values 1
  version ← value_at values 2
  detail ← value_at values 3
  ok (record { name = name; author = author; version = version; detail = detail })

unfoldable pub as_extas : DataItem → Result ItemError (List Exta)
unfolding table_named
as_extas di = do t ← table_named (bytes "_extaList" ∷ []) di; over_rows exta_row t

pub record Process : Type 0 where
  pub process_id : Text
  pub status : Text
  pub process_query : Text
  pub duration : Text

abbrev pub process_row : List Text → Result ItemError Process
process_row values = do
  id ← value_at values 0
  status ← value_at values 1
  query ← value_at values 2
  duration ← value_at values 3
  ok (record { process_id = id; status = status; process_query = query; duration = duration })

unfoldable pub as_processes : DataItem → Result ItemError (List Process)
unfolding table_named
as_processes di = do t ← table_named (bytes "_top" ∷ []) di; over_rows process_row t

-- `v.Get(key).(string)`: a missing key and a value that is nil or no string panic.
unfoldable pub text_at : Values → Text → Result ItemError Text
unfolding lookup
text_at v key = elim (lookup key v) [
  | none ↦ err ItemError.panics
  | some x ↦ elim x [ Value.str s ↦ ok s | _ ↦ err ItemError.panics ]
]

-- A loop over `g.ToKV()`.
abbrev pub over_kv :
    {A : Type 0} → (Values → Result ItemError A) → Option GoTable → Result ItemError (List A)
over_kv f none = ok []
over_kv f (some g) = do kvs ← to_kv g; traverse f kvs

pub record Projection : Type 0 where
  pub name : Text
  pub graph_name : Text
  pub status : Text
  pub stats : Text
  pub config : Text

unfoldable pub projection_of : Values → Result ItemError Projection
unfolding text_at
projection_of v = do
  name ← text_at v (bytes "name")
  graph_name ← text_at v (bytes "graph_name")
  status ← text_at v (bytes "status")
  stats ← text_at v (bytes "stats")
  config ← text_at v (bytes "config")
  ok (record {
    name = name;
    graph_name = graph_name;
    status = status;
    stats = stats;
    config = config;
  })

pub record HdcGraph : Type 0 where
  pub name : Text
  pub graph_name : Text
  pub status : Text
  pub stats : Text
  pub is_default : Text
  pub hdc_server_name : Text
  pub hdc_server_status : Text
  pub config : Text

unfoldable pub hdc_graph_of : Values → Result ItemError HdcGraph
unfolding text_at
hdc_graph_of v = do
  name ← text_at v (bytes "name")
  graph_name ← text_at v (bytes "graph_name")
  status ← text_at v (bytes "status")
  stats ← text_at v (bytes "stats")
  is_default ← text_at v (bytes "is_default")
  server_name ← text_at v (bytes "hdc_server_name")
  server_status ← text_at v (bytes "hdc_server_status")
  config ← text_at v (bytes "config")
  ok (record {
    name = name;
    graph_name = graph_name;
    status = status;
    stats = stats;
    is_default = is_default;
    hdc_server_name = server_name;
    hdc_server_status = server_status;
    config = config;
  })

pub record Algo : Type 0 where
  pub name : Text
  pub version : Text
  pub type : Text
  pub write_support_type : Text
  pub can_rollback : Text
  pub description : Text
  pub config_context : Text

unfoldable pub algo_of : Values → Result ItemError Algo
unfolding text_at
algo_of v = do
  name ← text_at v (bytes "name")
  version ← text_at v (bytes "version")
  kind ← text_at v (bytes "type")
  write_support ← text_at v (bytes "write_support_type")
  rollback ← text_at v (bytes "can_rollback")
  description ← text_at v (bytes "description")
  context ← text_at v (bytes "config_context")
  ok (record {
    name = name;
    version = version;
    type = kind;
    write_support_type = write_support;
    can_rollback = rollback;
    description = description;
    config_context = context;
  })

abbrev pub is_unset : DataItem → Result ItemError (Unit {0})
is_unset di = elim (di.content) [
  | Data.no_data ↦ ok tt
  | _ ↦ elim (di.type) [ ResultType.unset ↦ err ItemError.wrong_type | _ ↦ ok tt ]
]

module _ (rt : Runtime) where
  -- The table under an accepted name, converted.
  abbrev pub named_kv :
      {A : Type 0} → Text → (Values → Result ItemError A) → DataItem → Result ItemError (List A)
  named_kv accepted f di = do t ← table_named (accepted ∷ []) di; g ← as_table rt di; over_kv f g

  unfoldable pub as_projections : DataItem → Result ItemError (List Projection)
  unfolding projection_of table_named as_table to_kv
  as_projections di = named_kv (bytes "_projectionList") projection_of di

  unfoldable pub as_hdc_graphs : DataItem → Result ItemError (List HdcGraph)
  unfolding hdc_graph_of table_named as_table to_kv
  as_hdc_graphs di = named_kv (bytes "_hdcGraphList") hdc_graph_of di

  -- `AsAlgos`, which accepts a table of any name, and takes UNSET for an error.
  unfoldable pub as_algos : DataItem → Result ItemError (List Algo)
  unfolding algo_of as_table to_kv
  as_algos di = do checked ← is_unset di; g ← as_table rt di; over_kv algo_of g

-- `Graph` of sdk/structs/Graph.go.
pub record Graph : Type 0 where
  pub paths : List GraphPath
  pub nodes : List (ℕ × Node)
  pub edges : List (ℕ × Edge)

module _ (rt : Runtime) where
  -- One round of `parseGraphs`.
  unfoldable pub add_path : PathMessage → Graph → Result ItemError Graph
  unfolding node_table_to_nodes edge_table_to_edges keyed
  add_path p g = do
    node_table ← followed p.node_table
    (nodes, _) ← of_row (node_table_to_nodes rt node_table)
    edge_table ← followed p.edge_table
    (edges, _) ← of_row (edge_table_to_edges rt edge_table)
    ok (record g { nodes = keyed node_uuid nodes g.nodes; edges = keyed edge_uuid edges g.edges })

  unfoldable pub parse_graphs : List PathMessage → Graph → Result ItemError Graph
  unfolding add_path
  parse_graphs [] g = ok g
  parse_graphs (p ∷ ps) g = do h ← add_path p g; parse_graphs ps h

  abbrev graph_of : Option (List GraphPath) → Data → Result ItemError (Option Graph)
  graph_of (some (p ∷ ps)) (Data.path_alias messages) = do
    g ← parse_graphs messages (record { paths = []; nodes = []; edges = [] })
    ok (some (record g { paths = p ∷ ps }))
  graph_of (some (p ∷ ps)) _ = err ItemError.panics
  graph_of _ _ = err ItemError.empty_graphs

  abbrev graph_in : DataItem → Data → Result ItemError (Option Graph)
  graph_in di Data.no_data = ok none
  graph_in di d = do paths ← as_paths rt di; graph_of paths d

  -- `AsGraph`: no paths are an error.
  unfoldable pub as_graph : DataItem → Result ItemError (Option Graph)
  unfolding as_paths parse_graphs
  as_graph di = graph_in di di.content
