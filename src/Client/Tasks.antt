-- ===== src/Client/Tasks.antt =====
-- sdk/api/task.go, hdcGraph.go, projection.go, top.go, kill.go and stats.go: further calls that
-- send one statement and read its response. `is_all_digits` is the function of that name, which asks
-- the tables of Unicode.
use ultipa_go_driver.Prelude.{
  ℕ, Bool, ◌||◌, List, [], ◌∷◌, ◌++◌, Option, none, some, Text, bytes, text_eq, Result, ok, err,
  if◌then◌else◌, ◌==◌,
}
use ultipa_go_driver.Config.{RequestConfig}
use ultipa_go_driver.Stream.Response.{Response}
use ultipa_go_driver.Items.{ItemError}
use ultipa_go_driver.Items.System.{
  Algo, HdcGraph, Projection, Process, as_algos, as_hdc_graphs, as_projections, as_processes,
}
use ultipa_go_driver.Items.Admin.{Json, Task, as_tasks}
use ultipa_go_driver.Client.{ClientError, given, in_quotes}
use ultipa_go_driver.Client.Session.{Session, Call, ◌>>=◌, from_result, uql}
use ultipa_go_driver.Client.Readers.{Reader, read_item}
use ultipa_go_driver.Client.Listings.{ask}
use ultipa_go_driver.Client.Started.{JobResponse}
use ultipa_go_driver.Client.Jobs.{start_job}

-- A statement on tasks: of a number, or of the name of an algorithm and a status.
unfoldable pub task_statement : (Text → Bool) → Text → Text → Text → Text → Text
task_statement is_all_digits function without [] status = function ++ without
task_statement is_all_digits function without (c ∷ s) status =
    if is_all_digits (c ∷ s)
    then function ++ (bytes "(" ++ ((c ∷ s) ++ bytes ")"))
    else function
      ++ (bytes "(" ++ (in_quotes (c ∷ s) ++ (bytes "," ++ (in_quotes status ++ bytes ")"))))

unfoldable pub stop_statement : (Text → Bool) → Text → Text
unfolding text_eq
stop_statement is_all_digits id =
    if text_eq id [] || text_eq id (bytes "*")
    then bytes "stop().task(\"*\")"
    else if is_all_digits id
    then bytes "stop().task(" ++ (id ++ bytes ")")
    else bytes "stop().task(" ++ (in_quotes id ++ bytes ")")

-- `strings.Trim(s, "{}")`
abbrev is_brace : ℕ → Bool
is_brace c = c == 123 || c == 125

abbrev trim_left : Text → Text
trim_left [] = []
trim_left (c ∷ s) = if is_brace c then trim_left s else c ∷ s

abbrev trim_right : Text → Text
trim_right [] = []
trim_right (c ∷ s) = elim (trim_right s) [
  | [] ↦ if is_brace c then [] else c ∷ []
  | d ∷ r ↦ c ∷ d ∷ r
]

unfoldable pub trim_braces : Text → Text
trim_braces s = trim_right (trim_left s)

-- `HDCBuilder`; the maps are those from a schema to its properties.
pub record HdcBuilder : Type 0 where
  pub sync_type : Text
  pub hdc_graph_name : Text
  pub hdc_server_name : Text
  pub node_schema : List (Text × List Text)
  pub edge_schema : List (Text × List Text)
  pub direction : Text
  pub load_id : Bool
  pub is_default : Bool

-- `uqlBody`, what `json.Marshal` writes.
pub record UqlBody : Type 0 where
  pub update : Text
  pub nodes : List (Text × List Text)
  pub edges : List (Text × List Text)
  pub direction : Text
  pub load_id : Bool
  pub is_default : Bool
  pub query : Text

unfoldable pub uql_body : HdcBuilder → UqlBody
uql_body b = record {
  update = b.sync_type;
  nodes = b.node_schema;
  edges = b.edge_schema;
  direction = b.direction;
  load_id = b.load_id;
  is_default = b.is_default;
  query = bytes "query";
}

abbrev created : Text → Text → Option Text → Result ClientError Text
unfolding trim_braces
created name server none = err (ClientError.item ItemError.bad_json)
created name server (some body) = ok (
    bytes "hdc.graph.create("
    ++ (in_quotes name
        ++ (bytes ", {"
            ++ (trim_braces body ++ (bytes "}).to(" ++ (in_quotes server ++ bytes ")"))))))

-- `BuildUQL`
unfoldable pub build_uql : (UqlBody → Option Text) → HdcBuilder → Result ClientError Text
unfolding trim_braces uql_body
build_uql marshal b = elim (b.hdc_graph_name) [
  | [] ↦ err ClientError.missing
  | c ∷ s ↦ elim (b.hdc_server_name) [
    | [] ↦ err ClientError.missing
    | d ∷ t ↦ created b.hdc_graph_name b.hdc_server_name (marshal (uql_body b))
  ]
]

module _ {S R : Type 0} (session : Session S R) (config : Option RequestConfig) where
  unfoldable pub clear_task : (Text → Bool) → Text → Text → Call S (Response R)
  unfolding uql task_statement
  clear_task is_all_digits name status =
      uql session config
        (task_statement is_all_digits (bytes "clear().task") (bytes "(\"*\")") name status)

  unfoldable pub stop_task : (Text → Bool) → Text → Call S (Response R)
  unfolding uql stop_statement
  stop_task is_all_digits id = uql session config (stop_statement is_all_digits id)

  unfoldable pub drop_hdc_graph : Text → Call S (Response R)
  unfolding uql
  drop_hdc_graph name = uql session config (bytes "hdc.graph.drop('" ++ (name ++ bytes "')"))

  unfoldable pub kill : Text → Call S (Response R)
  unfolding uql given
  kill id = do
    checked ← from_result (given (id ∷ []))
    uql session config (bytes "kill(" ++ (in_quotes id ++ bytes ")"))

  unfoldable pub stats : Call S (Response R)
  unfolding uql
  stats = uql session config (bytes "stats()")

module _ {S R : Type 0} (session : Session S R) (reader : Reader R)
    (config : Option RequestConfig) where
  unfoldable pub show_task :
      {J I : Type 0} → Json J I → (Text → Bool) → Text → Text → Call S (List (Task I))
  unfolding ask as_tasks task_statement
  show_task json is_all_digits name status =
      ask session reader config
        (task_statement is_all_digits (bytes "show().task") (bytes "()") name status)
        (λ r. read_item (as_tasks json (reader.alias r (bytes "_task"))))

  unfoldable pub create_hdc_graph_by_schema :
      (UqlBody → Option Text) → HdcBuilder → Call S JobResponse
  unfolding start_job build_uql
  create_hdc_graph_by_schema marshal b = start_job session reader config (build_uql marshal b)

  unfoldable pub show_hdc_graph : Call S (List HdcGraph)
  unfolding ask as_hdc_graphs
  show_hdc_graph =
      ask session reader config (bytes "hdc.graph.show()")
        (λ r. read_item (as_hdc_graphs reader.runtime (reader.alias r (bytes "_hdcGraphList"))))

  unfoldable pub show_hdc_algo : Text → Call S (List Algo)
  unfolding ask as_algos given
  show_hdc_algo server = do
    checked ← from_result (given (server ∷ []))
    ask session reader config (bytes "hdc.server.show('" ++ (server ++ bytes "')"))
        (λ r. read_item (as_algos reader.runtime (reader.alias r (bytes "_algoList"))))

  unfoldable pub show_projection : Call S (List Projection)
  unfolding ask as_projections
  show_projection =
      ask session reader config (bytes "show().projection()")
        (λ r. read_item (as_projections reader.runtime (reader.alias r (bytes "_projectionList"))))

  unfoldable pub top : Call S (List Process)
  unfolding ask as_processes
  top =
      ask session reader config (bytes "top()")
        (λ r. read_item (as_processes (reader.alias r (bytes "_top"))))
