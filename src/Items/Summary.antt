-- ===== src/Items/Summary.antt =====
-- sdk/http/dataitem.go: `AsStats` and `AsAny`; sdk/structs/stats.go.
use ultipa_go_driver.Prelude.{
  List, [], ◌∷◌, Option, none, some, Text, bytes, Result, ok, err, ◌>>=◌,
}
use ultipa_go_driver.Types.{ResultType, Table}
use ultipa_go_driver.Runtime.{Runtime}
use ultipa_go_driver.Rows.{Node, Edge}
use ultipa_go_driver.Items.{Data, DataItem, ItemError}
use ultipa_go_driver.Items.Paths.{as_nodes, as_edges}
use ultipa_go_driver.Items.Tables.{GoTable, as_table, table_named, value_at}
use ultipa_go_driver.Items.System.{is_unset}
use ultipa_go_driver.Items.Attrs.{Attr, AttrCodec}
use ultipa_go_driver.Items.ListAttrs.{as_attr}

pub record Stats : Type 0 where
  pub cpu_usage : Text
  pub mem_usage : Text
  pub expired_date : Text
  pub cpu_cores : Text
  pub company : Text
  pub server_type : Text
  pub version : Text

-- `format_date` is the reading of a date by `time.Parse` and its format by `Format`.
unfoldable pub stats_row : (Text → Option Text) → List Text → Result ItemError Stats
stats_row format_date values = do
  date ← value_at values 2
  expired ← elim (format_date date) [ none ↦ err ItemError.not_read | some s ↦ ok s ]
  cpu_usage ← value_at values 0
  mem_usage ← value_at values 1
  cpu_cores ← value_at values 3
  company ← value_at values 4
  server_type ← value_at values 5
  version ← value_at values 6
  ok (record {
    cpu_usage = cpu_usage;
    mem_usage = mem_usage;
    expired_date = expired;
    cpu_cores = cpu_cores;
    company = company;
    server_type = server_type;
    version = version;
  })

-- The first row of the table; a table with no rows panics.
abbrev stats_in : (Text → Option Text) → Option Table → Result ItemError (Option Stats)
stats_in format_date none = ok none
stats_in format_date (some t) = elim (t.table_rows) [
  | [] ↦ err ItemError.panics
  | row ∷ _ ↦ (do stats ← stats_row format_date row; ok (some stats))
]

-- `AsStats`, for which UNSET is an error.
unfoldable pub as_stats : (Text → Option Text) → DataItem → Result ItemError (Option Stats)
unfolding table_named stats_row
as_stats format_date di = do
  checked ← is_unset di
  t ← table_named (bytes "_statistic" ∷ []) di
  stats_in format_date t

-- The `interface{}` that `AsAny` answers.
pub data Any : Type 0 where
  attr : Option Attr → Any
  edges : Option (List Edge) → Any
  nodes : Option (List Node) → Any
  table : Option GoTable → Any
  raw : Data → Any

abbrev without_schemas : {A B : Type 0} → Option (A × B) → Option A
without_schemas none = none
without_schemas (some r) = some (r.0)

module _ (rt : Runtime) (codec : AttrCodec) where
  abbrev any_of_type : ResultType → DataItem → Result ItemError Any
  any_of_type ResultType.attr di = do a ← as_attr rt codec di; ok (Any.attr a)
  any_of_type ResultType.edge di = do es ← as_edges rt di; ok (Any.edges (without_schemas es))
  any_of_type ResultType.node di = do ns ← as_nodes rt di; ok (Any.nodes (without_schemas ns))
  any_of_type ResultType.table di = do t ← as_table rt di; ok (Any.table t)
  any_of_type _ di = ok (Any.raw di.content)

  -- `AsAny`
  unfoldable pub as_any : DataItem → Result ItemError Any
  unfolding as_attr as_edges as_nodes as_table
  as_any di = any_of_type di.type di
