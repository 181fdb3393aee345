-- ===== src/Stream/Statistics.antt =====
-- sdk/http/statistic.go and explainPlan.go: `ParseStatistic` and `ParseExplainPlan`.
use ultipa_go_driver.Prelude.{
  ℕ, suc, List, [], ◌∷◌, Option, none, some, Text, bytes, Result, ok, err, ◌>>=◌, get_elem?, take,
  insert, lookup,
}
use ultipa_go_driver.Prelude.Int.{ℤ, pos}
use ultipa_go_driver.Prelude.Decimal.{parse_int}
use ultipa_go_driver.Types.{PropertyType, Table}
use ultipa_go_driver.Stream.{Statistic, PlanNode, StreamError}

-- `table.TableRows[0].Values[index]`
unfoldable pub first_row_value : List (List Text) → ℕ → Result StreamError Text
first_row_value [] index = err StreamError.panics
first_row_value (row ∷ rows) index = elim (get_elem? row index) [
  | none ↦ err StreamError.panics
  | some value ↦ ok value
]

-- The loop over the headers, which stops at the fifth.
unfoldable pub statistic_kv :
    List (Text × PropertyType)
    → List (List Text)
    → ℕ
    → List (Text × Text)
    → Result StreamError (List (Text × Text))
unfolding first_row_value insert
statistic_kv [] rows index kv = ok kv
statistic_kv ((key, t) ∷ headers) rows index kv = do
  value ← first_row_value rows index
  statistic_kv headers rows (suc index) (insert key value kv)

-- One field of the struct: an absent or empty text leaves it 0.
unfoldable pub statistic_field : List (Text × Text) → Text → Result StreamError ℤ
unfolding lookup parse_int
statistic_field kv key = elim (lookup key kv) [
  | none ↦ ok (pos 0)
  | some v ↦ elim v [
    | [] ↦ ok (pos 0)
    | b ∷ bs ↦ elim (parse_int 63 (b ∷ bs)) [ none ↦ err StreamError.bad_statistic | some z ↦ ok z ]
  ]
]

unfoldable pub parse_statistic : Option Table → Result StreamError Statistic
unfolding statistic_kv statistic_field
parse_statistic none = ok (record {
  node_affected = pos 0;
  edge_affected = pos 0;
  total_cost = pos 0;
  engine_cost = pos 0;
})
parse_statistic (some t) = do
  kv ← statistic_kv (take 4 t.headers) t.table_rows 0 []
  nodes ← statistic_field kv (bytes "node_affected")
  edges ← statistic_field kv (bytes "edge_affected")
  total ← statistic_field kv (bytes "total_time_cost")
  engine ← statistic_field kv (bytes "engine_time_cost")
  ok (record {
    node_affected = nodes;
    edge_affected = edges;
    total_cost = total;
    engine_cost = engine;
  })

-- `ParseExplainPlan`, which has no error: the plan nodes, none where there is no plan.
unfoldable pub parse_explain_plan : Option (List PlanNode) → List PlanNode
parse_explain_plan none = []
parse_explain_plan (some nodes) = nodes
