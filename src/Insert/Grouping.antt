-- ===== src/Insert/Grouping.antt =====
-- sdk/api/insert.nodes.go: the first loop of `InsertNodesBatchAuto` (and of `InsertEdgesBatchAuto`),
-- which puts each row into the batch of its schema and notes its number. `schema_of` is the field
-- Schema of a row, `convert` the function convertSdkNodeRowToUltipaNodeRow with its request.
use ultipa_go_driver.Prelude.{
  ℕ, suc, List, [], ◌∷◌, ◌++◌, Option, none, some, Text, text_eq, Result, ok, err, ◌>>=◌, length,
  lookup, insert, get_at, put_at, if◌then◌else◌,
}
use ultipa_go_driver.Rows.{EntityRow, RowError, Schema}
use ultipa_go_driver.Insert.{InsertError}

-- `Batch`: Nodes or Edges, and Schema.
pub record Batch : Type 0 where
  pub rows : List EntityRow
  pub schema : Schema

-- The maps `batches` and `m`.
pub record Grouped : Type 0 where
  pub batches : List (Text × Batch)
  pub row_numbers : List (Text × List (ℕ × ℕ))

abbrev pub no_groups : Grouped
no_groups = record { batches = []; row_numbers = [] }

unfoldable pub find_schema : Text → List Schema → Option Schema
find_schema name [] = none
find_schema name (s ∷ ss) = if text_eq s.name name then some s else find_schema name ss

abbrev pub new_batch : Text → Option Schema → Result InsertError Batch
new_batch name none = err (InsertError.schema_not_found name)
new_batch name (some s) = ok (record { rows = []; schema = s })

-- `batches[node.Schema]`, made where it is nil.
unfoldable pub batch_of : List Schema → Text → List (Text × Batch) → Result InsertError Batch
unfolding find_schema lookup
batch_of schemas name batches = elim (lookup name batches) [
  | some b ↦ ok b
  | none ↦ new_batch name (find_schema name schemas)
]

abbrev pub numbers_in : Option (List (ℕ × ℕ)) → List (ℕ × ℕ)
numbers_in none = []
numbers_in (some m) = m

abbrev pub or_zero : Option ℕ → ℕ
or_zero none = 0
or_zero (some i) = i

-- `m[schema][k]`, which is 0 where there is no such entry.
unfoldable pub row_number : Text → ℕ → Grouped → ℕ
unfolding lookup get_at
row_number name k g = or_zero (get_at k (numbers_in (lookup name g.row_numbers)))

-- A converted row at the end of its batch, and its number in the map.
unfoldable pub add_row : Text → Batch → EntityRow → ℕ → Grouped → Grouped
unfolding insert lookup put_at
add_row name b row index g = record {
  batches = insert name (record b { rows = b.rows ++ (row ∷ []) }) g.batches;
  row_numbers =
      insert name (put_at (length b.rows) index (numbers_in (lookup name g.row_numbers)))
        g.row_numbers;
}

abbrev pub row_result : {A : Type 0} → Result RowError A → Result InsertError A
row_result (ok a) = ok a
row_result (err RowError.panics) = err InsertError.panics
row_result (err e) = err (InsertError.row e)

module _ {A : Type 0} where
  -- One round. A conversion without an error never gives a nil row.
  unfoldable pub group_row :
      List Schema
      → (A → Text)
      → (Schema → A → Result RowError EntityRow)
      → ℕ
      → A
      → Grouped
      → Result InsertError Grouped
  unfolding batch_of add_row
  group_row schemas schema_of convert index a g = do
    b ← batch_of schemas (schema_of a) g.batches
    row ← row_result (convert b.schema a)
    ok (add_row (schema_of a) b row index g)

  unfoldable pub group_rows :
      List Schema
      → (A → Text)
      → (Schema → A → Result RowError EntityRow)
      → ℕ
      → List A
      → Grouped
      → Result InsertError Grouped
  unfolding group_row
  group_rows schemas schema_of convert index [] g = ok g
  group_rows schemas schema_of convert index (a ∷ rest) g = do
    next ← group_row schemas schema_of convert index a g
    group_rows schemas schema_of convert (suc index) rest next
