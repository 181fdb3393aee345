-- ===== src/Items/Graphs.antt =====
-- sdk/http/dataitem.go: `AsGraphSets` and `AsGraphCount`; sdk/structs: graphset.go, graph.count.go.
use ultipa_go_driver.Prelude.{
  ℕ, ◌-◌, ◌^◌, Bool, true, false, ◌&&◌, List, [], ◌∷◌, Option, none, some, Text, bytes, Result, ok,
  err, ◌>>=◌, traverse, lookup, all_of, leb, length, ◌==◌, if◌then◌else◌,
}
use ultipa_go_driver.Prelude.Int.{ℤ, pos, negsuc}
use ultipa_go_driver.Prelude.Decimal.{parse_uint, parse_int}
use ultipa_go_driver.Types.{Value, Table}
use ultipa_go_driver.Runtime.{Runtime}
use ultipa_go_driver.Rows.{Values}
use ultipa_go_driver.Items.{DataItem, ItemError}
use ultipa_go_driver.Items.Tables.{GoTable, to_kv, as_table, table_named, value_at}
use ultipa_go_driver.Items.System.{text_at}

abbrev all_digits : Text → Bool
all_digits [] = false
all_digits (c ∷ s) = all_of (λ d. leb 48 d && leb d 57) (c ∷ s)

-- `strconv.ParseUint(s, 10, 64)`, with the value that comes with its error, and whether there is one:
-- 0 for what is no number, the largest number for what is too large.
unfoldable pub parse_uint_value : Text → ℕ × Bool
unfolding parse_uint
parse_uint_value s = elim (parse_uint 64 s) [
  | some n ↦ (n, false)
  | none ↦ (if all_digits s then 2 ^ 64 - 1 else 0, true)
]

abbrev clamped : Text → ℤ
clamped [] = pos 0
clamped (c ∷ s) =
    if c == b'-'
    then (if all_digits s then negsuc (2 ^ 63 - 1) else pos 0)
    else if c == b'+'
    then (if all_digits s then pos (2 ^ 63 - 1) else pos 0)
    else (if all_digits (c ∷ s) then pos (2 ^ 63 - 1) else pos 0)

-- `strconv.Atoi(s)`
unfoldable pub atoi_value : Text → ℤ × Bool
unfolding parse_int
atoi_value s = elim (parse_int 63 s) [ some z ↦ (z, false) | none ↦ (clamped s, true) ]

abbrev put_first : ℕ → List Text → List Text
put_first c [] = (c ∷ []) ∷ []
put_first c (s ∷ rest) = (c ∷ s) ∷ rest

-- `strings.Split(s, ",")`
unfoldable pub split_commas : Text → List Text
split_commas [] = [] ∷ []
split_commas (c ∷ s) =
    let rest = split_commas s in if c == b',' then [] ∷ rest else put_first c rest

pub record GraphSet : Type 0 where
  pub id : Text
  pub name : Text
  pub total_nodes : ℕ
  pub total_edges : ℕ
  pub status : Text
  pub description : Text
  pub shards : List Text
  pub slot_num : ℤ
  pub partition_by : Text

-- A text, where the value is not nil; any other value panics.
abbrev optional_text : Option Value → Result ItemError (Option Text)
optional_text none = ok none
optional_text (some Value.nil) = ok none
optional_text (some (Value.str s)) = ok (some s)
optional_text (some _) = err ItemError.panics

-- A number that may be missing, with the error that `err` has afterwards.
abbrev number_or : {A : Type 0} → A → (Text → A × Bool) → Bool → Option Text → A × Bool
number_or zero_value parse failed none = (zero_value, failed)
number_or zero_value parse failed (some s) = parse s

-- One round of the loop: the error of the total of nodes is dropped, the others overwrite `err`.
unfoldable pub graph_set_of : Bool → Values → Result ItemError (GraphSet × Bool)
unfolding text_at lookup parse_uint_value atoi_value split_commas
graph_set_of failed v = do
  id ← text_at v (bytes "id")
  name ← text_at v (bytes "name")
  status ← text_at v (bytes "status")
  description ← text_at v (bytes "description")
  shards ← text_at v (bytes "shards")
  partition_by ← text_at v (bytes "partition_by")
  nodes ← optional_text (lookup (bytes "total_nodes") v)
  edges ← optional_text (lookup (bytes "total_edges") v)
  slots ← optional_text (lookup (bytes "slot_num") v)
  (total_edges, edges_failed) ← ok (number_or 0 parse_uint_value failed edges)
  (slot_num, slots_failed) ← ok (number_or (pos 0) atoi_value edges_failed slots)
  ok (
    record {
      id = id;
      name = name;
      total_nodes = (number_or 0 parse_uint_value failed nodes).0;
      total_edges = total_edges;
      status = status;
      description = description;
      shards = split_commas shards;
      slot_num = slot_num;
      partition_by = partition_by;
    },
    slots_failed,
  )

unfoldable pub graph_sets_of : Bool → List Values → Result ItemError (List GraphSet × Bool)
unfolding graph_set_of
graph_sets_of failed [] = ok ([], failed)
graph_sets_of failed (v ∷ vs) = do
  (g, next) ← graph_set_of failed v
  (gs, last) ← graph_sets_of next vs
  ok (g ∷ gs, last)

abbrev sets_in : Option GoTable → Result ItemError (List GraphSet × Bool)
sets_in none = ok ([], false)
sets_in (some g) = do kvs ← to_kv g; graph_sets_of false kvs

-- `AsGraphSets`: the graph sets, and whether the error of the last number comes with them.
unfoldable pub as_graph_sets : Runtime → DataItem → Result ItemError (List GraphSet × Bool)
unfolding table_named as_table to_kv graph_sets_of
as_graph_sets rt di = do t ← table_named (bytes "_graph" ∷ []) di; g ← as_table rt di; sets_in g

-- GraphCount with its SchemaStat.
pub record GraphCount : Type 0 where
  pub type : Text
  pub schema : Text
  pub from_schema : Text
  pub to_schema : Text
  pub count : ℕ

unfoldable pub graph_count_row : List Text → Result ItemError GraphCount
unfolding parse_uint_value
graph_count_row values = do
  count ← value_at values 4
  from_schema ← value_at values 2
  to_schema ← value_at values 3
  kind ← value_at values 0
  schema ← value_at values 1
  ok (record {
    type = kind;
    schema = schema;
    from_schema = from_schema;
    to_schema = to_schema;
    count = (parse_uint_value count).0;
  })

abbrev counts_in : Option Table → Result ItemError (List GraphCount)
counts_in none = ok []
counts_in (some t) =
    if leb (length t.headers) 4 then ok [] else traverse graph_count_row t.table_rows

-- `AsGraphCount`, which has nothing where the table has four columns or fewer.
unfoldable pub as_graph_count : DataItem → Result ItemError (List GraphCount)
unfolding table_named graph_count_row
as_graph_count di = do t ← table_named (bytes "_graphCount" ∷ []) di; counts_in t
