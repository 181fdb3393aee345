-- ===== src/Items/Tables.antt =====
-- sdk/http/dataitem.go: `AsTable` and the tables by which the server describes itself (indexes,
-- full-text indexes, extensions, processes, algorithms, HDC graphs, projections);
-- sdk/structs/table.go: `ToKV`. A nil slice is the empty list.
use ultipa_go_driver.Prelude.{
  ℕ, List, [], ◌∷◌, Option, none, some, Text, bytes, text_eq, any_of, Result, ok, err, ◌>>=◌,
  traverse, get_elem?, insert, if◌then◌else◌,
}
use ultipa_go_driver.Types.{PropertyType, ResultType, Value, Table}
use ultipa_go_driver.Runtime.{Runtime}
use ultipa_go_driver.Serial.{SerialError}
use ultipa_go_driver.Serial.Decode.{convert_bytes_to_interface}
use ultipa_go_driver.Rows.{Values}
use ultipa_go_driver.Items.{Data, DataItem, ItemError}

-- `Table` of sdk/structs/table.go.
pub record GoTable : Type 0 where
  pub name : Text
  pub headers : List (Text × PropertyType)
  pub rows : List (List Value)

abbrev pub field_value : Result SerialError Value → Result ItemError Value
field_value (ok v) = ok v
field_value (err SerialError.panics) = err ItemError.panics
field_value (err _) = err ItemError.not_read

-- The table that a DataItem holds, or none where it holds nothing.
abbrev pub held_table : Data → Result ItemError (Option Table)
held_table (Data.table t) = ok (some t)
held_table _ = err ItemError.panics

abbrev pub table_of_type : ResultType → Data → Result ItemError (Option Table)
table_of_type t Data.no_data = ok none
table_of_type ResultType.unset d = ok none
table_of_type ResultType.table d = held_table d
table_of_type _ d = err ItemError.wrong_type

-- The loop over the headers of one row, which panics where the row has fewer values.
unfoldable pub row_kv : List (Text × PropertyType) → List Value → Values → Result ItemError Values
unfolding insert
row_kv [] vs d = ok d
row_kv ((name, t) ∷ headers) [] d = err ItemError.panics
row_kv ((name, t) ∷ headers) (v ∷ vs) d = row_kv headers vs (insert name v d)

-- `ToKV`
unfoldable pub to_kv : GoTable → Result ItemError (List Values)
unfolding row_kv
to_kv t = traverse (λ row. row_kv t.headers row []) t.rows

module _ (rt : Runtime) where
  -- The loop over the fields of one row: a field past the last header panics.
  unfoldable pub read_fields :
      List (Text × PropertyType) → List Text → Result ItemError (List Value)
  unfolding convert_bytes_to_interface
  read_fields headers [] = ok []
  read_fields [] (b ∷ bs) = err ItemError.panics
  read_fields ((name, t) ∷ headers) (b ∷ bs) = do
    v ← field_value (convert_bytes_to_interface rt b t none)
    vs ← read_fields headers bs
    ok (v ∷ vs)

  unfoldable pub read_table : Table → Result ItemError GoTable
  unfolding read_fields
  read_table t = do
    rows ← traverse (read_fields t.headers) t.table_rows
    ok (record { name = t.table_name; headers = t.headers; rows = rows })

  abbrev pub read_held : Option Table → Result ItemError (Option GoTable)
  read_held none = ok none
  read_held (some t) = do g ← read_table t; ok (some g)

  -- `AsTable`
  unfoldable pub as_table : DataItem → Result ItemError (Option GoTable)
  unfolding read_table
  as_table di = do t ← table_of_type di.type di.content; read_held t

-- The table of a DataItem under one of the names that the function accepts.
unfoldable pub table_named : List Text → DataItem → Result ItemError (Option Table)
table_named accepted di = do
  t ← table_of_type di.type di.content
  elim t [
    | none ↦ ok none
    | some held ↦
        if any_of (text_eq held.table_name) accepted
        then ok (some held)
        else err ItemError.wrong_table
  ]

-- `values[i]`
abbrev pub value_at : List Text → ℕ → Result ItemError Text
value_at values i = elim (get_elem? values i) [ none ↦ err ItemError.panics | some v ↦ ok v ]

-- A loop over the rows of a table.
abbrev pub over_rows :
    {A : Type 0} → (List Text → Result ItemError A) → Option Table → Result ItemError (List A)
over_rows f none = ok []
over_rows f (some t) = traverse f t.table_rows

pub data DbType : Type 0 where
  db_node db_edge db_global : DbType

-- `Index` of sdk/structs/index.go; `Id` is empty for a full-text index.
pub record Index : Type 0 where
  pub id : Text
  pub name : Text
  pub properties : Text
  pub schema : Text
  pub status : Text
  pub db_type : DbType

abbrev pub db_type_of : Text → Option Table → DbType
db_type_of node_name none = db_node
db_type_of node_name (some t) = if text_eq t.table_name node_name then db_node else db_edge

abbrev pub index_row : DbType → List Text → Result ItemError Index
index_row db_type values = do
  id ← value_at values 0
  name ← value_at values 1
  properties ← value_at values 2
  schema ← value_at values 3
  status ← value_at values 4
  ok (record {
    id = id;
    name = name;
    properties = properties;
    schema = schema;
    status = status;
    db_type = db_type;
  })

unfoldable pub as_indexes : DataItem → Result ItemError (List Index)
unfolding table_named
as_indexes di = do
  t ← table_named (bytes "_nodeIndex" ∷ bytes "_edgeIndex" ∷ []) di
  over_rows (index_row (db_type_of (bytes "_nodeIndex") t)) t

abbrev pub full_text_row : DbType → List Text → Result ItemError Index
full_text_row db_type values = do
  name ← value_at values 0
  properties ← value_at values 1
  schema ← value_at values 2
  status ← value_at values 3
  ok (record {
    id = [];
    name = name;
    properties = properties;
    schema = schema;
    status = status;
    db_type = db_type;
  })

unfoldable pub as_full_texts : DataItem → Result ItemError (List Index)
unfolding table_named
as_full_texts di = do
  t ← table_named (bytes "_nodeFulltext" ∷ bytes "_edgeFulltext" ∷ []) di
  over_rows (full_text_row (db_type_of (bytes "_nodeFulltext") t)) t
