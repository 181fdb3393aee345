-- ===== src/Items.antt =====
-- sdk/http/dataitem.go: what is read out of a part of a reply (`DataItem`), and the structs that it
-- fills (sdk/structs: path.go, table.go, attr.go). The names of items, which only error messages show,
-- are left out.
pub mod Paths
pub mod Tables
pub mod System
pub mod Graphs
pub mod Listings
pub mod Admin
pub mod Summary
pub mod Columns
pub mod Attrs
pub mod ListAttrs
pub mod Closed
pub mod Same
pub mod Fuel
use ultipa_go_driver.Prelude.{ℕ, Bool, List, [], ◌∷◌, Option, Text, Result, ok, err}
use ultipa_go_driver.Types.{PropertyType, ResultType, Value, Table}
use ultipa_go_driver.Rows.{Node, Edge, RowError}
use ultipa_go_driver.Rows.Read.{EntityTable}

-- `Path` of the protocol.
pub record PathMessage : Type 0 where
  pub node_table : Option EntityTable
  pub edge_table : Option EntityTable

-- `Attr` of the protocol; a nil slice of values is `none`.
pub record AttrMessage : Type 0 where
  pub value_type : PropertyType
  pub values : Option (List Text)

-- `Data` of a DataItem, an interface that holds nil or a pointer to one of these.
pub data Data : Type 0 where
  no_data : Data
  node_alias : Option EntityTable → Data
  edge_alias : Option EntityTable → Data
  path_alias : List PathMessage → Data
  table : Table → Data
  attr_alias : Text → Option AttrMessage → Data

pub record DataItem : Type 0 where
  pub type : ResultType
  pub content : Data

-- `Path` of sdk/structs/path.go.
pub record GraphPath : Type 0 where
  pub node_uuids : List ℕ
  pub edge_uuids : List ℕ
  pub nodes : List (ℕ × Node)
  pub edges : List (ℕ × Edge)

pub data ItemError : Type 0 where
  wrong_type wrong_table bad_message not_list not_supported empty_graphs bad_json wrong_length :
      ItemError
  not_read : ItemError
  -- `log.Fatalln`: the program ends.
  exits : ItemError
  -- The fuel of the model; no run of the program.
  out_of_fuel : ItemError
  panics : ItemError

-- An error in a row of a table; a panic stays a panic.
abbrev pub of_row : {A : Type 0} → Result RowError A → Result ItemError A
of_row (ok a) = ok a
of_row (err RowError.panics) = err ItemError.panics
of_row (err _) = err ItemError.not_read
