-- ===== src/Insert.antt =====
-- sdk/api/insert.nodes.go and insert.edges.go: the requests that insert rows, and what they return
-- (sdk/http/response.insert.go and response.insert.batch.auto.go). Nodes and edges go through the
-- same text, so the type of a row is a parameter.
pub mod Replies
pub mod Grouping
pub mod Sending
pub mod Calls
pub mod Texts
pub mod Entries
pub mod Answers
pub mod Rounds
pub mod Sound
pub mod Numbers
use ultipa_go_driver.Prelude.{ℕ, Bool, List, Option, Text}
use ultipa_go_driver.Prelude.Int.{ℤ}
use ultipa_go_driver.Config.{RequestConfig}
use ultipa_go_driver.Stream.{Status, Statistic}
use ultipa_go_driver.Rows.{EntityRow, RowError, Schema}
use ultipa_go_driver.Rows.Read.{EntityTable}
use ultipa_go_driver.Api.{ApiError}

pub data InsertType : Type 0 where
  normal overwrite upsert : InsertType

-- A nil pointer to the request configuration is `none`.
pub record InsertRequestConfig : Type 0 where
  pub request_config : Option RequestConfig
  pub insert_type : InsertType
  pub silent : Bool

-- InsertNodesRequest and InsertEdgesRequest.
pub record InsertRequest : Type 0 where
  pub graph_name : Text
  pub table : EntityTable
  pub insert_type : InsertType
  pub silent : Bool

-- InsertNodesReply and InsertEdgesReply; the latter has no identifiers.
pub record InsertReply : Type 0 where
  pub status : Option Status
  pub time_cost : ℤ
  pub engine_time_cost : ℤ
  pub uuids : List ℕ
  pub ids : List Text
  pub ignore_indexes : List ℕ
  pub ignore_error_code : List ℕ

pub record InsertResponse : Type 0 where
  pub uuids : List ℕ
  pub ids : List Text
  pub error_items : List (ℕ × Text)
  pub statistic : Statistic
  pub status : Status

pub data InsertError : Type 0 where
  api : ApiError → InsertError
  row : RowError → InsertError
  schema_not_found : Text → InsertError
  status : Text → InsertError
  panics : InsertError
