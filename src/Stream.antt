-- ===== src/Stream.antt =====
-- sdk/http: what a query answers with, as a stream of records (response.query.go and
-- responseStream.go), with its status, statistics and plan (status.go, statistic.go,
-- explainPlan.go).
pub mod Statistics
pub mod Response
pub mod Receive
pub mod Collect
pub mod Delivery
use ultipa_go_driver.Prelude.{ℕ, List, [], Option, none, Text, bytes}
use ultipa_go_driver.Prelude.Int.{ℤ, pos}
use ultipa_go_driver.Types.{ErrorCode, Table}
use ultipa_go_driver.Reply.{Reply}

-- The generated Status, and the struct of sdk/http/status.go with the same fields.
pub record Status : Type 0 where
  pub code : ErrorCode
  pub message : Text

-- `&Status{}`
unfoldable pub empty_status : Status
empty_status = record { code = ErrorCode.success; message = [] }

pub record Statistic : Type 0 where
  pub node_affected : ℤ
  pub edge_affected : ℤ
  pub total_cost : ℤ
  pub engine_cost : ℤ

-- The fields of a PlanNode, generated and in sdk/structs/explain.go.
pub record PlanNode : Type 0 where
  pub alias : Text
  pub children_num : ℕ
  pub query_text : Text
  pub infos : Text

-- A QueryReply that arrives, over rows of type `R`; a nil pointer is `none`.
pub record QueryRecord (R : Type 0) : Type 0 where
  pub reply : Reply R
  pub status : Option Status
  pub statistics : Option Table
  pub explain_plan : Option (List PlanNode)

-- What the calls of `resp.Recv` give, one after the other: records up to `io.EOF` or another error.
pub data Incoming (R : Type 0) : Type 0 where
  eof : Incoming R
  broken : Text → Incoming R
  incoming : QueryRecord R → Incoming R → Incoming R

-- Why a reader returns an error: that of the stream, a statistic that is no number, a status, that
-- of the callback; or the code panics.
pub data StreamError : Type 0 where
  recv : Text → StreamError
  bad_statistic : StreamError
  status : Text → StreamError
  callback : Text → StreamError
  panics : StreamError
