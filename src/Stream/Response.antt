-- ===== src/Stream/Response.antt =====
-- sdk/http/response.query.go: `NewUQLResponse`, which reads a stream to its end and merges its
-- records, and the methods of the response.
use ultipa_go_driver.Prelude.{
  ℕ, Bool, true, false, List, [], Option, none, some, Text, Result, ok, err, ◌>>=◌, get_elem?, map,
}
use ultipa_go_driver.Types.{ResultType, is_success}
use ultipa_go_driver.Reply.{Reply, Merged, go_on, return, crash, merge_uql_reply}
use ultipa_go_driver.Reply.Lookup.{Item, find_alias_data}
use ultipa_go_driver.Stream.Statistics.{parse_statistic, parse_explain_plan}
use ultipa_go_driver.Stream.{
  Status, empty_status, Statistic, PlanNode, QueryRecord, Incoming, eof, broken, incoming,
  StreamError,
}

-- `Response`: a field that may be nil is an option. DataItemMap is never read or written.
pub record Response (R : Type 0) : Type 0 where
  pub reply : Option (Reply R)
  pub status : Status
  pub statistic : Option Statistic
  pub explain_plan : Option (List PlanNode)
  pub alias_list : List Text

unfoldable pub keep_status : Status → Option Status → Status
keep_status old none = old
keep_status old (some new) = new

module _ {R : Type 0} where
  -- The response before the first record.
  unfoldable pub new_response : Response R
  unfolding empty_status
  new_response = record {
    reply = none;
    status = empty_status;
    statistic = none;
    explain_plan = none;
    alias_list = [];
  }

  -- The statistic is parsed while there is none.
  unfoldable pub keep_statistic : Option Statistic → QueryRecord R → Result StreamError Statistic
  unfolding parse_statistic
  keep_statistic (some s) r = ok s
  keep_statistic none r = parse_statistic r.statistics

  unfoldable pub keep_plan : Option (List PlanNode) → QueryRecord R → List PlanNode
  unfolding parse_explain_plan
  keep_plan (some plan) r = plan
  keep_plan none r = parse_explain_plan r.explain_plan

  abbrev pub of_merged : Merged R → Result StreamError (Reply R)
  of_merged (go_on r) = ok r
  of_merged (return r) = ok r
  of_merged crash = err StreamError.panics

  -- The first record is kept, a further one merged into it.
  unfoldable pub keep_reply : Option (Reply R) → QueryRecord R → Result StreamError (Reply R)
  unfolding merge_uql_reply
  keep_reply none r = ok r.reply
  keep_reply (some reply) r = of_merged (merge_uql_reply reply r.reply)

  -- One round of the loop.
  unfoldable pub take_record : Response R → QueryRecord R → Result StreamError (Response R)
  unfolding keep_statistic keep_plan keep_reply keep_status
  take_record response r = do
    statistic ← keep_statistic response.statistic r
    reply ← keep_reply response.reply r
    ok (record {
      reply = some reply;
      status = keep_status response.status r.status;
      statistic = some statistic;
      explain_plan = some (keep_plan response.explain_plan r);
      alias_list = response.alias_list;
    })

  abbrev pub alias_names : Reply R → List Text
  alias_names r = map (λ a. a.0) r.alias

  -- After the loop: `response.Reply.Alias`, through a pointer that is nil where no record came.
  unfoldable pub with_alias_list : Response R → Result StreamError (Response R)
  with_alias_list response = elim (response.reply) [
    | none ↦ err StreamError.panics
    | some r ↦ ok (record response { alias_list = alias_names r })
  ]

  -- The loop: a status that is not SUCCESS returns the response as it is.
  unfoldable pub read_records : Response R → Incoming R → Result StreamError (Response R)
  unfolding take_record with_alias_list
  read_records response eof = with_alias_list response
  read_records response (broken message) = err (StreamError.recv message)
  read_records response (incoming r rest) = do
    next ← take_record response r
    elim (is_success next.status.code) [ true ↦ read_records next rest | false ↦ ok next ]

  unfoldable pub new_uql_response : Incoming R → Result StreamError (Response R)
  unfolding new_response read_records
  new_uql_response stream = read_records new_response stream

  unfoldable pub response_is_success : Response R → Bool
  response_is_success response = is_success response.status.code

  -- `Alias`, on a response that has a reply.
  unfoldable pub response_alias : Reply R → Text → Option (Item R) × ResultType
  unfolding find_alias_data
  response_alias reply name = find_alias_data reply name

  -- `Get`: the data of the alias at a place of the list, or nil beyond its end.
  unfoldable pub response_get : Response R → ℕ → Result StreamError (Option (Item R) × ResultType)
  unfolding response_alias
  response_get response index = elim (get_elem? response.alias_list index) [
    | none ↦ ok (none, ResultType.unset)
    | some name ↦ elim (response.reply) [
      | none ↦ err StreamError.panics
      | some reply ↦ ok (response_alias reply name)
    ]
  ]
