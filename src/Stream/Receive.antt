-- ===== src/Stream/Receive.antt =====
-- sdk/http/responseStream.go: `Recv`, which hands every record to a callback as it arrives. The
-- callback is a function on a state of the caller's; `errorf` is `fmt.Errorf` on a format alone.
use ultipa_go_driver.Prelude.{
  ◌≡◌, true, false, List, [], ◌∷◌, Option, none, some, Text, Result, ok, err, ◌>>=◌,
}
use ultipa_go_driver.Types.{is_success}
use ultipa_go_driver.Stream.{
  Status, empty_status, QueryRecord, Incoming, eof, broken, incoming, StreamError,
}
use ultipa_go_driver.Stream.Statistics.{parse_statistic, parse_explain_plan}
use ultipa_go_driver.Stream.Response.{Response, alias_names}

-- The status of the response, or the error that a status other than SUCCESS is.
unfoldable pub status_of : (Text → Text) → Option Status → Result StreamError Status
unfolding empty_status
status_of errorf none = ok empty_status
status_of errorf (some status) = elim (is_success status.code) [
  | true ↦ ok status
  | false ↦ err (StreamError.status (errorf status.message))
]

module _ {R : Type 0} where
  -- The response for one record, before the callback.
  unfoldable pub response_of : (Text → Text) → QueryRecord R → Result StreamError (Response R)
  unfolding parse_statistic parse_explain_plan status_of
  response_of errorf r = do
    statistic ← parse_statistic r.statistics
    status ← status_of errorf r.status
    ok (record {
      reply = some r.reply;
      status = status;
      statistic = some statistic;
      explain_plan = some (parse_explain_plan r.explain_plan);
      alias_list = alias_names r.reply;
    })

  -- `Recv`, from the state of the callback.
  unfoldable pub receive :
      {S : Type 0}
      → (Text → Text)
      → (S → Response R → S × Option Text)
      → S
      → Incoming R
      → S × Option StreamError
  unfolding response_of
  receive errorf cb s eof = (s, none)
  receive errorf cb s (broken message) = (s, some (StreamError.recv message))
  receive errorf cb s (incoming r rest) = elim (response_of errorf r) [
    | err e ↦ (s, some e)
    | ok response ↦ elim ((cb s response).1) [
      | some message ↦ ((cb s response).0, some (StreamError.callback message))
      | none ↦ receive errorf cb (cb s response).0 rest
    ]
  ]

  -- The state after the callback has accepted the responses to these records, one after the other.
  pub data Accepted {S : Type 0} (errorf : Text → Text) (cb : S → Response R → S × Option Text)
      : S → List (QueryRecord R) → S → Type 0 where
    nothing : {s : S} → Accepted errorf cb s [] s
    next :
        {s s' : S} {r : QueryRecord R} {rs : List (QueryRecord R)} (response : Response R)
        → response_of errorf r ≡ ok response
        → (cb s response).1 ≡ none
        → Accepted errorf cb (cb s response).0 rs s'
        → Accepted errorf cb s (r ∷ rs) s'
