-- ===== src/Insert/Replies.antt =====
-- sdk/http/response.insert.go: `NewNodesInsertResponse` and `NewEdgesInsertResponse`.
use ultipa_go_driver.Prelude.{
  ℕ, List, [], ◌∷◌, Option, none, some, Text, bytes, Result, ok, err, ◌>>=◌, length, ◌==◌,
  if◌then◌else◌, put_at, get_at,
}
use ultipa_go_driver.Prelude.Int.{pos}
use ultipa_go_driver.Stream.{Status, Statistic}
use ultipa_go_driver.Insert.{InsertReply, InsertResponse, InsertError}

-- `InsertErrorCodeMsgMap2`
abbrev pub insert_error_names : List (ℕ × Text)
insert_error_names =
    (10001, bytes "ID_NOT_MATCH_UUID")
    ∷ (10002, bytes "ID_UUID_NOT_MATCH_SCHEMA")
    ∷ (10003, bytes "FROM_ID_NOT_EXISTED")
    ∷ (10004, bytes "TO_ID_NOT_EXISTED")
    ∷ (10005, bytes "ID_LEN")
    ∷ (10006, bytes "NOT_NULL")
    ∷ (10007, bytes "UNIQUCHECK")
    ∷ (10008, bytes "ID_EMPTY")
    ∷ (10009, bytes "FROM_ID_EMPTY")
    ∷ (10010, bytes "TO_ID_EMPTY")
    ∷ (10011, bytes "DUPLICATE_ID")
    ∷ (10012, bytes "KEY_CONSTRAINT_VIOLATED")
    ∷ (11001, bytes "OK_BUT_ID_EXISTED")
    ∷ (19999, bytes "OTHERS")
    ∷ []

abbrev pub or_empty : Option Text → Text
or_empty none = []
or_empty (some t) = t

-- A code that the map lacks is the empty text.
unfoldable pub error_name : ℕ → Text
unfolding get_at
error_name code = or_empty (get_at code insert_error_names)

-- The loop over `IgnoreIndexes`, with its index into `IgnoreErrorCode`; a missing code panics.
unfoldable pub error_items :
    List ℕ → List ℕ → List (ℕ × Text) → Result InsertError (List (ℕ × Text))
unfolding error_name put_at
error_items [] codes items = ok items
error_items (v ∷ vs) [] items = err InsertError.panics
error_items (v ∷ vs) (code ∷ codes) items = error_items vs codes (put_at v (error_name code) items)

abbrev costs : InsertReply → Statistic
costs reply = record {
  node_affected = pos 0;
  edge_affected = pos 0;
  total_cost = reply.time_cost;
  engine_cost = reply.engine_time_cost;
}

abbrev pub or_panic : {A : Type 0} → Option A → Result InsertError A
or_panic none = err InsertError.panics
or_panic (some a) = ok a

abbrev pub response_with : InsertReply → Status → List Text → List (ℕ × Text) → InsertResponse
response_with reply status ids items = record {
  uuids = reply.uuids;
  ids = ids;
  error_items = items;
  statistic = costs reply;
  status = status;
}

-- `NewNodesInsertResponse`: no items where the two lists differ in length.
unfoldable pub new_nodes_insert_response : InsertReply → Result InsertError InsertResponse
unfolding error_items
new_nodes_insert_response reply = do
  status ← or_panic reply.status
  items ←
      (if length reply.ignore_indexes == length reply.ignore_error_code
        then error_items reply.ignore_indexes reply.ignore_error_code []
        else ok [])
  ok (response_with reply status reply.ids items)

-- `NewEdgesInsertResponse`: the lengths are not compared.
unfoldable pub new_edges_insert_response : InsertReply → Result InsertError InsertResponse
unfolding error_items
new_edges_insert_response reply = do
  status ← or_panic reply.status
  items ← error_items reply.ignore_indexes reply.ignore_error_code []
  ok (response_with reply status [] items)
