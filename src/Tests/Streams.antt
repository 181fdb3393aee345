-- ===== src/Tests/Streams.antt =====
-- Streams, queries and insertions, at concrete inputs.
use ultipa_go_driver.Prelude.{
  ℕ, zero, suc, ◌≡◌, refl, true, false, List, [], ◌∷◌, Option, none, some, Text, bytes, text_eq,
  Result, ok, err, if◌then◌else◌, any_of, get_elem?, lookup, insert, put_at, arith,
}
use mathlib.Core.List.{Mem}
use ultipa_go_driver.Prelude.Int.{pos}
use ultipa_go_driver.Types.{ResultType}
use ultipa_go_driver.Config.{no_request, make_context, merge_request_config}
use ultipa_go_driver.Config.Laws.{new_context_unzoned}
use ultipa_go_driver.Pool.{fine, reports_of, refresh_actives}
use ultipa_go_driver.Reply.{Reply}
use ultipa_go_driver.Reply.Header.{names}
use ultipa_go_driver.Reply.Round.{rows_in}
use ultipa_go_driver.Stream.{Statistic, QueryRecord, Incoming, eof, broken, incoming}
use ultipa_go_driver.Stream.Statistics.{parse_statistic}
use ultipa_go_driver.Stream.Response.{Response, new_uql_response, response_is_success, alias_names}
use ultipa_go_driver.Stream.Collect.{incoming_all, all_rows, new_uql_response_lem}
use ultipa_go_driver.Api.{QueryType, Network, build_query_request, api_query}
use ultipa_go_driver.Api.Request.{zone_metadata, IsAfter, build_query_request-make_context}
use ultipa_go_driver.Api.Queries.{Tried, api_query_after_refresh}
use ultipa_go_driver.Rows.{EntityRow, RowError, Schema}
use ultipa_go_driver.Insert.Grouping.{
  Batch, Grouped, no_groups, group_rows, group_row, batch_of, find_schema, add_row, row_number,
}
use ultipa_go_driver.Insert.Sound.{Placed}
use ultipa_go_driver.Insert.Numbers.{group_rows_lem}
use ultipa_go_driver.Tests.Driver.{
  reply_one, reply_two, reply_with-IsWhole, test_config, two_hosts, mixed, refreshed,
}
use ultipa_go_driver.Tests.{test_runtime}

abbrev record_of : Reply ℕ → QueryRecord ℕ
record_of r = record { reply = r; status = none; statistics = none; explain_plan = none }

abbrev no_statistic : Statistic
no_statistic = record {
  node_affected = pos 0;
  edge_affected = pos 0;
  total_cost = pos 0;
  engine_cost = pos 0;
}

no_statistic-parsed : parse_statistic none ≡ ok no_statistic
unfolding parse_statistic
no_statistic-parsed = refl

new_uql_response_lem_example :
    (response : Response ℕ) × (new_uql_response
        (incoming (record_of reply_one) (incoming_all (record_of reply_two ∷ []) eof))
      ≡ ok response)
    × (response_is_success response ≡ true)
    × (response.alias_list ≡ alias_names reply_one)
    × (response.statistic ≡ some no_statistic)
    × (reply : Reply ℕ) × (response.reply ≡ some reply)
    × ((t : ResultType) (m : Text)
        → rows_in t reply m ≡ (
            if any_of (names m t) reply_one.alias
            then all_rows t m (record_of reply_one ∷ record_of reply_two ∷ [])
            else rows_in t reply_one m))
new_uql_response_lem_example =
    new_uql_response_lem (record_of reply_one) (record_of reply_two ∷ []) no_statistic
      (reply_with-IsWhole (1 ∷ []), refl) ((reply_with-IsWhole (2 ∷ 3 ∷ []), refl), tt) refl
      no_statistic-parsed

-- A callback that counts the responses.
abbrev count_up : ℕ → Response ℕ → ℕ × Option Text
count_up n response = (suc n, none)

abbrev cut_stream : Incoming ℕ
cut_stream = incoming (record_of reply_one) (broken (bytes "reset"))

build_query_request-make_context_example :
    let q =
      build_query_request
        (pos 3600)
        (bytes "find()")
        QueryType.uql
        no_request
        (merge_request_config test_config no_request) in
    let ctx = make_context (pos 3600) test_config no_request in
    (ctx.metadata
      ≡ bytes "user"
        ∷ bytes "root"
        ∷ bytes "password"
        ∷ bytes "root"
        ∷ bytes "graph_name"
        ∷ q.graph_name
        ∷ zone_metadata q)
    × IsAfter ctx.deadline q.timeout
build_query_request-make_context_example =
    build_query_request-make_context (pos 3600) (bytes "find()") QueryType.uql no_request
      test_config (omega arith) (omega arith)

-- A network whose first attempt fails.
abbrev test_network : Network ℕ
test_network = record {
  dial = λ host conf. none;
  call = λ attempt host ctx request. elim attempt [
    | zero ↦ err (bytes "unavailable")
    | suc _ ↦ ok (incoming (record_of reply_one) eof)
  ];
}

api_query_after_refresh_example :
    let q = record (refresh_actives 6 7 mixed two_hosts).1 { random_tick = 4 } in
    let ctx = make_context (pos 0) (refresh_actives 6 7 mixed two_hosts).1.config no_request in
    let message =
      build_query_request
        (pos 0)
        (bytes "find()")
        QueryType.uql
        no_request
        (merge_request_config q.config no_request) in
    (host : Text) × Mem (host, fine) (reports_of mixed)
    × Tried
        (test_network.call 0 host ctx message)
        (test_network.call 1 host ctx message)
        (api_query test_runtime (pos 0) test_network q (bytes "find()") QueryType.uql none).0
api_query_after_refresh_example =
    api_query_after_refresh test_runtime (pos 0) test_network (bytes "find()") QueryType.uql none
      (make_context (pos 0) (refresh_actives 6 7 mixed two_hosts).1.config no_request) 6 7 mixed
      two_hosts 4 refl refl refreshed (omega arith) refl
      (new_context_unzoned test_runtime (pos 0) (refresh_actives 6 7 mixed two_hosts).1.config
        (some no_request) refl)

-- Three rows of two schemas; a row is its identifier and the name of its schema.
abbrev two_schemas : List Schema
two_schemas =
    record { name = bytes "a"; properties = [] } ∷ record { name = bytes "b"; properties = [] } ∷ []

abbrev test_rows : List (Text × Text)
test_rows = (bytes "x", bytes "a") ∷ (bytes "y", bytes "b") ∷ (bytes "z", bytes "a") ∷ []

abbrev entity : Text × Text → EntityRow
entity (id, schema) = record {
  id = id;
  uuid = 0;
  schema_name = schema;
  from_id = [];
  from_uuid = 0;
  to_id = [];
  to_uuid = 0;
  is_null = false;
  values = [];
}

abbrev test_convert : Schema → Text × Text → Result RowError EntityRow
test_convert s row = ok (entity row)

abbrev batch_a : Batch
batch_a = record {
  rows = entity (bytes "x", bytes "a") ∷ entity (bytes "z", bytes "a") ∷ [];
  schema = record { name = bytes "a"; properties = [] };
}

abbrev batch_b : Batch
batch_b = record {
  rows = entity (bytes "y", bytes "b") ∷ [];
  schema = record { name = bytes "b"; properties = [] };
}

abbrev test_groups : Grouped
test_groups = record {
  batches = (bytes "a", batch_a) ∷ (bytes "b", batch_b) ∷ [];
  row_numbers = (bytes "a", (0, 0) ∷ (1, 2) ∷ []) ∷ (bytes "b", (0, 1) ∷ []) ∷ [];
}

rows-grouped :
    group_rows two_schemas (λ row. row.1) test_convert 0 test_rows no_groups ≡ ok test_groups
unfolding group_rows group_row batch_of find_schema add_row lookup insert put_at text_eq
rows-grouped = refl

a-found : lookup (bytes "a") test_groups.batches ≡ some batch_a
unfolding lookup text_eq
a-found = refl

group_rows_lem_example :
    ((x : Text × Text) × (get_elem? test_rows (row_number (bytes "a") 1 test_groups) ≡ some x)
      × (x.1 ≡ bytes "a")
      × (test_convert batch_a.schema x ≡ ok (entity (bytes "z", bytes "a"))))
    × Placed test_groups (bytes "b") 1
group_rows_lem_example =
    group_rows_lem two_schemas (λ row. row.1) test_convert test_rows test_groups (bytes "a") 1
      batch_a (entity (bytes "z", bytes "a")) 1 (bytes "y", bytes "b") rows-grouped a-found refl
      refl
