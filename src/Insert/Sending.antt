-- ===== src/Insert/Sending.antt =====
-- sdk/api/insert.nodes.go and insert.edges.go: the requests themselves. `insert` is the call
-- `client.InsertNodes` (or InsertEdges) on the connection to a host, `respond` the function that
-- makes the response of a reply. Go ranges over the batches in an order of its own: here they are
-- sent in the order of a list.
use ultipa_go_driver.Prelude.{
  ℕ, List, [], ◌∷◌, ◌++◌, Option, none, some, Text, text_eq, bytes, Result, ok, err, ◌>>=◌,
  if◌then◌else◌, put_at, insert,
}
use ultipa_go_driver.Prelude.Int.{ℤ, pos, ◌+ℤ◌, of_bits, to_bits}
use ultipa_go_driver.Types.{ErrorCode, is_success}
use ultipa_go_driver.Runtime.{Runtime}
use ultipa_go_driver.Config.{
  RequestConfig, UltipaConfig, Context, no_request, new_context, graph_name,
}
use ultipa_go_driver.Pool.{Pool}
use ultipa_go_driver.Stream.{Status, Statistic}
use ultipa_go_driver.Rows.{EntityRow, RowError, Schema}
use ultipa_go_driver.Rows.Read.{EntityTable}
use ultipa_go_driver.Rows.Write.{table_schema}
use ultipa_go_driver.Api.{Network, ApiError, lift, get_client, context_or_error}
use ultipa_go_driver.Insert.Replies.{or_panic}
use ultipa_go_driver.Insert.Grouping.{Batch, Grouped, no_groups, group_rows, row_number, row_result}
use ultipa_go_driver.Insert.{
  InsertRequestConfig, InsertRequest, InsertReply, InsertResponse, InsertError,
}

-- What the requests are sent with: `zone_offset` is the offset of the local zone.
pub record Sender (R : Type 0) : Type 0 where
  pub runtime : Runtime
  pub zone_offset : ℤ
  pub network : Network R
  pub insert : Text → Context → InsertRequest → Result Text InsertReply
  pub respond : InsertReply → Result InsertError InsertResponse

-- The request of a table.
abbrev pub insert_request :
    UltipaConfig → RequestConfig → InsertRequestConfig → EntityTable → InsertRequest
insert_request c r config table = record {
  graph_name = graph_name c (some r);
  table = table;
  insert_type = config.insert_type;
  silent = config.silent;
}

-- The table of one schema with the rows of a batch.
unfoldable pub batch_table : Schema → List EntityRow → EntityTable
unfolding table_schema
batch_table schema rows = record { schemas = table_schema schema ∷ []; rows = rows }

-- A reply other than a success is an error.
abbrev pub succeeded : InsertReply → Status → Result InsertError InsertReply
succeeded reply status =
    if is_success status.code then ok reply else err (InsertError.status status.message)

abbrev pub request_in : Option RequestConfig → RequestConfig
request_in none = no_request
request_in (some r) = r

-- `InsertBatchAutoResponse`
pub record AutoResponse : Type 0 where
  pub error_code : Text
  pub msg : Text
  pub statistic : Statistic
  pub resps : List (Text × InsertResponse)
  pub error_item : List (ℕ × Text)

abbrev pub new_auto_response : AutoResponse
new_auto_response = record {
  error_code = [];
  msg = [];
  statistic = record {
    node_affected = pos 0;
    edge_affected = pos 0;
    total_cost = pos 0;
    engine_cost = pos 0;
  };
  resps = [];
  error_item = [];
}

-- A status other than SUCCESS: its name where there is none yet, and its message as a line.
unfoldable pub note_status : (ErrorCode → Text) → Text → Status → AutoResponse → AutoResponse
note_status code_name name status auto = if is_success status.code then auto else record auto {
  error_code = if text_eq auto.error_code [] then code_name status.code else auto.error_code;
  msg = auto.msg ++ (name ++ (bytes ":" ++ (status.message ++ (13 ∷ 10 ∷ []))));
}

-- The loop over the error items: each is put under the number of its row.
unfoldable pub map_items : Text → Grouped → List (ℕ × Text) → List (ℕ × Text) → List (ℕ × Text)
unfolding row_number put_at
map_items name g [] found = found
map_items name g ((k, v) ∷ rest) found =
    map_items name g rest (put_at (row_number name k g) v found)

-- A Go int, of 64 bits.
abbrev wrapped : ℤ → ℤ
unfolding of_bits to_bits
wrapped z = of_bits 63 (to_bits 64 z)

-- What a response adds to the one of the whole call.
unfoldable pub note_response : Text → Grouped → InsertResponse → AutoResponse → AutoResponse
unfolding map_items insert ◌+ℤ◌ of_bits to_bits
note_response name g response auto = record auto {
  resps = insert name response auto.resps;
  error_item = map_items name g response.error_items auto.error_item;
  statistic = record (auto.statistic) {
    total_cost = wrapped (auto.statistic.total_cost +ℤ response.statistic.total_cost);
    engine_cost = wrapped (auto.statistic.engine_cost +ℤ response.statistic.engine_cost);
  };
}

module _ {R : Type 0} where
  -- The client and the context.
  unfoldable pub connect :
      Sender R → Pool → RequestConfig → Result InsertError (Text × Context) × Pool
  unfolding get_client new_context
  connect s p r =
      let (client, q) = get_client s.network p (some r) in
      (
        do
          (host, conf) ← lift InsertError.api client
          ctx ←
              lift InsertError.api
                (context_or_error (new_context s.runtime s.zone_offset p.config (some r)))
          ok (host, ctx),
        q,
      )

  -- The call.
  unfoldable pub send_table :
      Sender R
      → UltipaConfig
      → RequestConfig
      → InsertRequestConfig
      → Text × Context
      → EntityTable
      → Result InsertError InsertReply
  unfolding graph_name
  send_table s c r config (host, ctx) table =
      lift (λ m. InsertError.api (ApiError.call m))
        (s.insert host ctx (insert_request c r config table))

  abbrev pub finish_insert : Sender R → InsertReply → Result InsertError InsertResponse
  finish_insert s reply = do
    status ← or_panic reply.status
    success ← succeeded reply status
    s.respond success

  -- `InsertNodesBatch` and `InsertEdgesBatch`, on a table: a nil request configuration is followed.
  unfoldable pub insert_batch :
      Sender R → Pool → EntityTable → InsertRequestConfig → Result InsertError InsertResponse × Pool
  unfolding connect send_table
  insert_batch s p table config = elim (config.request_config) [
    | none ↦ (err InsertError.panics, p)
    | some r ↦
        let (connected, q) = connect s p r in
        (
          do to ← connected; reply ← send_table s p.config r config to table; finish_insert s reply,
          q,
        )
  ]

  -- `InsertNodesBatchBySchema` and `InsertEdgesBatchBySchema`; `converted` is what the goroutines that
  -- convert the rows return.
  unfoldable pub insert_batch_by_schema :
      Sender R
      → Pool
      → Schema
      → Result RowError (List EntityRow)
      → InsertRequestConfig
      → Result InsertError InsertResponse × Pool
  unfolding connect send_table batch_table
  insert_batch_by_schema s p schema converted config =
      let r = request_in config.request_config in
      let (connected, q) = connect s p r in
      (
        do
          to ← connected
          rows ← row_result converted
          reply ← send_table s p.config r config to (batch_table schema rows)
          finish_insert s reply,
        q,
      )

  -- One round of the second loop of `InsertNodesBatchAuto`, whatever the status of the reply.
  unfoldable pub send_batch :
      Sender R
      → (ErrorCode → Text)
      → Pool
      → RequestConfig
      → InsertRequestConfig
      → Grouped
      → Batch
      → AutoResponse
      → Result InsertError AutoResponse × Pool
  unfolding connect send_table batch_table note_status note_response
  send_batch s code_name p r config g b auto =
      let (connected, q) = connect s p r in
      (
        do
          to ← connected
          reply ← send_table s p.config r config to (batch_table b.schema b.rows)
          status ← or_panic reply.status
          response ← s.respond reply
          ok (
              note_response b.schema.name g response
                (note_status code_name b.schema.name status auto)),
        q,
      )

  unfoldable pub send_batches :
      Sender R
      → (ErrorCode → Text)
      → Pool
      → RequestConfig
      → InsertRequestConfig
      → Grouped
      → List (Text × Batch)
      → AutoResponse
      → Result InsertError AutoResponse × Pool
  unfolding send_batch
  send_batches s code_name p r config g [] auto = (ok auto, p)
  send_batches s code_name p r config g ((name, b) ∷ rest) auto =
      let (answer, q) = send_batch s code_name p r config g b auto in
      elim answer [ err e ↦ (err e, q) | ok next ↦ send_batches s code_name q r config g rest next ]

  -- `InsertNodesBatchAuto` and `InsertEdgesBatchAuto`, from the schemas that the server has: of the
  -- whole response only the responses by schema are returned.
  unfoldable pub insert_batch_auto :
      {A : Type 0}
      → Sender R
      → (ErrorCode → Text)
      → Pool
      → List Schema
      → (A → Text)
      → (Schema → A → Result RowError EntityRow)
      → (List (Text × Batch) → List (Text × Batch))
      → List A
      → InsertRequestConfig
      → Result InsertError (List (Text × InsertResponse)) × Pool
  unfolding group_rows send_batches
  insert_batch_auto s code_name p schemas schema_of convert order rows config =
      elim (group_rows schemas schema_of convert 0 rows no_groups) [
        | err e ↦ (err e, p)
        | ok g ↦
            let r = request_in config.request_config in
            let (answer, q) =
              send_batches s code_name p r config g (order g.batches) new_auto_response in
            (do auto ← answer; ok auto.resps, q)
      ]
