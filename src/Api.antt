-- ===== src/Api.antt =====
-- sdk/api/api.go: how a query finds a connection, is sent, and is answered. What a connection does is
-- a parameter: dialling, and the two attempts of `client.Query`, told apart by their number.
pub mod Request
pub mod Queries
use ultipa_go_driver.Prelude.{
  ℕ, Bool, true, false, ◌&&◌, not, List, [], Option, none, some, Text, bytes, ◌++◌, text_eq, Result,
  ok, err, ◌>>=◌, if◌then◌else◌, ltb,
}
use ultipa_go_driver.Prelude.Int.{ℤ, pos, eq_ℕ, to_bits}
use ultipa_go_driver.Prelude.Decimal.{format_int}
use ultipa_go_driver.Types.{is_success}
use ultipa_go_driver.Runtime.{Runtime}
use ultipa_go_driver.Config.{
  UltipaConfig, RequestConfig, Context, request_of, merge_request_config, new_context,
}
use ultipa_go_driver.Pool.{Pool, PoolError, get_random_conn}
use ultipa_go_driver.Stream.{Status, Incoming, StreamError}
use ultipa_go_driver.Stream.Response.{Response, new_uql_response}
use ultipa_go_driver.Stream.Receive.{receive}

pub data QueryType : Type 0 where
  unset uql gql : QueryType

pub record QueryRequest : Type 0 where
  pub graph_name : Text
  pub timeout : ℕ
  pub query_type : QueryType
  pub query_text : Text
  pub thread_num : ℕ
  pub tz_offset : Text
  pub tz : Text

-- The zone of a request: its offset and its name.
unfoldable pub request_zone : ℤ → RequestConfig → Text × Text
unfolding format_int
request_zone zone_offset r =
    if eq_ℕ r.timezone_offset 0 && text_eq r.timezone []
    then (format_int zone_offset, [])
    else if not (eq_ℕ r.timezone_offset 0)
    then (format_int r.timezone_offset, [])
    else ([], r.timezone)

-- `buildQueryRequest`; `zone_offset` is the offset of the local zone.
unfoldable pub build_query_request :
    ℤ → Text → QueryType → RequestConfig → UltipaConfig → QueryRequest
unfolding request_zone to_bits
build_query_request zone_offset query query_type r conf = record {
  graph_name = if text_eq r.graph [] then conf.default_graph else r.graph;
  timeout = to_bits 32 conf.timeout;
  query_type = query_type;
  query_text = query;
  thread_num = if ltb 0 r.thread then r.thread else 0;
  tz_offset = (request_zone zone_offset r).0;
  tz = (request_zone zone_offset r).1;
}

pub data ApiError : Type 0 where
  pool : PoolError → ApiError
  dial : Text → ApiError
  call : Text → ApiError
  stream : StreamError → ApiError
  no_context : ApiError
  panics : ApiError

-- A result of another component, with its errors among those of the driver.
abbrev pub lift {ℓ κ μ} : {E : Type ℓ} {F : Type κ} {A : Type μ} → (E → F) → Result E A → Result F A
lift f (ok a) = ok a
lift f (err e) = err (f e)

pub record Network (R : Type 0) : Type 0 where
  -- The error of `NewConnection`, if it has one.
  pub dial : Text → UltipaConfig → Option Text
  -- `client.Query` on the connection to a host, at its first and at its second attempt.
  pub call : ℕ → Text → Context → QueryRequest → Result Text (Incoming R)

abbrev pub conn_of :
    UltipaConfig → Result PoolError Text → Result ApiError (Option Text × UltipaConfig)
conn_of conf (ok host) = ok (some host, conf)
conn_of conf (err e) = err (ApiError.pool e)

-- `conn.GetClient()`, which follows the pointer to the connection.
abbrev pub client_of : Option Text × UltipaConfig → Result ApiError (Text × UltipaConfig)
client_of (none, conf) = err ApiError.panics
client_of (some host, conf) = ok (host, conf)

-- The context: where there is none, the nil `cancel` is called, which panics.
abbrev pub context_of : Option Context → Result ApiError Context
context_of none = err ApiError.panics
context_of (some ctx) = ok ctx

abbrev pub received : {S : Type 0} → S × Option StreamError → S × Option ApiError
received (s, none) = (s, none)
received (s, some e) = (s, some (ApiError.stream e))

abbrev pub names_host : Option RequestConfig → Bool
names_host none = false
names_host (some r) = not (text_eq r.host [])

-- The reply to a greeting: a nil status is followed.
abbrev pub greeted : Option Status → Result ApiError (Unit {0})
greeted none = err ApiError.panics
greeted (some status) =
    if is_success status.code
    then ok tt
    else err (ApiError.call (bytes "tset error " ++ status.message))

abbrev pub wrap_hello : Text → ApiError
wrap_hello message = ApiError.call (bytes "tset error " ++ message)

abbrev pub context_or_error : Option Context → Result ApiError Context
context_or_error none = err ApiError.no_context
context_or_error (some ctx) = ok ctx

-- `Test`: `say_hello` is the call of that name; an unknown zone is an error here.
unfoldable pub test_connection :
    Runtime
    → ℤ
    → (Text → Context → Result Text (Option Status))
    → Pool
    → Option RequestConfig
    → Result ApiError (Unit {0}) × Pool
unfolding get_random_conn new_context
test_connection rt zone_offset say_hello p config = (
  do
    host ← lift ApiError.pool (get_random_conn p).0
    ctx ← context_or_error (new_context rt zone_offset p.config config)
    status ← lift wrap_hello (say_hello host ctx)
    greeted status,
  (get_random_conn p).1,
)

module _ {R : Type 0} where
  -- `GetConn`: a nil configuration gets the nil connection, a host of its own a new connection.
  unfoldable pub get_conn :
      Network R → Pool → Option RequestConfig → Result ApiError (Option Text × UltipaConfig) × Pool
  unfolding get_random_conn merge_request_config
  get_conn net p none = (ok (none, p.config), p)
  get_conn net p (some r) =
      let conf = merge_request_config p.config r in
      if text_eq r.host []
      then (conn_of conf (get_random_conn p).0, (get_random_conn p).1)
      else elim (net.dial r.host conf) [
        | some message ↦ (err (ApiError.dial message), p)
        | none ↦ (ok (some r.host, conf), p)
      ]

  unfoldable pub get_client :
      Network R → Pool → Option RequestConfig → Result ApiError (Text × UltipaConfig) × Pool
  unfolding get_conn
  get_client net p config = let (r, q) = get_conn net p config in (r >>= client_of, q)

  -- The call, which is made once more where it fails.
  unfoldable pub call_twice :
      Network R → Text → Context → QueryRequest → Result ApiError (Incoming R)
  call_twice net host ctx request = elim (net.call 0 host ctx request) [
    | ok s ↦ ok s
    | err _ ↦ lift ApiError.call (net.call 1 host ctx request)
  ]

  unfoldable pub do_execute_query :
      Runtime
      → ℤ
      → Network R
      → Pool
      → Text
      → QueryType
      → Option RequestConfig
      → Result ApiError (Incoming R) × Pool
  unfolding get_client new_context build_query_request call_twice
  do_execute_query rt zone_offset net p query query_type config =
      let r = request_of config in
      let (client, q) = get_client net p (some r) in
      (
        do
          (host, conf) ← client
          ctx ← context_of (new_context rt zone_offset p.config (some r))
          call_twice net host ctx (build_query_request zone_offset query query_type r conf),
        q,
      )

  -- `query`, and `Uql`, which calls it with the type UQL.
  unfoldable pub api_query :
      Runtime
      → ℤ
      → Network R
      → Pool
      → Text
      → QueryType
      → Option RequestConfig
      → Result ApiError (Response R) × Pool
  unfolding do_execute_query new_uql_response
  api_query rt zone_offset net p query query_type config =
      let (answer, q) = do_execute_query rt zone_offset net p query query_type config in
      (do s ← answer; lift ApiError.stream (new_uql_response s), q)

  -- `queryStream`, and `UqlStream`: a request that names a host returns before the stream is read.
  unfoldable pub query_stream :
      {S : Type 0}
      → Runtime
      → ℤ
      → (Text → Text)
      → Network R
      → Pool
      → Text
      → QueryType
      → (S → Response R → S × Option Text)
      → S
      → Option RequestConfig
      → (S × Option ApiError) × Pool
  unfolding do_execute_query receive
  query_stream rt zone_offset errorf net p query query_type cb s config =
      let (answer, q) = do_execute_query rt zone_offset net p query query_type config in
      elim answer [
        | err e ↦ ((s, some e), q)
        | ok arriving ↦
            (if names_host config then (s, none) else received (receive errorf cb s arriving), q)
      ]
