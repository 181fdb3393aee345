-- ===== src/Api/Queries.antt =====
-- sdk/api/api.go: which connection a query reaches, how often it is sent, and what comes back.
use ultipa_go_driver.Prelude.{
  ℕ, ◌+◌, ◌^◌, ◌<◌, ◌≡◌, refl, true, false, List, [], Option, some, none, Text, text_eq, ◌>>=◌,
  Result, ok, err,
}
use mathlib.Core.List.{Mem}
use ultipa_go_driver.Prelude.Int.{ℤ}
use ultipa_go_driver.Runtime.{Runtime}
use ultipa_go_driver.Config.{RequestConfig, Context, request_of, merge_request_config, new_context}
use ultipa_go_driver.Pool.{Pool, Event, reports_of, fine, has_nil, refresh_actives, get_random_conn}
use ultipa_go_driver.Pool.Refresh.{IsDue, get_random_conn_after_refresh}
use ultipa_go_driver.Stream.{Status, Incoming}
use ultipa_go_driver.Stream.Response.{Response, new_uql_response}
use ultipa_go_driver.Api.{
  QueryType, Network, ApiError, lift, build_query_request, get_conn, get_client, call_twice,
  do_execute_query, api_query, query_stream, names_host, test_connection,
}

module _ {R : Type 0} where
  get_client-random :
      (net : Network R) (p : Pool) (r : RequestConfig) (host : Text)
      → r.host ≡ []
      → (get_random_conn p).0 ≡ ok host
      → (get_client net p (some r)).0 ≡ ok (host, merge_request_config p.config r)
  unfolding get_client get_conn text_eq
  get_client-random net p r host unnamed e = rw (unnamed, e) refl

  -- Where a zone is not known, a query that reaches an active connection panics, and nothing is sent,
  -- while the test of the same connection returns an error.
  pub do_execute_query-unknown_zone :
      (rt : Runtime) (z : ℤ) (net : Network R) (p : Pool) (query : Text) (ty : QueryType)
      (r : RequestConfig) (host : Text) (say_hello : Text → Context → Result Text (Option Status))
      → r.host ≡ []
      → (get_random_conn p).0 ≡ ok host
      → new_context rt z p.config (some r) ≡ none
      → ((do_execute_query rt z net p query ty (some r)).0 ≡ err ApiError.panics)
        × ((test_connection rt z say_hello p (some r)).0 ≡ err ApiError.no_context)
  unfolding do_execute_query test_connection
  do_execute_query-unknown_zone rt z net p query ty r host say_hello unnamed e c =
      (rw (get_client-random net p r host unnamed e, c) refl, rw (e, c) refl)

  -- The answer of the first attempt, or else of the second, is read; the error is the second's.
  abbrev pub Tried :
      (first second : Result Text (Incoming R)) → Result ApiError (Response R) → Type 0
  Tried (ok s) second r = r ≡ lift ApiError.stream (new_uql_response s)
  Tried (err m) (ok s) r = r ≡ lift ApiError.stream (new_uql_response s)
  Tried (err m) (err e) r = r ≡ err (ApiError.call e)

  tried_lem :
      (first second : Result Text (Incoming R))
      → Tried first second (
          (elim first as (λ _. Result ApiError (Incoming R)) [
            | ok s ↦ ok s
            | err _ ↦ lift ApiError.call second
          ])
          >>= λ s. lift ApiError.stream (new_uql_response s))
  tried_lem (ok s) second = refl
  tried_lem (err m) (ok s) = refl
  tried_lem (err m) (err e) = refl

  -- After a due refresh that succeeds, however its goroutines interleave, a query that names no host,
  -- and whose zone is known, is put to a host that was greeted in that refresh, with the message and
  -- the context made of the request, as long as the counter is below the largest int64. What is
  -- returned is the response that is read from the stream of the first attempt, where it is answered;
  -- otherwise that of a second attempt, alike, or the error of this one.
  pub api_query_after_refresh :
      (rt : Runtime) (z : ℤ) (net : Network R) (query : Text) (ty : QueryType)
      (config : Option RequestConfig) (ctx : Context) (now done : ℕ) (events : List Event)
      (p : Pool) (tick : ℕ)
      → IsDue now p
      → has_nil p.connections ≡ false
      → (refresh_actives now done events p).0 ≡ ok tt
      → tick + 1 < 2 ^ 63
      → (request_of config).host ≡ []
      → new_context rt z (refresh_actives now done events p).1.config (some (request_of config))
        ≡ some ctx
      → let q = record (refresh_actives now done events p).1 { random_tick = tick } in
        let message =
          build_query_request z query ty
            (request_of config)
            (merge_request_config q.config (request_of config)) in
        (host : Text) × Mem (host, fine) (reports_of events)
        × Tried
            (net.call 0 host ctx message)
            (net.call 1 host ctx message)
            (api_query rt z net q query ty config).0
  unfolding api_query do_execute_query call_twice
  api_query_after_refresh rt z net query ty config ctx now done events p tick due whole r bound
        unnamed c =
      let q : Pool = record (refresh_actives now done events p).1 { random_tick = tick } in
      let (host, e, m) = get_random_conn_after_refresh now done events p tick due whole r bound in
      (host, m, rw (get_client-random net q (request_of config) host unnamed e, c) (tried_lem _ _))

  -- A streamed query that names a host is sent, and where it is answered there is no error, but the
  -- callback is never called, whatever the answer holds.
  pub query_stream-names_host :
      {S : Type 0} (rt : Runtime) (z : ℤ) (errorf : Text → Text) (net : Network R) (p : Pool)
      (query : Text) (ty : QueryType) (cb : S → Response R → S × Option Text) (s : S)
      (config : Option RequestConfig) (stream : Incoming R)
      → names_host config ≡ true
      → (do_execute_query rt z net p query ty config).0 ≡ ok stream
      → (query_stream rt z errorf net p query ty cb s config).0 ≡ (s, none)
  unfolding query_stream
  query_stream-names_host rt z errorf net p query ty cb s config stream named e =
      rw (query_stream, e, named) refl
