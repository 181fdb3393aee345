-- ===== src/Api/Request.antt =====
-- sdk/api/api.go: the message of a query beside the metadata and the deadline of its context.
use ultipa_go_driver.Prelude.{
  ℕ, ◌≡◌, ◌≤◌, refl, inl, inr, List, [], ◌∷◌, Text, bytes, text_eq, text_eq_refl, if◌then◌else◌,
  arith, Bool-cases, some,
}
use ultipa_go_driver.Prelude.Int.{ℤ, pos, negsuc, Fits, eq_ℕ, to_bits}
use ultipa_go_driver.Config.{
  UltipaConfig, RequestConfig, Deadline, unlimited, after, make_context, merge_request_config,
  to_context_kv, zone_pair, deadline_for, graph_name, is_pos,
}
use ultipa_go_driver.Api.{QueryType, QueryRequest, build_query_request, request_zone}

-- The zone of a message, as the metadata writes it.
abbrev pub zone_metadata : QueryRequest → List Text
zone_metadata q =
    if text_eq q.tz [] then bytes "tz_offset" ∷ q.tz_offset ∷ [] else bytes "tz" ∷ q.tz ∷ []

-- The deadline is not earlier than a number of seconds.
abbrev pub IsAfter : Deadline → ℕ → Type 0
IsAfter unlimited t = Unit {0}
IsAfter (after (pos n)) t = t ≤ n
IsAfter (after (negsuc n)) t = ⊥

zone_metadata-zone_pair :
    (z : ℤ) (query : Text) (ty : QueryType) (r : RequestConfig) (conf : UltipaConfig)
    → zone_pair z (some r) ≡ zone_metadata (build_query_request z query ty r conf)
unfolding build_query_request request_zone zone_pair
zone_metadata-zone_pair z query ty r conf = elim (Bool-cases (eq_ℕ r.timezone_offset 0)) [
  | inr e ↦ rw (e, text_eq_refl []) refl
  | inl e ↦ elim (Bool-cases (text_eq r.timezone [])) [
    | inl f ↦ rw (e, f, text_eq_refl []) refl
    | inr f ↦ rw (e, f, f) refl
  ]
]

timeouts-IsAfter :
    (r c : ℤ)
    → Fits 31 r
    → Fits 31 c
    → IsAfter (deadline_for r c) (to_bits 32 (if is_pos r then r else c))
unfolding deadline_for to_bits
timeouts-IsAfter (pos r) (pos c) hr hc = ground arith
timeouts-IsAfter (pos r) (negsuc c) hr hc = ground arith
timeouts-IsAfter (negsuc r) c hr hc = tt

-- The message of a query and the context that it is sent with agree: the metadata is the user, the
-- password, and the graph and the zone of the message, and the deadline of the context is not before
-- the timeout that the server is given, if the timeouts of the request and of the driver are int32
-- values.
pub build_query_request-make_context :
    (z : ℤ) (query : Text) (ty : QueryType) (r : RequestConfig) (c : UltipaConfig)
    → Fits 31 r.timeout
    → Fits 31 c.timeout
    → let q = build_query_request z query ty r (merge_request_config c r) in
      let ctx = make_context z c r in
      (ctx.metadata
        ≡ bytes "user"
          ∷ c.username
          ∷ bytes "password"
          ∷ c.password
          ∷ bytes "graph_name"
          ∷ q.graph_name
          ∷ zone_metadata q)
      × IsAfter ctx.deadline q.timeout
unfolding make_context to_context_kv build_query_request merge_request_config graph_name
build_query_request-make_context z query ty r c hr hc = (
  rw (zone_metadata-zone_pair z query ty r (merge_request_config c r)) refl,
  timeouts-IsAfter r.timeout c.timeout hr hc,
)
