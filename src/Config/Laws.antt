-- ===== src/Config/Laws.antt =====
-- sdk/configuration and `NewContext`: what the derived settings guarantee.
use ultipa_go_driver.Prelude.{◌≤◌, ◌<◌, ◌^◌, ◌*◌, ◌≡◌, [], Option, some, text_eq}
use ultipa_go_driver.Prelude.Int.{ℤ, pos, negsuc}
use ultipa_go_driver.Runtime.{Runtime}
use ultipa_go_driver.Config.{
  UltipaConfig, RequestConfig, Deadline, unlimited, after, new_context, request_of, make_context,
}

-- A deadline that a server call can be given: none, or ten seconds at least and what an int32 holds
-- at most, so that its nanoseconds fit an int64.
abbrev pub IsSane : Deadline → Type 0
IsSane unlimited = Unit {0}
IsSane (after (pos n)) = (10 ≤ n) × (n < 2 ^ 31) × (n * 1000000000 < 2 ^ 63)
IsSane (after (negsuc n)) = ⊥

-- A request that names no zone always gets a context, and it is made of the request, with the zero
-- request for nil.
pub new_context_unzoned :
    (rt : Runtime) (z : ℤ) (c : UltipaConfig) (r : Option RequestConfig)
    → (request_of r).timezone ≡ []
    → new_context rt z c r ≡ some (make_context z c (request_of r))
unfolding new_context text_eq
new_context_unzoned rt z c r h = rw h
