-- ===== src/Config.antt =====
-- sdk/configuration: the settings of a driver and of a request, and what the connections derive from
-- them (sdk/connection/connection.go and connection.pool.go: `NewContext`).
pub mod Laws
use ultipa_go_driver.Prelude.{
  ℕ, ◌+◌, ◌-◌, ◌*◌, ◌^◌, ◌&&◌, not, Bool, false, List, [], ◌∷◌, ◌++◌, Option, none, some, Text,
  bytes, text_eq, Result, ok, err, ltb, if◌then◌else◌,
}
use ultipa_go_driver.Prelude.Int.{ℤ, pos, negsuc, eq_ℕ, is_neg, lt_ℕ}
use ultipa_go_driver.Prelude.Decimal.{format_int}
use ultipa_go_driver.Runtime.{Runtime}

-- `none` in `crt` is the nil slice.
pub record UltipaConfig : Type 0 where
  pub hosts : List Text
  pub username : Text
  pub password : Text
  pub password_encrypt : Text
  pub default_graph : Text
  pub crt : Option Text
  pub max_recv_size : ℤ
  pub timeout : ℤ
  pub heart_beat : ℤ

pub record RequestConfig : Type 0 where
  pub graph : Text
  pub timeout : ℤ
  pub host : Text
  pub timezone : Text
  pub timezone_offset : ℤ
  pub thread : ℕ

-- The zero value, `&RequestConfig{}`.
abbrev pub no_request : RequestConfig
no_request = record {
  graph = [];
  timeout = pos 0;
  host = [];
  timezone = [];
  timezone_offset = pos 0;
  thread = 0;
}

-- math.MaxInt32 seconds, and 32 MiB.
abbrev pub default_timeout : ℤ
default_timeout = pos 0x7fff_ffff

abbrev pub default_recv_size : ℤ
default_recv_size = pos 33554432

unfoldable pub fill_default : UltipaConfig → UltipaConfig
fill_default c = record c {
  max_recv_size = if eq_ℕ c.max_recv_size 0 then default_recv_size else c.max_recv_size;
  timeout = if eq_ℕ c.timeout 0 then default_timeout else c.timeout;
  password_encrypt = if text_eq c.password_encrypt [] then bytes "MD5" else c.password_encrypt;
}

-- `x > 0`.
abbrev pub is_pos : ℤ → Bool
is_pos (pos n) = ltb 0 n
is_pos (negsuc n) = false

unfoldable pub merge_request_config : UltipaConfig → RequestConfig → UltipaConfig
merge_request_config c r = record c { timeout = if is_pos r.timeout then r.timeout else c.timeout }

-- The graph that a request names, or else the default one.
unfoldable pub graph_name : UltipaConfig → Option RequestConfig → Text
graph_name c none = c.default_graph
graph_name c (some r) = if text_eq r.graph [] then c.default_graph else r.graph

-- The zone of a request: an offset comes before a name, and the local zone stands for neither.
unfoldable pub zone_pair : ℤ → Option RequestConfig → List Text
zone_pair zone_offset none = bytes "tz_offset" ∷ format_int zone_offset ∷ []
zone_pair zone_offset (some r) =
    if eq_ℕ r.timezone_offset 0 && text_eq r.timezone []
    then bytes "tz_offset" ∷ format_int zone_offset ∷ []
    else if not (eq_ℕ r.timezone_offset 0)
    then bytes "tz_offset" ∷ format_int r.timezone_offset ∷ []
    else bytes "tz" ∷ r.timezone ∷ []

-- `ToContextKV`, the metadata of a call: `zone_offset` is the offset of the local zone.
unfoldable pub to_context_kv : ℤ → UltipaConfig → Option RequestConfig → List Text
unfolding graph_name zone_pair
to_context_kv zone_offset c r =
    (bytes "user"
      ∷ c.username
      ∷ bytes "password"
      ∷ c.password
      ∷ bytes "graph_name"
      ∷ graph_name c r
      ∷ [])
    ++ zone_pair zone_offset r

-- The deadline of a context: none, or so many seconds from now.
pub data Deadline : Type 0 where
  unlimited : Deadline
  after : ℤ → Deadline

pub record Context : Type 0 where
  pub deadline : Deadline
  pub metadata : List Text

abbrev pub or_else : ℤ → ℤ → ℤ
or_else a b = if eq_ℕ a 0 then b else a

-- The three defaults, one after the other, and the minimum of ten seconds.
unfoldable pub deadline_for : ℤ → ℤ → Deadline
deadline_for requested configured =
    let timeout = or_else (or_else requested configured) default_timeout in
    if is_neg timeout then unlimited else after (if lt_ℕ timeout 10 then pos 10 else timeout)

-- The request that a nil pointer stands for.
abbrev pub request_of : Option RequestConfig → RequestConfig
request_of none = no_request
request_of (some r) = r

unfoldable pub make_context : ℤ → UltipaConfig → RequestConfig → Context
unfolding to_context_kv deadline_for
make_context zone_offset c r = record {
  deadline = deadline_for r.timeout c.timeout;
  metadata = to_context_kv zone_offset c (some r);
}

-- `NewContext` of a pool and of a connection, which have the same text; `none` is a zone that
-- `time.LoadLocation` does not find.
unfoldable pub new_context : Runtime → ℤ → UltipaConfig → Option RequestConfig → Option Context
unfolding make_context
new_context rt zone_offset c r =
    let q = request_of r in
    if text_eq q.timezone []
    then some (make_context zone_offset c q)
    else elim (rt.load_location q.timezone) [
      | none ↦ none
      | some _ ↦ some (make_context zone_offset c q)
    ]
