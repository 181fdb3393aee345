-- ===== src/Pool.antt =====
-- sdk/connection/connection.pool.go: the connections of a driver. A connection is named by its host,
-- under which the pool keeps the only pointer that it makes; `none` is a nil pointer.
pub mod Slices
pub mod Refresh
pub mod Rotation
pub mod Race
use ultipa_go_driver.Prelude.{
  ℕ, suc, ◌+◌, ◌-◌, ◌%◌, ◌^◌, Bool, true, false, ◌&&◌, List, [], ◌∷◌, ◌++◌, Option, none, some,
  Text, bytes, text_eq, text_contains, length, get_elem?, Result, ok, err, ◌>>=◌, lookup, insert,
  ltb, leb, ◌==◌, if◌then◌else◌, all_of, any_of, map, not,
}
use ultipa_go_driver.Config.{UltipaConfig}

-- `ServerStatus` of a connection; a new one has the zero value.
pub data Status : Type 0 where
  dead alive : Status

-- The time of the last refresh is in nanoseconds.
pub record Pool : Type 0 where
  pub config : UltipaConfig
  pub connections : List (Text × Option Status)
  -- The bits of an int64.
  pub random_tick : ℕ
  pub actives : List (Option Text)
  pub last_actives_time : ℕ

pub data PoolError : Type 0 where
  no_hosts no_active nil_active all_nil tcp_failed connect_failed : PoolError
  denied : Text → PoolError
  close_failed : PoolError
  -- A nil pointer is followed.
  panics : PoolError

-- How a greeting ends: no context, a failed call, or a reply with its status: nil or success, a
-- refused login, another code.
pub data Greeting : Type 0 where
  no_context : Text → Greeting
  call_failed : Text → Greeting
  welcomed : Greeting
  permission_denied : Text → Greeting
  refused : Text → Greeting

abbrev tcp_text : Text
tcp_text = bytes "Error while dialing dial tcp"

abbrev login_text : Text
login_text = bytes "username does not exist or password is wrong"

-- What one goroutine of the refresh reports: nothing, an error for its slot of `connErrors`, or an
-- error that it also returns to the group.
pub data Report : Type 0 where
  fine : Report
  failed : Text → Report
  fatal : Text → Report

unfoldable pub report_of : Greeting → Report
report_of (no_context m) = failed m
report_of (call_failed m) = failed m
report_of welcomed = fine
report_of (permission_denied m) = if text_contains m login_text then fatal m else failed m
report_of (refused m) = failed m

abbrev status_of : Report → Status
status_of fine = alive
status_of (failed m) = dead
status_of (fatal m) = dead

-- What a goroutine does to what it shares with the others. One that was greeted appends to the slice
-- with no lock: it reads the slice, and ends with the write of the longer one. Without a read before
-- it, the slice was read while it was still empty.
pub data Event : Type 0 where
  reads : Text → Event
  ends : Text → Report → Event

-- The pool, and the slices that greeted goroutines have read.
pub record Running : Type 0 where
  pub pool : Pool
  pub held : List (Text × List (Option Text))

abbrev pub or_empty : Option (List (Option Text)) → List (Option Text)
or_empty none = []
or_empty (some xs) = xs

-- One event: the status of the connection, and the list of active connections.
unfoldable pub finish : Event → Running → Running
unfolding insert lookup
finish (reads host) s = record s { held = insert host s.pool.actives s.held }
finish (ends host fine) s = record s {
  pool = record (s.pool) {
    connections = insert host (some alive) s.pool.connections;
    actives = or_empty (lookup host s.held) ++ (some host ∷ []);
  };
}
finish (ends host (failed m)) s = record s {
  pool = record (s.pool) { connections = insert host (some dead) s.pool.connections };
}
finish (ends host (fatal m)) s = record s {
  pool = record (s.pool) { connections = insert host (some dead) s.pool.connections };
}

-- The events of all goroutines, in their order.
unfoldable pub finish_all : List Event → Running → Running
unfolding finish
finish_all [] s = s
finish_all (e ∷ rest) s = finish_all rest (finish e s)

-- The hosts with what their goroutines report, in the order in which these end.
unfoldable pub reports_of : List Event → List (Text × Report)
reports_of [] = []
reports_of (reads host ∷ rest) = reports_of rest
reports_of (ends host r ∷ rest) = (host, r) ∷ reports_of rest

-- `eg.Wait()`: the error that was returned first.
unfoldable pub first_fatal : List (Text × Report) → Option Text
first_fatal [] = none
first_fatal ((host, fatal m) ∷ rest) = some m
first_fatal ((host, _) ∷ rest) = first_fatal rest

abbrev pub is_fine : Report → Bool
is_fine fine = true
is_fine _ = false

abbrev pub is_tcp : Report → Bool
is_tcp fine = false
is_tcp (failed m) = text_contains m tcp_text
is_tcp (fatal m) = text_contains m tcp_text

-- The loop over `connErrors`.
unfoldable pub judge : Bool → List (Text × Report) → Result PoolError (Unit {0})
judge tcp [] = if tcp then err tcp_failed else err connect_failed
judge tcp ((host, fine) ∷ rest) = ok tt
judge tcp ((host, r) ∷ rest) = judge (tcp && is_tcp r) rest

unfoldable pub verdict : List (Text × Report) → Result PoolError (Unit {0})
unfolding first_fatal judge
verdict reports = elim (first_fatal reports) [ some m ↦ err (denied m) | none ↦ judge true reports ]

abbrev pub has_nil : List (Text × Option Status) → Bool
has_nil [] = false
has_nil ((host, none) ∷ rest) = true
has_nil ((host, some s) ∷ rest) = has_nil rest

-- `RefreshActivesWithSeconds` at the time `now`, which ends at `done`. `events` are those of the
-- goroutines, one for each host of the pool, in any interleaving. A nil connection crashes its
-- goroutine, and with it the program.
unfoldable pub refresh_actives : ℕ → ℕ → List Event → Pool → Result PoolError (Unit {0}) × Pool
unfolding finish_all verdict reports_of
refresh_actives now done events p =
    if leb (now - p.last_actives_time) 5000000000 && length p.connections == length p.actives
    then (ok tt, p)
    else if has_nil p.connections
    then (err panics, p)
    else (
      verdict (reports_of events),
      record ((finish_all events (record { pool = record p { actives = [] }; held = [] })).pool) {
        last_actives_time = done;
      },
    )

abbrev none_exists : List (Option Text) → Bool
none_exists [] = true
none_exists (none ∷ rest) = none_exists rest
none_exists (some h ∷ rest) = false

-- `doRefreshClusterInfo` and `RefreshClusterInfo`; the error that would be tried again is never
-- returned.
unfoldable pub refresh_cluster_info : Pool → Result PoolError (Unit {0})
refresh_cluster_info p = elim p.actives [
  | [] ↦ err no_active
  | a ∷ rest ↦ if none_exists (a ∷ rest) then err all_nil else ok tt
]

-- `pool.Actives[i]`, and the test for nil.
abbrev pub pick : Option (Option Text) → Result PoolError Text
pick (some (some host)) = ok host
pick (some none) = err nil_active
pick none = err panics

-- `pool.Actives[tick % len]` for the bits of an int64: Go's remainder of a negative number is not
-- positive, and a negative index panics.
unfoldable pub at_tick : ℕ → List (Option Text) → Result PoolError Text
at_tick tick actives =
    if ltb tick (2 ^ 63)
    then pick (get_elem? actives (tick % length actives))
    else if (2 ^ 64 - tick) % length actives == 0
    then pick (get_elem? actives 0)
    else err panics

-- `GetRandomConn` and `GetConn`. The counter is the bits of an int64, which wraps around.
unfoldable pub get_random_conn : Pool → Result PoolError Text × Pool
unfolding at_tick
get_random_conn p =
    let tick = (p.random_tick + 1) % 2 ^ 64 in
    if length p.actives == 0
    then (err no_active, p)
    else (at_tick tick p.actives, record p { random_tick = tick })

-- `CreateConnections`: `dial` is `NewConnection`, whose error is dropped.
unfoldable pub create_connections : (Text → Option Status) → List Text → Pool → Pool
create_connections dial [] p = p
create_connections dial (host ∷ hosts) p =
    create_connections dial hosts (record p { connections = insert host (dial host) p.connections })

-- `NewConnectionPool`: an error of the cluster information is returned together with the pool.
unfoldable pub new_connection_pool :
    (Text → Option Status)
    → ℕ
    → ℕ
    → List Event
    → UltipaConfig
    → Result PoolError (Result PoolError (Unit {0}) × Pool)
unfolding create_connections refresh_actives refresh_cluster_info
new_connection_pool dial now done events c = elim c.hosts [
  | [] ↦ err no_hosts
  | h ∷ hs ↦
      let empty : Pool = record {
        config = c;
        connections = [];
        random_tick = 0;
        actives = [];
        last_actives_time = 0;
      } in
      let (r, p) = refresh_actives now done events (create_connections dial (h ∷ hs) empty) in
      elim r [ err e ↦ err e | ok _ ↦ ok (refresh_cluster_info p, p) ]
]

-- `Close`: the first error stops it. `close` is the call on a connection that is there.
unfoldable pub close :
    (Text → Bool) → List (Text × Option Status) → List Text × Result PoolError (Unit {0})
close closes [] = ([], ok tt)
close closes ((host, none) ∷ rest) = ([], err panics)
close closes ((host, some s) ∷ rest) =
    let (done, r) = close closes rest in
    if closes host then (host ∷ done, r) else (host ∷ [], err close_failed)
