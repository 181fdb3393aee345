-- ===== src/Tests/Driver.antt =====
-- Replies, requests and connections, at concrete inputs.
use ultipa_go_driver.Prelude.{
  ℕ, ◌≡◌, ◌≢◌, ◌<◌, refl, List, [], ◌∷◌, ◌++◌, none, some, Text, bytes, ok, if◌then◌else◌, arith,
  get_elem?, any_of,
}
use mathlib.Core.List.{Mem}
use ultipa_go_driver.Prelude.Int.{pos}
use ultipa_go_driver.Types.{ResultType}
use ultipa_go_driver.Config.{UltipaConfig}
use ultipa_go_driver.Pool.{
  Pool, Report, Event, reads, ends, reports_of, fine, failed, dead, refresh_actives, first_fatal,
  get_random_conn, pick,
}
use ultipa_go_driver.Pool.Slices.{fine_hosts}
use ultipa_go_driver.Pool.Refresh.{refresh_actives_lem, get_random_conn_after_refresh}
use ultipa_go_driver.Pool.Rotation.{after_requests, get_random_conn_rotates}
use ultipa_go_driver.Pool.Race.{Reach, start, ended, append_loses_entry}
use ultipa_go_driver.Reply.{Reply, return, merge_uql_reply}
use ultipa_go_driver.Reply.Merge.{merge_uql_reply_lem}
use ultipa_go_driver.Reply.Round.{IsWhole, rows_in}
use ultipa_go_driver.Reply.Header.{names}

-- Two records of a stream that hold rows of one table.
abbrev pub reply_with : List ℕ → Reply ℕ
reply_with rows = record {
  alias = (bytes "t", ResultType.table) ∷ [];
  nodes = some [];
  edges = some [];
  tables = some (record { name = bytes "t"; content = rows } ∷ []);
  paths = some [];
  attrs = some [];
}

abbrev pub reply_one : Reply ℕ
reply_one = reply_with (1 ∷ [])

abbrev pub reply_two : Reply ℕ
reply_two = reply_with (2 ∷ 3 ∷ [])

pub reply_with-IsWhole : (rows : List ℕ) → IsWhole (reply_with rows)
reply_with-IsWhole rows = (
  ([], refl, tt),
  ([], refl, tt),
  (record { name = bytes "t"; content = rows } ∷ [], refl, (tt, tt)),
  ([], refl, tt),
  ([], refl, tt),
)

merge_uql_reply_lem_example :
    (r : Reply ℕ) × (merge_uql_reply reply_one reply_two ≡ return r)
    × ((t : ResultType) (m : Text)
        → rows_in t r m ≡ (
            if any_of (names m t) reply_one.alias
            then rows_in t reply_one m ++ rows_in t reply_two m
            else rows_in t reply_one m))
merge_uql_reply_lem_example =
    merge_uql_reply_lem reply_one reply_two (reply_with-IsWhole (1 ∷ []))
      (reply_with-IsWhole (2 ∷ 3 ∷ [])) refl

abbrev nodes_first : Reply ℕ
nodes_first = record reply_one {
  alias = (bytes "n", ResultType.node) ∷ (bytes "t", ResultType.table) ∷ [];
}

abbrev without_nodes : Reply ℕ
without_nodes = record reply_two { nodes = none }

abbrev pub test_config : UltipaConfig
test_config = record {
  hosts = bytes "a" ∷ bytes "b" ∷ [];
  username = bytes "root";
  password = bytes "root";
  password_encrypt = [];
  default_graph = bytes "default";
  crt = none;
  max_recv_size = pos 0;
  timeout = pos 60;
  heart_beat = pos 10;
}

abbrev pub two_hosts : Pool
two_hosts = record {
  config = test_config;
  connections = (bytes "a", some dead) ∷ (bytes "b", some dead) ∷ [];
  random_tick = 0;
  actives = [];
  last_actives_time = 0;
}

abbrev one_fine : List (Text × Report)
one_fine = (bytes "b", failed (bytes "no route")) ∷ (bytes "a", fine) ∷ []

-- Two goroutines, one of which is greeted; the other fails between its read and its write.
abbrev pub mixed : List Event
mixed =
    reads (bytes "a") ∷ ends (bytes "b") (failed (bytes "no route")) ∷ ends (bytes "a") fine ∷ []

no_fatal : first_fatal (reports_of mixed) ≡ none
unfolding first_fatal reports_of
no_fatal = refl

some_fine : fine_hosts (reports_of mixed) ≢ []
unfolding reports_of
some_fine e = cc e

pub refreshed : (refresh_actives 6 7 mixed two_hosts).0 ≡ ok tt
refreshed = (refresh_actives_lem 6 7 mixed two_hosts refl refl).3.1 (no_fatal, some_fine)

abbrev three_active : Pool
three_active = record two_hosts {
  actives = some (bytes "a") ∷ some (bytes "b") ∷ some (bytes "c") ∷ [];
  random_tick = 5;
}

get_random_conn_rotates_example :
    (n : ℕ) × (n < 3)
    × ((get_random_conn (after_requests n three_active)).0
        ≡ pick (get_elem? three_active.actives 1))
get_random_conn_rotates_example = get_random_conn_rotates three_active 1 (omega arith) (omega arith)

append_loses_entry_example :
    Reach (bytes "a") (bytes "b") start (ended (some (bytes "a") ∷ []))
    × Reach (bytes "a") (bytes "b") start (ended (some (bytes "b") ∷ []))
append_loses_entry_example = append_loses_entry (bytes "a") (bytes "b")

get_random_conn_after_refresh_example :
    (host : Text) × ((get_random_conn
        (record (refresh_actives 6 7 mixed two_hosts).1 { random_tick = 4 })).0
      ≡ ok host)
    × Mem (host, fine) (reports_of mixed)
get_random_conn_after_refresh_example =
    get_random_conn_after_refresh 6 7 mixed two_hosts 4 refl refl refreshed (omega arith)
