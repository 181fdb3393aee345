-- ===== src/Client/Readers.antt =====
-- sdk/api/schema.go, graph.go, index.go: what the calls that ask for a listing read in the response;
-- sdk/structs/schema.go: `SetStatsByGraphCount`.
use ultipa_go_driver.Prelude.{
  ◌+◌, ◌%◌, ◌^◌, Bool, true, false, ◌&&◌, List, [], ◌∷◌, ◌++◌, Option, none, some, Text, bytes,
  text_eq, Result, ok, err, ◌>>=◌, map, if◌then◌else◌, leb,
}
use ultipa_go_driver.Prelude.Int.{ℤ}
use ultipa_go_driver.Stream.Response.{Response, response_is_success}
use ultipa_go_driver.Runtime.{Runtime}
use ultipa_go_driver.Items.{DataItem, ItemError}
use ultipa_go_driver.Items.Tables.{DbType, Index, as_indexes, as_full_texts}
use ultipa_go_driver.Items.Graphs.{GraphSet, GraphCount, as_graph_sets, as_graph_count}
use ultipa_go_driver.Items.Listings.{ListedProperty, ListedSchema, JsonProperty, as_schemas}
use ultipa_go_driver.Client.{ClientError}

-- What the readers of a response need: `alias` is the method `Alias`, whose entries have headers here.
pub record Reader (R : Type 0) : Type 0 where
  pub runtime : Runtime
  pub alias : Response R → Text → DataItem
  pub match_set : Text → Option Text
  pub match_decimal : Text → Option (Option (ℤ × ℤ))
  pub unmarshal_properties : Text → Option (List (Option JsonProperty))

abbrev pub read_item : {A : Type 0} → Result ItemError A → Result ClientError A
read_item (ok a) = ok a
read_item (err e) = err (ClientError.item e)

-- A response other than a success is an error.
abbrev pub success : {R : Type 0} → Response R → Result ClientError (Response R)
unfolding response_is_success
success r = if response_is_success r then ok r else err (ClientError.refused r.status.message)

abbrev to_lower : Text → Text
to_lower [] = []
to_lower (c ∷ s) = (if leb 65 c && leb c 90 then c + 32 else c) ∷ to_lower s

-- `GetDBTypeByString`, with its error dropped: any other text stands for nodes, the type 0.
unfoldable pub get_db_type_by_string : Text → DbType
unfolding text_eq
get_db_type_by_string s =
    if text_eq (to_lower s) (bytes "edge") then DbType.db_edge else DbType.db_node

unfoldable pub same_db_type : DbType → DbType → Bool
same_db_type DbType.db_node DbType.db_node = true
same_db_type DbType.db_edge DbType.db_edge = true
same_db_type DbType.db_global DbType.db_global = true
same_db_type _ _ = false

-- One round of `SetStatsByGraphCount`; the total is a uint64.
unfoldable pub add_count : GraphCount → ListedSchema → ListedSchema
unfolding get_db_type_by_string same_db_type text_eq
add_count g s =
    let t = get_db_type_by_string g.type in
    if text_eq g.schema s.name && same_db_type t s.db_type
    then record s {
      stats =
          s.stats
          ++ (record {
            db_type = t;
            schema = g.schema;
            from_schema = g.from_schema;
            to_schema = g.to_schema;
            count = g.count;
          }
              ∷ []);
      total = (s.total + g.count) % 2 ^ 64;
    }
    else s

unfoldable pub set_stats_by_graph_count : List GraphCount → ListedSchema → ListedSchema
unfolding add_count
set_stats_by_graph_count [] s = s
set_stats_by_graph_count (g ∷ gs) s = set_stats_by_graph_count gs (add_count g s)

abbrev some_schemas : List ListedSchema → Result ClientError (List ListedSchema)
some_schemas [] = err ClientError.no_data
some_schemas (s ∷ ss) = ok (s ∷ ss)

-- Without counts the schemas are returned as they are, also where there are none.
unfoldable pub with_counts :
    List GraphCount → List ListedSchema → Result ClientError (List ListedSchema)
unfolding set_stats_by_graph_count
with_counts [] schemas = ok schemas
with_counts (g ∷ gs) schemas = some_schemas (map (set_stats_by_graph_count (g ∷ gs)) schemas)

-- The graph sets come with the error of their last number.
abbrev whole : List GraphSet × Bool → Result ClientError (List GraphSet)
whole (graphs, failed) = if failed then err ClientError.no_data else ok graphs

unfoldable pub find_schema : Text → DbType → List ListedSchema → Option ListedSchema
unfolding same_db_type
find_schema name db_type [] = none
find_schema name db_type (s ∷ ss) =
    if text_eq name s.name && same_db_type s.db_type db_type
    then some s
    else find_schema name db_type ss

unfoldable pub find_property : Text → List ListedProperty → Option ListedProperty
find_property name [] = none
find_property name (p ∷ ps) = if text_eq p.name name then some p else find_property name ps

unfoldable pub find_graph : Text → List GraphSet → Option GraphSet
find_graph name [] = none
find_graph name (g ∷ gs) = if text_eq g.name name then some g else find_graph name gs

unfoldable pub schemas_of : DbType → List ListedSchema → List ListedSchema
unfolding same_db_type
schemas_of t [] = []
schemas_of t (s ∷ ss) = if same_db_type s.db_type t then s ∷ schemas_of t ss else schemas_of t ss

module _ {R : Type 0} (reader : Reader R) where
  abbrev schemas_under : Text → Response R → Result ClientError (List ListedSchema)
  unfolding as_schemas
  schemas_under name r = read_item (
      as_schemas reader.match_set reader.match_decimal reader.unmarshal_properties
        (reader.alias r name))

  -- `ShowSchema`, after the response.
  unfoldable pub read_schemas : Response R → Result ClientError (List ListedSchema)
  unfolding as_schemas as_graph_count with_counts
  read_schemas r = do
    nodes ← schemas_under (bytes "_nodeSchema") r
    edges ← schemas_under (bytes "_edgeSchema") r
    counts ← read_item (as_graph_count (reader.alias r (bytes "_graphCount")))
    with_counts counts (nodes ++ edges)

  -- `ShowGraph`
  unfoldable pub read_graphs : Response R → Result ClientError (List GraphSet)
  unfolding as_graph_sets
  read_graphs r = do
    found ← read_item (as_graph_sets reader.runtime (reader.alias r (bytes "_graph")))
    whole found

  -- `ShowIndex` and `ShowFullText`
  unfoldable pub read_indexes : Response R → Result ClientError (List Index)
  unfolding as_indexes
  read_indexes r = do
    nodes ← read_item (as_indexes (reader.alias r (bytes "_nodeIndex")))
    edges ← read_item (as_indexes (reader.alias r (bytes "_edgeIndex")))
    ok (nodes ++ edges)

  unfoldable pub read_full_texts : Response R → Result ClientError (List Index)
  unfolding as_full_texts
  read_full_texts r = do
    nodes ← read_item (as_full_texts (reader.alias r (bytes "_nodeFulltext")))
    edges ← read_item (as_full_texts (reader.alias r (bytes "_edgeFulltext")))
    ok (nodes ++ edges)
