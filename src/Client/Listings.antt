-- ===== src/Client/Listings.antt =====
-- sdk/api/schema.go, property.go, graph.go, index.go: the calls that ask the server for a listing, and
-- those that create what the listing lacks. `ResponseWithExistCheck` is a pair.
use ultipa_go_driver.Prelude.{
  Bool, true, false, List, [], Option, none, some, Text, bytes, Result, ok, err,
}
use ultipa_go_driver.Config.{RequestConfig}
use ultipa_go_driver.Stream.Response.{Response}
use ultipa_go_driver.Items.Tables.{DbType, Index}
use ultipa_go_driver.Items.Graphs.{GraphSet}
use ultipa_go_driver.Items.Listings.{ListedProperty, ListedSchema}
use ultipa_go_driver.Client.{ClientError, by_type}
use ultipa_go_driver.Client.Session.{Session, Call, ◌>>=◌, from_result, uql}
use ultipa_go_driver.Client.Readers.{
  Reader, success, read_schemas, read_graphs, read_indexes, read_full_texts, find_schema,
  find_property, find_graph, schemas_of,
}
use ultipa_go_driver.Client.Graphs.{create_graph_statement}
use ultipa_go_driver.Client.Schemas.{create_property, create_schema}

module _ {S R : Type 0} (session : Session S R) (reader : Reader R) where
  -- A statement that asks for a listing, and the listing.
  unfoldable pub ask :
      {A : Type 0} → Option RequestConfig → Text → (Response R → Result ClientError A) → Call S A
  unfolding uql
  ask config text read = do
    response ← uql session config text
    fine ← from_result (success response)
    from_result (read fine)

  unfoldable pub show_schema : Option RequestConfig → Call S (List ListedSchema)
  unfolding ask read_schemas
  show_schema config = ask config (bytes "show().schema()") (read_schemas reader)

  -- `ShowNodeSchema` and `ShowEdgeSchema`
  unfoldable pub show_schema_of : DbType → Option RequestConfig → Call S (List ListedSchema)
  unfolding show_schema schemas_of
  show_schema_of db_type config = do
    schemas ← show_schema config
    from_result (ok (schemas_of db_type schemas))

  unfoldable pub get_schema : Text → DbType → Option RequestConfig → Call S (Option ListedSchema)
  unfolding show_schema find_schema
  get_schema name db_type config = do
    kind ← from_result (by_type [] [] db_type)
    schemas ← show_schema config
    from_result (ok (find_schema name db_type schemas))

  abbrev property_in : Text → Option ListedSchema → Option ListedProperty
  unfolding find_property
  property_in name none = none
  property_in name (some s) = find_property name s.properties

  unfoldable pub get_property :
      DbType → Text → Text → Option RequestConfig → Call S (Option ListedProperty)
  unfolding get_schema find_property
  get_property db_type schema name config = do
    s ← get_schema schema db_type config
    from_result (ok (property_in name s))

  abbrev create_missing_schema :
      Option RequestConfig → ListedSchema → Bool → Option ListedSchema → Call S Bool
  unfolding create_schema
  create_missing_schema config s with_properties (some found) = from_result (ok true)
  create_missing_schema config s with_properties none = do
    response ← create_schema session config (some s) with_properties
    from_result (ok false)

  -- `CreateSchemaIfNotExist`: whether it existed; the response of the creation is dropped.
  unfoldable pub create_schema_if_not_exist :
      ListedSchema → Bool → Option RequestConfig → Call S Bool
  unfolding get_schema create_schema
  create_schema_if_not_exist s with_properties config = do
    found ← get_schema s.name s.db_type config
    create_missing_schema config s with_properties found

  abbrev create_missing_property :
      DbType
      → ListedProperty
      → Option RequestConfig
      → Option ListedProperty
      → Call S (Bool × Option (Response R))
  unfolding create_property
  create_missing_property db_type p config (some found) = from_result (ok (true, none))
  create_missing_property db_type p config none = do
    response ← create_property session config db_type (some p)
    from_result (ok (false, response))

  unfoldable pub create_property_if_not_exist :
      DbType → ListedProperty → Option RequestConfig → Call S (Bool × Option (Response R))
  unfolding get_property create_property
  create_property_if_not_exist db_type p config = do
    found ← get_property db_type p.schema p.name config
    create_missing_property db_type p config found

  unfoldable pub show_graph : Option RequestConfig → Call S (List GraphSet)
  unfolding ask read_graphs
  show_graph config = ask config (bytes "show().graph().more()") (read_graphs reader)

  abbrev is_some : {A : Type 0} → Option A → Bool
  is_some none = false
  is_some (some a) = true

  unfoldable pub has_graph : Text → Option RequestConfig → Call S Bool
  unfolding show_graph find_graph
  has_graph name config = do
    graphs ← show_graph config
    from_result (ok (is_some (find_graph name graphs)))

  abbrev or_not_found : {A : Type 0} → Option A → Result ClientError A
  or_not_found none = err ClientError.not_found
  or_not_found (some a) = ok a

  unfoldable pub get_graph : Text → Option RequestConfig → Call S GraphSet
  unfolding show_graph find_graph
  get_graph name config = do
    graphs ← show_graph config
    from_result (or_not_found (find_graph name graphs))

  unfoldable pub create_graph : Option GraphSet → Option RequestConfig → Call S (Response R)
  unfolding create_graph_statement uql
  create_graph g config = do text ← from_result (create_graph_statement g); uql session config text

  -- The graph is created also where the listing failed: the error of `HasGraph` is overwritten.
  abbrev create_missing_graph :
      GraphSet
      → Option RequestConfig
      → Result ClientError Bool × S
      → Result ClientError (Bool × Option (Response R)) × S
  unfolding create_graph
  create_missing_graph g config (ok true, s) = (ok (true, none), s)
  create_missing_graph g config (_, s) =
      (create_graph (some g) config >>= (λ r. from_result (ok (false, some r)))) s

  unfoldable pub create_graph_if_not_exist :
      GraphSet → Option RequestConfig → Call S (Bool × Option (Response R))
  unfolding has_graph create_graph
  create_graph_if_not_exist g config s = create_missing_graph g config (has_graph g.name config s)

  unfoldable pub show_index : Option RequestConfig → Call S (List Index)
  unfolding ask read_indexes
  show_index config = ask config (bytes "show().index()") (read_indexes reader)

  unfoldable pub show_full_text : Option RequestConfig → Call S (List Index)
  unfolding ask read_full_texts
  show_full_text config = ask config (bytes "show().fulltext()") (read_full_texts reader)
