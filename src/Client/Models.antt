-- ===== src/Client/Models.antt =====
-- sdk/api/model.go and sdk/models: a graph with its schemas, made on the server where it lacks them.
use ultipa_go_driver.Prelude.{Bool, true, false, List, [], ◌∷◌, Option, none, some, ok}
use ultipa_go_driver.Config.{RequestConfig}
use ultipa_go_driver.Items.Tables.{DbType}
use ultipa_go_driver.Items.Graphs.{GraphSet}
use ultipa_go_driver.Items.Listings.{ListedProperty, ListedSchema}
use ultipa_go_driver.Client.Session.{Session, Call, ◌>>=◌, from_result}
use ultipa_go_driver.Client.Readers.{Reader}
use ultipa_go_driver.Client.Listings.{
  has_graph, create_graph, create_schema_if_not_exist, create_property_if_not_exist,
}

pub record GraphModel : Type 0 where
  pub graph : GraphSet
  pub schemas : List ListedSchema

module _ {S R : Type 0} (session : Session S R) (reader : Reader R) where
  abbrev done : Call S (Unit {0})
  done = from_result (ok tt)

  -- The loop over the properties, whose calls get the nil configuration.
  unfoldable pub init_properties : DbType → List ListedProperty → Call S (Unit {0})
  unfolding create_property_if_not_exist
  init_properties db_type [] = done
  init_properties db_type (p ∷ ps) = do
    response ← create_property_if_not_exist session reader db_type p none
    init_properties db_type ps

  abbrev properties_if : Bool → ListedSchema → Call S (Unit {0})
  unfolding init_properties
  properties_if true s = init_properties s.db_type s.properties
  properties_if false s = done

  -- The loop over the schemas: only those that exist get their properties.
  unfoldable pub init_schemas : Option RequestConfig → List ListedSchema → Call S (Unit {0})
  unfolding create_schema_if_not_exist init_properties
  init_schemas config [] = done
  init_schemas config (s ∷ rest) = do
    exists ← create_schema_if_not_exist session reader s false config
    made ← properties_if exists s
    init_schemas config rest

  abbrev create_unless : Bool → GraphSet → Call S (Unit {0})
  unfolding create_graph
  create_unless true g = done
  create_unless false g = do response ← create_graph session reader (some g) none; done

  unfoldable pub init_model : GraphModel → Option RequestConfig → Call S (Unit {0})
  unfolding has_graph create_graph init_schemas
  init_model model config = do
    exists ← has_graph session reader model.graph.name config
    made ← create_unless exists model.graph
    init_schemas config model.schemas
