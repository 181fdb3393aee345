-- ===== src/Insert/Calls.antt =====
-- sdk/api/insert.nodes.go and insert.edges.go: the calls that insert nodes and those that insert edges,
-- each with its own remote call and its own reader of the reply. Those that find the schemas
-- themselves ask the server for a listing first. A nil row panics; the rows here are not nil.
use ultipa_go_driver.Prelude.{false, List, Option, none, some, Text, Result, ok, err, map}
use ultipa_go_driver.Prelude.Int.{ℤ}
use ultipa_go_driver.Types.{ErrorCode}
use ultipa_go_driver.Runtime.{Runtime}
use ultipa_go_driver.Config.{Context}
use ultipa_go_driver.Pool.{Pool}
use ultipa_go_driver.Rows.{Property, Schema, Node, Edge, EntityRow, RowError}
use ultipa_go_driver.Rows.Read.{EntityTable}
use ultipa_go_driver.Rows.Write.{convert_node_row, convert_edge_row}
use ultipa_go_driver.Serial.Zone.{get_location_from_config}
use ultipa_go_driver.Api.{Network, lift}
use ultipa_go_driver.Items.Tables.{DbType}
use ultipa_go_driver.Items.Listings.{ListedProperty, ListedSchema}
use ultipa_go_driver.Client.{ClientError}
use ultipa_go_driver.Client.Session.{pool_session}
use ultipa_go_driver.Client.Readers.{Reader}
use ultipa_go_driver.Client.Listings.{show_schema_of}
use ultipa_go_driver.Insert.{
  InsertType, InsertRequestConfig, InsertRequest, InsertReply, InsertResponse, InsertError,
}
use ultipa_go_driver.Insert.Replies.{new_nodes_insert_response, new_edges_insert_response}
use ultipa_go_driver.Insert.Grouping.{Batch}
use ultipa_go_driver.Insert.Sending.{
  Sender, request_in, insert_batch, insert_batch_by_schema, insert_batch_auto,
}

-- What the calls are made with: the two remote calls, the name of an error code, and the order in
-- which Go ranges over the map of the batches.
pub record Inserter (R : Type 0) : Type 0 where
  pub runtime : Runtime
  pub zone_offset : ℤ
  pub network : Network R
  pub insert_nodes : Text → Context → InsertRequest → Result Text InsertReply
  pub insert_edges : Text → Context → InsertRequest → Result Text InsertReply
  pub code_name : ErrorCode → Text
  pub order : List (Text × Batch) → List (Text × Batch)

pub data AutoError : Type 0 where
  listing : ClientError → AutoError
  inserting : InsertError → AutoError

-- `&InsertRequestConfig{}` for nil.
abbrev pub config_or_new : Option InsertRequestConfig → InsertRequestConfig
config_or_new none = record {
  request_config = none;
  insert_type = InsertType.normal;
  silent = false;
}
config_or_new (some c) = c

-- A listed schema, as the rows are checked against it.
abbrev row_property : ListedProperty → Property
row_property p = record { name = p.name; type = p.typed.type; sub_types = some p.typed.sub_types }

abbrev row_schema : ListedSchema → Schema
row_schema s = record { name = s.name; properties = map row_property s.properties }

module _ {R : Type 0} (i : Inserter R) where
  unfoldable pub nodes_sender : Sender R
  unfolding new_nodes_insert_response
  nodes_sender = record {
    runtime = i.runtime;
    zone_offset = i.zone_offset;
    network = i.network;
    insert = i.insert_nodes;
    respond = new_nodes_insert_response;
  }

  unfoldable pub edges_sender : Sender R
  unfolding new_edges_insert_response
  edges_sender = record {
    runtime = i.runtime;
    zone_offset = i.zone_offset;
    network = i.network;
    insert = i.insert_edges;
    respond = new_edges_insert_response;
  }

  unfoldable pub insert_nodes_batch :
      Pool → EntityTable → InsertRequestConfig → Result InsertError InsertResponse × Pool
  unfolding insert_batch nodes_sender
  insert_nodes_batch p table config = insert_batch nodes_sender p table config

  unfoldable pub insert_edges_batch :
      Pool → EntityTable → InsertRequestConfig → Result InsertError InsertResponse × Pool
  unfolding insert_batch edges_sender
  insert_edges_batch p table config = insert_batch edges_sender p table config

  -- `converted` is what the goroutines of setPropertiesToNodeRow (or ToEdgeRow) return.
  unfoldable pub insert_nodes_batch_by_schema :
      Pool
      → Schema
      → Result RowError (List EntityRow)
      → Option InsertRequestConfig
      → Result InsertError InsertResponse × Pool
  unfolding insert_batch_by_schema nodes_sender
  insert_nodes_batch_by_schema p schema converted config =
      insert_batch_by_schema nodes_sender p schema converted (config_or_new config)

  unfoldable pub insert_edges_batch_by_schema :
      Pool
      → Schema
      → Result RowError (List EntityRow)
      → Option InsertRequestConfig
      → Result InsertError InsertResponse × Pool
  unfolding insert_batch_by_schema edges_sender
  insert_edges_batch_by_schema p schema converted config =
      insert_batch_by_schema edges_sender p schema converted (config_or_new config)

  -- After the listing: its error, or the insertion by its schemas.
  unfoldable pub insert_listed :
      {A : Type 0}
      → Sender R
      → (A → Text)
      → (Schema → A → Result RowError EntityRow)
      → Result ClientError (List ListedSchema) × Pool
      → List A
      → InsertRequestConfig
      → Result AutoError (List (Text × InsertResponse)) × Pool
  unfolding insert_batch_auto
  insert_listed s schema_of convert (err e, p) rows c = (err (AutoError.listing e), p)
  insert_listed s schema_of convert (ok found, p) rows c =
      let (answer, q) =
        insert_batch_auto s i.code_name p (map row_schema found) schema_of convert i.order rows c in
      (lift AutoError.inserting answer, q)

  module _ (reader : Reader R) where
    abbrev pub listed :
        DbType → Pool → InsertRequestConfig → Result ClientError (List ListedSchema) × Pool
    unfolding show_schema_of pool_session
    listed t p config =
        show_schema_of (pool_session i.runtime i.zone_offset i.network) reader t
          (some (request_in config.request_config)) p

    -- `InsertNodesBatchAuto`
    unfoldable pub insert_nodes_batch_auto :
        Pool
        → List Node
        → Option InsertRequestConfig
        → Result AutoError (List (Text × InsertResponse)) × Pool
    unfolding show_schema_of pool_session insert_listed nodes_sender convert_node_row
        get_location_from_config
    insert_nodes_batch_auto p rows config =
        let c = config_or_new config in
        let zone = get_location_from_config i.runtime (some (request_in c.request_config)) in
        insert_listed nodes_sender (λ (n : Node). n.schema)
          (λ s n. convert_node_row i.runtime zone s (some n)) (listed DbType.db_node p c) rows c

    -- `InsertEdgesBatchAuto`
    unfoldable pub insert_edges_batch_auto :
        Pool
        → List Edge
        → Option InsertRequestConfig
        → Result AutoError (List (Text × InsertResponse)) × Pool
    unfolding show_schema_of pool_session insert_listed edges_sender convert_edge_row
        get_location_from_config
    insert_edges_batch_auto p rows config =
        let c = config_or_new config in
        let zone = get_location_from_config i.runtime (some (request_in c.request_config)) in
        insert_listed edges_sender (λ (e : Edge). e.schema)
          (λ s e. convert_edge_row i.runtime zone s (some e)) (listed DbType.db_edge p c) rows c
