-- ===== src/Client/Jobs.antt =====
-- The calls of sdk/api/schema.go, graph.go, index.go and lte.go that send one
-- statement and return the response, or the job that the server started for it; the listings of one
-- kind in index.go and property.go.
use ultipa_go_driver.Prelude.{List, [], Option, Text, bytes, Result, ok, err}
use ultipa_go_driver.Config.{RequestConfig}
use ultipa_go_driver.Stream.Response.{Response}
use ultipa_go_driver.Items.{ItemError}
use ultipa_go_driver.Items.Tables.{DbType, Index, as_indexes, as_full_texts}
use ultipa_go_driver.Items.Graphs.{GraphSet}
use ultipa_go_driver.Items.Listings.{ListedProperty, ListedSchema, as_properties}
use ultipa_go_driver.Client.{ClientError}
use ultipa_go_driver.Client.Session.{Session, Call, ◌>>=◌, from_result, uql}
use ultipa_go_driver.Client.Readers.{Reader, read_item}
use ultipa_go_driver.Client.Started.{JobResponse, get_job_response}
use ultipa_go_driver.Client.Listings.{ask}
use ultipa_go_driver.Client.Statements.{
  show_property_statement, drop_schema_statement, create_index_statement, drop_index_statement,
  create_full_text_statement, drop_full_text_statement, lte_statement,
}
use ultipa_go_driver.Client.Graphs.{
  TruncateParams, drop_graph_statement, compact_statement, alter_graph_statement,
  truncate_statement, alter_schema_statement,
}

-- What `ShowNodeProperty` returns: the error of `AsProperties` is dropped, with it the properties.
abbrev or_no_properties :
    Result ItemError (List ListedProperty) → Result ClientError (List ListedProperty)
or_no_properties (ok ps) = ok ps
or_no_properties (err ItemError.exits) = err (ClientError.item ItemError.exits)
or_no_properties (err ItemError.panics) = err (ClientError.item ItemError.panics)
or_no_properties (err _) = ok []

module _ {S R : Type 0} (session : Session S R) (reader : Reader R) where
  unfoldable pub start_job : Option RequestConfig → Result ClientError Text → Call S JobResponse
  unfolding uql get_job_response
  start_job config statement = do
    text ← from_result statement
    response ← uql session config text
    from_result (get_job_response reader response)

  unfoldable pub drop_schema : Option ListedSchema → Option RequestConfig → Call S JobResponse
  unfolding start_job drop_schema_statement
  drop_schema s config = start_job config (drop_schema_statement s)

  unfoldable pub compact : Text → Option RequestConfig → Call S JobResponse
  unfolding start_job compact_statement
  compact name config = start_job config (ok (compact_statement name))

  -- `CreateIndex`, and `CreateNodeIndex` and `CreateEdgeIndex` below it.
  unfoldable pub create_index : DbType → Text → Text → Option RequestConfig → Call S JobResponse
  unfolding start_job create_index_statement
  create_index db_type source name config =
      start_job config (create_index_statement db_type source name)

  unfoldable pub create_full_text :
      DbType → Text → Text → Text → Option RequestConfig → Call S JobResponse
  unfolding start_job create_full_text_statement
  create_full_text db_type schema property name config =
      start_job config (create_full_text_statement db_type schema property name)

  unfoldable pub lte : DbType → Text → Text → Option RequestConfig → Call S JobResponse
  unfolding start_job lte_statement
  lte db_type schema name config =
      start_job config (lte_statement (bytes "LTE") db_type schema name)

  -- `ShowNodeProperty` and `ShowEdgeProperty`
  unfoldable pub show_node_property : Text → Option RequestConfig → Call S (List ListedProperty)
  unfolding ask show_property_statement as_properties
  show_node_property schema config = do
    text ← from_result (show_property_statement (bytes "node_property") schema)
    ask session reader config text (λ r. or_no_properties (
        as_properties reader.match_set reader.match_decimal
          (reader.alias r (bytes "_nodeProperty"))))

  unfoldable pub show_edge_property : Text → Option RequestConfig → Call S (List ListedProperty)
  unfolding ask show_property_statement as_properties
  show_edge_property schema config = do
    text ← from_result (show_property_statement (bytes "edge_property") schema)
    ask session reader config text (λ r. or_no_properties (
        as_properties reader.match_set reader.match_decimal
          (reader.alias r (bytes "_edgeProperty"))))

module _ {S R : Type 0} (session : Session S R) (reader : Reader R) where
  -- The listing of one kind in index.go.
  unfoldable pub show_node_index : Option RequestConfig → Call S (List Index)
  unfolding ask as_indexes
  show_node_index config =
      ask session reader config (bytes "show().node_index()")
        (λ r. read_item (as_indexes (reader.alias r (bytes "_nodeIndex"))))

  unfoldable pub show_edge_index : Option RequestConfig → Call S (List Index)
  unfolding ask as_indexes
  show_edge_index config =
      ask session reader config (bytes "show().edge_index()")
        (λ r. read_item (as_indexes (reader.alias r (bytes "_edgeIndex"))))

  unfoldable pub show_node_full_text : Option RequestConfig → Call S (List Index)
  unfolding ask as_full_texts
  show_node_full_text config =
      ask session reader config (bytes "show().node_fulltext()")
        (λ r. read_item (as_full_texts (reader.alias r (bytes "_nodeFulltext"))))

  unfoldable pub show_edge_full_text : Option RequestConfig → Call S (List Index)
  unfolding ask as_full_texts
  show_edge_full_text config =
      ask session reader config (bytes "show().edge_fulltext()")
        (λ r. read_item (as_full_texts (reader.alias r (bytes "_edgeFulltext"))))

module _ {S R : Type 0} (session : Session S R) (config : Option RequestConfig) where
  -- A statement whose response is returned as it is, whatever its status.
  unfoldable pub send_statement : Result ClientError Text → Call S (Response R)
  unfolding uql
  send_statement statement = do text ← from_result statement; uql session config text

  unfoldable pub alter_schema : ListedSchema → ListedSchema → Call S (Response R)
  unfolding send_statement alter_schema_statement
  alter_schema original new = send_statement (alter_schema_statement original new)

  unfoldable pub drop_graph : Text → Call S (Response R)
  unfolding send_statement drop_graph_statement
  drop_graph name = send_statement (ok (drop_graph_statement name))

  unfoldable pub alter_graph : Text → Option GraphSet → Call S (Response R)
  unfolding send_statement alter_graph_statement
  alter_graph name g = send_statement (alter_graph_statement name g)

  unfoldable pub truncate : TruncateParams → Call S (Response R)
  unfolding send_statement truncate_statement
  truncate params = send_statement (truncate_statement params)

  unfoldable pub drop_index : DbType → Text → Call S (Response R)
  unfolding send_statement drop_index_statement
  drop_index db_type name = send_statement (drop_index_statement db_type name)

  unfoldable pub drop_full_text : Text → DbType → Call S (Response R)
  unfolding send_statement drop_full_text_statement
  drop_full_text name db_type = send_statement (drop_full_text_statement name db_type)

  unfoldable pub ufe : DbType → Text → Text → Call S (Response R)
  unfolding send_statement lte_statement
  ufe db_type schema name = send_statement (lte_statement (bytes "UFE") db_type schema name)
