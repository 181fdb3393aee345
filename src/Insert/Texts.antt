-- ===== src/Insert/Texts.antt =====
-- sdk/api/insert.nodes.go and insert.edges.go: `InsertNodes` and `InsertEdges`, which write the rows as
-- text into a statement. The name of the schema is written as it is. A nil configuration panics.
use ultipa_go_driver.Prelude.{Bool, true, false, List, ◌++◌, Option, none, some, Text, bytes, err}
use ultipa_go_driver.Stream.Response.{Response}
use ultipa_go_driver.Rows.{Values, Node, Edge}
use ultipa_go_driver.Rows.Texts.{node_to_string, edge_to_string, to_insert_uql}
use ultipa_go_driver.Client.{ClientError}
use ultipa_go_driver.Client.Session.{Session, Call, from_result, uql}
use ultipa_go_driver.Insert.{InsertType, InsertRequestConfig}

unfoldable pub insert_function : InsertType → Text
insert_function InsertType.normal = bytes "insert()"
insert_function InsertType.overwrite = bytes "insert().overwrite()"
insert_function InsertType.upsert = bytes "upsert()"

abbrev unless_silent : Bool → Text → Text
unless_silent true tail = bytes ""
unless_silent false tail = tail

unfoldable pub insert_nodes_statement :
    (Values → Option Text) → Text → List Node → InsertRequestConfig → Text
unfolding insert_function node_to_string to_insert_uql
insert_nodes_statement marshal schema nodes config =
    insert_function config.insert_type
    ++ (bytes ".into(@"
        ++ (schema
            ++ (bytes ").nodes(["
                ++ (to_insert_uql (node_to_string marshal) nodes
                    ++ (bytes "])"
                        ++ unless_silent config.silent (bytes " as nodes return nodes{*}"))))))

unfoldable pub insert_edges_statement :
    (Values → Option Text) → Text → List Edge → InsertRequestConfig → Text
unfolding insert_function edge_to_string to_insert_uql
insert_edges_statement marshal schema edges config =
    insert_function config.insert_type
    ++ (bytes ".into(@"
        ++ (schema
            ++ (bytes ").edges(["
                ++ (to_insert_uql (edge_to_string marshal) edges
                    ++ (bytes "])"
                        ++ unless_silent config.silent (bytes " as edges return edges{*}"))))))

module _ {S R : Type 0} (session : Session S R) (marshal : Values → Option Text) where
  -- `InsertNodes`
  unfoldable pub insert_nodes : Text → List Node → Option InsertRequestConfig → Call S (Response R)
  unfolding insert_nodes_statement uql
  insert_nodes schema nodes none = from_result (err ClientError.panics)
  insert_nodes schema nodes (some config) =
      uql session config.request_config (insert_nodes_statement marshal schema nodes config)

  -- `InsertEdges`
  unfoldable pub insert_edges : Text → List Edge → Option InsertRequestConfig → Call S (Response R)
  unfolding insert_edges_statement uql
  insert_edges schema edges none = from_result (err ClientError.panics)
  insert_edges schema edges (some config) =
      uql session config.request_config (insert_edges_statement marshal schema edges config)
