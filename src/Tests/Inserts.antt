-- ===== src/Tests/Inserts.antt =====
-- An insertion that asks for the schemas, at a concrete input.
use ultipa_go_driver.Prelude.{
  ◌≡◌, refl, [], ◌∷◌, none, some, bytes, text_eq, ok, any_of, lookup, insert, put_at,
}
use ultipa_go_driver.Insert.Calls.{insert_nodes_batch_auto, insert_listed, nodes_sender, Inserter}
use ultipa_go_driver.Client.Listings.{show_schema_of, show_schema, ask}
use ultipa_go_driver.Client.Readers.{schemas_of, same_db_type, read_schemas, with_counts}
use ultipa_go_driver.Client.Session.{uql, pool_session}
use ultipa_go_driver.Api.{api_query, do_execute_query, get_client, get_conn, call_twice}
use ultipa_go_driver.Pool.{Pool, get_random_conn}
use ultipa_go_driver.Config.{new_context, graph_name}
use ultipa_go_driver.Stream.Response.{
  new_uql_response, read_records, response_is_success, new_response, take_record, keep_reply,
  keep_statistic, keep_plan, keep_status, with_alias_list,
}
use ultipa_go_driver.Stream.{QueryRecord, incoming, eof, empty_status}
use ultipa_go_driver.Stream.Statistics.{parse_statistic, parse_explain_plan}
use ultipa_go_driver.Items.Listings.{as_schemas, schema_row, column, schema_property}
use ultipa_go_driver.Items.Tables.{table_named}
use ultipa_go_driver.Items.Graphs.{parse_uint_value, as_graph_count}
use ultipa_go_driver.Prelude.Decimal.{parse_uint, unsigned, read_digits}
use ultipa_go_driver.Serial.Encode.{
  parse_bool, convert_interface_to_bytes_safe, convert_interface_to_bytes,
}
use ultipa_go_driver.PropertyNames.{set_type_by_string, before_brackets}
use ultipa_go_driver.Insert.Replies.{new_nodes_insert_response, error_items}
use ultipa_go_driver.Insert.Sending.{
  insert_batch_auto, send_batches, send_batch, connect, send_table, batch_table, note_status,
  note_response, map_items,
}
use ultipa_go_driver.Insert.Grouping.{group_rows, group_row, batch_of, find_schema, add_row}
use ultipa_go_driver.Rows.Write.{
  convert_node_row, do_convert_node, property_bytes, row_values, table_schema,
}
use ultipa_go_driver.Rows.Check.{check_node_properties, check_values_and_properties, find_lacking}
use ultipa_go_driver.Rows.{Node, is_written, is_id_type, is_ignore}
use ultipa_go_driver.Types.{ErrorCode, Value, type_eq}
use ultipa_go_driver.Serial.BigEndian.{put_be}
use ultipa_go_driver.Prelude.Int.{pos, to_bits, ◌+ℤ◌}
use ultipa_go_driver.Serial.Zone.{get_location_from_config}
use ultipa_go_driver.Reply.{Reply}
use ultipa_go_driver.Insert.{InsertReply, InsertResponse}
use ultipa_go_driver.Insert.Entries.{has_entry}
use ultipa_go_driver.Insert.Answers.{insert_nodes_batch_auto_lem}
use ultipa_go_driver.Tests.Driver.{test_config}
use ultipa_go_driver.Tests.Models.{shop_reader}
use ultipa_go_driver.Tests.{test_runtime}

abbrev one_host : Pool
one_host = record {
  config = test_config;
  connections = (bytes "h", none) ∷ [];
  random_tick = 0;
  actives = some (bytes "h") ∷ [];
  last_actives_time = 0;
}

abbrev inserted : InsertReply
inserted = record {
  status = some (record { code = ErrorCode.success; message = [] });
  time_cost = pos 1;
  engine_time_cost = pos 1;
  uuids = 7 ∷ [];
  ids = bytes "ann" ∷ [];
  ignore_indexes = [];
  ignore_error_code = [];
}

abbrev no_parts : Reply (Unit {0})
no_parts = record {
  alias = [];
  nodes = some [];
  edges = some [];
  tables = some [];
  paths = some [];
  attrs = some [];
}

abbrev empty_record : QueryRecord (Unit {0})
empty_record = record { reply = no_parts; status = none; statistics = none; explain_plan = none }

abbrev shop_inserter : Inserter (Unit {0})
shop_inserter = record {
  runtime = test_runtime;
  zone_offset = pos 0;
  network = record {
    dial = λ host conf. none;
    call = λ attempt host ctx request. ok (incoming empty_record eof);
  };
  insert_nodes = λ host ctx request. ok inserted;
  insert_edges = λ host ctx request. ok inserted;
  code_name = λ code. bytes "OTHER";
  order = λ batches. batches;
}

abbrev ann : Node
ann = record {
  id = bytes "ann";
  uuid = 7;
  schema = bytes "user";
  values = some ((bytes "age", Value.int32 (pos 30)) ∷ []);
}

abbrev ann_response : InsertResponse
ann_response = record {
  uuids = 7 ∷ [];
  ids = bytes "ann" ∷ [];
  error_items = [];
  statistic = record {
    node_affected = pos 0;
    edge_affected = pos 0;
    total_cost = pos 1;
    engine_cost = pos 1;
  };
  status = record { code = ErrorCode.success; message = [] };
}

ann_inserted :
    (insert_nodes_batch_auto shop_inserter shop_reader one_host (ann ∷ []) none).0
    ≡ ok ((bytes "user", ann_response) ∷ [])
unfolding insert_nodes_batch_auto insert_listed nodes_sender show_schema_of show_schema ask
    schemas_of same_db_type read_schemas with_counts uql pool_session api_query do_execute_query
    get_client get_conn call_twice get_random_conn new_context graph_name new_uql_response
    read_records response_is_success new_response take_record keep_reply keep_statistic keep_plan
    keep_status with_alias_list empty_status parse_statistic parse_explain_plan as_schemas
    schema_row column schema_property table_named parse_uint_value as_graph_count parse_uint
    unsigned read_digits parse_bool convert_interface_to_bytes_safe convert_interface_to_bytes
    set_type_by_string before_brackets new_nodes_insert_response error_items insert_batch_auto
    send_batches send_batch connect send_table batch_table note_status note_response map_items
    group_rows group_row batch_of find_schema add_row convert_node_row do_convert_node
    property_bytes row_values table_schema check_node_properties check_values_and_properties
    find_lacking is_written is_id_type is_ignore type_eq put_be to_bits get_location_from_config
    text_eq lookup insert put_at ◌+ℤ◌
ann_inserted = refl

insert_nodes_batch_auto_lem_example :
    has_entry (bytes "user") ((bytes "user", ann_response) ∷ [])
    ≡ any_of (λ (n : Node). text_eq n.schema (bytes "user")) (ann ∷ [])
insert_nodes_batch_auto_lem_example =
    insert_nodes_batch_auto_lem shop_inserter shop_reader one_host (ann ∷ []) none
      ((bytes "user", ann_response) ∷ []) (bytes "user") (λ p batches. refl) ann_inserted
