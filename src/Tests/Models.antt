-- ===== src/Tests/Models.antt =====
-- A graph model and the statement on a user, at concrete inputs.
use ultipa_go_driver.Prelude.{
  ℕ, ◌≡◌, ◌<◌, length, arith, true, false, List, [], ◌∷◌, ◌++◌, none, some, Text, bytes, ok,
  text_eq, text_join,
}
use ultipa_go_driver.Prelude.Int.{pos}
use ultipa_go_driver.Types.{PropertyType, ResultType, ErrorCode, Table}
use ultipa_go_driver.Stream.Response.{Response}
use ultipa_go_driver.Serial.Decode
use ultipa_go_driver.Items.{DataItem, Data}
use ultipa_go_driver.Items.Tables.{DbType}
use ultipa_go_driver.Items.Graphs.{GraphSet}
use ultipa_go_driver.Items.Listings.{ListedProperty, ListedSchema}
use ultipa_go_driver.Client.Session.{Session}
use ultipa_go_driver.Client.Readers.{Reader}
use ultipa_go_driver.Client.Models.{GraphModel}
use ultipa_go_driver.Client.Accounts.{
  NewUser, Printer, newline, to_alter_user_uql, to_alter_user_uql_lem, given_fields,
}
use ultipa_go_driver.Client.{in_quotes}
use ultipa_go_driver.Client.Files.{files_from}
use ultipa_go_driver.Client.Files.Names.{AreFilesFrom, files_from_terminates}
use ultipa_go_driver.Tests.{test_runtime}

-- A server that answers every statement with a success and keeps what was sent.
abbrev answer : Response (Unit {0})
answer = record {
  reply = none;
  status = record { code = ErrorCode.success; message = [] };
  statistic = none;
  explain_plan = none;
  alias_list = [];
}

abbrev log : Session (List Text) (Unit {0})
log = record { send = λ config text sent. (ok answer, sent ++ (text ∷ [])) }

abbrev text_headers : List Text → List (Text × PropertyType)
text_headers [] = []
text_headers (n ∷ ns) = (n, PropertyType.string) ∷ text_headers ns

abbrev graph_table : Table
graph_table = record {
  table_name = bytes "_graph";
  headers = text_headers (
      bytes "id"
      ∷ bytes "name"
      ∷ bytes "status"
      ∷ bytes "description"
      ∷ bytes "shards"
      ∷ bytes "partition_by"
      ∷ []);
  table_rows =
      (bytes "1" ∷ bytes "shop" ∷ bytes "up" ∷ bytes "a shop" ∷ bytes "1,2" ∷ bytes "Crc32" ∷ [])
      ∷ [];
}

abbrev schema_table : Table
schema_table = record {
  table_name = bytes "_nodeSchema";
  headers = [];
  table_rows = (bytes "1" ∷ bytes "user" ∷ [] ∷ bytes "7" ∷ bytes "age" ∷ []) ∷ [];
}

abbrev pub part : Text → DataItem
unfolding text_eq
part name = elim (text_eq name (bytes "_graph")) [
  | true ↦ record { type = ResultType.table; content = Data.table graph_table }
  | false ↦ elim (text_eq name (bytes "_nodeSchema")) [
    | true ↦ record { type = ResultType.table; content = Data.table schema_table }
    | false ↦ record { type = ResultType.unset; content = Data.no_data }
  ]
]

-- The properties of the JSON `age` are one: the age.
abbrev pub shop_reader : Reader (Unit {0})
shop_reader = record {
  runtime = test_runtime;
  alias = λ response. part;
  match_set = λ s. none;
  match_decimal = λ s. none;
  unmarshal_properties = λ s. some (
      some (record {
        name = s;
        type = bytes "int32";
        description = [];
        lte = bytes "false";
        extra = [];
      })
      ∷ []);
}

abbrev shop : GraphSet
shop = record {
  id = bytes "1";
  name = bytes "shop";
  total_nodes = 0;
  total_edges = 0;
  status = bytes "up";
  description = bytes "a shop";
  shards = bytes "1" ∷ bytes "2" ∷ [];
  slot_num = pos 0;
  partition_by = bytes "Crc32";
}

abbrev age : ListedProperty
age = record {
  name = bytes "age";
  typed = record { type = PropertyType.int32; sub_types = []; decimal_extra = none };
  description = [];
  schema = bytes "user";
  lte = false;
  read = false;
  write = false;
  encrypt = [];
}

abbrev pub user : ListedSchema
user = record {
  id = bytes "1";
  name = bytes "user";
  description = bytes "7";
  total = 7;
  db_type = DbType.db_node;
  properties = age ∷ [];
  stats = [];
}

abbrev shop_model : GraphModel
shop_model = record { graph = shop; schemas = user ∷ [] }

abbrev plain : Printer (Unit {0})
plain = record {
  graph_json = λ g. bytes "{}";
  texts_json = λ names. bytes "[]";
  property_json = λ node edge. bytes "{}";
  policy_json = λ p. bytes "{}";
}

-- A user whose password and policies are set, and whose privileges are not.
abbrev ann : NewUser (Unit {0})
ann = record {
  user_name = bytes "ann";
  pass_word = bytes "secret";
  graph_privileges = none;
  system_privileges = none;
  policies = some (bytes "reader" ∷ []);
  property_privileges = (
    record { read = none; write = none; deny = none },
    record { read = none; write = none; deny = none },
  );
}

to_alter_user_uql_lem_example :
    to_alter_user_uql plain ann
    ≡ bytes "alter().user("
      ++ (in_quotes ann.user_name
          ++ (bytes ").set({"
              ++ (newline
                  ++ (text_join (bytes "," ++ newline) (given_fields plain ann)
                      ++ (newline ++ bytes "})")))))
to_alter_user_uql_lem_example = to_alter_user_uql_lem plain ann

-- The result of a job with two files and another entry.
abbrev job_result : List (Text × Text)
job_result =
    (bytes "output_file", bytes "a.csv")
    ∷ (bytes "cost", bytes "3")
    ∷ (bytes "output_file1", bytes "b.csv")
    ∷ []

files_from_terminates_example :
    (files : List Text) × ((fuel : ℕ)
      → length job_result < fuel
      → files_from fuel 0 job_result ≡ some files)
    × AreFilesFrom 0 job_result files
files_from_terminates_example = files_from_terminates job_result (omega arith)
