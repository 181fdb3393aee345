-- ===== src/Tests/Calls.antt =====
-- Statements of the client, at concrete inputs.
use ultipa_go_driver.Prelude.{◌≡◌, refl, false, [], none, some, bytes, ok}
use ultipa_go_driver.Types.{PropertyType}
use ultipa_go_driver.Items.Tables.{DbType}
use ultipa_go_driver.Items.Listings.{ListedProperty}
use ultipa_go_driver.Client.Statements.{drop_property_statement}
use ultipa_go_driver.Client.Targets.{read_drop, read_drop-drop_property_statement}

abbrev age : ListedProperty
age = record {
  name = bytes "age";
  typed = record { type = PropertyType.int32; sub_types = []; decimal_extra = none };
  description = [];
  schema = bytes "user";
  lte = false;
  read = false;
  write = false;
  encrypt = [];
}

drop_age :
    drop_property_statement DbType.db_node age ≡ ok (bytes "drop().node_property(@`user`.`age`)")
unfolding drop_property_statement
drop_age = refl

read_drop-drop_property_statement_example :
    read_drop (bytes "drop().node_property(@`user`.`age`)")
    ≡ some (DbType.db_node, bytes "user", bytes "age")
read_drop-drop_property_statement_example =
    read_drop-drop_property_statement DbType.db_node age
      (bytes "drop().node_property(@`user`.`age`)") drop_age
