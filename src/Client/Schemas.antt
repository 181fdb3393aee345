-- ===== src/Client/Schemas.antt =====
-- sdk/api/property.go and schema.go: the calls that send statements through `Uql`, with the pool that
-- they leave behind. `CreateSchema` writes the name of the schema into its properties, which is seen
-- here in the statements only.
use ultipa_go_driver.Prelude.{
  Bool, true, false, ◌||◌, List, [], ◌∷◌, Option, none, some, Text, Result, ok, err,
}
use ultipa_go_driver.Types.{is_success}
use ultipa_go_driver.Config.{RequestConfig}
use ultipa_go_driver.Stream.Response.{Response}
use ultipa_go_driver.Rows.{Property, is_id_type, is_ignore}
use ultipa_go_driver.Items.Tables.{DbType}
use ultipa_go_driver.Items.Listings.{ListedProperty, ListedSchema}
use ultipa_go_driver.Client.{ClientError}
use ultipa_go_driver.Client.Session.{Session, Call, ◌>>=◌, from_result, uql}
use ultipa_go_driver.Client.Statements.{
  create_property_statement, drop_property_statement, alter_property_statement,
  create_schema_statement,
}

-- The fields that `IsIDType` and `IsIgnore` read.
abbrev row_property : ListedProperty → Property
row_property p = record { name = p.name; type = p.typed.type; sub_types = some p.typed.sub_types }

module _ {S R : Type 0} (session : Session S R) (config : Option RequestConfig) where
  abbrev send : Result ClientError Text → Call S (Response R)
  unfolding uql
  send statement = do text ← from_result statement; uql session config text

  unfoldable pub drop_property : DbType → ListedProperty → Call S (Response R)
  unfolding drop_property_statement uql
  drop_property db_type property = send (drop_property_statement db_type property)

  unfoldable pub alter_property :
      DbType → Option ListedProperty → Option ListedProperty → Call S (Response R)
  unfolding alter_property_statement uql
  alter_property db_type origin new = send (alter_property_statement db_type origin new)

  -- Where there is nothing to send, the response is nil.
  abbrev send_optional : Option Text → Call S (Option (Response R))
  unfolding uql
  send_optional none = from_result (ok none)
  send_optional (some text) = do
    response ← uql session config text
    from_result (ok (some response))

  unfoldable pub create_property : DbType → Option ListedProperty → Call S (Option (Response R))
  unfolding create_property_statement uql
  create_property db_type property = do
    statement ← from_result (create_property_statement db_type property)
    send_optional statement

  -- The loop over the properties: it ends at an error, and at a response that is no success.
  unfoldable pub create_properties :
      DbType → Text → List ListedProperty → Response R → Call S (Response R)
  unfolding create_property is_id_type is_ignore
  create_properties db_type name [] response = from_result (ok response)
  create_properties db_type name (property ∷ rest) response =
      elim (is_id_type (row_property property) || is_ignore (row_property property)) [
        | true ↦ create_properties db_type name rest response
        | false ↦ (do
          answer ← create_property db_type (some (record property { schema = name }))
          created ← from_result (elim answer [ none ↦ err ClientError.panics | some r ↦ ok r ])
          elim (is_success created.status.code) [
            | true ↦ create_properties db_type name rest response
            | false ↦ from_result (ok created)
          ])
      ]

  abbrev properties_of : Bool → ListedSchema → Response R → Call S (Response R)
  unfolding create_properties
  properties_of true s response = create_properties s.db_type s.name s.properties response
  properties_of false s response = from_result (ok response)

  -- `CreateSchema`, which goes on to the properties whatever the status of the first response is.
  unfoldable pub create_schema : Option ListedSchema → Bool → Call S (Response R)
  unfolding create_schema_statement uql create_properties
  create_schema none with_properties = from_result (err ClientError.missing)
  create_schema (some s) with_properties = do
    response ← send (create_schema_statement (some s))
    properties_of with_properties s response
