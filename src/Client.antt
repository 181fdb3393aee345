-- ===== src/Client.antt =====
-- sdk/api/property.go, schema.go, index.go, graph.go: the calls of the client that write a statement
-- and send it as a query. Here: the errors and the parts of a statement.
pub mod Statements
pub mod Graphs
pub mod Session
pub mod Schemas
pub mod Readers
pub mod Listings
pub mod Models
pub mod Quiet
pub mod Accounts
pub mod People
pub mod Started
pub mod Jobs
pub mod Files
pub mod Downloads
pub mod Tasks
pub mod Algos
pub mod Targets
use ultipa_go_driver.Prelude.{
  List, [], ◌∷◌, ◌++◌, Option, none, some, Text, bytes, text_eq, Result, ok, err, ◌>>=◌,
  if◌then◌else◌,
}
use ultipa_go_driver.Names.{NameError, check_replace_schema_property_name}
use ultipa_go_driver.PropertyNames.{TypeNameError}
use ultipa_go_driver.Api.{ApiError}
use ultipa_go_driver.Items.{ItemError}
use ultipa_go_driver.Items.Tables.{DbType}

pub data ClientError : Type 0 where
  -- A nil argument, or an empty text that is required.
  missing : ClientError
  bad_name : NameError → ClientError
  bad_db_type bad_encrypt : ClientError
  bad_type : TypeNameError → ClientError
  query : ApiError → ClientError
  -- A response that is no success, where the call takes this for an error.
  refused : Text → ClientError
  item : ItemError → ClientError
  not_found no_data : ClientError
  panics : ClientError

abbrev pub named : Result NameError Text → Result ClientError Text
named (ok q) = ok q
named (err e) = err (ClientError.bad_name e)

-- `CheckReplaceSchemaPropertyName`, with its error among those of the calls.
unfoldable pub quoted_name : Text → Result ClientError Text
unfolding check_replace_schema_property_name
quoted_name name = named (check_replace_schema_property_name name)

-- The texts that may not be empty.
unfoldable pub given : List Text → Result ClientError (Unit {0})
given [] = ok tt
given ([] ∷ rest) = err missing
given ((c ∷ s) ∷ rest) = given rest

-- The word for nodes or the one for edges; any other type is an error.
abbrev pub by_type : Text → Text → DbType → Result ClientError Text
by_type nodes edges DbType.db_node = ok nodes
by_type nodes edges DbType.db_edge = ok edges
by_type nodes edges DbType.db_global = err bad_db_type

abbrev pub in_quotes : Text → Text
in_quotes s = 34 ∷ (s ++ (34 ∷ []))

-- `set({…})` of an alteration: an empty description is left out, else an empty name.
unfoldable pub set_clause : Text → Text → Text
set_clause name [] = bytes ".set({name: " ++ (in_quotes name ++ bytes "})")
set_clause [] (c ∷ s) = bytes ".set({description: " ++ (in_quotes (c ∷ s) ++ bytes "})")
set_clause (d ∷ n) (c ∷ s) =
    bytes ".set({name: "
    ++ (in_quotes (d ∷ n) ++ (bytes ", description: " ++ (in_quotes (c ∷ s) ++ bytes "})")))
