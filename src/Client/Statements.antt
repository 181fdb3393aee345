-- ===== src/Client/Statements.antt =====
-- sdk/api/property.go, schema.go, index.go, graph.go: the statements of the calls, or their errors
-- before anything is sent. A quote inside a description or a name is not escaped, as in the source.
use ultipa_go_driver.Prelude.{
  true, false, ◌||◌, List, [], ◌∷◌, ◌++◌, Option, none, some, Text, bytes, text_eq, any_of, Result,
  ok, err, ◌>>=◌, if◌then◌else◌,
}
use ultipa_go_driver.Types.{PropertyType, type_eq}
use ultipa_go_driver.PropertyNames.{TypeNameError, get_string_type}
use ultipa_go_driver.Items.Tables.{DbType}
use ultipa_go_driver.Items.Listings.{ListedProperty, ListedSchema}
use ultipa_go_driver.Client.{ClientError, quoted_name, given, by_type, in_quotes, set_clause}

abbrev type_name : Result TypeNameError Text → Result ClientError Text
type_name (ok s) = ok s
type_name (err e) = err (ClientError.bad_type e)

abbrev has_type : PropertyType → Result ClientError (Unit {0})
unfolding type_eq
has_type t = if type_eq t PropertyType.unset then err ClientError.missing else ok tt

abbrev encrypt_methods : List Text
encrypt_methods = bytes "AES128" ∷ bytes "AES256" ∷ bytes "RSA" ∷ bytes "ECC" ∷ []

unfoldable pub encrypt_clause : Text → Result ClientError Text
unfolding text_eq
encrypt_clause [] = ok []
encrypt_clause (c ∷ s) =
    if any_of (text_eq (c ∷ s)) encrypt_methods
    then ok (bytes ".encrypt(" ++ (in_quotes (c ∷ s) ++ bytes ")"))
    else err ClientError.bad_encrypt

-- `CreateProperty`: nothing is sent for a property of the type IGNORE.
unfoldable pub create_property_statement :
    DbType → Option ListedProperty → Result ClientError (Option Text)
unfolding given type_eq get_string_type quoted_name encrypt_clause
create_property_statement db_type none = err ClientError.missing
create_property_statement db_type (some p) = do
  checked ← given (p.schema ∷ p.name ∷ [])
  typed ← has_type p.typed.type
  kind ← by_type (bytes "node_property") (bytes "edge_property") db_type
  elim (type_eq p.typed.type PropertyType.ignore) [
    | true ↦ ok none
    | false ↦ (do
      shown ← type_name (get_string_type p.typed)
      schema ← quoted_name p.schema
      name ← quoted_name p.name
      encrypt ← encrypt_clause p.encrypt
      ok (
          some (
            bytes "create()."
            ++ (kind
                ++ (bytes "(@"
                    ++ (schema
                        ++ (bytes ","
                            ++ (name
                                ++ (bytes ","
                                    ++ (in_quotes shown
                                        ++ (bytes ","
                                            ++ (in_quotes p.description
                                                ++ (bytes ")" ++ encrypt)))))))))))))
  ]

-- `@schema.property)`
abbrev pub target : Text → Text → Text
target schema name = bytes "(@" ++ (schema ++ (bytes "." ++ (name ++ bytes ")")))

unfoldable pub drop_property_statement : DbType → ListedProperty → Result ClientError Text
unfolding given quoted_name
drop_property_statement db_type p = do
  checked ← given (p.schema ∷ p.name ∷ [])
  schema ← quoted_name p.schema
  name ← quoted_name p.name
  kind ← by_type (bytes "node_property") (bytes "edge_property") db_type
  ok (bytes "drop()." ++ (kind ++ target schema name))

-- One of the two has to be given.
abbrev either_given : Text → Text → Result ClientError (Unit {0})
either_given [] [] = err ClientError.missing
either_given _ _ = ok tt

unfoldable pub alter_property_statement :
    DbType → Option ListedProperty → Option ListedProperty → Result ClientError Text
unfolding given quoted_name set_clause
alter_property_statement db_type (some origin) (some p) = do
  checked ← given (origin.schema ∷ origin.name ∷ [])
  changed ← either_given p.name p.description
  kind ← by_type (bytes "node_property") (bytes "edge_property") db_type
  schema ← quoted_name origin.schema
  name ← quoted_name origin.name
  ok (bytes "alter()." ++ (kind ++ (target schema name ++ set_clause p.name p.description)))
alter_property_statement db_type _ _ = err ClientError.missing

-- `ShowNodeProperty` and `ShowEdgeProperty`: the argument of `show()`.
unfoldable pub show_property_statement : Text → Text → Result ClientError Text
unfolding quoted_name text_eq
show_property_statement kind schema = do
  q ← quoted_name schema
  ok (
      bytes "show()."
      ++ (kind
          ++ (bytes "("
              ++ ((if text_eq q [] || text_eq q (bytes "*") then [] else bytes "@" ++ q)
                  ++ bytes ")"))))

unfoldable pub create_schema_statement : Option ListedSchema → Result ClientError Text
unfolding given quoted_name
create_schema_statement none = err ClientError.missing
create_schema_statement (some s) = do
  checked ← given (s.name ∷ [])
  name ← quoted_name s.name
  kind ← by_type (bytes "node_schema") (bytes "edge_schema") s.db_type
  ok (
      bytes "create()."
      ++ (kind ++ (bytes "(" ++ (name ++ (bytes "," ++ (in_quotes s.description ++ bytes ")"))))))

unfoldable pub drop_schema_statement : Option ListedSchema → Result ClientError Text
unfolding given quoted_name
drop_schema_statement none = err ClientError.missing
drop_schema_statement (some s) = do
  checked ← given (s.name ∷ [])
  name ← quoted_name s.name
  kind ← by_type (bytes "node_schema") (bytes "edge_schema") s.db_type
  ok (bytes "drop()." ++ (kind ++ (bytes "(@" ++ (name ++ bytes ")"))))

unfoldable pub create_index_statement : DbType → Text → Text → Result ClientError Text
unfolding given quoted_name
create_index_statement db_type source name = do
  kind ← by_type (bytes "node_index") (bytes "edge_index") db_type
  checked ← given (name ∷ source ∷ [])
  q ← quoted_name name
  ok (bytes "create()." ++ (kind ++ (bytes "(" ++ (source ++ (bytes ", " ++ (q ++ bytes ")"))))))

unfoldable pub drop_index_statement : DbType → Text → Result ClientError Text
drop_index_statement db_type name = do
  kind ← by_type (bytes "node_index") (bytes "edge_index") db_type
  ok (bytes "drop()." ++ (kind ++ (bytes "(" ++ (in_quotes name ++ bytes ")"))))

unfoldable pub create_full_text_statement : DbType → Text → Text → Text → Result ClientError Text
unfolding given quoted_name
create_full_text_statement db_type schema property name = do
  checked ← given (schema ∷ property ∷ name ∷ [])
  s ← quoted_name schema
  p ← quoted_name property
  kind ← by_type (bytes "node_fulltext") (bytes "edge_fulltext") db_type
  ok (
      bytes "create()."
      ++ (kind
          ++ (bytes "(@"
              ++ (s ++ (bytes "." ++ (p ++ (bytes ", " ++ (in_quotes name ++ bytes ")"))))))))

unfoldable pub drop_full_text_statement : Text → DbType → Result ClientError Text
drop_full_text_statement name db_type = do
  kind ← by_type (bytes "node_fulltext") (bytes "edge_fulltext") db_type
  ok (bytes "drop()." ++ (kind ++ (bytes "(" ++ (in_quotes name ++ bytes ")"))))

abbrev or_star : Text → Text
or_star [] = bytes "*"
or_star (c ∷ s) = c ∷ s

-- `Lte` and `Ufe`, told apart by the name of the function; the empty schema stands for all.
unfoldable pub lte_statement : Text → DbType → Text → Text → Result ClientError Text
unfolding given quoted_name
lte_statement function db_type schema name = do
  checked ← given (name ∷ [])
  s ← quoted_name (or_star schema)
  n ← quoted_name name
  kind ← by_type (bytes "node_property") (bytes "edge_property") db_type
  ok (function ++ (bytes "()." ++ (kind ++ target s n)))
