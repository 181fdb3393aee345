-- ===== src/Client/Graphs.antt =====
-- sdk/api/graph.go and `AlterSchema` of schema.go: the statements of the calls.
use ultipa_go_driver.Prelude.{
  List, [], ◌∷◌, ◌++◌, Option, none, some, Text, bytes, text_eq, text_join, Result, ok, err, ◌>>=◌,
  ◌==◌, if◌then◌else◌,
}
use ultipa_go_driver.Names.{check_name}
use ultipa_go_driver.Items.Tables.{DbType}
use ultipa_go_driver.Items.Graphs.{GraphSet}
use ultipa_go_driver.Items.Listings.{ListedSchema}
use ultipa_go_driver.Client.{ClientError, quoted_name, given, by_type, in_quotes, set_clause}

abbrev unless_empty : Text → Text → Text
unless_empty [] clause = []
unless_empty (c ∷ s) clause = clause

abbrev shards_clause : List Text → Text
shards_clause [] = []
shards_clause (s ∷ rest) = bytes ".shards([" ++ (text_join (bytes ",") (s ∷ rest) ++ bytes "])")

unfoldable pub create_graph_statement : Option GraphSet → Result ClientError Text
unfolding given text_join
create_graph_statement none = err ClientError.missing
create_graph_statement (some g) = do
  checked ← given (g.name ∷ [])
  ok (
      bytes "create().graph("
      ++ (in_quotes g.name
          ++ (unless_empty g.description (bytes ", " ++ in_quotes g.description)
              ++ (bytes ")"
                  ++ (shards_clause g.shards
                      ++ unless_empty g.partition_by
                          (bytes ".partitionByHash(" ++ (g.partition_by ++ bytes ",_id)")))))))

unfoldable pub drop_graph_statement : Text → Text
drop_graph_statement name = bytes "drop().graph(" ++ (in_quotes name ++ bytes ")")

unfoldable pub compact_statement : Text → Text
compact_statement name = bytes "compact().graph(" ++ (in_quotes name ++ bytes ")")

abbrev either_given : Text → Text → Result ClientError (Unit {0})
either_given [] [] = err ClientError.missing
either_given _ _ = ok tt

abbrev alter_given : Text → GraphSet → Result ClientError Text
unfolding given set_clause
alter_given graph_name g = do
  changed ← either_given g.name g.description
  ok (
      bytes "alter().graph("
      ++ (in_quotes graph_name ++ (bytes ")" ++ set_clause g.name g.description)))

unfoldable pub alter_graph_statement : Text → Option GraphSet → Result ClientError Text
unfolding given set_clause
alter_graph_statement [] g = err ClientError.missing
alter_graph_statement (c ∷ s) none = err ClientError.missing
alter_graph_statement (c ∷ s) (some g) = alter_given (c ∷ s) g

-- `TruncateParams`; a nil DBType is `none`.
pub record TruncateParams : Type 0 where
  pub graph_name : Text
  pub schema_name : Text
  pub db_type : Option DbType

-- What is truncated: an empty schema wants the type of the whole graph, or none.
abbrev truncated : Text → Text → DbType → Result ClientError Text
unfolding text_eq
truncated [] q DbType.db_global = ok []
truncated [] q _ = err ClientError.bad_db_type
truncated (c ∷ s) q db_type = do
  kind ← by_type (bytes ".nodes(") (bytes ".edges(") db_type
  ok (
      kind
      ++ ((if text_eq (c ∷ s) (bytes "*") then in_quotes (bytes "*") else bytes "@" ++ q)
          ++ bytes ")"))

abbrev or_global : Option DbType → DbType
or_global none = DbType.db_global
or_global (some t) = t

unfoldable pub truncate_statement : TruncateParams → Result ClientError Text
unfolding quoted_name text_eq
truncate_statement params = do
  q ← quoted_name params.schema_name
  part ← truncated params.schema_name q (or_global params.db_type)
  ok (bytes "truncate().graph(" ++ (in_quotes params.graph_name ++ (bytes ")" ++ part)))

-- `strings.ReplaceAll(s, "\"", "\\\"")`
unfoldable pub escape_quotes : Text → Text
escape_quotes [] = []
escape_quotes (c ∷ s) = let rest = escape_quotes s in if c == 34 then 92 ∷ 34 ∷ rest else c ∷ rest

abbrev fine_name : Text → Result ClientError (Unit {0})
unfolding check_name
fine_name name = elim (check_name name) [ none ↦ ok tt | some e ↦ err (ClientError.bad_name e) ]

-- `AlterSchema`: the empty name is refused by `CheckName`, so its last branch is not reached.
unfoldable pub alter_schema_statement : ListedSchema → ListedSchema → Result ClientError Text
unfolding quoted_name check_name escape_quotes
alter_schema_statement original s = do
  name ← quoted_name original.name
  checked ← fine_name s.name
  kind ← by_type (bytes "node_schema") (bytes "edge_schema") original.db_type
  ok (
      bytes "alter()."
      ++ (kind
          ++ (bytes "(@"
              ++ (name
                  ++ (bytes ").set({name: "
                      ++ (in_quotes (escape_quotes s.name)
                          ++ (bytes ", description: "
                              ++ (in_quotes s.description ++ bytes "})"))))))))
