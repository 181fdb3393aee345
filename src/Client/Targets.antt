-- ===== src/Client/Targets.antt =====
-- What the statement of `DropProperty` names, read back from its text.
use ultipa_go_driver.Prelude.{
  ◌≡◌, ◌≢◌, refl, sym, bind-ok, ok_inj, inl, inr, List, [], ◌∷◌, ◌++◌, Option, none, some, Text,
  bytes, Result, ok, err, All, arith, ◌==◌, if◌then◌else◌,
}
use ultipa_go_driver.Names.{NameError, check_replace_schema_property_name, check_replace_lem}
use ultipa_go_driver.Items.Tables.{DbType}
use ultipa_go_driver.Items.Listings.{ListedProperty}
use ultipa_go_driver.Client.{named, quoted_name, given, by_type}
use ultipa_go_driver.Client.Statements.{drop_property_statement, target}

-- Up to the next backquote, and what follows it.
unfoldable pub to_backquote : Text → Option (Text × Text)
to_backquote [] = none
to_backquote (c ∷ s) =
    let rest = to_backquote s in
    if c == 96
    then some ([], s)
    else elim rest [ none ↦ none | some (name, after) ↦ some (c ∷ name, after) ]

-- A name in a statement: between backquotes, or the star.
unfoldable pub read_name : Text → Option (Text × Text)
unfolding to_backquote
read_name [] = none
read_name (c ∷ s) = if c == 96 then to_backquote s else if c == 42 then some (42 ∷ [], s) else none

-- The rest of a text after a prefix.
unfoldable pub strip : Text → Text → Option Text
strip [] s = some s
strip (p ∷ ps) [] = none
strip (p ∷ ps) (c ∷ s) = let rest = strip ps s in if p == c then rest else none

-- The name of the property, and the parenthesis at the end.
abbrev read_last : Text → Option (Text × Text) → Option (Text × Text)
unfolding strip
read_last schema none = none
read_last schema (some (name, rest)) = elim (strip (bytes ")") rest) [
  | none ↦ none
  | some [] ↦ some (schema, name)
  | some (c ∷ s) ↦ none
]

abbrev read_second : Text → Option Text → Option (Text × Text)
unfolding strip read_name
read_second schema none = none
read_second schema (some rest) = read_last schema (read_name rest)

abbrev read_pair : Option (Text × Text) → Option (Text × Text)
unfolding strip read_name
read_pair none = none
read_pair (some (schema, rest)) = read_second schema (strip (bytes ".") rest)

abbrev drop_node : Text
drop_node = bytes "drop().node_property(@"

abbrev drop_edge : Text
drop_edge = bytes "drop().edge_property(@"

abbrev with_kind : DbType → Option (Text × Text) → Option (DbType × Text × Text)
with_kind t none = none
with_kind t (some (schema, name)) = some (t, schema, name)

-- The statement of `DropProperty`: what kind of property it drops, and its schema and name.
unfoldable pub read_drop : Text → Option (DbType × Text × Text)
unfolding strip read_name
read_drop s = elim (strip drop_node s) [
  | some rest ↦ with_kind DbType.db_node (read_pair (read_name rest))
  | none ↦ elim (strip drop_edge s) [
    | some rest ↦ with_kind DbType.db_edge (read_pair (read_name rest))
    | none ↦ none
  ]
]

to_backquote-quoted :
    (name rest : Text)
    → All (λ c. c ≢ 96) name
    → to_backquote ((name ++ bytes "`") ++ rest) ≡ some (name, rest)
unfolding to_backquote
to_backquote-quoted [] rest h = refl
to_backquote-quoted (c ∷ name) rest (fresh, h) = ground (arith, to_backquote-quoted name rest h)

named-ok : (r : Result NameError Text) (q : Text) → named r ≡ ok q → r ≡ ok q
named-ok (ok s) q h = cc
named-ok (err e) q h = cc

-- A name that is not empty is read back from the form that a statement has of it.
read_name-quoted_name :
    (name q rest : Text)
    → quoted_name name ≡ ok q
    → name ≢ []
    → read_name (q ++ rest) ≡ some (name, rest)
unfolding quoted_name read_name
read_name-quoted_name name q rest h some_name =
    elim (check_replace_lem name q (named-ok (check_replace_schema_property_name name) q h)) [
      | inl (same, plain) ↦ elim plain [
        | inl empty ↦ absurd (some_name empty)
        | inr star ↦ rw (same, star) refl
      ]
      | inr (quoted, fresh, _, _) ↦ rw quoted (to_backquote-quoted name rest fresh)
    ]

given-first :
    (s : Text) (rest : List Text) → given (s ∷ rest) ≡ ok tt → (s ≢ []) × (given rest ≡ ok tt)
unfolding given
given-first [] rest h = cc
given-first (c ∷ s) rest h = (λ e. cc, h)

read_pair-target :
    (schema name qs qn : Text)
    → quoted_name schema ≡ ok qs
    → quoted_name name ≡ ok qn
    → schema ≢ []
    → name ≢ []
    → read_pair (read_name (qs ++ (bytes "." ++ (qn ++ bytes ")")))) ≡ some (schema, name)
unfolding strip read_pair
read_pair-target schema name qs qn hs hn some_schema some_name =
    rw
      (
        read_name-quoted_name schema qs (bytes "." ++ (qn ++ bytes ")")) hs some_schema,
        read_name-quoted_name name qn (bytes ")") hn some_name,
      )
      refl

-- The beginning of the statement is told apart by the kind.
read_drop-target :
    (t : DbType) (kind qs qn : Text) (found : Text × Text)
    → by_type (bytes "node_property") (bytes "edge_property") t ≡ ok kind
    → read_pair (read_name (qs ++ (bytes "." ++ (qn ++ bytes ")")))) ≡ some found
    → read_drop (bytes "drop()." ++ (kind ++ target qs qn)) ≡ some (t, found.0, found.1)
unfolding read_drop strip
read_drop-target DbType.db_node kind qs qn found hk h = rw (sym (ok_inj hk)) (rw h refl)
read_drop-target DbType.db_edge kind qs qn found hk h = rw (sym (ok_inj hk)) (rw h refl)
read_drop-target DbType.db_global kind qs qn found hk h = cc

-- A statement of DropProperty names one property: its kind, its schema and its name are read back
-- from the text.
pub read_drop-drop_property_statement :
    (t : DbType) (p : ListedProperty) (s : Text)
    → drop_property_statement t p ≡ ok s
    → read_drop s ≡ some (t, p.schema, p.name)
unfolding drop_property_statement
read_drop-drop_property_statement t p s h =
    let (_, fine, h1) = bind-ok (given (p.schema ∷ p.name ∷ [])) _ s h in
    let (qs, hs, h2) = bind-ok (quoted_name p.schema) _ s h1 in
    let (qn, hn, h3) = bind-ok (quoted_name p.name) _ s h2 in
    let (kind, hk, h4) =
      bind-ok (by_type (bytes "node_property") (bytes "edge_property") t) _ s h3 in
    let (has_schema, rest) = given-first p.schema (p.name ∷ []) fine in
    let (has_name, _) = given-first p.name [] rest in
    rw (sym (ok_inj h4)) (
      read_drop-target t kind qs qn (p.schema, p.name) hk
        (read_pair-target p.schema p.name qs qn hs hn has_schema has_name))
