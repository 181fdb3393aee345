-- ===== src/Reply/Found.antt =====
-- sdk/utils/merge.reply.go: what `FindAliasDataInReply` finds.
use ultipa_go_driver.Prelude.{◌≡◌, ◌⊎◌, ◌≢◌, List, [], ◌∷◌, Option, none, some, Text, All}
use ultipa_go_driver.Types.{ResultType}
use ultipa_go_driver.Reply.{Entry, Reply}
use ultipa_go_driver.Reply.Lookup.{Item}

abbrev pub Lists : ResultType → List (Text × ResultType) → Type 0
Lists t [] = ⊥
Lists t ((n, u) ∷ rest) = (u ≡ t) ⊎ Lists t rest

-- The first entry of a name.
abbrev pub IsFirst : {P : Type 0} → Text → List (Entry P) → Entry P → Type 0
IsFirst name [] e = ⊥
IsFirst name (x ∷ es) e = ((x.name ≡ name) × (e ≡ x)) ⊎ ((x.name ≢ name) × IsFirst name es e)

abbrev pub IsIn : {P : Type 0} → Text → Option (List (Entry P)) → Entry P → Type 0
IsIn name none e = ⊥
IsIn name (some es) e = IsFirst name es e

-- An item is the entry of a name in the family of a type: nodes, edges, attributes, tables, paths.
abbrev pub IsAt : {R : Type 0} → ResultType → Text → Reply R → Item R → Type 0
IsAt ResultType.node name r (Item.table e) = IsIn name r.nodes e
IsAt ResultType.edge name r (Item.table e) = IsIn name r.edges e
IsAt ResultType.attr name r (Item.table e) = IsIn name r.attrs e
IsAt ResultType.table name r (Item.rows e) = IsIn name r.tables e
IsAt ResultType.path name r (Item.rows e) = IsIn name r.paths e
IsAt _ name r d = ⊥

module _ {R : Type 0} where
  -- No type of the header has an entry of the name in its family.
  abbrev pub Nowhere : List (Text × ResultType) → Text → Reply R → Type 0
  Nowhere header name r = All (λ (n, u). (d : Item R) → ¬ IsAt u name r d) header

  -- The data found is the entry of the name in the family of the type found, which the header lists.
  abbrev pub FoundAt :
      List (Text × ResultType) → Text → Reply R → Option (Item R) × ResultType → Type 0
  FoundAt header name r (found, t) =
      (d : Item R) × (found ≡ some d) × IsAt t name r d × Lists t header
