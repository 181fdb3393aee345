-- ===== src/Rows/Compare.antt =====
-- sdk/structs/schema.go: `CompareSchemas`, and `GetProperty` of a schema. Go's order on a map is its own;
-- here the properties are compared in the order of a list.
use ultipa_go_driver.Prelude.{
  Bool, true, false, ◌||◌, List, [], ◌∷◌, Option, none, some, Text, text_eq, Result, ok, err, ◌>>=◌,
  insert, lookup,
}
use ultipa_go_driver.Types.{type_eq}
use ultipa_go_driver.Rows.{Property, Schema, is_id_type, is_ignore}

pub data CompareError : Type 0 where
  schema1_required schema2_required : CompareError
  mismatch not_exist : Text → CompareError

-- The map from names to properties: the last property of a name counts.
unfoldable pub property_names : List Property → List (Text × Property) → List (Text × Property)
unfolding insert
property_names [] m = m
property_names (p ∷ ps) m = property_names ps (insert p.name p m)

-- One round of the loop: the property that is to be created, if there is one.
unfoldable pub compare_property :
    Bool → Property → Option Property → Result CompareError (List Property)
unfolding type_eq
compare_property true p none = ok (p ∷ [])
compare_property false p none = err (CompareError.not_exist p.name)
compare_property fit p (some q) = elim (type_eq q.type p.type) [
  | true ↦ ok []
  | false ↦ elim fit [
    | true ↦ err (CompareError.mismatch p.name)
    | false ↦ err (CompareError.not_exist p.name)
  ]
]

abbrev pub add_missing : List Property → List Property → List Property
add_missing [] rest = rest
add_missing (p ∷ ps) rest = p ∷ add_missing ps rest

unfoldable pub compare_properties :
    Bool → List (Text × Property) → List (Text × Property) → Result CompareError (List Property)
unfolding compare_property is_id_type is_ignore lookup
compare_properties fit [] m = ok []
compare_properties fit ((name, p) ∷ rest) m = elim (is_id_type p || is_ignore p) [
  | true ↦ compare_properties fit rest m
  | false ↦ (do
    missing ← compare_property fit p (lookup name m)
    others ← compare_properties fit rest m
    ok (add_missing missing others))
]

abbrev without_second : Bool → Result CompareError (List Property)
without_second true = ok []
without_second false = err schema2_required

-- `CompareSchemas`: the properties of the first schema that the second lacks, where these fit.
unfoldable pub compare_schemas :
    Option Schema → Option Schema → Bool → Result CompareError (List Property)
unfolding property_names compare_properties
compare_schemas none s2 fit = err schema1_required
compare_schemas (some s1) none fit = without_second fit
compare_schemas (some s1) (some s2) fit =
    compare_properties fit (property_names s1.properties []) (property_names s2.properties [])

-- `GetProperty`
unfoldable pub get_property : Text → List Property → Option Property
unfolding text_eq
get_property name [] = none
get_property name (p ∷ ps) = elim (text_eq p.name name) [
  | true ↦ some p
  | false ↦ get_property name ps
]
