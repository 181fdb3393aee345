-- ===== src/Rows/Texts.antt =====
-- sdk/structs/node.go and edge.go: rows as the texts of a statement, and rows whose values are texts.
-- `marshal` is `json.Marshal` on a map.
use ultipa_go_driver.Prelude.{
  ℕ, zero, suc, List, [], ◌∷◌, Option, none, some, Text, bytes, text_join, Result, ok, err, ◌>>=◌,
  lookup, insert,
}
use ultipa_go_driver.Types.{PropertyType, Value}
use ultipa_go_driver.Runtime.{Runtime, Location}
use ultipa_go_driver.Serial.{SerialError}
use ultipa_go_driver.Serial.Encode.{string_as_interface}
use ultipa_go_driver.Rows.{Property, Schema, Values, Node, Edge, RowError}

abbrev put_text : Text → Text → Values → Values
put_text name [] m = m
put_text name (c ∷ s) m = insert name (Value.str (c ∷ s)) m

abbrev put_number : Text → ℕ → Values → Values
put_number name zero m = m
put_number name (suc n) m = insert name (Value.uint64 (suc n)) m

-- The loop over the values, which go over what is there.
unfoldable pub put_values : Values → Values → Values
unfolding insert
put_values [] m = m
put_values ((name, v) ∷ d) m = put_values d (insert name v m)

abbrev put_all : Option Values → Values → Values
unfolding put_values
put_all none m = m
put_all (some d) m = put_values d m

-- The maps that `nodeToString` and `edgeToString` make.
unfoldable pub node_data : Node → Values
unfolding insert put_values
node_data n = put_all n.values (put_number (bytes "_uuid") n.uuid (put_text (bytes "_id") n.id []))

unfoldable pub edge_data : Edge → Values
unfolding insert put_values
edge_data e = put_all e.values (
    put_text (bytes "_to") e.to (
      put_text (bytes "_from") e.from (
        put_number (bytes "_to_uuid") e.to_uuid
          (put_number (bytes "_from_uuid") e.from_uuid (put_number (bytes "_uuid") e.uuid [])))))

abbrev or_empty : Option Text → Text
or_empty none = []
or_empty (some s) = s

module _ (marshal : Values → Option Text) where
  -- The empty text where the map cannot be marshalled.
  unfoldable pub node_to_string : Node → Text
  unfolding node_data
  node_to_string n = or_empty (marshal (node_data n))

  unfoldable pub edge_to_string : Edge → Text
  unfolding edge_data
  edge_to_string e = or_empty (marshal (edge_data e))

abbrev keep_text : Text → List Text → List Text
keep_text [] rest = rest
keep_text (c ∷ s) rest = (c ∷ s) ∷ rest

unfoldable pub row_texts : {A : Type 0} → (A → Text) → List A → List Text
row_texts show [] = []
row_texts show (a ∷ rest) = keep_text (show a) (row_texts show rest)

-- `NodesToInsertUql` and `EdgesToInsertUql`: a row without a text is left out.
unfoldable pub to_insert_uql : {A : Type 0} → (A → Text) → List A → Text
unfolding row_texts text_join
to_insert_uql show rows = text_join (bytes ", ") (row_texts show rows)

-- `GetDefaultNilString`
unfoldable pub get_default_nil_string : PropertyType → Text
get_default_nil_string PropertyType.int32 = bytes "0"
get_default_nil_string PropertyType.int64 = bytes "0"
get_default_nil_string PropertyType.uint32 = bytes "0"
get_default_nil_string PropertyType.uint64 = bytes "0"
get_default_nil_string PropertyType.float = bytes "0"
get_default_nil_string PropertyType.double = bytes "0"
get_default_nil_string PropertyType.datetime = bytes "1970-01-01"
get_default_nil_string PropertyType.timestamp = bytes "1970-01-01"
get_default_nil_string _ = []

-- The text of a value that may be missing: a nil one is the text of its type. What a value other than
-- a text gives is the argument: for nodes the empty text, which is what `fmt.Sprint(str)` prints, for
-- edges the panic of the assertion.
unfoldable pub text_of : Result RowError Text → PropertyType → Option Value → Result RowError Text
unfolding get_default_nil_string
text_of other t none = ok (get_default_nil_string t)
text_of other t (some Value.nil) = ok (get_default_nil_string t)
text_of other t (some (Value.str s)) = ok s
text_of other t (some _) = other

-- A value that is no error is set.
abbrev pub set_if : Text → Result SerialError Value → Values → Values
set_if name (ok v) d = insert name v d
set_if name (err e) d = d

module _ (rt : Runtime) (l : Option Location) (other : Result RowError Text) where
  -- The loop over the properties of one row.
  unfoldable pub convert_values : List Property → Values → Result RowError Values
  unfolding text_of string_as_interface insert lookup
  convert_values [] d = ok d
  convert_values (p ∷ ps) d = do
    s ← text_of other p.type (lookup p.name d)
    convert_values ps (set_if p.name (string_as_interface rt s p.type l) d)

  -- Nil values panic where the schema has a property.
  abbrev convert_row_values : List Property → Option Values → Result RowError (Option Values)
  unfolding convert_values
  convert_row_values [] d = ok d
  convert_row_values (p ∷ ps) none = err RowError.panics
  convert_row_values (p ∷ ps) (some d) = do c ← convert_values (p ∷ ps) d; ok (some c)

-- `ConvertStringNodes`, with the nodes that it leaves.
unfoldable pub convert_string_nodes :
    Runtime → Option Location → Schema → List Node → Result RowError (List Node)
unfolding convert_values
convert_string_nodes rt l s [] = ok []
convert_string_nodes rt l s (n ∷ rest) = do
  d ← convert_row_values rt l (ok []) s.properties n.values
  others ← convert_string_nodes rt l s rest
  ok (record n { values = d } ∷ others)

-- `ConvertStringEdges`
unfoldable pub convert_string_edges :
    Runtime → Option Location → Schema → List Edge → Result RowError (List Edge)
unfolding convert_values
convert_string_edges rt l s [] = ok []
convert_string_edges rt l s (e ∷ rest) = do
  d ← convert_row_values rt l (err RowError.panics) s.properties e.values
  others ← convert_string_edges rt l s rest
  ok (record e { values = d } ∷ others)
