-- ===== src/Items/Listings.antt =====
-- sdk/http/dataitem.go: `AsSchemas` and `AsProperties`. What `json.Unmarshal` reads is a parameter, and
-- so are the two regular expressions of `SetTypeByString`.
use ultipa_go_driver.Prelude.{
  ℕ, suc, Bool, false, List, [], ◌∷◌, Option, none, some, Text, bytes, text_eq, Result, ok, err,
  ◌>>=◌, traverse, lookup, insert, if◌then◌else◌,
}
use ultipa_go_driver.Prelude.Int.{ℤ}
use ultipa_go_driver.Types.{PropertyType, Table}
use ultipa_go_driver.PropertyNames.{Typed, set_type_by_string}
use ultipa_go_driver.Serial.Encode.{parse_bool}
use ultipa_go_driver.Items.{DataItem, ItemError}
use ultipa_go_driver.Items.Tables.{DbType, db_type_of, table_named, value_at, over_rows}
use ultipa_go_driver.Items.Graphs.{parse_uint_value}

-- A property of a schema, as JSON has it.
pub record JsonProperty : Type 0 where
  pub name : Text
  pub type : Text
  pub description : Text
  pub lte : Text
  pub extra : Text

-- A property as a listing has it; its types are those that `SetTypeByString` sets.
pub record ListedProperty : Type 0 where
  pub name : Text
  pub typed : Typed
  pub description : Text
  pub schema : Text
  pub lte : Bool
  pub read : Bool
  pub write : Bool
  pub encrypt : Text

pub record SchemaStat : Type 0 where
  pub db_type : DbType
  pub schema : Text
  pub from_schema : Text
  pub to_schema : Text
  pub count : ℕ

pub record ListedSchema : Type 0 where
  pub id : Text
  pub name : Text
  pub description : Text
  pub total : ℕ
  pub db_type : DbType
  pub properties : List ListedProperty
  pub stats : List SchemaStat

-- `UnmarshalDecimalExtra` into a nil pointer: nothing for the empty text, and for any other an error,
-- on which the program ends.
abbrev no_extra : Text → Result ItemError (Unit {0})
no_extra [] = ok tt
no_extra (c ∷ s) = err ItemError.exits

abbrev lte_of : Option Bool → Result ItemError Bool
lte_of none = err ItemError.exits
lte_of (some b) = ok b

abbrev optional_lte : Text → Result ItemError Bool
optional_lte [] = ok false
optional_lte (c ∷ s) = lte_of (parse_bool (c ∷ s))

-- The places of the columns, found by name among the headers; the last header of a name counts.
unfoldable pub column : Text → ℕ → List (Text × PropertyType) → ℕ → ℕ
column name index [] found = found
column name index ((n, t) ∷ rest) found =
    column name (suc index) rest (if text_eq n name then index else found)

abbrev or_exit : {A : Type 0} → Option A → Result ItemError A
or_exit none = err ItemError.exits
or_exit (some a) = ok a

-- `getOrDefault`
unfoldable pub get_or_default : Text → Text → List (Text × Text) → Text
unfolding lookup
get_or_default name default container = elim (lookup name container) [ none ↦ default | some s ↦ s ]

-- The map from the headers to the fields of a row: a missing field panics.
unfoldable pub named_fields :
    List (Text × PropertyType)
    → ℕ
    → List Text
    → List (Text × Text)
    → Result ItemError (List (Text × Text))
unfolding insert
named_fields [] index values m = ok m
named_fields ((n, t) ∷ headers) index values m = do
  v ← value_at values index
  named_fields headers (suc index) values (insert n v m)

abbrev headers_of : Option Table → List (Text × PropertyType)
headers_of none = []
headers_of (some t) = t.headers

-- The property before `SetTypeByString`; its DecimalExtra is nil, since `UnmarshalDecimalExtra` has set
-- nothing.
abbrev untyped : Typed
untyped = record { type = PropertyType.unset; sub_types = []; decimal_extra = none }

module _ (match_set : Text → Option Text) (match_decimal : Text → Option (Option (ℤ × ℤ))) where
  unfoldable pub schema_property : Text → Option JsonProperty → Result ItemError ListedProperty
  unfolding parse_bool set_type_by_string
  schema_property schema none = err ItemError.panics
  schema_property schema (some p) = do
    lte ← optional_lte p.lte
    extra ← no_extra p.extra
    ok (record {
      name = p.name;
      typed = set_type_by_string match_set match_decimal p.type untyped;
      description = p.description;
      schema = schema;
      lte = lte;
      read = false;
      write = false;
      encrypt = [];
    })

  unfoldable pub property_row :
      List (Text × PropertyType) → List Text → Result ItemError ListedProperty
  unfolding set_type_by_string named_fields get_or_default parse_bool
  property_row headers values = do
    m ← named_fields headers 0 values []
    lte ← lte_of (parse_bool (get_or_default (bytes "lte") (bytes "false") m))
    extra ← no_extra (get_or_default (bytes "extra") [] m)
    ok (record {
      name = get_or_default (bytes "name") [] m;
      typed =
          set_type_by_string match_set match_decimal (get_or_default (bytes "type") [] m) untyped;
      description = get_or_default (bytes "description") [] m;
      schema = get_or_default (bytes "schema") (bytes "0") m;
      lte = lte;
      read = text_eq (bytes "1") (get_or_default (bytes "read") (bytes "0") m);
      write = text_eq (bytes "1") (get_or_default (bytes "write") (bytes "0") m);
      encrypt = get_or_default (bytes "encrypt") [] m;
    })

  unfoldable pub as_properties : DataItem → Result ItemError (List ListedProperty)
  unfolding table_named property_row
  as_properties di = do
    t ← table_named (bytes "_nodeProperty" ∷ bytes "_edgeProperty" ∷ []) di
    over_rows (property_row (headers_of t)) t

  -- A `null` among the properties is a nil pointer.
  module _ (unmarshal_properties : Text → Option (List (Option JsonProperty))) where
    -- The number of the total is read from column 3 in both cases, that of the description.
    unfoldable pub schema_row :
        DbType → List (Text × PropertyType) → List Text → Result ItemError ListedSchema
    unfolding column parse_uint_value schema_property
    schema_row db_type headers values = do
      name ← value_at values (column (bytes "name") 0 headers 1)
      description ← value_at values (column (bytes "description") 0 headers 3)
      property_json ← value_at values (column (bytes "properties") 0 headers 4)
      total ← value_at values 3
      id ← value_at values (column (bytes "id") 0 headers 0)
      listed ← or_exit (unmarshal_properties property_json)
      properties ← traverse (schema_property name) listed
      ok (record {
        id = id;
        name = name;
        description = description;
        total = (parse_uint_value total).0;
        db_type = db_type;
        properties = properties;
        stats = [];
      })

    unfoldable pub as_schemas : DataItem → Result ItemError (List ListedSchema)
    unfolding table_named schema_row
    as_schemas di = do
      t ← table_named (bytes "_nodeSchema" ∷ bytes "_edgeSchema" ∷ []) di
      over_rows (schema_row (db_type_of (bytes "_nodeSchema") t) (headers_of t)) t
