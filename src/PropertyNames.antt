-- ===== src/PropertyNames.antt =====
-- sdk/structs/property.go: the names of property types. `match_set` and `match_decimal` stand for the
-- two regular expressions of `SetTypeByString`: the first group that is not empty, and the two
-- numbers as they are read, where the second is read without an error.
use ultipa_go_driver.Prelude.{
  ◌≡◌, refl, Bool, true, false, not, List, [], ◌∷◌, ◌++◌, Option, none, some, Text, text_eq, bytes,
  lookup, keep_if, Result, ok, err, ◌==◌, if◌then◌else◌,
}
use ultipa_go_driver.Prelude.Int.{ℤ}
use ultipa_go_driver.Prelude.Decimal.{format_int}
use ultipa_go_driver.Types.{PropertyType, type_eq}

abbrev pub property_map : List (Text × PropertyType)
property_map =
    (bytes "_id", PropertyType.id)
    ∷ (bytes "_uuid", PropertyType.uuid)
    ∷ (bytes "_from", PropertyType.from)
    ∷ (bytes "_to", PropertyType.to)
    ∷ (bytes "_from_uuid", PropertyType.from_uuid)
    ∷ (bytes "_to_uuid", PropertyType.to_uuid)
    ∷ (bytes "_ignore", PropertyType.ignore)
    ∷ (bytes "string", PropertyType.string)
    ∷ (bytes "int32", PropertyType.int32)
    ∷ (bytes "int64", PropertyType.int64)
    ∷ (bytes "uint32", PropertyType.uint32)
    ∷ (bytes "uint64", PropertyType.uint64)
    ∷ (bytes "float", PropertyType.float)
    ∷ (bytes "double", PropertyType.double)
    ∷ (bytes "datetime", PropertyType.datetime)
    ∷ (bytes "timestamp", PropertyType.timestamp)
    ∷ (bytes "text", PropertyType.text)
    ∷ (bytes "blob", PropertyType.blob)
    ∷ (bytes "point", PropertyType.point)
    ∷ (bytes "decimal", PropertyType.decimal)
    ∷ (bytes "NULL_", PropertyType.null)
    ∷ (bytes "bool", PropertyType.bool)
    ∷ []

-- A name that the map lacks has the zero value, UNSET.
abbrev pub or_unset : Option PropertyType → PropertyType
or_unset none = PropertyType.unset
or_unset (some t) = t

unfoldable pub get_property_type_by_string : Text → PropertyType
unfolding lookup
get_property_type_by_string s = or_unset (lookup s property_map)

-- `PropertyReverseMap`, which lacks UNSET, LIST, SET and MAP.
unfoldable pub get_string_by_property_type : PropertyType → Text
get_string_by_property_type PropertyType.id = bytes "_id"
get_string_by_property_type PropertyType.uuid = bytes "_uuid"
get_string_by_property_type PropertyType.from = bytes "_from"
get_string_by_property_type PropertyType.to = bytes "_to"
get_string_by_property_type PropertyType.from_uuid = bytes "_from_uuid"
get_string_by_property_type PropertyType.to_uuid = bytes "_to_uuid"
get_string_by_property_type PropertyType.ignore = bytes "_ignore"
get_string_by_property_type PropertyType.string = bytes "string"
get_string_by_property_type PropertyType.int32 = bytes "int32"
get_string_by_property_type PropertyType.int64 = bytes "int64"
get_string_by_property_type PropertyType.uint32 = bytes "uint32"
get_string_by_property_type PropertyType.uint64 = bytes "uint64"
get_string_by_property_type PropertyType.float = bytes "float"
get_string_by_property_type PropertyType.double = bytes "double"
get_string_by_property_type PropertyType.datetime = bytes "datetime"
get_string_by_property_type PropertyType.timestamp = bytes "timestamp"
get_string_by_property_type PropertyType.text = bytes "text"
get_string_by_property_type PropertyType.blob = bytes "blob"
get_string_by_property_type PropertyType.point = bytes "point"
get_string_by_property_type PropertyType.decimal = bytes "decimal"
get_string_by_property_type PropertyType.null = bytes "NULL_"
get_string_by_property_type PropertyType.bool = bytes "bool"
get_string_by_property_type _ = []

-- The fields of `Property` that the two methods read and write; `none` is the nil DecimalExtra.
pub record Typed : Type 0 where
  pub type : PropertyType
  pub sub_types : List PropertyType
  pub decimal_extra : Option (ℤ × ℤ)

-- `strings.HasSuffix(s, "[]")` with `strings.TrimSuffix(s, "[]")`.
unfoldable pub before_brackets : Text → Option Text
before_brackets [] = none
before_brackets (c ∷ []) = none
before_brackets (c ∷ d ∷ s) =
    let rest = before_brackets (d ∷ s) in
    if text_eq (c ∷ d ∷ s) (bytes "[]")
    then some []
    else elim rest [ none ↦ none | some r ↦ some (c ∷ r) ]

unfoldable pub set_type_by_string :
    (Text → Option Text) → (Text → Option (Option (ℤ × ℤ))) → Text → Typed → Typed
unfolding get_property_type_by_string before_brackets
set_type_by_string match_set match_decimal text p =
    let s = keep_if (λ c. not (c == 32)) text in
    elim (before_brackets s) [
      | some sub ↦ record p {
        type = PropertyType.list;
        sub_types = p.sub_types ++ (get_property_type_by_string sub ∷ []);
      }
      | none ↦ elim (match_set s) [
        | some sub ↦ record p {
          type = PropertyType.set;
          sub_types = p.sub_types ++ (get_property_type_by_string sub ∷ []);
        }
        | none ↦ elim (match_decimal s) [
          | some none ↦ record p { type = PropertyType.decimal }
          | some (some d) ↦ record p { type = PropertyType.decimal; decimal_extra = some d }
          | none ↦ record p { type = get_property_type_by_string s }
        ]
      ]
    ]

pub data TypeNameError : Type 0 where
  list_subtype_missing list_of_decimal set_subtype_missing panics : TypeNameError

abbrev list_name : List PropertyType → Result TypeNameError Text
unfolding get_string_by_property_type type_eq
list_name [] = err list_subtype_missing
list_name (t ∷ ts) =
    if type_eq t PropertyType.decimal
    then err list_of_decimal
    else ok (get_string_by_property_type t ++ bytes "[]")

abbrev set_name : List PropertyType → Result TypeNameError Text
unfolding get_string_by_property_type
set_name [] = err set_subtype_missing
set_name (t ∷ ts) = ok (bytes "set(" ++ (get_string_by_property_type t ++ bytes ")"))

abbrev decimal_name : Option (ℤ × ℤ) → Result TypeNameError Text
decimal_name none = err panics
decimal_name (some (precision, scale)) =
    ok
      (bytes "decimal(" ++ (format_int precision ++ (bytes "," ++ (format_int scale ++ bytes ")"))))

unfoldable pub get_string_type : Typed → Result TypeNameError Text
unfolding get_string_by_property_type list_name set_name
get_string_type p = elim p.type [
  | PropertyType.list ↦ list_name p.sub_types
  | PropertyType.set ↦ set_name p.sub_types
  | PropertyType.decimal ↦ decimal_name p.decimal_extra
  | _ ↦ ok (get_string_by_property_type p.type)
]

-- The types that have no name of their own.
abbrev pub is_nameless : PropertyType → Bool
is_nameless PropertyType.list = true
is_nameless PropertyType.set = true
is_nameless PropertyType.map = true
is_nameless _ = false

-- A property type is found again under its name, but for lists, sets and maps, which have none and
-- are taken for UNSET.
get_property_type_by_string-get_string_by_property_type :
    (t : PropertyType)
    → get_property_type_by_string (get_string_by_property_type t)
      ≡ (if is_nameless t then PropertyType.unset else t)
unfolding get_property_type_by_string get_string_by_property_type lookup text_eq
get_property_type_by_string-get_string_by_property_type PropertyType.unset = refl
get_property_type_by_string-get_string_by_property_type _ = refl

-- The text of a list type whose elements are not decimals is read as a list. The type of its elements,
-- with lists, sets and maps taken for UNSET, comes after the sub-types that the property had before, so
-- it is the first only where there were none.
pub set_type_by_string-get_string_type :
    (match_set : Text → Option Text) (match_decimal : Text → Option (Option (ℤ × ℤ)))
    (t before : PropertyType) (subs : List PropertyType) (extra : Option (ℤ × ℤ))
    → type_eq t PropertyType.decimal ≡ false
    → (s : Text) × (get_string_type
          (record { type = PropertyType.list; sub_types = t ∷ []; decimal_extra = extra })
        ≡ ok s)
      × (set_type_by_string match_set match_decimal s
            (record { type = before; sub_types = subs; decimal_extra = extra })
          ≡ record {
            type = PropertyType.list;
            sub_types = subs ++ ((if is_nameless t then PropertyType.unset else t) ∷ []);
            decimal_extra = extra;
          })
unfolding set_type_by_string get_string_type list_name before_brackets get_property_type_by_string
    get_string_by_property_type lookup text_eq type_eq
set_type_by_string-get_string_type ms md PropertyType.decimal before subs extra h = cc
set_type_by_string-get_string_type ms md t before subs extra h =
    (get_string_by_property_type t ++ bytes "[]", refl, refl)
