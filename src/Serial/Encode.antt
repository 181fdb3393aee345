-- ===== src/Serial/Encode.antt =====
-- sdk/utils/serilizer.go: `ConvertInterfaceToBytesSafe` and what it calls. A nil slice of bytes is
-- read as the empty one. The request enters by the location that it names.
use ultipa_go_driver.Prelude.{
  ℕ, Bool, true, false, ◌||◌, List, [], ◌∷◌, map, Option, none, some, Text, bytes, text_eq, Result,
  ok, err, ◌>>=◌, traverse, if◌then◌else◌, ◌==◌,
}
use ultipa_go_driver.Prelude.Int.{to_bits}
use ultipa_go_driver.Prelude.Decimal.{format_int, format_uint, parse_int, parse_uint}
use ultipa_go_driver.Types.{PropertyType, Value, of_items}
use ultipa_go_driver.Runtime.{Runtime, Location}
use ultipa_go_driver.Time.Parse.{
  TimeError, new_datetime_from_string, new_timestamp_from_string, get_time_stamp,
}
use ultipa_go_driver.Serial.BigEndian.{put_be}
use ultipa_go_driver.Serial.Null.{get_null_bytes}
use ultipa_go_driver.Serial.{SerialError}

abbrev pub or_fail {ℓ} : {A : Type ℓ} → SerialError → Option A → Result SerialError A
or_fail e none = err e
or_fail e (some a) = ok a

abbrev timed {ℓ} : {A : Type ℓ} → Result TimeError A → Result SerialError A
timed (ok a) = ok a
timed (err e) = err (SerialError.bad_time e)

-- `strings.Trim(s, " ")`.
abbrev trim_left : Text → Text
trim_left [] = []
trim_left (c ∷ s) = if c == b' ' then trim_left s else c ∷ s

abbrev trim_right : Text → Text
trim_right [] = []
trim_right (c ∷ s) = elim (trim_right s) [
  | [] ↦ if c == b' ' then [] else c ∷ []
  | d ∷ r ↦ c ∷ d ∷ r
]

unfoldable pub trim : Text → Text
trim s = trim_right (trim_left s)

-- `strconv.ParseBool`.
unfoldable pub parse_bool : Text → Option Bool
parse_bool s =
    if text_eq s (bytes "1")
      || text_eq s (bytes "t")
      || text_eq s (bytes "T")
      || text_eq s (bytes "TRUE")
      || text_eq s (bytes "true")
      || text_eq s (bytes "True")
    then some true
    else if text_eq s (bytes "0")
        || text_eq s (bytes "f")
        || text_eq s (bytes "F")
        || text_eq s (bytes "FALSE")
        || text_eq s (bytes "false")
        || text_eq s (bytes "False")
    then some false
    else none

unfoldable pub convert_interface_to_bytes : Value → Result SerialError Text
convert_interface_to_bytes (Value.int32 z) = ok (put_be 4 (to_bits 32 z))
convert_interface_to_bytes (Value.int z) = ok (put_be 4 (to_bits 32 z))
convert_interface_to_bytes (Value.str s) = ok s
convert_interface_to_bytes (Value.int64 z) = ok (put_be 8 (to_bits 64 z))
convert_interface_to_bytes (Value.uint32 n) = ok (put_be 4 n)
convert_interface_to_bytes (Value.uint64 n) = ok (put_be 8 n)
convert_interface_to_bytes (Value.float32 f) = ok (put_be 4 f)
convert_interface_to_bytes (Value.float64 f) = ok (put_be 8 f)
convert_interface_to_bytes (Value.byte_slice bs) = ok bs
convert_interface_to_bytes _ = err SerialError.unsupported_value

unfoldable pub do_serialize_bool : Bool → Text
do_serialize_bool b = if b then bytes "1" else bytes "0"

module _ (rt : Runtime) where
  unfoldable pub serialize_decimal : Value → Result SerialError Text
  serialize_decimal (Value.int32 z) = ok (format_int z)
  serialize_decimal (Value.int z) = ok (format_int z)
  serialize_decimal (Value.str s) = ok s
  serialize_decimal (Value.int64 z) = ok (format_int z)
  serialize_decimal (Value.uint32 n) = ok (format_uint n)
  serialize_decimal (Value.uint64 n) = ok (format_uint n)
  serialize_decimal (Value.float32 f) = ok (rt.format_float32 f)
  serialize_decimal (Value.float64 f) = ok (rt.format_float64 f)
  serialize_decimal _ = err SerialError.unsupported_value

  -- sdk/types/point.go: `PointFromStr`.
  unfoldable pub point_from_str : Text → Result SerialError (ℕ × ℕ)
  point_from_str s = do
    (lat_text, long_text) ← or_fail SerialError.bad_point (rt.match_point s)
    lat ← or_fail SerialError.bad_number (rt.parse_float64 lat_text)
    long ← or_fail SerialError.bad_number (rt.parse_float64 long_text)
    ok (lat, long)

  abbrev string_for : Text → PropertyType → Option Location → Result SerialError Value
  string_for s PropertyType.int32 l = do
    z ← or_fail SerialError.bad_number (parse_int 31 s)
    ok (Value.int32 z)
  string_for s PropertyType.int64 l = do
    z ← or_fail SerialError.bad_number (parse_int 63 s)
    ok (Value.int64 z)
  string_for s PropertyType.uint32 l = do
    n ← or_fail SerialError.bad_number (parse_uint 32 s)
    ok (Value.uint32 n)
  string_for s PropertyType.uint64 l = do
    n ← or_fail SerialError.bad_number (parse_uint 64 s)
    ok (Value.uint64 n)
  string_for s PropertyType.float l = do
    f ← or_fail SerialError.bad_number (rt.parse_float32 s)
    ok (Value.float32 f)
  string_for s PropertyType.double l = do
    f ← or_fail SerialError.bad_number (rt.parse_float64 s)
    ok (Value.float64 f)
  string_for s PropertyType.datetime l = do
    u ← timed (new_datetime_from_string rt s)
    ok (Value.uint64 u.packed)
  string_for s PropertyType.timestamp l = do
    u ← timed (new_timestamp_from_string rt s l)
    ok (Value.uint32 (get_time_stamp u))
  string_for s _ l = ok (Value.str s)

  -- The two branches of `StringAsInterface` on a text that is empty once trimmed.
  abbrev empty_for : PropertyType → Option Location → Result SerialError Value
  empty_for PropertyType.datetime l = string_for (bytes "1970-01-01") PropertyType.datetime l
  empty_for PropertyType.string l = string_for [] PropertyType.string l
  empty_for PropertyType.text l = string_for [] PropertyType.text l
  empty_for _ l = ok Value.nil

  unfoldable pub string_as_interface :
      Text → PropertyType → Option Location → Result SerialError Value
  unfolding trim
  string_as_interface source t l =
      let s = trim source in if text_eq s [] then empty_for t l else string_for s t l

  -- What `reflect.Value.Index` runs over; other values have no `Len`.
  abbrev pub elements : Value → Option (List Value)
  elements (Value.slice vs) = some (of_items vs)
  elements (Value.str s) = some (map Value.uint8 s)
  elements (Value.byte_slice s) = some (map Value.uint8 s)
  elements _ = none

  abbrev pub first_sub_type : Option (List PropertyType) → Result SerialError PropertyType
  first_sub_type none = err SerialError.subtypes_nil
  first_sub_type (some []) = err SerialError.subtypes_empty
  first_sub_type (some (t ∷ _)) = ok t

  module _ (element : Value → PropertyType → Result SerialError Text) where
    -- `SerializeListData` and `SerializeSetData`, which differ in the message that they build;
    -- `element` is the call for each element.
    unfoldable pub serialize_elements :
        (Bool → List Text → Text) → Value → Option (List PropertyType) → Result SerialError Text
    serialize_elements marshal v sub_types = do
      t ← first_sub_type sub_types
      vs ← or_fail SerialError.panics (elements v)
      values ← traverse (λ x. element x t) vs
      ok (marshal false values)

    abbrev null_or_empty : Option Text → Text
    null_or_empty none = []
    null_or_empty (some bs) = bs

    abbrev convert_nil : PropertyType → Result SerialError Text
    convert_nil PropertyType.map = err SerialError.unsupported_map
    convert_nil t = ok (null_or_empty (get_null_bytes rt t))

    abbrev convert_point : Value → Result SerialError Text
    convert_point (Value.point lat long) = ok (rt.format_point lat long)
    convert_point (Value.str s) = do (lat, long) ← point_from_str s; ok (rt.format_point lat long)
    convert_point v = convert_interface_to_bytes v

    abbrev convert_datetime : Option Location → Value → Result SerialError Text
    convert_datetime l (Value.date u) = ok (put_be 8 u.packed)
    convert_datetime l (Value.str s) = do
      v ← string_as_interface s PropertyType.datetime l
      convert_interface_to_bytes v
    convert_datetime l v = convert_interface_to_bytes v

    abbrev convert_timestamp : Option Location → Value → Result SerialError Text
    convert_timestamp l (Value.date u) = ok (put_be 4 (get_time_stamp u))
    convert_timestamp l (Value.str s) = do
      v ← string_as_interface s PropertyType.timestamp l
      convert_interface_to_bytes v
    convert_timestamp l v = convert_interface_to_bytes v

    abbrev convert_bool : Value → Result SerialError Text
    convert_bool (Value.boolean b) = ok (do_serialize_bool b)
    convert_bool (Value.str s) = do
      b ← or_fail SerialError.bad_bool (parse_bool s)
      ok (do_serialize_bool b)
    convert_bool _ = err SerialError.bad_bool

    -- The switch on the property type, for a value that is not nil.
    abbrev pub convert_typed :
        Option Location
        → Value
        → PropertyType
        → Option (List PropertyType)
        → Result SerialError Text
    convert_typed l v PropertyType.list sub_types = serialize_elements rt.marshal_list v sub_types
    convert_typed l v PropertyType.point _ = convert_point v
    convert_typed l v PropertyType.decimal _ = serialize_decimal v
    convert_typed l v PropertyType.set sub_types = serialize_elements rt.marshal_set v sub_types
    convert_typed l v PropertyType.map _ = err SerialError.unsupported_map
    convert_typed l v PropertyType.datetime _ = convert_datetime l v
    convert_typed l v PropertyType.timestamp _ = convert_timestamp l v
    convert_typed l v PropertyType.bool _ = convert_bool v
    convert_typed l v _ _ = convert_interface_to_bytes v

    unfoldable pub convert_with :
        Option Location
        → Value
        → PropertyType
        → Option (List PropertyType)
        → Result SerialError Text
    unfolding serialize_elements
    convert_with l Value.nil t sub_types = convert_nil t
    convert_with l v t sub_types = convert_typed l v t sub_types

  -- An element is converted with nil sub-types, so a list in a list is an error before any of its
  -- elements is looked at: two levels are all there are.
  unfoldable pub convert_element : Option Location → Value → PropertyType → Result SerialError Text
  unfolding convert_with
  convert_element l v t = convert_with (λ _ _. err SerialError.subtypes_nil) l v t none

  unfoldable pub convert_interface_to_bytes_safe :
      Option Location → Value → PropertyType → Option (List PropertyType) → Result SerialError Text
  unfolding convert_with convert_element
  convert_interface_to_bytes_safe l v t sub_types = convert_with (convert_element l) l v t sub_types
