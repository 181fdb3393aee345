-- ===== src/Serial/Decode.antt =====
-- sdk/utils/serilizer.go: `ConvertBytesToInterface` and what it calls.
use ultipa_go_driver.Prelude.{
  ℕ, ◌/◌, ◌%◌, ◌^◌, Bool, true, false, ◌&&◌, not, List, [], ◌∷◌, Option, none, some, Text, length,
  take, drop, Result, ok, err, ◌>>=◌, traverse, if◌then◌else◌, ◌==◌,
}
use ultipa_go_driver.Prelude.Int.{ℤ, pos, of_bits}
use ultipa_go_driver.Types.{PropertyType, Value, to_items}
use ultipa_go_driver.Runtime.{Runtime}
use ultipa_go_driver.Time.{new_date_time, new_time_stamp}
use ultipa_go_driver.Serial.BigEndian.{read_be}
use ultipa_go_driver.Serial.Null.{is_null}
use ultipa_go_driver.Serial.Encode.{or_fail, parse_bool, point_from_str}
use ultipa_go_driver.Serial.{SerialError}

unfoldable pub as_int32 : Text → ℤ
as_int32 bs = of_bits 31 (read_be 4 bs)

unfoldable pub as_int64 : Text → ℤ
as_int64 bs = of_bits 63 (read_be 8 bs)

unfoldable pub as_uint32 : Text → ℕ
as_uint32 bs = read_be 4 bs

unfoldable pub as_uint64 : Text → ℕ
as_uint64 bs = read_be 8 bs

-- `math.IsNaN` on the pattern of a float64.
unfoldable pub is_nan : ℕ → Bool
is_nan f = f / 2 ^ 52 % 2 ^ 11 == 2047 && not (f % 2 ^ 52 == 0)

module _ (rt : Runtime) where
  -- `none` is the empty text, which `AsPointString` returns for a coordinate that is no number.
  unfoldable pub as_point_string : Text → Result SerialError (Option Text)
  unfolding is_nan
  as_point_string bs =
      if length bs == 16
      then (let latitude = read_be 8 (take 8 bs) in
          let longitude = read_be 8 (drop 8 bs) in
          if is_nan latitude
          then ok none
          else if is_nan longitude
          then ok none
          else ok (some (rt.format_point latitude longitude)))
      else err SerialError.bad_point_length

  abbrev pub point_of : Option Text → Result SerialError Value
  point_of none = ok Value.nil
  point_of (some s) = do (lat, long) ← point_from_str rt s; ok (Value.point lat long)

  abbrev datetime_of : Text → Value
  datetime_of [] = Value.nil
  datetime_of (b ∷ bs) =
      if as_uint64 (b ∷ bs) == 0
      then Value.uint64 0
      else Value.date (new_date_time rt (as_uint64 (b ∷ bs)))

  abbrev timestamp_of : Text → Value
  timestamp_of [] = Value.nil
  timestamp_of (b ∷ bs) = Value.date (new_time_stamp rt (pos (as_uint32 (b ∷ bs))))

  abbrev decimal_of : Text → Value
  decimal_of [] = Value.nil
  decimal_of (b ∷ bs) = Value.str (b ∷ bs)

  abbrev pub bool_of : Text → Result SerialError Value
  bool_of [] = ok Value.nil
  bool_of (b ∷ bs) = do v ← or_fail SerialError.bad_bool (parse_bool (b ∷ bs)); ok (Value.boolean v)

  -- `subTypes[0]`
  abbrev pub first_sub_type : Option (List PropertyType) → Result SerialError PropertyType
  first_sub_type none = err SerialError.panics
  first_sub_type (some []) = err SerialError.panics
  first_sub_type (some (t ∷ _)) = ok t

  module _ (element : Text → PropertyType → Result SerialError Value) where
    abbrev pub deserialize_values :
        Bool → List Text → Option (List PropertyType) → Result SerialError Value
    deserialize_values true values sub_types = ok (Value.slice (to_items []))
    deserialize_values false values sub_types = do
      vs ← traverse (λ bs. do t ← first_sub_type sub_types; element bs t) values
      ok (Value.slice (to_items vs))

    -- `deserializeList` and `deserializeSet`; `element` is the call for each element.
    unfoldable pub deserialize_elements :
        Option (Bool × List Text) → Option (List PropertyType) → Result SerialError Value
    deserialize_elements none sub_types = err SerialError.bad_message
    deserialize_elements (some (empty, values)) sub_types =
        deserialize_values empty values sub_types

    abbrev pub convert_typed :
        Text → PropertyType → Option (List PropertyType) → Result SerialError Value
    convert_typed bs PropertyType.string _ = ok (Value.str bs)
    convert_typed bs PropertyType.int32 _ = ok (Value.int32 (as_int32 bs))
    convert_typed bs PropertyType.int64 _ = ok (Value.int64 (as_int64 bs))
    convert_typed bs PropertyType.uint32 _ = ok (Value.uint32 (as_uint32 bs))
    convert_typed bs PropertyType.uint64 _ = ok (Value.uint64 (as_uint64 bs))
    convert_typed bs PropertyType.float _ = ok (Value.float32 (read_be 4 bs))
    convert_typed bs PropertyType.double _ = ok (Value.float64 (read_be 8 bs))
    convert_typed bs PropertyType.datetime _ = ok (datetime_of bs)
    convert_typed bs PropertyType.timestamp _ = ok (timestamp_of bs)
    convert_typed bs PropertyType.text _ = ok (Value.str bs)
    convert_typed bs PropertyType.blob _ = ok (Value.byte_slice bs)
    convert_typed bs PropertyType.point _ = do s ← as_point_string bs; point_of s
    convert_typed bs PropertyType.decimal _ = ok (decimal_of bs)
    convert_typed bs PropertyType.list sub_types =
        deserialize_elements (rt.unmarshal_list bs) sub_types
    convert_typed bs PropertyType.set sub_types =
        deserialize_elements (rt.unmarshal_set bs) sub_types
    convert_typed bs PropertyType.bool _ = bool_of bs
    convert_typed bs _ _ = ok Value.nil

    unfoldable pub convert_with :
        Text → PropertyType → Option (List PropertyType) → Result SerialError Value
    unfolding deserialize_elements
    convert_with bs t sub_types =
        if is_null rt t bs then ok Value.nil else convert_typed bs t sub_types

  -- An element is converted with nil sub-types, so a list in a list panics on its first element.
  unfoldable pub convert_element : Text → PropertyType → Result SerialError Value
  unfolding convert_with
  convert_element bs t = convert_with (λ _ _. err SerialError.panics) bs t none

  unfoldable pub convert_bytes_to_interface :
      Text → PropertyType → Option (List PropertyType) → Result SerialError Value
  unfolding convert_with convert_element
  convert_bytes_to_interface bs t sub_types = convert_with convert_element bs t sub_types
