-- ===== src/Serial/Lists.antt =====
-- Lists through sdk/utils/serilizer.go.
use ultipa_go_driver.Prelude.{
  ◌≡◌, ◌≢◌, refl, ap, ◌∙◌, Bool, true, false, List, [], ◌∷◌, Option, none, some, Text, Result, ok,
  err, traverse, All, Bool-cases, inl, inr,
}
use ultipa_go_driver.Types.{PropertyType, Value, to_items, of_items-to_items}
use ultipa_go_driver.Runtime.{Runtime, Location}
use ultipa_go_driver.Serial.Null.{is_null, get_null_bytes, bytes_equal_refl, bytes_equal→eq}
use ultipa_go_driver.Serial.Encode.{convert_interface_to_bytes_safe}
use ultipa_go_driver.Serial.Decode.{convert_bytes_to_interface}
use ultipa_go_driver.Serial.Encode
use ultipa_go_driver.Serial.Decode
use ultipa_go_driver.Serial.RoundTrip.{Storable, sent, encode-Storable, decode-Storable}
use ultipa_go_driver.Serial.{SerialError}

-- What protobuf guarantees of ListData.
pub record ListLaws (rt : Runtime) : Type 0 where
  pub unmarshal_marshal :
      (empty : Bool) (values : List Text)
      → rt.unmarshal_list (rt.marshal_list empty values) ≡ some (empty, values)

-- An element that its type can carry: a storable value that is not sent as the null pattern, or
-- nil where the type has such a pattern.
pub data Element (rt : Runtime) : PropertyType → Value → Type 0 where
  stored :
      {t : PropertyType} {v : Value} → Storable t v → is_null rt t (sent v) ≡ false → Element rt t v
  absent :
      {t : PropertyType} (bs : Text)
      → t ≢ PropertyType.map
      → get_null_bytes rt t ≡ some bs
      → Element rt t Value.nil

is_null-pattern :
    (rt : Runtime) (t : PropertyType) (bs : Text)
    → get_null_bytes rt t ≡ some bs
    → is_null rt t bs ≡ true
unfolding is_null
is_null-pattern rt PropertyType.null bs e = refl
is_null-pattern rt _ bs e = rw e (bytes_equal_refl bs)

encode_nil :
    (rt : Runtime) (g : Value → PropertyType → Result SerialError Text) (l : Option Location)
    (t : PropertyType) (bs : Text) (subs : Option (List PropertyType))
    → t ≢ PropertyType.map
    → get_null_bytes rt t ≡ some bs
    → Encode.convert_with rt g l Value.nil t subs ≡ ok bs
unfolding Encode.convert_with
encode_nil rt g l PropertyType.map bs subs h e = absurd (h refl)
encode_nil rt g l _ bs subs h e = rw e

module _ (rt : Runtime) (l : Option Location) where
  Element-round_trip :
      {t : PropertyType} {v : Value}
      → Element rt t v
      → (bs : Text) × (Encode.convert_element rt l v t ≡ ok bs)
        × (Decode.convert_element rt bs t ≡ ok v)
  unfolding Encode.convert_element Decode.convert_element
  Element-round_trip {t} {v} (stored s h) = (
    sent v,
    encode-Storable rt l none (λ _ _. err SerialError.subtypes_nil) s,
    decode-Storable rt l none (λ _ _. err SerialError.panics) s ∙ rw h,
  )
  Element-round_trip {t} (absent bs h e) = (
    bs,
    encode_nil rt (λ _ _. err SerialError.subtypes_nil) l t bs none h e,
    unfold Decode.convert_with in rw (is_null-pattern rt t bs e),
  )

  elements_round_trip :
      (t : PropertyType) (vs : List Value)
      → All (Element rt t) vs
      → (bss : List Text) × (traverse (λ x. Encode.convert_element rt l x t) vs ≡ ok bss)
        × (traverse (λ bs. Decode.convert_element rt bs t) bss ≡ ok vs)
  elements_round_trip t [] h = ([], refl, refl)
  elements_round_trip t (v ∷ vs) (h, hs) =
      let (b, e, d) = Element-round_trip h in
      let (bss, es, ds) = elements_round_trip t vs hs in (b ∷ bss, rw (e, es), rw (d, ds))

  list_not_null :
      ListLaws rt
      → (values : List Text) → is_null rt PropertyType.list (rt.marshal_list false values) ≡ false
  list_not_null laws values =
      elim (Bool-cases (is_null rt PropertyType.list (rt.marshal_list false values))) [
        | inl null ↦ cc (
          ap rt.unmarshal_list (
              bytes_equal→eq (rt.marshal_list false values) (rt.marshal_list true [])
                (unfold is_null get_null_bytes in null)),
          laws.unmarshal_marshal false values,
          laws.unmarshal_marshal true [],
        )
        | inr e ↦ e
      ]

  -- A list whose elements their type can carry, nil among them where the type has a null pattern,
  -- is sent without an error and read back as the same list, if protobuf reads back the messages
  -- that it writes.
  pub convert_list_round_trip :
      ListLaws rt
      → (t : PropertyType) (vs : List Value) → All (Element rt t) vs
      → let subs = some (t ∷ []) in
        (bs : Text) × (convert_interface_to_bytes_safe rt l
            (Value.slice (to_items vs))
            PropertyType.list
            subs
          ≡ ok bs)
        × (convert_bytes_to_interface rt bs PropertyType.list subs ≡ ok (Value.slice (to_items vs)))
  unfolding convert_interface_to_bytes_safe convert_bytes_to_interface Encode.convert_with
      Decode.convert_with Encode.serialize_elements Decode.deserialize_elements
  convert_list_round_trip laws t vs h =
      let (bss, e, d) = elements_round_trip t vs h in
      (
        rt.marshal_list false bss,
        rw (of_items-to_items vs, e),
        rw (list_not_null laws bss, laws.unmarshal_marshal false bss, d),
      )
