-- ===== src/Serial/Recursion.antt =====
-- sdk/utils/serilizer.go: the calls that its two conversions make of themselves, and Go's `int`.
use ultipa_go_driver.Prelude.{
  ◌≡◌, refl, ap, fun_ext, Bool, true, false, List, [], ◌∷◌, Option, none, some, Text, Result, ok,
  err, arith, length,
}
use ultipa_go_driver.Prelude.Int.{ℤ, to_bits, pos, of_bits}
use ultipa_go_driver.Types.{PropertyType, Value}
use ultipa_go_driver.Runtime.{Runtime, Location}
use ultipa_go_driver.Serial.BigEndian.{put_be, read_be-short, length-put_be}
use ultipa_go_driver.Serial.Null.{is_null, get_null_bytes, bytes_equal}
use ultipa_go_driver.Serial.Encode.{convert_interface_to_bytes_safe}
use ultipa_go_driver.Serial.Decode.{convert_bytes_to_interface}
use ultipa_go_driver.Serial.Encode
use ultipa_go_driver.Serial.Decode
use ultipa_go_driver.Serial.{SerialError}

-- With nil sub-types the treatment of elements does not matter to the encoder …
encode_element_free :
    (rt : Runtime) (l : Option Location) (f g : Value → PropertyType → Result SerialError Text)
    (v : Value) (t : PropertyType)
    → Encode.convert_with rt f l v t none ≡ Encode.convert_with rt g l v t none
unfolding Encode.convert_with Encode.serialize_elements
encode_element_free rt l f g Value.nil PropertyType.map = refl
encode_element_free rt l f g Value.nil _ = refl
encode_element_free rt l f g _ PropertyType.list = refl
encode_element_free rt l f g _ _ = refl

-- … and to the decoder.
decode_values_free :
    (rt : Runtime) (f g : Text → PropertyType → Result SerialError Value)
    (message : Option (Bool × List Text))
    → Decode.deserialize_elements rt f message none ≡ Decode.deserialize_elements rt g message none
unfolding Decode.deserialize_elements
decode_values_free rt f g none = refl
decode_values_free rt f g (some (true, values)) = refl
decode_values_free rt f g (some (false, [])) = refl
decode_values_free rt f g (some (false, b ∷ bs)) = refl

decode_element_free :
    (rt : Runtime) (f g : Text → PropertyType → Result SerialError Value) (bs : Text)
    (t : PropertyType)
    → Decode.convert_with rt f bs t none ≡ Decode.convert_with rt g bs t none
unfolding Decode.convert_with
decode_element_free rt f g bs PropertyType.list =
    rw (decode_values_free rt f g (rt.unmarshal_list bs))
decode_element_free rt f g bs PropertyType.set =
    rw (decode_values_free rt f g (rt.unmarshal_set bs))
decode_element_free rt f g bs _ = refl

-- The encoder is the recursive function of the source: an element is converted by the same
-- function, called with nil sub-types.
convert_interface_to_bytes_safe-unfold :
    (rt : Runtime) (l : Option Location) (v : Value) (t : PropertyType)
    (subs : Option (List PropertyType))
    → convert_interface_to_bytes_safe rt l v t subs
      ≡ Encode.convert_with rt (λ x s. convert_interface_to_bytes_safe rt l x s none) l v t subs
unfolding convert_interface_to_bytes_safe Encode.convert_element
convert_interface_to_bytes_safe-unfold rt l v t subs =
    ap (λ (g : Value → PropertyType → Result SerialError Text). Encode.convert_with rt g l v t subs)
      (fun_ext λ x. fun_ext λ s.
        encode_element_free rt l (λ _ _. err SerialError.subtypes_nil) (Encode.convert_element rt l)
          x s)

-- The decoder is the recursive function of the source: an element is converted by the same
-- function, called with nil sub-types.
convert_bytes_to_interface-unfold :
    (rt : Runtime) (bs : Text) (t : PropertyType) (subs : Option (List PropertyType))
    → convert_bytes_to_interface rt bs t subs
      ≡ Decode.convert_with rt (λ x s. convert_bytes_to_interface rt x s none) bs t subs
unfolding convert_bytes_to_interface Decode.convert_element
convert_bytes_to_interface-unfold rt bs t subs =
    ap (λ (g : Text → PropertyType → Result SerialError Value). Decode.convert_with rt g bs t subs)
      (fun_ext λ x.
        fun_ext λ s.
          decode_element_free rt (λ _ _. err SerialError.panics) (Decode.convert_element rt) x s)

-- A Go `int`, whatever its value, is sent for an INT64 property as four bytes without an error, and
-- those are read back as the int64 0.
int_as_int64_lost :
    (rt : Runtime) (l : Option Location) (z : ℤ) (subs : Option (List PropertyType))
    → (bs : Text) × (convert_interface_to_bytes_safe rt l (Value.int z) PropertyType.int64 subs
        ≡ ok bs)
      × (length bs ≡ 4)
      × (convert_bytes_to_interface rt bs PropertyType.int64 subs ≡ ok (Value.int64 (pos 0)))
unfolding convert_interface_to_bytes_safe Encode.convert_with Encode.convert_interface_to_bytes
    convert_bytes_to_interface Decode.convert_with Decode.as_int64 is_null get_null_bytes
    bytes_equal
int_as_int64_lost rt l z subs =
    let n = length-put_be 4 (to_bits 32 z) in
    let zero_read = read_be-short 8 (put_be 4 (to_bits 32 z)) (omega (arith, n)) in
    (put_be 4 (to_bits 32 z), refl, n, rw (n, zero_read) (unfold of_bits in refl))
