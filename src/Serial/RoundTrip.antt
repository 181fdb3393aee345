-- ===== src/Serial/RoundTrip.antt =====
-- What the two directions of sdk/utils/serilizer.go promise one another.
use ultipa_go_driver.Prelude.{
  ℕ, ◌^◌, ◌<◌, ◌≡◌, refl, ap, ◌∙◌, Bool, true, false, List, [], ◌∷◌, Option, Text, bytes, Result,
  ok, if◌then◌else◌, Bool-cases, inl, inr, text_eq,
}
use ultipa_go_driver.Prelude.Int.{
  ℤ, Fits, to_bits, of_bits, of_bits-to_bits_32, of_bits-to_bits_64, to_bits-lt_32, to_bits-lt_64,
}
use ultipa_go_driver.Types.{PropertyType, Value}
use ultipa_go_driver.Runtime.{Runtime, Location}
use ultipa_go_driver.Serial.BigEndian.{put_be, read_be-put_be}
use ultipa_go_driver.Serial.Null.{is_null}
use ultipa_go_driver.Serial.Encode.{convert_interface_to_bytes_safe}
use ultipa_go_driver.Serial.Decode.{convert_bytes_to_interface}
use ultipa_go_driver.Serial.Encode
use ultipa_go_driver.Serial.Decode
use ultipa_go_driver.Serial.{SerialError}

-- A value that comes back as it was: for eleven of the property types one of the Go type that they are
-- read as, with its number in range. The empty text of a DECIMAL comes back as nil, a POINT is written
-- as a text and read as two floats, times are read back from packed numbers, and lists are treated in
-- Serial.Lists.
pub data Storable : PropertyType → Value → Type 0 where
  int32 : (z : ℤ) → Fits 31 z → Storable PropertyType.int32 (Value.int32 z)
  int64 : (z : ℤ) → Fits 63 z → Storable PropertyType.int64 (Value.int64 z)
  uint32 : (n : ℕ) → n < 2 ^ 32 → Storable PropertyType.uint32 (Value.uint32 n)
  uint64 : (n : ℕ) → n < 2 ^ 64 → Storable PropertyType.uint64 (Value.uint64 n)
  float : (f : ℕ) → f < 2 ^ 32 → Storable PropertyType.float (Value.float32 f)
  double : (f : ℕ) → f < 2 ^ 64 → Storable PropertyType.double (Value.float64 f)
  string : (s : Text) → Storable PropertyType.string (Value.str s)
  text : (s : Text) → Storable PropertyType.text (Value.str s)
  blob : (s : Text) → Storable PropertyType.blob (Value.byte_slice s)
  decimal : (b : ℕ) (s : Text) → Storable PropertyType.decimal (Value.str (b ∷ s))
  bool : (b : Bool) → Storable PropertyType.bool (Value.boolean b)

-- The bytes that a storable value is sent as.
unfoldable pub sent : Value → Text
sent (Value.int32 z) = put_be 4 (to_bits 32 z)
sent (Value.int64 z) = put_be 8 (to_bits 64 z)
sent (Value.uint32 n) = put_be 4 n
sent (Value.uint64 n) = put_be 8 n
sent (Value.float32 f) = put_be 4 f
sent (Value.float64 f) = put_be 8 f
sent (Value.str s) = s
sent (Value.byte_slice s) = s
sent (Value.boolean b) = if b then bytes "1" else bytes "0"
sent _ = []

module _ (rt : Runtime) (l : Option Location) (subs : Option (List PropertyType)) where
  -- For any treatment of the elements of a list.
  pub encode-Storable :
      {t : PropertyType} {v : Value} (element : Value → PropertyType → Result SerialError Text)
      → Storable t v
      → Encode.convert_with rt element l v t subs ≡ ok (sent v)
  unfolding sent Encode.convert_with Encode.convert_interface_to_bytes Encode.serialize_decimal
      Encode.do_serialize_bool
  encode-Storable g (int32 z h) = refl
  encode-Storable g (int64 z h) = refl
  encode-Storable g (uint32 n h) = refl
  encode-Storable g (uint64 n h) = refl
  encode-Storable g (float f h) = refl
  encode-Storable g (double f h) = refl
  encode-Storable g (string s) = refl
  encode-Storable g (text s) = refl
  encode-Storable g (blob s) = refl
  encode-Storable g (decimal b s) = refl
  encode-Storable g (bool b) = refl

  -- What the bytes of a storable value are read as, once they are known to be no null pattern.
  decode_typed-Storable :
      {t : PropertyType} {v : Value} (element : Text → PropertyType → Result SerialError Value)
      → Storable t v
      → Decode.convert_typed rt element (sent v) t subs ≡ ok v
  unfolding sent Decode.as_int32 Decode.as_int64 Decode.as_uint32 Decode.as_uint64 text_eq
  decode_typed-Storable g (int32 z h) =
      ap (λ (n : ℕ). ok (Value.int32 (of_bits 31 n)))
        (read_be-put_be 4 (to_bits 32 z) (to_bits-lt_32 z))
      ∙ ap (λ (i : ℤ). ok (Value.int32 i)) (of_bits-to_bits_32 z h)
  decode_typed-Storable g (int64 z h) =
      ap (λ (n : ℕ). ok (Value.int64 (of_bits 63 n)))
        (read_be-put_be 8 (to_bits 64 z) (to_bits-lt_64 z))
      ∙ ap (λ (i : ℤ). ok (Value.int64 i)) (of_bits-to_bits_64 z h)
  decode_typed-Storable g (uint32 n h) = ap (λ (k : ℕ). ok (Value.uint32 k)) (read_be-put_be 4 n h)
  decode_typed-Storable g (uint64 n h) = ap (λ (k : ℕ). ok (Value.uint64 k)) (read_be-put_be 8 n h)
  decode_typed-Storable g (float f h) = ap (λ (k : ℕ). ok (Value.float32 k)) (read_be-put_be 4 f h)
  decode_typed-Storable g (double f h) = ap (λ (k : ℕ). ok (Value.float64 k)) (read_be-put_be 8 f h)
  decode_typed-Storable g (string s) = refl
  decode_typed-Storable g (text s) = refl
  decode_typed-Storable g (blob s) = refl
  decode_typed-Storable g (decimal b s) = refl
  decode_typed-Storable g (bool true) = unfold Encode.parse_bool in refl
  decode_typed-Storable g (bool false) = unfold Encode.parse_bool in refl

  pub decode-Storable :
      {t : PropertyType} {v : Value} (element : Text → PropertyType → Result SerialError Value)
      → Storable t v
      → Decode.convert_with rt element (sent v) t subs
        ≡ ok (if is_null rt t (sent v) then Value.nil else v)
  unfolding Decode.convert_with
  decode-Storable {t} {v} g h = elim (Bool-cases (is_null rt t (sent v))) [
    | inl null ↦ rw null
    | inr value ↦ rw value (decode_typed-Storable g h)
  ]

  -- A storable value, of one of the types INT32, INT64, UINT32, UINT64, FLOAT, DOUBLE, STRING, TEXT,
  -- BLOB, BOOL and, where it is not empty, DECIMAL, is sent without an error, and what was sent is read
  -- back as the value itself, or as nil where the bytes are the null pattern of the type.
  pub convert_round_trip :
      {t : PropertyType} {v : Value}
      → Storable t v
      → (bs : Text) × (convert_interface_to_bytes_safe rt l v t subs ≡ ok bs)
        × (convert_bytes_to_interface rt bs t subs ≡ ok (if is_null rt t bs then Value.nil else v))
  unfolding convert_interface_to_bytes_safe convert_bytes_to_interface
  convert_round_trip {t} {v} h = (sent v, encode-Storable _ h, decode-Storable _ h)
