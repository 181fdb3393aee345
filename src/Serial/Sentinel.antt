-- ===== src/Serial/Sentinel.antt =====
-- sdk/utils/null.go: the one value of each type that its null pattern takes away.
use ultipa_go_driver.Prelude.{
  ℕ, ◌^◌, ◌<◌, ◌≡◌, refl, ◌↔◌, ap, ◌∙◌, true, false, [], ◌∷◌, Option, none, some, Text, sym,
}
use ultipa_go_driver.Prelude.Int.{
  ℤ, pos, Fits, to_bits, of_bits, of_bits-to_bits_32, of_bits-to_bits_64, to_bits-lt_32,
  to_bits-lt_64,
}
use ultipa_go_driver.Types.{PropertyType, Value}
use ultipa_go_driver.Runtime.{Runtime}
use ultipa_go_driver.Serial.BigEndian.{be_value, put_be, read_be, read_be-put_be}
use ultipa_go_driver.Serial.Null.{
  get_null_bytes, all_same, is_null, get_null_bytes, bytes_equal, bytes_equal_refl, bytes_equal→eq,
}
use ultipa_go_driver.Serial.RoundTrip.{
  Storable, int32, int64, uint32, uint64, float, double, string, text, blob, decimal, bool, sent,
}

-- The value that a type cannot carry, because it is sent as the null pattern.
pub sentinel : PropertyType → Option Value
sentinel PropertyType.int32 = some (Value.int32 (pos 0x7fff_ffff))
sentinel PropertyType.int64 = some (Value.int64 (pos 0x7fff_ffff_ffff_ffff))
sentinel PropertyType.uint32 = some (Value.uint32 0xffff_ffff)
sentinel PropertyType.uint64 = some (Value.uint64 0xffff_ffff_ffff_ffff)
sentinel PropertyType.float = some (Value.float32 0xffff_ffff)
sentinel PropertyType.double = some (Value.float64 0xffff_ffff_ffff_ffff)
sentinel PropertyType.string = some (Value.str (0 ∷ []))
sentinel PropertyType.text = some (Value.str (0 ∷ []))
sentinel _ = none

pattern_iff :
    (k n q : ℕ) (p : Text)
    → n < 256 ^ k
    → put_be k q ≡ p
    → read_be k p ≡ q
    → (bytes_equal (some (put_be k n)) (some p) ≡ true) ↔ (n ≡ q)
pattern_iff k n q p h e r = (
  λ b. sym (read_be-put_be k n h) ∙ ap (read_be k) (bytes_equal→eq (put_be k n) p b) ∙ r,
  λ i. rw (i, e) (bytes_equal_refl p),
)

text_iff : (s p : Text) → (bytes_equal (some s) (some p) ≡ true) ↔ (s ≡ p)
text_iff s p = (bytes_equal→eq s p, λ e. rw e (bytes_equal_refl p))

ones_4 :
    (n : ℕ)
    → n < 2 ^ 32
    → (bytes_equal (some (put_be 4 n)) (some (0xff ∷ 0xff ∷ 0xff ∷ 0xff ∷ [])) ≡ true)
      ↔ (n ≡ 0xffff_ffff)
unfolding put_be read_be be_value
ones_4 n h = pattern_iff 4 n 0xffff_ffff _ h refl refl

ones_8 :
    (n : ℕ)
    → n < 2 ^ 64
    → (bytes_equal
          (some (put_be 8 n))
          (some (0xff ∷ 0xff ∷ 0xff ∷ 0xff ∷ 0xff ∷ 0xff ∷ 0xff ∷ 0xff ∷ []))
        ≡ true)
      ↔ (n ≡ 0xffff_ffff_ffff_ffff)
unfolding put_be read_be be_value
ones_8 n h = pattern_iff 8 n 0xffff_ffff_ffff_ffff _ h refl refl

max_int32 :
    (z : ℤ)
    → Fits 31 z
    → (bytes_equal (some (put_be 4 (to_bits 32 z))) (some (0x7f ∷ 0xff ∷ 0xff ∷ 0xff ∷ [])) ≡ true)
      ↔ (z ≡ pos 0x7fff_ffff)
unfolding put_be read_be be_value of_bits to_bits
max_int32 z h =
    let i =
      pattern_iff 4 (to_bits 32 z) 0x7fff_ffff (0x7f ∷ 0xff ∷ 0xff ∷ 0xff ∷ []) (to_bits-lt_32 z)
        refl refl in
    (λ b. sym (of_bits-to_bits_32 z h) ∙ ap (of_bits 31) (i.0 b), λ e. i.1 (ap (to_bits 32) e))

max_int64 :
    (z : ℤ)
    → Fits 63 z
    → (bytes_equal
          (some (put_be 8 (to_bits 64 z)))
          (some (0x7f ∷ 0xff ∷ 0xff ∷ 0xff ∷ 0xff ∷ 0xff ∷ 0xff ∷ 0xff ∷ []))
        ≡ true)
      ↔ (z ≡ pos 0x7fff_ffff_ffff_ffff)
unfolding put_be read_be be_value of_bits to_bits
max_int64 z h =
    let i =
      pattern_iff 8 (to_bits 64 z) 0x7fff_ffff_ffff_ffff
        (0x7f ∷ 0xff ∷ 0xff ∷ 0xff ∷ 0xff ∷ 0xff ∷ 0xff ∷ 0xff ∷ []) (to_bits-lt_64 z) refl refl in
    (λ b. sym (of_bits-to_bits_64 z h) ∙ ap (of_bits 63) (i.0 b), λ e. i.1 (ap (to_bits 64) e))

-- The bytes of a storable value are the null pattern of its type exactly when the value is the
-- one that the type cannot carry: the largest int32, int64, uint32 or uint64, the float of all ones,
-- or the text of one zero byte. So no other value is read back as nil.
pub is_null-sent :
    (rt : Runtime) {t : PropertyType} {v : Value}
    → Storable t v
    → (is_null rt t (sent v) ≡ true) ↔ (sentinel t ≡ some v)
unfolding is_null get_null_bytes sent sentinel
is_null-sent rt (int32 z h) =
    let i = max_int32 z h in
    (λ b. ap (λ (k : ℤ). some (Value.int32 k)) (sym (i.0 b)), λ e. i.1 (cc e))
is_null-sent rt (int64 z h) =
    let i = max_int64 z h in
    (λ b. ap (λ (k : ℤ). some (Value.int64 k)) (sym (i.0 b)), λ e. i.1 (cc e))
is_null-sent rt (uint32 n h) =
    let i = ones_4 n h in
    (λ b. ap (λ (k : ℕ). some (Value.uint32 k)) (sym (i.0 b)), λ e. i.1 (cc e))
is_null-sent rt (uint64 n h) =
    let i = ones_8 n h in
    (λ b. ap (λ (k : ℕ). some (Value.uint64 k)) (sym (i.0 b)), λ e. i.1 (cc e))
is_null-sent rt (float n h) =
    let i = ones_4 n h in
    (λ b. ap (λ (k : ℕ). some (Value.float32 k)) (sym (i.0 b)), λ e. i.1 (cc e))
is_null-sent rt (double n h) =
    let i = ones_8 n h in
    (λ b. ap (λ (k : ℕ). some (Value.float64 k)) (sym (i.0 b)), λ e. i.1 (cc e))
is_null-sent rt (string s) =
    let i = text_iff s (0 ∷ []) in
    (λ b. ap (λ (t : Text). some (Value.str t)) (sym (i.0 b)), λ e. i.1 (cc e))
is_null-sent rt (text s) =
    let i = text_iff s (0 ∷ []) in
    (λ b. ap (λ (t : Text). some (Value.str t)) (sym (i.0 b)), λ e. i.1 (cc e))
is_null-sent rt (blob s) = unfold bytes_equal in (λ b. cc, λ e. cc)
is_null-sent rt (decimal b s) = unfold bytes_equal in (λ b. cc, λ e. cc)
is_null-sent rt (bool true) = unfold bytes_equal all_same in (λ b. cc, λ e. cc)
is_null-sent rt (bool false) = unfold bytes_equal all_same in (λ b. cc, λ e. cc)
