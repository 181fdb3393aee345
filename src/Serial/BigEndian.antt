-- ===== src/Serial/BigEndian.antt =====
-- Package encoding/binary as sdk/utils/serilizer.go uses it: fixed-width big-endian numbers.
use ultipa_go_driver.Prelude.{
  ℕ, zero, suc, ◌+◌, ◌*◌, ◌/◌, ◌%◌, ◌^◌, ◌<◌, ◌≡◌, refl, ap, ◌∙◌, [], ◌∷◌, ◌++◌, Text, length,
  length-append, take, take-length, sym, ltb, if◌then◌else◌, arith,
}
use native.Mathlib.Nat.{pow-suc}

-- `PutUint32`, `PutUint64`: the lowest `k` bytes of `v`, highest first.
unfoldable pub put_be : ℕ → ℕ → Text
put_be zero v = []
put_be (suc k) v = put_be k (v / 256) ++ (v % 256 ∷ [])

unfoldable pub be_value : ℕ → Text → ℕ
be_value acc [] = acc
be_value acc (b ∷ bs) = be_value (acc * 256 + b) bs

-- `readBytes` into a number of `k` bytes: on a shorter slice `binary.Read` fails, the error is
-- dropped, and the number stays 0.
unfoldable pub read_be : ℕ → Text → ℕ
unfolding be_value
read_be k bs = if ltb (length bs) k then 0 else be_value 0 (take k bs)

pub length-put_be : (k v : ℕ) → length (put_be k v) ≡ k
unfolding put_be
length-put_be zero v = refl
length-put_be (suc k) v =
    length-append (put_be k (v / 256)) _ ∙ omega (arith, length-put_be k (v / 256))

be_value-append : (acc : ℕ) (s t : Text) → be_value acc (s ++ t) ≡ be_value (be_value acc s) t
unfolding be_value
be_value-append acc [] t = refl
be_value-append acc (b ∷ s) t = be_value-append (acc * 256 + b) s t

be_value-put_be : (k v : ℕ) → v < 256 ^ k → be_value 0 (put_be k v) ≡ v
unfolding put_be
be_value-put_be zero v h = unfold be_value in omega arith
be_value-put_be (suc k) v h =
    be_value-append 0 (put_be k (v / 256)) _
    ∙ rw (be_value-put_be k (v / 256) (omega (arith, pow-suc 256 k)))
        (unfold be_value in omega arith)

take-put_be : (k v : ℕ) → take k (put_be k v) ≡ put_be k v
take-put_be k v =
    ap (λ (n : ℕ). take n (put_be k v)) (sym (length-put_be k v)) ∙ take-length (put_be k v)

-- A number that fits `k` bytes is read back from them.
pub read_be-put_be : (k v : ℕ) → v < 256 ^ k → read_be k (put_be k v) ≡ v
unfolding read_be
read_be-put_be k v h = ground (arith, length-put_be k v, take-put_be k v, be_value-put_be k v h)

-- A slice that is too short reads as 0.
pub read_be-short : (k : ℕ) (bs : Text) → length bs < k → read_be k bs ≡ 0
unfolding read_be
read_be-short k bs h = ground arith
