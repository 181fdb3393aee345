-- ===== src/Serial/Null.antt =====
-- sdk/utils/null.go and `BytesEqual` of sdk/utils/slice.go: the byte pattern that means null.
use ultipa_go_driver.Prelude.{
  ◌==◌, ◌≡◌, refl, Bool, true, false, [], ◌∷◌, Option, none, some, Text, length, if◌then◌else◌,
  arith,
}
use ultipa_go_driver.Types.{PropertyType}
use ultipa_go_driver.Runtime.{Runtime}

unfoldable pub all_same : Text → Text → Bool
all_same [] _ = true
all_same (x ∷ xs) [] = true
all_same (x ∷ xs) (y ∷ ys) = if x == y then all_same xs ys else false

-- `BytesEqual`; `none` is the nil slice.
unfoldable pub bytes_equal : Option Text → Option Text → Bool
unfolding all_same
bytes_equal none _ = false
bytes_equal (some _) none = false
bytes_equal (some s) (some t) = if length s == length t then all_same s t else false

abbrev ff4 : Text
ff4 = 0xff ∷ 0xff ∷ 0xff ∷ 0xff ∷ []

abbrev ff8 : Text
ff8 = 0xff ∷ 0xff ∷ 0xff ∷ 0xff ∷ 0xff ∷ 0xff ∷ 0xff ∷ 0xff ∷ []

abbrev ff16 : Text
ff16 = 0xff ∷ 0xff ∷ 0xff ∷ 0xff ∷ 0xff ∷ 0xff ∷ 0xff ∷ 0xff ∷ ff8

module _ (rt : Runtime) where
  -- The map `nullBytes`; `none` for a type that is no key of it.
  unfoldable pub get_null_bytes : PropertyType → Option Text
  get_null_bytes PropertyType.int32 = some (0x7f ∷ 0xff ∷ 0xff ∷ 0xff ∷ [])
  get_null_bytes PropertyType.datetime = some ff8
  get_null_bytes PropertyType.uint32 = some ff4
  get_null_bytes PropertyType.int64 =
      some (0x7f ∷ 0xff ∷ 0xff ∷ 0xff ∷ 0xff ∷ 0xff ∷ 0xff ∷ 0xff ∷ [])
  get_null_bytes PropertyType.timestamp = some ff4
  get_null_bytes PropertyType.uint64 = some ff8
  get_null_bytes PropertyType.float = some ff4
  get_null_bytes PropertyType.double = some ff8
  get_null_bytes PropertyType.string = some (0 ∷ [])
  get_null_bytes PropertyType.text = some (0 ∷ [])
  get_null_bytes PropertyType.point = some ff16
  get_null_bytes PropertyType.list = some (rt.marshal_list true [])
  get_null_bytes PropertyType.map = some rt.marshal_null_map
  get_null_bytes PropertyType.bool = some (2 ∷ [])
  get_null_bytes _ = none

  unfoldable pub is_null : PropertyType → Text → Bool
  is_null PropertyType.null bs = true
  is_null t bs = bytes_equal (some bs) (get_null_bytes t)

all_same_refl : (s : Text) → all_same s s ≡ true
unfolding all_same
all_same_refl [] = refl
all_same_refl (x ∷ xs) = ground (arith, all_same_refl xs)

pub bytes_equal_refl : (s : Text) → bytes_equal (some s) (some s) ≡ true
unfolding bytes_equal
bytes_equal_refl s = ground (arith, all_same_refl s)

all_same→eq : (s t : Text) → length s ≡ length t → all_same s t ≡ true → s ≡ t
unfolding all_same
all_same→eq [] [] l h = refl
all_same→eq [] (y ∷ ys) l h = absurd (omega arith)
all_same→eq (x ∷ xs) [] l h = absurd (omega arith)
all_same→eq (x ∷ xs) (y ∷ ys) l h = ground (arith, all_same→eq xs ys)

pub bytes_equal→eq : (s t : Text) → bytes_equal (some s) (some t) ≡ true → s ≡ t
unfolding bytes_equal
bytes_equal→eq s t h = ground (arith, all_same→eq s t)
