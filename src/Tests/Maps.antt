-- ===== src/Tests/Maps.antt =====
-- The ordered map and the names of property types, at concrete inputs.
use ultipa_go_driver.Prelude.{
  ℕ, ◌≡◌, refl, false, [], ◌∷◌, Option, some, none, Text, bytes, text_eq, lookup, ok,
}
use ultipa_go_driver.Prelude.Int.{ℤ}
use ultipa_go_driver.Types.{PropertyType, type_eq}
use ultipa_go_driver.PropertyNames.{
  get_string_type, set_type_by_string, set_type_by_string-get_string_type,
}
use ultipa_go_driver.OrderedMap.{OrderedMap, get, set, delete, Consistent, delete-set_lost}

-- `NewOrderedMap`
abbrev empty : OrderedMap ℕ
empty = record { keys = []; data_of = [] }

empty-Consistent : Consistent empty
unfolding get lookup
empty-Consistent = λ k. refl

abbrev one_key : OrderedMap ℕ
one_key = set (bytes "a") (some 1) empty

abbrev two_keys : OrderedMap ℕ
two_keys = record {
  keys = bytes "a" ∷ bytes "b" ∷ [];
  data_of = (bytes "a", some 1) ∷ (bytes "b", some 2) ∷ [];
}

a_is_one : get (bytes "a") two_keys ≡ some 1
unfolding get lookup text_eq
a_is_one = refl

delete-set_lost_example :
    ((set (bytes "a") (some 3) (delete (bytes "a") two_keys)).keys ≡ bytes "b" ∷ [])
    × (get (bytes "a") (set (bytes "a") (some 3) (delete (bytes "a") two_keys)) ≡ some 3)
delete-set_lost_example =
    delete-set_lost (bytes "a") 1 3 two_keys [] (bytes "b" ∷ []) a_is_one refl refl

-- Expressions that match no text.
abbrev no_set : Text → Option Text
no_set s = none

abbrev no_decimal : Text → Option (Option (ℤ × ℤ))
no_decimal s = none

double_is_no_decimal : type_eq PropertyType.double PropertyType.decimal ≡ false
unfolding type_eq
double_is_no_decimal = refl

set_type_by_string-get_string_type_example :
    (s : Text) × (get_string_type (record {
      type = PropertyType.list;
      sub_types = PropertyType.double ∷ [];
      decimal_extra = none;
    })
      ≡ ok s)
    × (set_type_by_string no_set no_decimal s (record {
      type = PropertyType.list;
      sub_types = PropertyType.string ∷ [];
      decimal_extra = none;
    })
        ≡ record {
          type = PropertyType.list;
          sub_types = PropertyType.string ∷ PropertyType.double ∷ [];
          decimal_extra = none;
        })
set_type_by_string-get_string_type_example =
    set_type_by_string-get_string_type no_set no_decimal PropertyType.double PropertyType.list
      (PropertyType.string ∷ []) none double_is_no_decimal
