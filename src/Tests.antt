-- ===== src/Tests.antt =====
-- Concrete inputs for the theorems of the other modules, and the theorems applied to them.
mod Wire
mod Records
mod Driver
mod Goroutines
mod Maps
mod Streams
mod Items
mod Calls
mod Models
mod Inserts
use ultipa_go_driver.Prelude.{
  ℕ, zero, suc, ◌≡◌, refl, Bool, true, false, List, [], ◌∷◌, Option, none, some, Text, bytes,
  text_eq, if◌then◌else◌,
}
use ultipa_go_driver.Prelude.Int.{ℤ, pos}
use ultipa_go_driver.Types.{GoTime}
use ultipa_go_driver.Runtime.{Runtime, Location}
use ultipa_go_driver.Serial.Lists.{ListLaws}

-- A message: the flag, and each value with a 1 before each of its bytes and a 0 at its end.
unfoldable pub write_value : Text → Text → Text
write_value [] rest = 0 ∷ rest
write_value (c ∷ s) rest = 1 ∷ c ∷ write_value s rest

unfoldable pub write_values : List Text → Text
unfolding write_value
write_values [] = []
write_values (v ∷ vs) = write_value v (write_values vs)

abbrev flag_of : Bool → ℕ
flag_of true = 1
flag_of false = 0

abbrev put_front : ℕ → Option (List Text) → Option (List Text)
put_front c none = none
put_front c (some []) = none
put_front c (some (v ∷ vs)) = some ((c ∷ v) ∷ vs)

abbrev put_empty : Option (List Text) → Option (List Text)
put_empty none = none
put_empty (some vs) = some ([] ∷ vs)

unfoldable pub read_message : Text → Option (List Text)
read_message [] = some []
read_message (zero ∷ rest) = put_empty (read_message rest)
read_message (suc _ ∷ []) = none
read_message (suc _ ∷ c ∷ rest) = put_front c (read_message rest)

read_message-write_value :
    (v rest : Text) (vs : List Text)
    → read_message rest ≡ some vs
    → read_message (write_value v rest) ≡ some (v ∷ vs)
unfolding read_message write_value
read_message-write_value [] rest vs h = rw h
read_message-write_value (c ∷ v) rest vs h = rw (read_message-write_value v rest vs h)

read_message-write_values : (vs : List Text) → read_message (write_values vs) ≡ some vs
unfolding read_message write_values
read_message-write_values [] = refl
read_message-write_values (v ∷ vs) =
    read_message-write_value v (write_values vs) vs (read_message-write_values vs)

abbrev with_flag : Bool → Option (List Text) → Option (Bool × List Text)
with_flag b none = none
with_flag b (some vs) = some (b, vs)

unfoldable pub marshal_test : Bool → List Text → Text
unfolding write_values
marshal_test b vs = flag_of b ∷ write_values vs

unfoldable pub unmarshal_test : Text → Option (Bool × List Text)
unfolding read_message
unmarshal_test [] = none
unmarshal_test (zero ∷ rest) = with_flag false (read_message rest)
unmarshal_test (suc _ ∷ rest) = with_flag true (read_message rest)

unmarshal_marshal_test :
    (b : Bool) (vs : List Text) → unmarshal_test (marshal_test b vs) ≡ some (b, vs)
unfolding unmarshal_test marshal_test
unmarshal_marshal_test true vs = rw (read_message-write_values vs)
unmarshal_marshal_test false vs = rw (read_message-write_values vs)

abbrev pub noon : GoTime
noon = record {
  year = 2024;
  month = 2;
  day = 29;
  hour = 12;
  minute = 30;
  second = 15;
  nanosecond = 123456789;
  unix_seconds = pos 1709209815;
}

abbrev pub test_runtime : Runtime
test_runtime = record {
  marshal_list = marshal_test;
  unmarshal_list = unmarshal_test;
  marshal_set = marshal_test;
  unmarshal_set = unmarshal_test;
  marshal_null_map = 1 ∷ [];
  format_point = λ x y. bytes "POINT";
  match_point = λ s. none;
  format_float32 = λ f. bytes "0";
  format_float64 = λ f. bytes "0";
  parse_float32 = λ s. none;
  parse_float64 = λ s. none;
  unix_time = λ s n. noon;
  in_location = λ t l. t;
  date_utc = λ y mo d h mi s n. noon;
  parse_in_location = λ layout s l. none;
  load_location = λ s. none;
  drop_zone = λ s. s;
}

pub test_runtime-ListLaws : ListLaws test_runtime
unfolding write_values
test_runtime-ListLaws = record { unmarshal_marshal = unmarshal_marshal_test }
