-- ===== src/Tests/Wire.antt =====
-- Values, rows and times on the wire, at concrete inputs.
use ultipa_go_driver.Prelude.{
  ℕ, ◌≡◌, ◌+◌, ◌*◌, ◌↔◌, ◌↔◌, refl, true, List, [], ◌∷◌, Option, none, some, Text, bytes, ok,
  if◌then◌else◌, arith,
}
use ultipa_go_driver.Prelude.Int.{pos, negsuc}
use ultipa_go_driver.Types.{PropertyType, Value, GoTime, to_items}
use ultipa_go_driver.Runtime.{Location}
use ultipa_go_driver.Time.{pack, uint64_to_time, time_to_uint64}
use ultipa_go_driver.Time.Pack.{
  IsCivil, SameFields, uint64_to_time-time_to_uint64, pack-uint64_to_time,
}
use ultipa_go_driver.Serial.Null.{is_null, get_null_bytes, bytes_equal}
use ultipa_go_driver.Serial.Encode.{convert_interface_to_bytes_safe}
use ultipa_go_driver.Serial.Decode.{convert_bytes_to_interface}
use ultipa_go_driver.Serial.RoundTrip.{Storable, sent, convert_round_trip}
use ultipa_go_driver.Serial.Sentinel.{sentinel, is_null-sent}
use ultipa_go_driver.Serial.Lists.{Element, stored, convert_list_round_trip}
use ultipa_go_driver.Serial.GoTypes.{
  HasGoType, ElementsHaveGoType, convert_bytes_to_interface-HasGoType,
}
use ultipa_go_driver.Serial.Zone.{
  get_location_from_timezone, offset_text, get_location_from_timezone_iff,
}
use ultipa_go_driver.Tests.{test_runtime, test_runtime-ListLaws, noon}

abbrev minus_two : Value
minus_two = Value.int32 (negsuc 1)

convert_round_trip_example :
    (bs : Text) × (convert_interface_to_bytes_safe test_runtime none minus_two PropertyType.int32
        none
      ≡ ok bs)
    × (convert_bytes_to_interface test_runtime bs PropertyType.int32 none
        ≡ ok (if is_null test_runtime PropertyType.int32 bs then Value.nil else minus_two))
convert_round_trip_example =
    convert_round_trip test_runtime none none (Storable.int32 (negsuc 1) (omega arith))

is_null-sent_example :
    (is_null test_runtime PropertyType.int32 (sent minus_two) ≡ true)
    ↔ (sentinel PropertyType.int32 ≡ some minus_two)
is_null-sent_example = is_null-sent test_runtime (Storable.int32 (negsuc 1) (omega arith))

abbrev two_texts : List Value
two_texts = Value.str (bytes "a") ∷ Value.str (bytes "b") ∷ []

abbrev texts : Option (List PropertyType)
texts = some (PropertyType.string ∷ [])

a-Element : Element test_runtime PropertyType.string (Value.str (bytes "a"))
unfolding is_null sent get_null_bytes bytes_equal
a-Element = stored (Storable.string (bytes "a")) refl

b-Element : Element test_runtime PropertyType.string (Value.str (bytes "b"))
unfolding is_null sent get_null_bytes bytes_equal
b-Element = stored (Storable.string (bytes "b")) refl

abbrev sent_texts : Text
sent_texts =
    (convert_list_round_trip test_runtime none test_runtime-ListLaws PropertyType.string two_texts
      (a-Element, (b-Element, tt))).0

texts-decoded :
    convert_bytes_to_interface test_runtime sent_texts PropertyType.list texts
    ≡ ok (Value.slice (to_items two_texts))
texts-decoded =
    (convert_list_round_trip test_runtime none test_runtime-ListLaws PropertyType.string two_texts
      (a-Element, (b-Element, tt))).2

convert_bytes_to_interface-HasGoType_example :
    HasGoType PropertyType.list (Value.slice (to_items two_texts))
    × ElementsHaveGoType test_runtime texts (Value.slice (to_items two_texts))
convert_bytes_to_interface-HasGoType_example =
    convert_bytes_to_interface-HasGoType test_runtime sent_texts PropertyType.list texts
      (Value.slice (to_items two_texts)) texts-decoded

convert_list_round_trip_example :
    (bs : Text) × (convert_interface_to_bytes_safe test_runtime none
        (Value.slice (to_items two_texts))
        PropertyType.list
        texts
      ≡ ok bs)
    × (convert_bytes_to_interface test_runtime bs PropertyType.list texts
        ≡ ok (Value.slice (to_items two_texts)))
convert_list_round_trip_example =
    convert_list_round_trip test_runtime none test_runtime-ListLaws PropertyType.string two_texts
      (a-Element, (b-Element, tt))

noon-IsCivil : IsCivil noon
noon-IsCivil = record {
  year_low = omega arith;
  year_high = omega arith;
  month_fits = omega arith;
  day_fits = omega arith;
  hour_fits = omega arith;
  minute_fits = omega arith;
  second_fits = omega arith;
  nanosecond_fits = omega arith;
}

uint64_to_time-time_to_uint64_example :
    SameFields (uint64_to_time test_runtime (time_to_uint64 noon)) noon
uint64_to_time-time_to_uint64_example = uint64_to_time-time_to_uint64 test_runtime noon noon-IsCivil

abbrev word : ℕ
word = 1851747171456286720

pack-uint64_to_time_example :
    pack
      (uint64_to_time test_runtime word).year
      (uint64_to_time test_runtime word).month
      (uint64_to_time test_runtime word).day
      (uint64_to_time test_runtime word).hour
      (uint64_to_time test_runtime word).minute
      (uint64_to_time test_runtime word).second
      (uint64_to_time test_runtime word).macrosec
    ≡ word
pack-uint64_to_time_example = pack-uint64_to_time test_runtime word (omega arith) (omega arith)

abbrev later : GoTime
later = record noon { minute = 31; second = 0 }

later-IsCivil : IsCivil later
later-IsCivil = record {
  year_low = omega arith;
  year_high = omega arith;
  month_fits = omega arith;
  day_fits = omega arith;
  hour_fits = omega arith;
  minute_fits = omega arith;
  second_fits = omega arith;
  nanosecond_fits = omega arith;
}

get_location_from_timezone_iff_example :
    (get_location_from_timezone test_runtime (offset_text 0 5 3 0)
      ≡ some (Location.fixed (pos ((0 * 10 + 5) * 3600 + (3 * 10 + 0) * 60))))
    ↔ (◌≡◌ {A = ℕ} (3 * 10 + 0) 0)
get_location_from_timezone_iff_example =
    get_location_from_timezone_iff test_runtime 0 5 3 0 (omega arith) (omega arith) (omega arith)
      (omega arith) (omega arith)
