-- ===== src/Time/Parse.antt =====
-- sdk/utils/time.go: times from text, by a number of milliseconds or by the first layout that fits.
pub mod Laws
use ultipa_go_driver.Prelude.{
  ℕ, zero, suc, ◌+◌, ◌*◌, ◌/◌, ◌%◌, ◌≡◌, refl, Bool, true, false, ◌&&◌, Option, none, some, List,
  [], ◌∷◌, ◌++◌, Text, bytes, text_eq, has_prefix, ◌==◌, take, drop, ◌-◌, ltb, leb, if◌then◌else◌,
  Result, ok, err, ◌>>=◌, arith,
}
use ultipa_go_driver.Prelude.Int.{ℤ, pos, negsuc, to_bits}
use ultipa_go_driver.Prelude.Decimal.{parse_int, format_int}
use ultipa_go_driver.Types.{GoTime, UltipaTime}
use ultipa_go_driver.Runtime.{Runtime, Location, utc, local}
use ultipa_go_driver.Time.{time_to_ultipa_time, time_to_uint64}
use ultipa_go_driver.Time.Layouts.{layouts}

pub data TimeError : Type 0 where
  empty_text bad_number bad_year bad_format no_layout : TimeError

-- `-n`.
abbrev negate : ℕ → ℤ
negate zero = pos 0
negate (suc n) = negsuc n

-- Go's `/` and `%` on int64 by 1000: towards zero.
unfoldable pub millis_to_seconds : ℤ → ℤ
millis_to_seconds (pos n) = pos (n / 1000)
millis_to_seconds (negsuc n) = negate (suc n / 1000)

unfoldable pub millis_to_nanos : ℤ → ℤ
millis_to_nanos (pos n) = pos (n % 1000 * 1000000)
millis_to_nanos (negsuc n) = negate (suc n % 1000 * 1000000)

-- The two-digit year of a text, completed: 70 to 99 are of the twentieth century.
unfoldable pub pivot_year : ℤ → ℤ
pivot_year (pos y) =
    if leb 70 y && ltb y 100 then pos (y + 1900) else if ltb y 70 then pos (y + 2000) else pos y
pivot_year (negsuc y) = if ltb y 2000 then pos (1999 - y) else negsuc (y - 2000)

-- `GetTimeStamp`: the conversion of the Unix seconds to uint32.
unfoldable pub get_time_stamp : UltipaTime → ℕ
get_time_stamp u = to_bits 32 u.time.unix_seconds

module _ (rt : Runtime) where
  abbrev in_zone : GoTime → Option Location → GoTime
  in_zone t none = t
  in_zone t (some l) = rt.in_location t l

  abbrev of_millis : Option Location → Option ℤ → Result TimeError UltipaTime
  of_millis l none = err bad_number
  of_millis l (some ms) = ok (
      time_to_ultipa_time rt
        (some (in_zone (rt.unix_time (millis_to_seconds ms) (millis_to_nanos ms)) l)) none)

  pub parse_time_stamp_str : Text → Option Location → Result TimeError UltipaTime
  unfolding millis_to_seconds millis_to_nanos
  parse_time_stamp_str v l = if text_eq v [] then err empty_text else of_millis l (parse_int 63 v)

  -- `time.ParseInLocation` of the text with its year written out.
  abbrev completed : Text → Text → Location → Option ℤ → Result TimeError GoTime
  completed layout s l none = err bad_year
  completed layout s l (some year) =
      elim (rt.parse_in_location (bytes "20" ++ layout) (format_int (pivot_year year) ++ drop 2 s)
        l) [ none ↦ err bad_format | some t ↦ ok t ]

  -- The branch for a layout with a two-digit year.
  pub fix_year : Text → Text → Location → GoTime → Result TimeError GoTime
  fix_year layout s l t =
      if has_prefix layout (bytes "06")
      then completed layout s l (parse_int 63 (take 2 s))
      else ok t

  pub try_layouts : List Text → Text → Location → Result TimeError UltipaTime
  unfolding fix_year
  try_layouts [] s l = err no_layout
  try_layouts (layout ∷ rest) s l = elim (rt.parse_in_location layout s l) [
    | none ↦ try_layouts rest s l
    | some t ↦ do
      t' ← fix_year layout s l t
      ok (time_to_ultipa_time rt (some (rt.in_location t' l)) none)
  ]

  abbrev or_local : Option Location → Location
  or_local none = local
  or_local (some l) = l

  pub new_ultipa_time_from_string : Text → Option Location → Result TimeError UltipaTime
  unfolding try_layouts parse_time_stamp_str
  new_ultipa_time_from_string s l =
      if text_eq s [] then err empty_text else elim (parse_time_stamp_str s (some (or_local l))) [
        | ok u ↦ ok u
        | err _ ↦ try_layouts layouts s (or_local l)
      ]

  -- `strings.Replace(s, "T", " ", -1)`.
  abbrev spaces_for_t : Text → Text
  spaces_for_t [] = []
  spaces_for_t (c ∷ s) = (if c == b'T' then b' ' else c) ∷ spaces_for_t s

  pub remove_timezone : Text → Text
  remove_timezone s = spaces_for_t (rt.drop_zone s)

  pub new_datetime_from_string : Text → Result TimeError UltipaTime
  unfolding remove_timezone new_ultipa_time_from_string
  new_datetime_from_string s = new_ultipa_time_from_string (remove_timezone s) (some utc)

  pub new_timestamp_from_string : Text → Option Location → Result TimeError UltipaTime
  unfolding new_ultipa_time_from_string
  new_timestamp_from_string s l =
      if text_eq s [] then err empty_text else new_ultipa_time_from_string s l

  pub new_time_from_string : Text → Result TimeError UltipaTime
  unfolding new_timestamp_from_string
  new_time_from_string s = new_timestamp_from_string s none
