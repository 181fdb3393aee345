-- ===== src/Runtime.antt =====
-- What the driver calls and does not implement: protobuf, regular expressions, and the parts of
-- Go's standard library on floating point numbers, calendars and time zones. A regular expression
-- of the driver is the operation that matches it.
use ultipa_go_driver.Prelude.{ℕ, Bool, List, Option, Text}
use ultipa_go_driver.Prelude.Int.{ℤ}
use ultipa_go_driver.Types.{GoTime}

-- `*time.Location`: `time.UTC`, `time.Local`, `time.FixedZone("UTC", s)`, a zone that was loaded.
pub data Location : Type 0 where
  utc local : Location
  fixed : ℤ → Location
  named : Text → Location

pub record Runtime : Type 0 where
  -- `proto.Marshal` and `proto.Unmarshal` on ListData and SetData: is_null and the values.
  pub marshal_list : Bool → List Text → Text
  pub unmarshal_list : Text → Option (Bool × List Text)
  pub marshal_set : Bool → List Text → Text
  pub unmarshal_set : Text → Option (Bool × List Text)
  -- `proto.Marshal(&MapData{IsNull: true})`
  pub marshal_null_map : Text
  -- `fmt.Sprintf("POINT(%f %f)", …)`, and the match of `PointRegularExpress`.
  pub format_point : ℕ → ℕ → Text
  pub match_point : Text → Option (Text × Text)
  -- `strconv.FormatFloat(f, 'f', -1, w)` and `strconv.ParseFloat(s, w)`, on bit patterns.
  pub format_float32 : ℕ → Text
  pub format_float64 : ℕ → Text
  pub parse_float32 : Text → Option ℕ
  pub parse_float64 : Text → Option ℕ
  -- `time.Unix(sec, nsec)`, which is in the local zone; `t.In(l)`; `time.Date(…, time.UTC)`.
  pub unix_time : ℤ → ℤ → GoTime
  pub in_location : GoTime → Location → GoTime
  pub date_utc : ℕ → ℕ → ℕ → ℕ → ℕ → ℕ → ℕ → GoTime
  -- `time.ParseInLocation(layout, s, l)` and `time.LoadLocation(name)`.
  pub parse_in_location : Text → Text → Location → Option GoTime
  pub load_location : Text → Option Location
  -- `ReplaceAllString(s, "")` by the expression of `RemoveTimezone`.
  pub drop_zone : Text → Text
