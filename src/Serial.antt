-- ===== src/Serial.antt =====
-- sdk/utils/serilizer.go, sdk/utils/null.go and sdk/utils/slice.go: property values to bytes and
-- back.
pub mod BigEndian
pub mod Null
pub mod Encode
pub mod Decode
pub mod RoundTrip
pub mod Sentinel
pub mod Lists
pub mod Zone
pub mod Recursion
pub mod GoTypes
use ultipa_go_driver.Time.Parse.{TimeError}

pub data SerialError : Type 0 where
  unsupported_map unsupported_value subtypes_nil subtypes_empty : SerialError
  bad_bool bad_point bad_point_length bad_message bad_number : SerialError
  bad_time : TimeError → SerialError
  -- A run-time panic: an index out of range, or `reflect.Value.Len` of what has none.
  panics : SerialError
