-- ===== src/Time.antt =====
-- sdk/utils/time.go: the packed date of the server, and the times that the driver builds from it.
pub mod Pack
pub mod Layouts
pub mod Parse
use ultipa_go_driver.Prelude.{
  ℕ, ◌+◌, ◌*◌, ◌/◌, ◌%◌, ◌^◌, bit_or, Option, none, some, ltb, ◌==◌, if◌then◌else◌, ◌&&◌,
}
use ultipa_go_driver.Prelude.Int.{ℤ, pos}
use ultipa_go_driver.Types.{GoTime, UltipaTime}
use ultipa_go_driver.Runtime.{Runtime, Location, utc}

-- `x << k` on uint64.
abbrev pub shl : ℕ → ℕ → ℕ
shl x k = x * 2 ^ k % 2 ^ 64

-- The two-digit years of the wire format.
unfoldable pub full_year : ℕ → ℕ
full_year y = if ltb 70 y && ltb y 100 then y + 1900 else if ltb y 70 then y + 2000 else y

module _ (rt : Runtime) where
  -- `Uint64ToTime`: the fields of `*t` after the call.
  pub uint64_to_time : ℕ → UltipaTime
  unfolding full_year
  uint64_to_time datetime =
      let year_month = datetime / 2 ^ 46 % 2 ^ 17 in
      let year = full_year (year_month / 13) in
      let month = year_month % 13 in
      let day = datetime / 2 ^ 41 % 2 ^ 5 in
      let hour = datetime / 2 ^ 36 % 2 ^ 5 in
      let minute = datetime / 2 ^ 30 % 2 ^ 6 in
      let second = datetime / 2 ^ 24 % 2 ^ 6 in
      let macrosec = datetime % 2 ^ 24 in
      record {
        packed = datetime;
        year = year;
        month = month;
        day = day;
        hour = hour;
        minute = minute;
        second = second;
        macrosec = macrosec;
        time = rt.date_utc year month day hour minute second (macrosec * 1000);
      }

-- The chain of shifts and `|` that `TimeToUint64` and `TimeToUltipaTime` share.
unfoldable pub pack : ℕ → ℕ → ℕ → ℕ → ℕ → ℕ → ℕ → ℕ
pack year month day hour minute second macrosec =
    let year_month = (year * 13 + month) % 2 ^ 64 in
    bit_or
      (bit_or
        (bit_or (bit_or (bit_or (shl year_month 46) (shl day 41)) (shl hour 36)) (shl minute 30))
        (shl second 24))
      macrosec

unfoldable pub time_to_uint64 : GoTime → ℕ
unfolding pack
time_to_uint64 t = pack t.year t.month t.day t.hour t.minute t.second (t.nanosecond / 1000)

module _ (rt : Runtime) where
  abbrev place : GoTime → Option Location → GoTime
  place t none = t
  place t (some l) = rt.in_location t l

  -- `TimeToUltipaTime` on the time that it converts.
  pub of_time : GoTime → UltipaTime
  unfolding pack
  of_time t = record {
    packed = pack t.year t.month t.day t.hour t.minute t.second (t.nanosecond / 1000);
    year = t.year;
    month = t.month;
    day = t.day;
    hour = t.hour;
    minute = t.minute;
    second = t.second;
    macrosec = t.nanosecond / 1000;
    time = t;
  }

  -- A nil pointer stands for the epoch.
  pub time_to_ultipa_time : Option GoTime → Option Location → UltipaTime
  unfolding of_time
  time_to_ultipa_time (some t) l = of_time t
  time_to_ultipa_time none l = of_time (place (rt.unix_time (pos 0) (pos 0)) l)

  pub new_time_stamp : ℤ → UltipaTime
  unfolding time_to_ultipa_time
  new_time_stamp seconds = time_to_ultipa_time (some (rt.unix_time seconds (pos 0))) none

  pub new_date_time : ℕ → UltipaTime
  unfolding time_to_ultipa_time uint64_to_time
  new_date_time datetime =
      if datetime == 0
      then time_to_ultipa_time (some (rt.in_location (rt.unix_time (pos 0) (pos 0)) utc)) none
      else uint64_to_time rt datetime
