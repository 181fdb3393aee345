-- ===== src/Time/Pack.antt =====
-- sdk/utils/time.go: packing a time and unpacking it again.
use ultipa_go_driver.Prelude.{ℕ, ◌+◌, ◌*◌, ◌/◌, ◌%◌, ◌^◌, ◌≤◌, ◌<◌, ◌≡◌, ◌∙◌, arith, bit_or}
use ultipa_go_driver.Prelude.Bits.{bit_or-add}
use ultipa_go_driver.Types.{GoTime, UltipaTime}
use ultipa_go_driver.Runtime.{Runtime}
use ultipa_go_driver.Time.{shl, full_year, pack, uint64_to_time, time_to_uint64}

-- The fields lie in the ranges of a calendar and of the 17 bits for year and month.
pub record IsCivil (t : GoTime) : Type 0 where
  pub year_low : 100 ≤ t.year
  pub year_high : t.year ≤ 10081
  pub month_fits : t.month ≤ 12
  pub day_fits : t.day < 32
  pub hour_fits : t.hour < 24
  pub minute_fits : t.minute < 60
  pub second_fits : t.second < 60
  pub nanosecond_fits : t.nanosecond < 1000000000

-- The word that holds the fields, as a sum.
abbrev pub packed_sum : ℕ → ℕ → ℕ → ℕ → ℕ → ℕ → ℕ → ℕ
packed_sum y mo d h mi s us =
    (y * 13 + mo) * 2 ^ 46 + d * 2 ^ 41 + h * 2 ^ 36 + mi * 2 ^ 30 + s * 2 ^ 24 + us

module _ (y mo d h mi s us : ℕ) where
  -- One `|` after the other, each below the bits that are set.
  pub pack-sum :
      y * 13 + mo < 2 ^ 17
      → d < 2 ^ 5
      → h < 2 ^ 5
      → mi < 2 ^ 6
      → s < 2 ^ 6
      → us < 2 ^ 24
      → pack y mo d h mi s us ≡ packed_sum y mo d h mi s us
  unfolding pack
  pack-sum hy hd hh hm hs hu =
      let ym : ℕ = shl ((y * 13 + mo) % 2 ^ 64) 46 in
      let with_day = bit_or-add 46 (y * 13 + mo) ym (shl d 41) (omega arith) (omega arith) in
      let with_hour =
        bit_or-add 41 ((y * 13 + mo) * 2 ^ 5 + d) (bit_or ym (shl d 41)) (shl h 36)
          (omega (arith, with_day)) (omega arith) in
      let with_minute =
        bit_or-add 36 (((y * 13 + mo) * 2 ^ 5 + d) * 2 ^ 5 + h)
          (bit_or (bit_or ym (shl d 41)) (shl h 36)) (shl mi 30)
          (omega (arith, with_day, with_hour)) (omega arith) in
      let with_second =
        bit_or-add 30 ((((y * 13 + mo) * 2 ^ 5 + d) * 2 ^ 5 + h) * 2 ^ 6 + mi)
          (bit_or (bit_or (bit_or ym (shl d 41)) (shl h 36)) (shl mi 30)) (shl s 24)
          (omega (arith, with_day, with_hour, with_minute)) (omega arith) in
      let with_micro =
        bit_or-add 24 (((((y * 13 + mo) * 2 ^ 5 + d) * 2 ^ 5 + h) * 2 ^ 6 + mi) * 2 ^ 6 + s)
          (bit_or (bit_or (bit_or (bit_or ym (shl d 41)) (shl h 36)) (shl mi 30)) (shl s 24)) us
          (omega (arith, with_day, with_hour, with_minute, with_second)) (omega arith) in
      omega (arith, with_day, with_hour, with_minute, with_second, with_micro)

full_year_of_eq : (x y : ℕ) → x ≡ y → 100 ≤ y → full_year x ≡ y
unfolding full_year
full_year_of_eq x y e h = ground arith

time_to_uint64-sum :
    (t : GoTime)
    → IsCivil t
    → time_to_uint64 t
      ≡ packed_sum t.year t.month t.day t.hour t.minute t.second (t.nanosecond / 1000)
unfolding time_to_uint64
time_to_uint64-sum t c =
    pack-sum t.year t.month t.day t.hour t.minute t.second (t.nanosecond / 1000) (omega arith)
      (omega arith) (omega arith) (omega arith) (omega arith) (omega arith)

-- The fields that `u` and `t` have in common.
pub record SameFields (u : UltipaTime) (t : GoTime) : Type 0 where
  pub same_year : u.year ≡ t.year
  pub same_month : u.month ≡ t.month
  pub same_day : u.day ≡ t.day
  pub same_hour : u.hour ≡ t.hour
  pub same_minute : u.minute ≡ t.minute
  pub same_second : u.second ≡ t.second
  pub same_micro : u.macrosec ≡ t.nanosecond / 1000

-- Unpacking a packed time gives its fields back, to the microsecond, for a time whose year lies
-- between 100 and 10081 and whose other fields lie in the ranges of a calendar.
pub uint64_to_time-time_to_uint64 :
    (rt : Runtime) (t : GoTime) → IsCivil t → SameFields (uint64_to_time rt (time_to_uint64 t)) t
unfolding uint64_to_time
uint64_to_time-time_to_uint64 rt t c =
    let e = time_to_uint64-sum t c in
    record {
      same_year =
          full_year_of_eq (time_to_uint64 t / 2 ^ 46 % 2 ^ 17 / 13) t.year (omega (arith, e))
            c.year_low;
      same_month = omega (arith, e);
      same_day = omega (arith, e);
      same_hour = omega (arith, e);
      same_minute = omega (arith, e);
      same_second = omega (arith, e);
      same_micro = omega (arith, e);
    }

-- Packing the fields that were unpacked from a word gives the word back, for a word below 2 ^ 63
-- whose year needs no completion (at least 100).
pub pack-uint64_to_time :
    (rt : Runtime) (w : ℕ)
    → w < 2 ^ 63
    → 100 ≤ w / 2 ^ 46 / 13
    → let u = uint64_to_time rt w in
      pack u.year u.month u.day u.hour u.minute u.second u.macrosec ≡ w
unfolding uint64_to_time
pack-uint64_to_time rt w h low =
    let e : full_year (w / 2 ^ 46 % 2 ^ 17 / 13) ≡ w / 2 ^ 46 / 13 =
      full_year_of_eq (w / 2 ^ 46 % 2 ^ 17 / 13) (w / 2 ^ 46 / 13) (omega arith) low in
    rw e (
      pack-sum (w / 2 ^ 46 / 13) (w / 2 ^ 46 % 2 ^ 17 % 13) (w / 2 ^ 41 % 2 ^ 5)
        (w / 2 ^ 36 % 2 ^ 5) (w / 2 ^ 30 % 2 ^ 6) (w / 2 ^ 24 % 2 ^ 6) (w % 2 ^ 24) (omega arith)
        (omega arith) (omega arith) (omega arith) (omega arith) (omega arith)
      ∙ omega arith)

-- A later time has a larger word: by the first field that differs.
pub data Before (s t : GoTime) : Type 0 where
  by_year : s.year < t.year → Before s t
  by_month : s.year ≡ t.year → s.month < t.month → Before s t
  by_day : s.year ≡ t.year → s.month ≡ t.month → s.day < t.day → Before s t
  by_second :
      s.year ≡ t.year
      → s.month ≡ t.month
      → s.day ≡ t.day
      → (s.hour * 60 + s.minute) * 60 + s.second < (t.hour * 60 + t.minute) * 60 + t.second
      → Before s t

-- Of two times in the ranges of a calendar, the earlier one packs to the smaller word, where
-- earlier means by date and then by the second of the day.
time_to_uint64_mono :
    (s t : GoTime) → IsCivil s → IsCivil t → Before s t → time_to_uint64 s < time_to_uint64 t
time_to_uint64_mono s t cs ct (by_year h) =
    omega (arith, time_to_uint64-sum s cs, time_to_uint64-sum t ct)
time_to_uint64_mono s t cs ct (by_month h k) =
    omega (arith, time_to_uint64-sum s cs, time_to_uint64-sum t ct)
time_to_uint64_mono s t cs ct (by_day h k l) =
    omega (arith, time_to_uint64-sum s cs, time_to_uint64-sum t ct)
time_to_uint64_mono s t cs ct (by_second h k l m) =
    omega (arith, time_to_uint64-sum s cs, time_to_uint64-sum t ct)
