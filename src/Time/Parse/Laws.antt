-- ===== src/Time/Parse/Laws.antt =====
-- sdk/utils/time.go: what the parsers of times guarantee.
use ultipa_go_driver.Prelude.{
  ℕ, ◌<◌, ◌≡◌, refl, ◌≢◌, ◌↔◌, All, none, some, List, [], ◌∷◌, ◌++◌, Text, ok, arith,
}
use ultipa_go_driver.Prelude.Int.{ℤ, pos, Fits}
use ultipa_go_driver.Prelude.Decimal.{format_int, parse_int-format_int_64, format_int-nonempty}
use ultipa_go_driver.Runtime.{Runtime, Location}
use ultipa_go_driver.Time.{time_to_ultipa_time, full_year}
use ultipa_go_driver.Time.Parse.{
  pivot_year, millis_to_seconds, millis_to_nanos, parse_time_stamp_str, try_layouts,
  new_ultipa_time_from_string,
}

-- A text that is the decimal numeral of a 64-bit integer is read as that many milliseconds since
-- the epoch, in the given location, whatever the layouts are.
new_ultipa_time_from_string-format_int :
    (rt : Runtime) (ms : ℤ) (l : Location)
    → Fits 63 ms
    → new_ultipa_time_from_string rt (format_int ms) (some l)
      ≡ ok (
          time_to_ultipa_time rt
            (some (rt.in_location (rt.unix_time (millis_to_seconds ms) (millis_to_nanos ms)) l))
            none)
unfolding new_ultipa_time_from_string parse_time_stamp_str
new_ultipa_time_from_string-format_int rt ms l h =
    rw (format_int-nonempty ms, parse_int-format_int_64 ms h)

-- The two ways to complete a two-digit year, of a packed word and of a text, agree on every year
-- but 70, which the word keeps and the text takes for 1970.
full_year-pivot_year : (y : ℕ) → y < 100 → (pivot_year (pos y) ≡ pos (full_year y)) ↔ (y ≢ 70)
unfolding pivot_year full_year
full_year-pivot_year y h = (λ e k. ground arith, λ k. ground arith)

-- Layouts that do not fit the text are skipped: the result is that of the layouts behind them.
pub try_layouts-append :
    (rt : Runtime) (skipped rest : List Text) (s : Text) (l : Location)
    → All (λ layout. rt.parse_in_location layout s l ≡ none) skipped
    → try_layouts rt (skipped ++ rest) s l ≡ try_layouts rt rest s l
unfolding try_layouts
try_layouts-append rt [] rest s l h = refl
try_layouts-append rt (layout ∷ skipped) rest s l h =
    rw h.0 (try_layouts-append rt skipped rest s l h.1)
