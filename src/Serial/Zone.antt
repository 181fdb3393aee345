-- ===== src/Serial/Zone.antt =====
-- sdk/utils/serilizer.go: `GetLocationFromConfig`, the zone in which the texts of times are read.
use ultipa_go_driver.Prelude.{
  ℕ, suc, ◌+◌, ◌*◌, ◌-◌, ◌<◌, ◌≡◌, sym, ap, ◌∙◌, ◌↔◌, Bool, ◌||◌, not, [], ◌∷◌, Option, none, some,
  Text, text_eq, has_prefix, keep_if, ◌==◌, arith, if◌then◌else◌,
}
use ultipa_go_driver.Prelude.Int.{ℤ, pos, negsuc, eq_ℕ, to_bits, of_bits}
use ultipa_go_driver.Prelude.Decimal.{read_digits, unsigned, parse_int}
use ultipa_go_driver.Runtime.{Runtime, Location}
use ultipa_go_driver.Config.{RequestConfig}
use ultipa_go_driver.Items.Graphs.{atoi_value}

-- `IsTimezoneOffsetCandidate`
unfoldable pub is_timezone_offset_candidate : Text → Bool
unfolding has_prefix
is_timezone_offset_candidate s = has_prefix s (43 ∷ []) || has_prefix s (45 ∷ [])

-- `strings.ReplaceAll(s, ":", "")`
abbrev without_colons : Text → Text
without_colons s = keep_if (λ c. not (c == 58)) s

abbrev times_36 : ℤ → ℤ
times_36 (pos n) = pos (n * 36)
times_36 (negsuc n) = negsuc (suc n * 36 - 1)

-- The number of an offset, as seconds of an int64; 0 is no zone.
unfoldable pub offset_location : ℤ → Option Location
unfolding of_bits to_bits
offset_location z =
    if eq_ℕ z 0 then none else some (Location.fixed (of_bits 63 (to_bits 64 (times_36 z))))

-- `getLocationFromTimezone`; the error of `strconv.ParseInt` is dropped.
unfoldable pub get_location_from_timezone : Runtime → Text → Option Location
unfolding is_timezone_offset_candidate offset_location atoi_value text_eq
get_location_from_timezone rt timezone =
    if is_timezone_offset_candidate timezone
    then offset_location (atoi_value (without_colons timezone)).0
    else if text_eq timezone []
    then none
    else rt.load_location timezone

unfoldable pub get_location_from_config : Runtime → Option RequestConfig → Option Location
unfolding get_location_from_timezone text_eq
get_location_from_config rt none = none
get_location_from_config rt (some r) =
    if not (eq_ℕ r.timezone_offset 0)
    then some (Location.fixed r.timezone_offset)
    else if text_eq r.timezone []
    then none
    else get_location_from_timezone rt r.timezone

-- The text `+hh:mm` of four digits.
abbrev pub offset_text : ℕ → ℕ → ℕ → ℕ → Text
offset_text h1 h2 m1 m2 = 43 ∷ (48 + h1) ∷ (48 + h2) ∷ 58 ∷ (48 + m1) ∷ (48 + m2) ∷ []

without_colons-offset_text :
    (h1 h2 m1 m2 : ℕ)
    → h1 < 10
    → h2 < 10
    → m1 < 10
    → m2 < 10
    → without_colons (offset_text h1 h2 m1 m2)
      ≡ (43 ∷ (48 + h1) ∷ (48 + h2) ∷ (48 + m1) ∷ (48 + m2) ∷ [])
without_colons-offset_text h1 h2 m1 m2 a b c d = ground arith

atoi_value-four :
    (h1 h2 m1 m2 : ℕ)
    → h1 < 10
    → h2 < 10
    → m1 < 10
    → m2 < 10
    → (atoi_value (43 ∷ (48 + h1) ∷ (48 + h2) ∷ (48 + m1) ∷ (48 + m2) ∷ [])).0
      ≡ pos (h1 * 1000 + h2 * 100 + m1 * 10 + m2)
unfolding atoi_value parse_int unsigned read_digits
atoi_value-four h1 h2 m1 m2 a b c d = ground arith

offset_location-four :
    (n : ℕ) → 0 < n → n < 10000 → offset_location (pos n) ≡ some (Location.fixed (pos (n * 36)))
unfolding offset_location of_bits to_bits
offset_location-four n h lt = ground arith

location-offset_text :
    (rt : Runtime) (h1 h2 m1 m2 : ℕ)
    → h1 < 10
    → h2 < 10
    → m1 < 10
    → m2 < 10
    → 0 < h1 + h2 + m1 + m2
    → get_location_from_timezone rt (offset_text h1 h2 m1 m2)
      ≡ some (Location.fixed (pos ((h1 * 1000 + h2 * 100 + m1 * 10 + m2) * 36)))
unfolding get_location_from_timezone is_timezone_offset_candidate has_prefix
location-offset_text rt h1 h2 m1 m2 a b c d h =
    ap (λ s. offset_location (atoi_value s).0) (without_colons-offset_text h1 h2 m1 m2 a b c d)
    ∙ ap offset_location (atoi_value-four h1 h2 m1 m2 a b c d)
    ∙ offset_location-four _ (omega arith) (omega arith)

fixed_inj : {m n : ℕ} → some (Location.fixed (pos m)) ≡ some (Location.fixed (pos n)) → m ≡ n
fixed_inj h = cc

-- The zone of a text +hh:mm with a digit other than 0 is the one that is ahead by hh hours and mm
-- minutes exactly when mm is 0: the minutes are taken for hundredths of an hour.
pub get_location_from_timezone_iff :
    (rt : Runtime) (h1 h2 m1 m2 : ℕ)
    → h1 < 10
    → h2 < 10
    → m1 < 10
    → m2 < 10
    → 0 < h1 + h2 + m1 + m2
    → (get_location_from_timezone rt (offset_text h1 h2 m1 m2)
        ≡ some (Location.fixed (pos ((h1 * 10 + h2) * 3600 + (m1 * 10 + m2) * 60))))
      ↔ (m1 * 10 + m2 ≡ 0)
get_location_from_timezone_iff rt h1 h2 m1 m2 a b c d h =
    let found = location-offset_text rt h1 h2 m1 m2 a b c d h in
    (
      λ e. let same = fixed_inj (sym found ∙ e) in omega arith,
      λ e.
          let same : (h1 * 1000 + h2 * 100 + m1 * 10 + m2) * 36
              ≡ (h1 * 10 + h2) * 3600 + (m1 * 10 + m2) * 60 =
            omega arith in
          found ∙ ap (λ n. some (Location.fixed (pos n))) same,
    )
