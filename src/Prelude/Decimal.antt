-- ===== src/Prelude/Decimal.antt =====
-- The decimal numerals of package strconv: `Itoa`, `FormatUint`, `ParseUint` and `ParseInt` in base 10.
use Prim.Native.Nat.{ℕ, zero, suc, ◌+◌, ◌-◌, ◌*◌, ◌/◌, ◌%◌, ◌^◌, ◌≤◌, ◌<◌}
use mathlib.Core.Path.{◌≡◌, refl, ap, ◌∙◌}
use mathlib.Core.Bool.{Bool, false, ◌&&◌}
use mathlib.Core.List.{[], ◌∷◌, ◌++◌}
use mathlib.Core.Option.{Option, none, some}
use mathlib.Core.Logic.{inl, inr}
use native.Mathlib.Nat.{pow-suc}
use native.Mathlib.Omega.{arith}
use ultipa_go_driver.Prelude.Tests.{ltb, leb, ◌==◌, if◌then◌else◌, Bool-cases}
use ultipa_go_driver.Prelude.Texts.{Text, text_eq}
use ultipa_go_driver.Prelude.Int.{ℤ, pos, negsuc, Fits}

-- The last `suc k` digits of `n`, without leading zeros; `n` is printed whole if it is below
-- 10 ^ suc k.
pub digits_of : ℕ → ℕ → Text
digits_of zero n = (48 + n % 10) ∷ []
digits_of (suc k) n =
    let front = digits_of k (n / 10) in
    if ltb n 10 then (48 + n) ∷ [] else front ++ ((48 + n % 10) ∷ [])

-- A 64-bit number has at most twenty digits.
unfoldable pub format_uint : ℕ → Text
unfolding digits_of
format_uint n = digits_of 19 n

unfoldable pub format_int : ℤ → Text
unfolding format_uint
format_int (pos n) = format_uint n
format_int (negsuc n) = b'-' ∷ format_uint (suc n)

abbrev is_digit : ℕ → Bool
is_digit c = leb 48 c && leb c 57

unfoldable pub read_digits : Text → ℕ → Option ℕ
read_digits [] acc = some acc
read_digits (c ∷ s) acc =
    let rest = read_digits s (acc * 10 + (c - 48)) in if is_digit c then rest else none

-- Refuses a number above `limit`.
abbrev within : ℕ → Option ℕ → Option ℕ
within limit none = none
within limit (some n) = if leb n limit then some n else none

-- One digit at least, and no sign.
unfoldable pub unsigned : ℕ → Text → Option ℕ
unfolding read_digits
unsigned limit [] = none
unsigned limit (c ∷ s) = within limit (read_digits (c ∷ s) 0)

-- `ParseUint(s, 10, w)`, with `none` for its error.
unfoldable pub parse_uint : ℕ → Text → Option ℕ
parse_uint w s = unsigned (2 ^ w - 1) s

abbrev as_pos : Option ℕ → Option ℤ
as_pos none = none
as_pos (some n) = some (pos n)

abbrev as_neg : Option ℕ → Option ℤ
as_neg none = none
as_neg (some zero) = some (pos 0)
as_neg (some (suc n)) = some (negsuc n)

-- `ParseInt(s, 10, suc w)`.
unfoldable pub parse_int : ℕ → Text → Option ℤ
parse_int w [] = none
parse_int w (c ∷ s) =
    if c == b'-'
    then as_neg (unsigned (2 ^ w) s)
    else if c == b'+'
    then as_pos (unsigned (2 ^ w - 1) s)
    else as_pos (unsigned (2 ^ w - 1) (c ∷ s))

read_digits-append :
    (s t : Text) (acc n : ℕ)
    → read_digits s acc ≡ some n
    → read_digits (s ++ t) acc ≡ read_digits t n
unfolding read_digits
read_digits-append [] t acc n h = ground arith
read_digits-append (c ∷ s) t acc n h =
    ground (arith, read_digits-append s t (acc * 10 + (c - 48)) n)

read_digits-digits_of : (k n : ℕ) → n < 10 ^ suc k → read_digits (digits_of k n) 0 ≡ some n
unfolding digits_of
read_digits-digits_of zero n h = unfold read_digits in ground arith
read_digits-digits_of (suc k) n h = elim (Bool-cases (ltb n 10)) [
  | inl low ↦ rw low (unfold read_digits in ground arith)
  | inr high ↦ rw high (
      read_digits-append (digits_of k (n / 10)) _ 0 (n / 10)
        (read_digits-digits_of k (n / 10) (omega (arith, pow-suc 10 (suc k))))
      ∙ unfold read_digits in ground arith)
]

digits_of-cons : (k n : ℕ) → (c : ℕ) × (s : Text) × (digits_of k n ≡ c ∷ s) × (48 ≤ c) × (c ≤ 57)
unfolding digits_of
digits_of-cons zero n = (48 + n % 10, [], refl, omega arith, omega arith)
digits_of-cons (suc k) n = elim (Bool-cases (ltb n 10)) [
  | inl low ↦ (48 + n, [], rw low, omega arith, ground arith)
  | inr high ↦
      let (c, s, e, lo, hi) = digits_of-cons k (n / 10) in
      (c, s ++ ((48 + n % 10) ∷ []), rw (high, e), lo, hi)
]

unsigned-digits_of :
    (limit n : ℕ) → n ≤ limit → n < 2 ^ 64 → unsigned limit (digits_of 19 n) ≡ some n
unsigned-digits_of limit n h fits =
    let (c, s, e, lo, hi) = digits_of-cons 19 n in
    let r = read_digits-digits_of 19 n (omega arith) in
    rw e (unfold unsigned in rw (rw e at r) (ground arith))

-- A printed number of at most `w` bits is read back.
pub parse_uint-format_uint :
    (w n : ℕ) → n ≤ 2 ^ w - 1 → n < 2 ^ 64 → parse_uint w (format_uint n) ≡ some n
unfolding format_uint parse_uint
parse_uint-format_uint w n h fits = unsigned-digits_of (2 ^ w - 1) n h fits

parse_int-unsigned :
    (w c : ℕ) (s : Text) → 48 ≤ c → parse_int w (c ∷ s) ≡ as_pos (unsigned (2 ^ w - 1) (c ∷ s))
unfolding parse_int
parse_int-unsigned w c s h = ground arith

pub parse_int-format_int_64 : (z : ℤ) → Fits 63 z → parse_int 63 (format_int z) ≡ some z
unfolding format_int format_uint
parse_int-format_int_64 (pos n) h =
    let (c, s, e, lo, hi) = digits_of-cons 19 n in
    let r = unsigned-digits_of (2 ^ 63 - 1) n (omega arith) (omega arith) in
    rw e (parse_int-unsigned 63 c s lo ∙ ap as_pos (rw e at r))
parse_int-format_int_64 (negsuc n) h =
    unfold parse_int in ap as_neg (unsigned-digits_of (2 ^ 63) (suc n) (omega arith) (omega arith))

-- A printed number is not the empty text.
pub format_int-nonempty : (z : ℤ) → text_eq (format_int z) [] ≡ false
unfolding format_int format_uint text_eq
format_int-nonempty (pos n) = let (c, s, e, lo, hi) = digits_of-cons 19 n in rw e
format_int-nonempty (negsuc n) = refl
