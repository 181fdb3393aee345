-- ===== src/Client/Files/Names.antt =====
-- The loop of `getFilesByJobId` over the keys of a result: it ends, and what it finds.
use mathlib.Core.List.{append_cancel_left}
use native.Mathlib.Decide.{dec_lt}
use ultipa_go_driver.Prelude.{
  ℕ, zero, suc, ◌+◌, ◌-◌, ◌^◌, ◌<◌, ◌≤◌, ◌≡◌, refl, sym, subst, false, List, [], ◌∷◌, none, some,
  some_inj, Text, bytes, text_eq, text_eq→eq, text_eq_iff, Bool-cases, Option-cases, inl, inr,
  length, lookup, arith, if◌then◌else◌,
}
use ultipa_go_driver.Prelude.Decimal.{format_uint, parse_uint, unsigned, parse_uint-format_uint}
use ultipa_go_driver.Client.Files.{file_key, files_from}

-- The numbers of the keys that can be told apart.
format_uint_inj : (i j : ℕ) → i < 2 ^ 64 → j < 2 ^ 64 → format_uint i ≡ format_uint j → i ≡ j
format_uint_inj i j hi hj e = some_inj (
    rw (sym (parse_uint-format_uint 64 i (omega arith) hi), e)
      (parse_uint-format_uint 64 j (omega arith) hj))

format_uint-nonempty : (i : ℕ) → i < 2 ^ 64 → ¬ (format_uint i ≡ [])
unfolding parse_uint unsigned
format_uint-nonempty i h e =
    let p = parse_uint-format_uint 64 i (omega arith) h in
    let q : parse_uint 64 [] ≡ some i = subst (λ s. parse_uint 64 s ≡ some i) e p in cc

file_key_inj : (i j : ℕ) → i < 2 ^ 64 → j < 2 ^ 64 → file_key i ≡ file_key j → i ≡ j
unfolding file_key
file_key_inj zero zero hi hj e = refl
file_key_inj zero (suc j) hi hj e =
    absurd (format_uint-nonempty (suc j) hj (sym (append_cancel_left (bytes "output_file") [] _ e)))
file_key_inj (suc i) zero hi hj e =
    absurd (format_uint-nonempty (suc i) hi (append_cancel_left (bytes "output_file") _ [] e))
file_key_inj (suc i) (suc j) hi hj e =
    format_uint_inj (suc i) (suc j) hi hj (append_cancel_left (bytes "output_file") _ _ e)

-- The map without a key.
abbrev without : Text → List (Text × Text) → List (Text × Text)
without k [] = []
without k ((n, v) ∷ m) = if text_eq n k then without k m else (n, v) ∷ without k m

lookup-without :
    (k l : Text) (m : List (Text × Text))
    → text_eq k l ≡ false
    → lookup l (without k m) ≡ lookup l m
unfolding lookup
lookup-without k l [] h = refl
lookup-without k l ((n, v) ∷ m) h =
    ground (arith, text_eq_iff n k, text_eq_iff n l, text_eq_iff k l, lookup-without k l m h)

length-without-le : (k : Text) (m : List (Text × Text)) → length (without k m) ≤ length m
length-without-le k [] = omega arith
length-without-le k ((n, v) ∷ m) = ground (arith, length-without-le k m)

length-without-lt :
    (k v : Text) (m : List (Text × Text)) → lookup k m ≡ some v → length (without k m) < length m
unfolding lookup
length-without-lt k v [] h = cc
length-without-lt k v ((n, w) ∷ m) h = elim (Bool-cases (text_eq n k)) [
  | inl e ↦ ground (arith, e, length-without-le k m)
  | inr e ↦ ground (arith, e, length-without-lt k v m)
]

-- The keys of all numbers below this one are in the map.
abbrev HasKeys : ℕ → List (Text × Text) → Type 0
HasKeys n m = (i : ℕ) → i < n → (v : Text) × (lookup (file_key i) m ≡ some v)

different-keys : (n i : ℕ) → n < 2 ^ 64 → i < n → text_eq (file_key n) (file_key i) ≡ false
different-keys n i h lt = elim (Bool-cases (text_eq (file_key n) (file_key i))) [
  | inl e ↦
      let same = file_key_inj n i h (omega arith) (text_eq→eq (file_key n) (file_key i) e) in
      absurd (omega arith)
  | inr e ↦ e
]

HasKeys-without :
    (n : ℕ) (m : List (Text × Text))
    → n < 2 ^ 64
    → HasKeys (suc n) m
    → HasKeys n (without (file_key n) m)
HasKeys-without n m h all i lt =
    let (v, e) = all i (omega arith) in
    (v, rw (lookup-without (file_key n) (file_key i) m (different-keys n i h lt)) e)

-- A map has no more keys than entries.
HasKeys-le : (n : ℕ) (m : List (Text × Text)) → n < 2 ^ 64 → HasKeys n m → n ≤ length m
HasKeys-le zero m h all = omega arith
HasKeys-le (suc n) m h all =
    let (v, e) = all n (omega arith) in
    let shorter = length-without-lt (file_key n) v m e in
    let rest =
      HasKeys-le n (without (file_key n) m) (omega arith) (HasKeys-without n m (omega arith) all) in
    omega arith

HasKeys-suc :
    (n : ℕ) (m : List (Text × Text)) (v : Text)
    → HasKeys n m
    → lookup (file_key n) m ≡ some v
    → HasKeys (suc n) m
HasKeys-suc n m v all e i lt = elim (dec_lt i n) [
  | yes below ↦ all i below
  | no above ↦ let same : i ≡ n = omega arith in (v, rw same e)
]

-- The files are those of the keys from a number on, without a gap, and the next key is missing.
abbrev pub AreFilesFrom : ℕ → List (Text × Text) → List Text → Type 0
AreFilesFrom i m [] = lookup (file_key i) m ≡ none
AreFilesFrom i m (file ∷ files) = (lookup (file_key i) m ≡ some file) × AreFilesFrom (suc i) m files

AreFilesFrom-same :
    (i : ℕ) (m : List (Text × Text)) (xs ys : List Text)
    → AreFilesFrom i m xs
    → AreFilesFrom i m ys
    → xs ≡ ys
AreFilesFrom-same i m [] [] p q = refl
AreFilesFrom-same i m [] (y ∷ ys) p (q, r) = cc
AreFilesFrom-same i m (x ∷ xs) [] (p, r) q = cc
AreFilesFrom-same i m (x ∷ xs) (y ∷ ys) (p, r) (q, s) =
    let rest = AreFilesFrom-same (suc i) m xs ys r s in cc

files_from-AreFilesFrom :
    (fuel i : ℕ) (m : List (Text × Text))
    → length m < 2 ^ 64 - 1
    → i ≤ length m
    → length m < fuel + i
    → HasKeys i m
    → (files : List Text) × (files_from fuel i m ≡ some files) × AreFilesFrom i m files
unfolding files_from
files_from-AreFilesFrom zero i m h le lt all = absurd (omega arith)
files_from-AreFilesFrom (suc fuel) i m h le lt all = elim (Option-cases (lookup (file_key i) m)) [
  | inl e ↦ ([], rw (e, files_from) refl, e)
  | inr (file, e) ↦
      let more = HasKeys-suc i m file all e in
      let next = HasKeys-le (suc i) m (omega arith) more in
      let (files, found, are) = files_from-AreFilesFrom fuel (suc i) m h next (omega arith) more in
      (file ∷ files, rw (e, found, files_from) refl, (e, are))
]

-- `getFilesByJobId` comes to an end on every result that a map can hold: with a round for each entry
-- and one more, or with any greater number of rounds, it finds the same files, which are those under
-- its keys from the first on, up to the first key that is missing.
pub files_from_terminates :
    (m : List (Text × Text))
    → length m < 2 ^ 64 - 1
    → (files : List Text) × ((fuel : ℕ) → length m < fuel → files_from fuel 0 m ≡ some files)
      × AreFilesFrom 0 m files
files_from_terminates m h =
    let no_keys : HasKeys 0 m = λ i lt. absurd (omega arith) in
    let (files, found, are) =
      files_from-AreFilesFrom (suc (length m)) 0 m h (omega arith) (omega arith) no_keys in
    (
      files,
      λ fuel lt.
          let (others, found', are') =
            files_from-AreFilesFrom fuel 0 m h (omega arith) (omega arith) no_keys in
          subst (λ fs. files_from fuel 0 m ≡ some fs) (AreFilesFrom-same 0 m others files are' are)
            found',
      are,
    )
