-- ===== src/Names.antt =====
-- sdk/utils/validators.go and sdk/api/utils.go: the names of schemas, properties and graphs. The
-- message of an error is its constructor.
use ultipa_go_driver.Prelude.{
  ℕ, ◌≤◌, ◌≡◌, ◌≢◌, ◌⊎◌, inl, inr, ◌↔◌, Bool, true, false, ◌&&◌, ◌||◌, List, [], ◌∷◌, ◌++◌, Option,
  none, some, Text, bytes, text_eq, text_eq_iff, text_contains, has_prefix, Result, ok, err, length,
  ltb, leb, ◌==◌, if◌then◌else◌, any_of, all_of, All, arith, Bool-cases, Option-cases,
}

unfoldable pub start_with_tilde : Text → Bool
unfolding has_prefix
start_with_tilde name = has_prefix name (bytes "~")

-- `InvalidName`
abbrev pub invalid_names : List Text
invalid_names =
    bytes "this"
    ∷ bytes "prev_n"
    ∷ bytes "prev_e"
    ∷ bytes "_uuid"
    ∷ bytes "_from_uuid"
    ∷ bytes "_to_uuid"
    ∷ bytes "_id"
    ∷ bytes "_from"
    ∷ bytes "_to"
    ∷ bytes "_graph"
    ∷ bytes "_nodeSchema"
    ∷ bytes "_edgeSchema"
    ∷ bytes "_nodeProperty"
    ∷ bytes "_edgeProperty"
    ∷ bytes "_nodeIndex"
    ∷ bytes "_edgeIndex"
    ∷ bytes "_nodeFulltext"
    ∷ bytes "_edgeFulltext"
    ∷ bytes "_statistic"
    ∷ bytes "_top"
    ∷ bytes "_task"
    ∷ bytes "_policy"
    ∷ bytes "_user"
    ∷ bytes "_privilege"
    ∷ bytes "_algoList"
    ∷ bytes "_extaList"
    ∷ []

unfoldable pub is_reserved : Text → Bool
unfolding text_eq
is_reserved name = any_of (text_eq name) invalid_names

unfoldable pub is_valid_name : Text → Bool
unfolding text_contains start_with_tilde is_reserved
is_valid_name name =
    if ltb (length name) 2 || ltb 64 (length name)
    then false
    else if text_contains name (bytes "`")
    then false
    else if start_with_tilde name
    then false
    else if is_reserved name
    then false
    else true

pub data NameError : Type 0 where
  bad_length backquote tilde preserved not_graph_name : NameError

-- `none` is the nil error.
unfoldable pub check_name : Text → Option NameError
unfolding text_contains start_with_tilde is_reserved
check_name name =
    if ltb (length name) 2 || ltb 127 (length name)
    then some NameError.bad_length
    else if text_contains name (bytes "`")
    then some NameError.backquote
    else if start_with_tilde name
    then some NameError.tilde
    else if is_reserved name
    then some NameError.preserved
    else none

unfoldable pub check_replace_schema_property_name : Text → Result NameError Text
unfolding check_name text_eq
check_replace_schema_property_name name =
    if text_eq name [] || text_eq name (bytes "*")
    then ok name
    else elim (check_name name) [ some e ↦ err e | none ↦ ok (bytes "`" ++ (name ++ bytes "`")) ]

abbrev is_letter : ℕ → Bool
is_letter c = (leb 65 c && leb c 90) || (leb 97 c && leb c 122)

abbrev is_word : ℕ → Bool
is_word c = is_letter c || (leb 48 c && leb c 57) || c == 95

-- The expression `^[a-zA-Z][a-zA-Z0-9_]+$`.
abbrev matches_graph_name : Text → Bool
matches_graph_name [] = false
matches_graph_name (c ∷ []) = false
matches_graph_name (c ∷ d ∷ s) = is_letter c && all_of is_word (d ∷ s)

unfoldable pub check_graph_name : Text → Option NameError
unfolding check_name
check_graph_name name = elim (check_name name) [
  | some e ↦ some e
  | none ↦ if matches_graph_name name then none else some NameError.not_graph_name
]

-- The two tests of a name agree on all names of at most 64 bytes: a name is valid exactly where the
-- check has no error and the name is not longer than that.
is_valid_name_iff :
    (name : Text) → (is_valid_name name ≡ true) ↔ ((check_name name ≡ none) × (length name ≤ 64))
unfolding is_valid_name check_name
is_valid_name_iff name = (λ h. ground arith, λ h. ground arith)

no_backquote : (s : Text) → text_contains s (bytes "`") ≡ false → All (λ c. c ≢ 96) s
unfolding text_contains has_prefix
no_backquote [] h = tt
no_backquote (x ∷ s) h = ground (arith, no_backquote s)

check_name→plain :
    (name : Text)
    → check_name name ≡ none
    → (text_contains name (bytes "`") ≡ false) × (2 ≤ length name) × (length name ≤ 127)
unfolding check_name
check_name→plain name h = ground arith

same_result : {p q : Text} → ◌≡◌ {A = Result NameError Text} (ok p) (ok q) → q ≡ p
same_result h = cc

-- A name that is let through is empty, or the star, or comes back between two backquotes, has no
-- backquote in it, and has from 2 to 127 bytes; so it ends where its closing quote stands.
pub check_replace_lem :
    (name q : Text)
    → check_replace_schema_property_name name ≡ ok q
    → ((q ≡ name) × ((name ≡ []) ⊎ (name ≡ bytes "*")))
      ⊎ ((q ≡ bytes "`" ++ (name ++ bytes "`"))
          × All (λ c. c ≢ 96) name
          × (2 ≤ length name)
          × (length name ≤ 127))
unfolding check_replace_schema_property_name check_name
check_replace_lem name q h = elim (Bool-cases (text_eq name [] || text_eq name (bytes "*"))) [
  | inl plain ↦ inl (
    same_result (rw (check_replace_schema_property_name, plain) at h),
    ground (arith, text_eq_iff name [], text_eq_iff name (bytes "*")),
  )
  | inr quoted ↦ elim (Option-cases (check_name name)) [
    | inl fine ↦
        (let (clean, low, high) = check_name→plain name fine in
          inr (
            same_result (rw (check_replace_schema_property_name, quoted, fine) at h),
            no_backquote name clean,
            low,
            high,
          ))
    | inr (e, wrong) ↦ cc (rw (check_replace_schema_property_name, quoted, wrong) at h)
  ]
]
