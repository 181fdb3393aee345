-- ===== src/Rows/Latest.antt =====
-- sdk/structs/schema.go: the map of the properties of a schema has the last property of each name.
use ultipa_go_driver.Prelude.{
  ◌≡◌, refl, sym, ap, subst, ◌∙◌, inl, inr, Bool, true, false, List, [], ◌∷◌, Option, none, some,
  Text, text_eq, text_eq_refl, text_eq_iff, map, lookup, insert, lookup-insert, lookup-insert_other,
  keep_if, all_of, if◌then◌else◌, Bool-cases, IsAmong, arith,
}
use ultipa_go_driver.Rows.{Property}
use ultipa_go_driver.Rows.Compare.{property_names}

abbrev or_else : Option Property → Option Property → Option Property
or_else none o = o
or_else (some p) o = some p

-- The last property of a name.
unfoldable pub last_named : Text → List Property → Option Property
last_named name [] = none
last_named name (p ∷ ps) =
    or_else (last_named name ps) (if text_eq p.name name then some p else none)

or_else-if :
    (o : Option Property) (b : Bool) (p : Property) (rest : Option Property)
    → or_else o (if b then some p else rest) ≡ or_else (or_else o (if b then some p else none)) rest
or_else-if (some q) b p rest = refl
or_else-if none true p rest = refl
or_else-if none false p rest = refl

lookup-property_names :
    (name : Text) (ps : List Property) (m : List (Text × Property))
    → lookup name (property_names ps m) ≡ or_else (last_named name ps) (lookup name m)
unfolding property_names last_named
lookup-property_names name [] m = refl
lookup-property_names name (p ∷ ps) m =
    lookup-property_names name ps (insert p.name p m)
    ∙ ap (or_else (last_named name ps)) (lookup-insert p.name name p m)
    ∙ or_else-if (last_named name ps) (text_eq p.name name) p (lookup name m)

or_else-none : (o : Option Property) → or_else o none ≡ o
or_else-none none = refl
or_else-none (some p) = refl

pub lookup-last_named :
    (name : Text) (ps : List Property) → lookup name (property_names ps []) ≡ last_named name ps
unfolding lookup
lookup-last_named name ps = lookup-property_names name ps [] ∙ or_else-none (last_named name ps)

-- No key stands twice in the map.
abbrev pub AreKeysDistinct : List (Text × Property) → Type 0
AreKeysDistinct [] = Unit {0}
AreKeysDistinct ((j, p) ∷ m) = (lookup j m ≡ none) × AreKeysDistinct m

AreKeysDistinct-insert :
    (k : Text) (v : Property) (m : List (Text × Property))
    → AreKeysDistinct m
    → AreKeysDistinct (insert k v m)
unfolding insert lookup
AreKeysDistinct-insert k v [] h = (refl, tt)
AreKeysDistinct-insert k v ((j, w) ∷ m) (fresh, h) = elim (Bool-cases (text_eq j k)) [
  | inl same ↦ rw same (subst (λ n. lookup n m ≡ none) ((text_eq_iff j k).0 same) fresh, h)
  | inr other ↦ rw other (
    lookup-insert_other k j v m (ground (arith, other, text_eq_iff j k, text_eq_iff k j)) ∙ fresh,
    AreKeysDistinct-insert k v m h,
  )
]

pub AreKeysDistinct-property_names :
    (ps : List Property) (m : List (Text × Property))
    → AreKeysDistinct m
    → AreKeysDistinct (property_names ps m)
unfolding property_names
AreKeysDistinct-property_names [] m h = h
AreKeysDistinct-property_names (p ∷ ps) m h =
    AreKeysDistinct-property_names ps (insert p.name p m) (AreKeysDistinct-insert p.name p m h)

-- An entry further on is found as well.
lookup-later :
    (j name : Text) (v p : Property) (m : List (Text × Property))
    → lookup j m ≡ none
    → lookup name m ≡ some p
    → lookup name ((j, v) ∷ m) ≡ some p
unfolding lookup
lookup-later j name v p m fresh found = elim (Bool-cases (text_eq j name)) [
  | inl same ↦ cc (fresh, found, (text_eq_iff j name).0 same)
  | inr other ↦ rw other found
]

module _ (test : Text × Property → Bool) where
  pub all_of-lookup :
      (m : List (Text × Property)) (name : Text) (p : Property)
      → all_of test m ≡ true
      → lookup name m ≡ some p
      → test (name, p) ≡ true
  unfolding lookup
  all_of-lookup [] name p all found = cc
  all_of-lookup ((j, q) ∷ m) name p all found = elim (Bool-cases (test (j, q))) [
    | inr fails ↦ cc (rw fails at all)
    | inl passes ↦ elim (Bool-cases (text_eq j name)) [
      | inl same ↦ cc (rw same at found, (text_eq_iff j name).0 same)
      | inr other ↦ all_of-lookup m name p (rw passes at all) (rw other at found)
    ]
  ]

  pub fails-lookup :
      (m : List (Text × Property))
      → AreKeysDistinct m
      → all_of test m ≡ false
      → (name : Text) × (p : Property) × (lookup name m ≡ some p) × (test (name, p) ≡ false)
  unfolding lookup
  fails-lookup [] h none_fails = cc
  fails-lookup ((j, q) ∷ m) (fresh, h) some_fails = elim (Bool-cases (test (j, q))) [
    | inr fails ↦ (j, q, rw (text_eq_refl j) refl, fails)
    | inl passes ↦
        let (name, p, found, e) = fails-lookup m h (rw passes at some_fails) in
        (name, p, lookup-later j name q p m fresh found, e)
  ]

  -- What is kept of the map are the properties found under some name that passes the test.
  pub kept-found :
      (m : List (Text × Property)) (p : Property)
      → AreKeysDistinct m
      → IsAmong p (map (λ e. e.1) (keep_if test m))
      → (name : Text) × (lookup name m ≡ some p) × (test (name, p) ≡ true)
  unfolding lookup
  kept-found [] p h among = absurd among
  kept-found ((j, q) ∷ m) p (fresh, h) among = elim (Bool-cases (test (j, q))) [
    | inl passes ↦ elim (rw passes at among) [
      | inl same ↦
          (j, rw (text_eq_refl j) (ap some (sym same)), ap (λ x. test (j, x)) same ∙ passes)
      | inr later ↦
          let (name, found, e) = kept-found m p h later in
          (name, lookup-later j name q p m fresh found, e)
    ]
    | inr fails ↦
        let (name, found, e) = kept-found m p h (rw fails at among) in
        (name, lookup-later j name q p m fresh found, e)
  ]

  pub found-kept :
      (m : List (Text × Property)) (name : Text) (p : Property)
      → lookup name m ≡ some p
      → test (name, p) ≡ true
      → IsAmong p (map (λ e. e.1) (keep_if test m))
  unfolding lookup
  found-kept [] name p found passes = cc
  found-kept ((j, q) ∷ m) name p found passes = elim (Bool-cases (text_eq j name)) [
    | inl same ↦
        let at_head : q ≡ p = cc (rw same at found) in
        let passes_here : test (j, q) ≡ true =
          ap (λ x. test (x, q)) ((text_eq_iff j name).0 same)
          ∙ ap (λ x. test (name, x)) at_head
          ∙ passes in
        rw passes_here (inl (sym at_head))
    | inr other ↦
        let rest = found-kept m name p (rw other at found) passes in
        elim (Bool-cases (test (j, q))) [ inl kept ↦ rw kept (inr rest) | inr left ↦ rw left rest ]
  ]
