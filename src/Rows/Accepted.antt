-- ===== src/Rows/Accepted.antt =====
-- sdk/structs/schema.go: `CompareSchemas` by the properties of the two schemas, where the last property
-- of a name counts.
use ultipa_go_driver.Prelude.{
  ◌≡◌, sym, subst, ◌∙◌, ◌↔◌, ◌⊎◌, inl, inr, Bool, true, false, ◌&&◌, ◌||◌, not, List, [], Option,
  none, some, Text, Result, ok, err, map, lookup, keep_if, all_of, Bool-cases, IsAmong, arith,
}
use ultipa_go_driver.Types.{type_eq, type_eq_iff}
use ultipa_go_driver.Rows.{Property, Schema}
use ultipa_go_driver.Rows.Compare.{CompareError, compare_schemas, property_names}
use ultipa_go_driver.Rows.Fits.{is_skipped, fits, is_missing, compare_schemas-Outcome}
use ultipa_go_driver.Rows.Latest.{
  last_named, lookup-last_named, AreKeysDistinct, AreKeysDistinct-property_names, all_of-lookup,
  fails-lookup, kept-found, found-kept,
}

-- A property of the schema that a value is written for; the last of its name counts.
abbrev pub IsWrittenIn : Schema → Text → Property → Type 0
IsWrittenIn s name p = (last_named name s.properties ≡ some p) × (is_skipped p ≡ false)

-- What the other schema has under the name is of the same type, or missing where that is allowed.
abbrev pub FitsIn : Bool → Property → Option Property → Type 0
FitsIn fit p none = fit ≡ true
FitsIn fit p (some q) = q.type ≡ p.type

-- What a comparison may give: a list of what the second schema lacks, where all of the first fits, or
-- an error, where something does not.
abbrev pub Accepted : Bool → Schema → Schema → Result CompareError (List Property) → Type 0
Accepted fit s1 s2 r =
    (missing : List Property) × (r ≡ ok missing)
    × ((name : Text) (p : Property)
        → IsWrittenIn s1 name p
        → FitsIn fit p (last_named name s2.properties))
    × ((p : Property)
        → IsAmong p missing
          ↔ ((name : Text) × IsWrittenIn s1 name p × (last_named name s2.properties ≡ none)))

abbrev pub Refused : Bool → Schema → Schema → Result CompareError (List Property) → Type 0
Refused fit s1 s2 r =
    (e : CompareError) × (r ≡ err e)
    × ((name : Text) × (p : Property) × IsWrittenIn s1 name p
        × (FitsIn fit p (last_named name s2.properties) → ⊥))

fits-FitsIn :
    (fit : Bool) (p : Property) (o : Option Property)
    → (is_skipped p || elim o [ none ↦ fit | some q ↦ type_eq q.type p.type ]) ≡ true
    → is_skipped p ≡ false
    → FitsIn fit p o
fits-FitsIn fit p none h written = rw written at h
fits-FitsIn fit p (some q) h written = (type_eq_iff q.type p.type).0 (rw written at h)

unfit_written :
    (fit : Bool) (p : Property) (o : Option Property)
    → (elim o [ none ↦ fit | some q ↦ type_eq q.type p.type ]) ≡ false
    → FitsIn fit p o
    → ⊥
unfit_written fit p none e f = cc
unfit_written fit p (some q) e f = cc (e, (type_eq_iff q.type p.type).1 f)

unfit :
    (fit : Bool) (p : Property) (o : Option Property)
    → (is_skipped p || elim o [ none ↦ fit | some q ↦ type_eq q.type p.type ]) ≡ false
    → (is_skipped p ≡ false) × (FitsIn fit p o → ⊥)
unfit fit p o h = elim (Bool-cases (is_skipped p)) [
  | inl skipped ↦ cc (rw skipped at h)
  | inr written ↦ (written, unfit_written fit p o (rw written at h))
]

is_missing-none :
    (p : Property) (o : Option Property)
    → ((not (is_skipped p) && elim o [ none ↦ true | some q ↦ false ]) ≡ true)
      ↔ ((is_skipped p ≡ false) × (o ≡ none))
is_missing-none p none = ground arith
is_missing-none p (some q) = ground arith

module _ (fit : Bool) (s1 s2 : Schema) where
  abbrev first : List (Text × Property)
  first = property_names s1.properties []

  abbrev second : List (Text × Property)
  second = property_names s2.properties []

  first-distinct : AreKeysDistinct first
  first-distinct = AreKeysDistinct-property_names s1.properties [] tt

  all-fit :
      all_of (fits fit second) first ≡ true
      → (name : Text) (p : Property) → IsWrittenIn s1 name p
      → FitsIn fit p (last_named name s2.properties)
  all-fit all name p (found, written) =
      fits-FitsIn fit p (last_named name s2.properties)
        (subst
          (λ o. (is_skipped p || elim o [ none ↦ fit | some q ↦ type_eq q.type p.type ]) ≡ true)
          (lookup-last_named name s2.properties)
          (all_of-lookup (fits fit second) first name p all
            (lookup-last_named name s1.properties ∙ found)))
        written

  missing_iff :
      (p : Property)
      → IsAmong p (map (λ e. e.1) (keep_if (is_missing second) first))
        ↔ ((name : Text) × IsWrittenIn s1 name p × (last_named name s2.properties ≡ none))
  missing_iff p = (
    λ among.
        let (name, found, test) = kept-found (is_missing second) first p first-distinct among in
        let (written, gone) = (is_missing-none p (lookup name second)).0 test in
        (
          name,
          (sym (lookup-last_named name s1.properties) ∙ found, written),
          sym (lookup-last_named name s2.properties) ∙ gone,
        ),
    λ (name, (found, written), gone).
        found-kept (is_missing second) first name p (lookup-last_named name s1.properties ∙ found) (
          (is_missing-none p (lookup name second)).1
            (written, lookup-last_named name s2.properties ∙ gone)),
  )

  some-unfit :
      all_of (fits fit second) first ≡ false
      → (name : Text) × (p : Property) × IsWrittenIn s1 name p
        × (FitsIn fit p (last_named name s2.properties) → ⊥)
  some-unfit fails =
      let (name, p, found, test) = fails-lookup (fits fit second) first first-distinct fails in
      let (written, unlike) = unfit fit p (lookup name second) test in
      (
        name,
        p,
        (sym (lookup-last_named name s1.properties) ∙ found, written),
        subst (λ o. FitsIn fit p o → ⊥) (lookup-last_named name s2.properties) unlike,
      )

  -- CompareSchemas of two schemas returns no error, and every written property of the first is of the
  -- same type in the second, or missing there where `fit` is set, and the properties that it returns
  -- are those that are missing; or it returns an error, and some written property of the first is not
  -- like that. Of several properties of one name the last counts.
  pub compare_schemas_lem :
      Accepted fit s1 s2 (compare_schemas (some s1) (some s2) fit)
      ⊎ Refused fit s1 s2 (compare_schemas (some s1) (some s2) fit)
  compare_schemas_lem = elim (Bool-cases (all_of (fits fit second) first)) [
    | inl all ↦ inl (
      map (λ e. e.1) (keep_if (is_missing second) first),
      rw all at (compare_schemas-Outcome fit s1 s2),
      all-fit all,
      missing_iff,
    )
    | inr fails ↦
        let (e, h) = rw fails at (compare_schemas-Outcome fit s1 s2) in inr (e, h, some-unfit fails)
  ]
