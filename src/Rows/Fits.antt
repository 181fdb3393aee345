-- ===== src/Rows/Fits.antt =====
-- What `CompareSchemas` of sdk/structs/schema.go accepts and returns, and that Go's order on the map of
-- the properties makes no difference.
use mathlib.Core.List.{Perm}
use ultipa_go_driver.Prelude.{
  ◌≡◌, refl, sym, ap, Bool, true, false, ◌&&◌, ◌||◌, not, List, [], ◌∷◌, ◌++◌, Option, none, some,
  Text, Result, ok, err, ◌>>=◌, map, lookup, keep_if, all_of, if◌then◌else◌, gather, SameOutcome,
  gather-SameOutcome,
}
use ultipa_go_driver.Types.{type_eq}
use ultipa_go_driver.Rows.{Property, Schema, is_id_type, is_ignore}
use ultipa_go_driver.Rows.Compare.{
  CompareError, compare_property, compare_properties, compare_schemas, property_names, add_missing,
}

-- A property that no value is written for is passed over.
abbrev pub is_skipped : Property → Bool
is_skipped p = is_id_type p || is_ignore p

abbrev compare_entry :
    Bool → List (Text × Property) → Text × Property → Result CompareError (List Property)
compare_entry fit m (name, p) = elim (is_skipped p) [
  | true ↦ ok []
  | false ↦ compare_property fit p (lookup name m)
]

add_missing-append : (xs ys : List Property) → add_missing xs ys ≡ xs ++ ys
add_missing-append [] ys = refl
add_missing-append (x ∷ xs) ys = ap (◌∷◌ x) (add_missing-append xs ys)

chain-append :
    (r s : Result CompareError (List Property))
    → (r >>= (λ xs. s >>= (λ ys. ok (add_missing xs ys))))
      ≡ (r >>= (λ xs. s >>= (λ ys. ok (xs ++ ys))))
chain-append (ok xs) (ok ys) = ap ok (add_missing-append xs ys)
chain-append (ok xs) (err e) = refl
chain-append (err e) s = refl

abbrev chained :
    Result CompareError (List Property)
    → Result CompareError (List Property)
    → Result CompareError (List Property)
chained r s = do xs ← r; ys ← s; ok (add_missing xs ys)

skip-chained :
    (skipped : Bool) (r s : Result CompareError (List Property))
    → (elim skipped as (λ _. Result CompareError (List Property)) [
      | true ↦ s
      | false ↦ chained r s
    ])
      ≡ ((elim skipped as (λ _. Result CompareError (List Property)) [ true ↦ ok [] | false ↦ r ])
          >>= (λ xs. s >>= (λ ys. ok (xs ++ ys))))
skip-chained true r (ok xs) = refl
skip-chained true r (err e) = refl
skip-chained false r s = chain-append r s

compare_properties-gather :
    (fit : Bool) (l m : List (Text × Property))
    → compare_properties fit l m ≡ gather (compare_entry fit m) l
unfolding compare_properties gather
compare_properties-gather fit [] m = refl
compare_properties-gather fit ((name, p) ∷ l) m = rw (sym (compare_properties-gather fit l m)) (
    skip-chained (is_skipped p) (compare_property fit p (lookup name m))
      (compare_properties fit l m))

-- In whatever order the properties are compared, the comparison fails, or finds the same properties
-- missing as often.
pub compare_properties-SameOutcome :
    (fit : Bool) (l k m : List (Text × Property))
    → Perm l k
    → SameOutcome (compare_properties fit l m) (compare_properties fit k m)
compare_properties-SameOutcome fit l k m p =
    rw (compare_properties-gather fit l m, compare_properties-gather fit k m)
      (gather-SameOutcome (compare_entry fit m) p)

-- The property fits the schema on the server: it has the same type there, or is missing where it may.
abbrev pub fits : Bool → List (Text × Property) → Text × Property → Bool
fits fit m (name, p) =
    is_skipped p || elim (lookup name m) [ none ↦ fit | some q ↦ type_eq q.type p.type ]

abbrev pub is_missing : List (Text × Property) → Text × Property → Bool
is_missing m (name, p) = not (is_skipped p) && elim (lookup name m) [ none ↦ true | some q ↦ false ]

abbrev pub Outcome : Bool → List Property → Result CompareError (List Property) → Type 0
Outcome true missing r = r ≡ ok missing
Outcome false missing r = (e : CompareError) × (r ≡ err e)

chained-Outcome :
    (fitting : Bool) (missing xs : List Property) (r : Result CompareError (List Property))
    → Outcome fitting missing r
    → Outcome fitting (add_missing xs missing) (chained (ok xs) r)
chained-Outcome true missing xs r h = rw h refl
chained-Outcome false missing xs r (e, h) = (e, rw h refl)

-- A property that the server has, by whether its type is the same.
typed-Outcome :
    (same fit : Bool) (p : Property) (fitting : Bool) (missing : List Property)
    (r : Result CompareError (List Property))
    → Outcome fitting missing r
    → Outcome (if same then fitting else false) missing (
        chained
          (elim same as (λ _. Result CompareError (List Property)) [
            | true ↦ ok []
            | false ↦ elim fit as (λ _. Result CompareError (List Property)) [
              | true ↦ err (CompareError.mismatch p.name)
              | false ↦ err (CompareError.not_exist p.name)
            ]
          ])
          r)
typed-Outcome true fit p fitting missing r h = chained-Outcome fitting missing [] r h
typed-Outcome false true p fitting missing r h = (_, refl)
typed-Outcome false false p fitting missing r h = (_, refl)

-- One round, by what it asks of its property.
round-Outcome :
    (skipped fit : Bool) (p : Property) (o : Option Property) (fitting : Bool)
    (missing : List Property) (r : Result CompareError (List Property))
    → Outcome fitting missing r
    → Outcome
        (if skipped || elim o [ none ↦ fit | some q ↦ type_eq q.type p.type ]
          then fitting
          else false)
        (if not skipped && elim o [ none ↦ true | some q ↦ false ] then p ∷ missing else missing)
        (elim skipped [ true ↦ r | false ↦ chained (compare_property fit p o) r ])
unfolding compare_property
round-Outcome true fit p none fitting missing r h = h
round-Outcome true fit p (some q) fitting missing r h = h
round-Outcome false true p none fitting missing r h = chained-Outcome fitting missing (p ∷ []) r h
round-Outcome false false p none fitting missing r h = (_, refl)
round-Outcome false fit p (some q) fitting missing r h =
    typed-Outcome (type_eq q.type p.type) fit p fitting missing r h

map-if :
    (b : Bool) (e : Text × Property) (k : List (Text × Property))
    → map (λ (x : Text × Property). x.1) (if b then e ∷ k else k)
      ≡ (if b then e.1 ∷ map (λ x. x.1) k else map (λ x. x.1) k)
map-if true e k = refl
map-if false e k = refl

compare_properties-Outcome :
    (fit : Bool) (l m : List (Text × Property))
    → Outcome
        (all_of (fits fit m) l)
        (map (λ e. e.1) (keep_if (is_missing m) l))
        (compare_properties fit l m)
unfolding compare_properties
compare_properties-Outcome fit [] m = refl
compare_properties-Outcome fit ((name, p) ∷ l) m =
    rw (map-if (is_missing m (name, p)) (name, p) (keep_if (is_missing m) l)) (
      round-Outcome (is_skipped p) fit p (lookup name m) (all_of (fits fit m) l)
        (map (λ e. e.1) (keep_if (is_missing m) l)) (compare_properties fit l m)
        (compare_properties-Outcome fit l m))

-- The comparison of two schemas, by the maps of their properties.
pub compare_schemas-Outcome :
    (fit : Bool) (s1 s2 : Schema)
    → Outcome
        (all_of (fits fit (property_names s2.properties [])) (property_names s1.properties []))
        (map
          (λ e. e.1)
          (keep_if
            (is_missing (property_names s2.properties []))
            (property_names s1.properties [])))
        (compare_schemas (some s1) (some s2) fit)
unfolding compare_schemas
compare_schemas-Outcome fit s1 s2 =
    compare_properties-Outcome fit (property_names s1.properties [])
      (property_names s2.properties [])
