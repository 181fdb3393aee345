-- ===== src/Rows/Collected.antt =====
-- sdk/structs/node.go and edge.go: `GetSchemasOfNodeList` and `GetSchemasOfEdgeList`, the schemas by
-- which a list of rows could be inserted. `schema_of` and `values_of` are the fields of a row. Go ranges
-- over the map of the values in an order of its own; here it is that of the list.
use ultipa_go_driver.Prelude.{
  ◌≡◌, refl, sym, ap, subst, Bool, true, false, ◌&&◌, ◌||◌, not, List, [], ◌∷◌, ◌++◌, Option, none,
  some, Text, text_eq, text_eq_iff, text_eq→eq, Bool-cases, inl, inr, any_of, Result, ok, err,
  ◌>>=◌, map, lookup, insert, lookup-insert, arith, if◌then◌else◌, bind-ok, ok_inj,
}
use ultipa_go_driver.Types.{PropertyType}
use ultipa_go_driver.Rows.{Property, Schema, Values, RowError}

-- The loop over the values of one row: each name is appended where the list lacks it.
unfoldable pub add_names : List Text → Values → List Text
add_names names [] = names
add_names names ((name, v) ∷ rest) =
    add_names (if any_of (text_eq name) names then names else names ++ (name ∷ [])) rest

abbrev names_in : Option (List Text) → List Text
names_in none = []
names_in (some names) = names

abbrev of_values : Option Values → Result RowError Values
of_values none = err RowError.panics
of_values (some d) = ok d

abbrev untyped : Text → Property
untyped name = record { name = name; type = PropertyType.unset; sub_types = none }

abbrev schema_with : Text × List Text → Text × Schema
schema_with (name, names) = (name, record { name = name; properties = map untyped names })

module _ {A : Type 0} (schema_of : A → Text) (values_of : A → Option Values) where
  -- The first loop; a row without values panics.
  unfoldable pub collect :
      List A → List (Text × List Text) → Result RowError (List (Text × List Text))
  unfolding add_names lookup insert
  collect [] m = ok m
  collect (a ∷ rest) m = do
    d ← of_values (values_of a)
    collect rest (insert (schema_of a) (add_names (names_in (lookup (schema_of a) m)) d) m)

  -- The second loop makes a schema of each entry, whose properties have no type yet.
  unfoldable pub get_schemas : List A → Result RowError (List (Text × Schema))
  unfolding collect
  get_schemas rows = do m ← collect rows []; ok (map schema_with m)

abbrev pub has_value : Text → Values → Bool
has_value name [] = false
has_value name ((n, v) ∷ d) = if text_eq n name then true else has_value name d

any_of-snoc :
    (name n : Text) (names : List Text)
    → any_of (text_eq name) (names ++ (n ∷ [])) ≡ (any_of (text_eq name) names || text_eq name n)
any_of-snoc name n [] = ground arith
any_of-snoc name n (m ∷ names) = ground (arith, any_of-snoc name n names)

any_of-add_names :
    (name : Text) (names : List Text) (d : Values)
    → any_of (text_eq name) (add_names names d) ≡ (any_of (text_eq name) names || has_value name d)
unfolding add_names
any_of-add_names name names [] = ground arith
any_of-add_names name names ((n, v) ∷ d) = ground (
  arith,
  any_of-snoc name n names,
  text_eq_iff n name,
  text_eq_iff name n,
  any_of-add_names name (if any_of (text_eq n) names then names else names ++ (n ∷ [])) d,
)

module _ {A : Type 0} (schema_of : A → Text) (values_of : A → Option Values) where
  abbrev pub has_property : Text → Text → A → Bool
  has_property schema name a =
      text_eq (schema_of a) schema
      && elim (values_of a) [ none ↦ false | some d ↦ has_value name d ]

  of_values-some : (v : Option Values) (d : Values) → of_values v ≡ ok d → v ≡ some d
  of_values-some none d h = cc
  of_values-some (some e) d h = cc

  -- What one row adds to the names of a schema.
  added :
      (schema name : Text) (a : A) (d : Values) (m : List (Text × List Text))
      → values_of a ≡ some d
      → any_of (text_eq name) (
          names_in (
            lookup schema
              (insert (schema_of a) (add_names (names_in (lookup (schema_of a) m)) d) m)))
        ≡ (any_of (text_eq name) (names_in (lookup schema m)) || has_property schema name a)
  added schema name a d m h = elim (Bool-cases (text_eq (schema_of a) schema)) [
    | inl same ↦
        rw
          (
            lookup-insert (schema_of a) schema (add_names (names_in (lookup (schema_of a) m)) d) m,
            same,
            h,
            text_eq→eq (schema_of a) schema same,
            any_of-add_names name (names_in (lookup schema m)) d,
          )
          refl
    | inr other ↦
        rw
          (
            lookup-insert (schema_of a) schema (add_names (names_in (lookup (schema_of a) m)) d) m,
            h,
            other,
          )
          (ground arith)
  ]

  collect-names :
      (schema name : Text) (rows : List A) (m found : List (Text × List Text))
      → collect schema_of values_of rows m ≡ ok found
      → any_of (text_eq name) (names_in (lookup schema found)) ≡ (
          any_of (text_eq name) (names_in (lookup schema m))
          || any_of (has_property schema name) rows)
  unfolding collect
  collect-names schema name [] m found h = rw (sym (ok_inj h)) (ground arith)
  collect-names schema name (a ∷ rows) m found h =
      let (d, hd, rest) = bind-ok (of_values (values_of a)) _ found h in
      let some_values = of_values-some (values_of a) d hd in
      ground (
        arith,
        added schema name a d m some_values,
        collect-names schema name rows
            (insert (schema_of a) (add_names (names_in (lookup (schema_of a) m)) d) m) found rest,
      )

-- No name stands twice in the list.
abbrev pub all_distinct : List Text → Bool
all_distinct [] = true
all_distinct (x ∷ xs) = not (any_of (text_eq x) xs) && all_distinct xs

all_distinct-snoc :
    (n : Text) (names : List Text)
    → any_of (text_eq n) names ≡ false
    → all_distinct names ≡ true
    → all_distinct (names ++ (n ∷ [])) ≡ true
all_distinct-snoc n [] fresh h = refl
all_distinct-snoc n (m ∷ names) fresh h =
    ground
      (arith, any_of-snoc m n names, text_eq_iff m n, text_eq_iff n m, all_distinct-snoc n names)

all_distinct-add_names :
    (names : List Text) (d : Values)
    → all_distinct names ≡ true
    → all_distinct (add_names names d) ≡ true
unfolding add_names
all_distinct-add_names names [] h = h
all_distinct-add_names names ((n, v) ∷ d) h = elim (Bool-cases (any_of (text_eq n) names)) [
  | inl seen ↦ rw seen (all_distinct-add_names names d h)
  | inr fresh ↦
      rw fresh (all_distinct-add_names (names ++ (n ∷ [])) d (all_distinct-snoc n names fresh h))
]

abbrev pub names_of_properties : Option Schema → List Text
names_of_properties none = []
names_of_properties (some s) = map (λ (p : Property). p.name) s.properties

map-name : (names : List Text) → map (λ (p : Property). p.name) (map untyped names) ≡ names
map-name [] = refl
map-name (n ∷ names) = ap (◌∷◌ n) (map-name names)

names_of_properties-lookup :
    (schema : Text) (m : List (Text × List Text))
    → names_of_properties (lookup schema (map schema_with m)) ≡ names_in (lookup schema m)
unfolding lookup
names_of_properties-lookup schema [] = refl
names_of_properties-lookup schema ((n, names) ∷ m) =
    ground (arith, map-name names, names_of_properties-lookup schema m)

module _ {A : Type 0} (schema_of : A → Text) (values_of : A → Option Values) where
  abbrev IsDistinct : List (Text × List Text) → Type 0
  IsDistinct m = (schema : Text) → all_distinct (names_in (lookup schema m)) ≡ true

  insert-IsDistinct :
      (k : Text) (names : List Text) (m : List (Text × List Text))
      → IsDistinct m
      → all_distinct names ≡ true
      → IsDistinct (insert k names m)
  insert-IsDistinct k names m h e schema = elim (Bool-cases (text_eq k schema)) [
    | inl same ↦ rw (lookup-insert k schema names m, same) e
    | inr other ↦ rw (lookup-insert k schema names m, other) (h schema)
  ]

  collect-IsDistinct :
      (rows : List A) (m found : List (Text × List Text))
      → collect schema_of values_of rows m ≡ ok found
      → IsDistinct m
      → IsDistinct found
  unfolding collect
  collect-IsDistinct [] m found h e = subst IsDistinct (ok_inj h) e
  collect-IsDistinct (a ∷ rows) m found h e =
      let (d, _, rest) = bind-ok (of_values (values_of a)) _ found h in
      collect-IsDistinct rows _ found rest (
        insert-IsDistinct (schema_of a) _ m e
          (all_distinct-add_names (names_in (lookup (schema_of a) m)) d (e (schema_of a))))

  -- The schemas that are collected from rows have each name of a property once, and under the name of
  -- a schema exactly the names that some row of that schema has a value under.
  pub get_schemas_lem :
      (rows : List A) (found : List (Text × Schema)) (schema name : Text)
      → get_schemas schema_of values_of rows ≡ ok found
      → (all_distinct (names_of_properties (lookup schema found)) ≡ true)
        × (any_of (text_eq name) (names_of_properties (lookup schema found))
            ≡ any_of (has_property schema_of values_of schema name) rows)
  unfolding get_schemas lookup
  get_schemas_lem rows found schema name h =
      let (m, hm, e) = bind-ok (collect schema_of values_of rows []) _ found h in
      rw (sym (ok_inj e), names_of_properties-lookup schema m)
        (
          collect-IsDistinct rows [] m hm (λ s. refl) schema,
          collect-names schema_of values_of schema name rows [] m hm,
        )
