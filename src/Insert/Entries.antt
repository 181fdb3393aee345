-- ===== src/Insert/Entries.antt =====
-- sdk/api/insert.nodes.go: the first loop of `InsertNodesBatchAuto`, and for which schemas it makes a
-- batch.
use ultipa_go_driver.Prelude.{
  ℕ, suc, ◌≡◌, refl, sym, ap, ◌∙◌, inl, inr, Bool, true, false, ◌||◌, List, [], ◌∷◌, Option, none,
  some, Text, text_eq, text_eq→eq, Result, ok, lookup, insert, lookup-insert, any_of, All,
  if◌then◌else◌, Bool-cases, Option-cases, bind-ok, subst,
}
use ultipa_go_driver.Rows.{EntityRow, RowError, Schema}
use ultipa_go_driver.Insert.Grouping.{
  Batch, Grouped, batch_of, find_schema, add_row, group_row, group_rows,
}
use ultipa_go_driver.Insert.Rounds.{group_row_cases, some_inj, ok_inj}

-- Whether the map has an entry under a name.
abbrev pub has_entry : {V : Type 0} → Text → List (Text × V) → Bool
has_entry name m = elim (lookup name m) [ none ↦ false | some v ↦ true ]

entry_by_case :
    {V : Type 0} (v : V) (b : Bool) (o : Option V)
    → (elim (if b then some v else o) as (λ _. Bool) [ none ↦ false | some w ↦ true ])
      ≡ (b || elim o as (λ _. Bool) [ none ↦ false | some w ↦ true ])
entry_by_case v true o = refl
entry_by_case v false o = refl

pub has_entry-insert :
    {V : Type 0} (k name : Text) (v : V) (m : List (Text × V))
    → has_entry name (insert k v m) ≡ (text_eq k name || has_entry name m)
has_entry-insert k name v m =
    ap (λ o. elim o as (λ _. Bool) [ none ↦ false | some w ↦ true ]) (lookup-insert k name v m)
    ∙ entry_by_case v (text_eq k name) (lookup name m)

-- Every batch is that of the schema of its name.
abbrev pub AreNamed : List (Text × Batch) → Type 0
AreNamed batches = All (λ e. e.1.schema.name ≡ e.0) batches

abbrev pub of_schema : Text → Text × Batch → Bool
of_schema name e = text_eq e.1.schema.name name

insert-AreNamed :
    (name : Text) (b : Batch) (batches : List (Text × Batch))
    → b.schema.name ≡ name
    → AreNamed batches
    → AreNamed (insert name b batches)
unfolding insert
insert-AreNamed name b [] e all = (e, tt)
insert-AreNamed name b ((n, c) ∷ batches) e (h, all) = elim (Bool-cases (text_eq n name)) [
  | inl x ↦ rw x (e, all)
  | inr x ↦ rw x (h, insert-AreNamed name b batches e all)
]

entry_first :
    {V : Type 0} (v : V) (b c : Bool) (o : Option V)
    → c ≡ (elim o as (λ _. Bool) [ none ↦ false | some w ↦ true ])
    → (if b then true else c)
      ≡ (elim (if b then some v else o) as (λ _. Bool) [ none ↦ false | some w ↦ true ])
entry_first v true c o h = refl
entry_first v false c o h = h

pub or_false : (b : Bool) → b ≡ (b || false)
or_false true = refl
or_false false = refl

pub or_shuffle : (x y z : Bool) → ((x || y) || z) ≡ (y || (if x then true else z))
or_shuffle true true z = refl
or_shuffle true false z = refl
or_shuffle false y z = refl

pub any_of-AreNamed :
    (name : Text) (batches : List (Text × Batch))
    → AreNamed batches
    → any_of (of_schema name) batches ≡ has_entry name batches
unfolding lookup
any_of-AreNamed name [] all = refl
any_of-AreNamed name ((n, b) ∷ batches) (h, all) =
    ap (λ t. if text_eq t name then true else any_of (of_schema name) batches) h
    ∙ entry_first b (text_eq n name) (any_of (of_schema name) batches) (lookup name batches)
        (any_of-AreNamed name batches all)

lookup-AreNamed :
    (name : Text) (b : Batch) (batches : List (Text × Batch))
    → AreNamed batches
    → lookup name batches ≡ some b
    → b.schema.name ≡ name
unfolding lookup
lookup-AreNamed name b [] all h = cc
lookup-AreNamed name b ((n, c) ∷ batches) (e, all) h = elim (Bool-cases (text_eq n name)) [
  | inl x ↦ let same = some_inj (rw x at h) in let key = text_eq→eq n name x in cc
  | inr x ↦ lookup-AreNamed name b batches all (rw x at h)
]

find_schema-name :
    (name : Text) (s : Schema) (schemas : List Schema)
    → find_schema name schemas ≡ some s
    → s.name ≡ name
unfolding find_schema
find_schema-name name s [] h = cc
find_schema-name name s (t ∷ schemas) h = elim (Bool-cases (text_eq t.name name)) [
  | inl x ↦ let same = some_inj (rw x at h) in let key = text_eq→eq t.name name x in cc
  | inr x ↦ find_schema-name name s schemas (rw x at h)
]

batch_of-name :
    (schemas : List Schema) (name : Text) (b : Batch) (batches : List (Text × Batch))
    → AreNamed batches
    → batch_of schemas name batches ≡ ok b
    → b.schema.name ≡ name
unfolding batch_of
batch_of-name schemas name b batches all h = elim (Option-cases (lookup name batches)) [
  | inr (c, e) ↦
      let same = ok_inj (rw (batch_of, e) at h) in
      let key = lookup-AreNamed name c batches all e in cc
  | inl e ↦ elim (Option-cases (find_schema name schemas)) [
    | inl none_found ↦ cc (rw (batch_of, e, none_found) at h)
    | inr (t, f) ↦
        let same = ok_inj (rw (batch_of, e, f) at h) in
        let key = find_schema-name name t schemas f in cc
  ]
]

module _ {A : Type 0} (schemas : List Schema) (schema_of : A → Text)
    (convert : Schema → A → Result RowError EntityRow) where
  group_row-AreNamed :
      (index : ℕ) (a : A) (g g' : Grouped)
      → group_row schemas schema_of convert index a g ≡ ok g'
      → AreNamed g.batches
      → AreNamed g'.batches
  unfolding add_row
  group_row-AreNamed index a g g' h all =
      let (b, row, e, v, last) = group_row_cases schemas schema_of convert index a g g' h in
      subst (λ k. AreNamed k.batches) last
        (insert-AreNamed (schema_of a) _ g.batches
          (batch_of-name schemas (schema_of a) b g.batches all e) all)

  group_row-entries :
      (index : ℕ) (a : A) (g g' : Grouped) (name : Text)
      → group_row schemas schema_of convert index a g ≡ ok g'
      → has_entry name g'.batches ≡ (text_eq (schema_of a) name || has_entry name g.batches)
  unfolding add_row
  group_row-entries index a g g' name h =
      let (b, row, e, v, last) = group_row_cases schemas schema_of convert index a g g' h in
      subst
        (λ k. has_entry name k.batches ≡ (text_eq (schema_of a) name || has_entry name g.batches))
        last (has_entry-insert (schema_of a) name _ g.batches)

  pub group_rows-AreNamed :
      (index : ℕ) (rows : List A) (g g' : Grouped)
      → group_rows schemas schema_of convert index rows g ≡ ok g'
      → AreNamed g.batches
      → AreNamed g'.batches
  unfolding group_rows
  group_rows-AreNamed index [] g g' h all = subst (λ k. AreNamed k.batches) (ok_inj h) all
  group_rows-AreNamed index (a ∷ rows) g g' h all =
      let (next, e, rest) = bind-ok (group_row schemas schema_of convert index a g) _ g' h in
      group_rows-AreNamed (suc index) rows next g' rest (group_row-AreNamed index a g next e all)

  pub group_rows-entries :
      (index : ℕ) (rows : List A) (g g' : Grouped) (name : Text)
      → group_rows schemas schema_of convert index rows g ≡ ok g'
      → has_entry name g'.batches
        ≡ (has_entry name g.batches || any_of (λ a. text_eq (schema_of a) name) rows)
  unfolding group_rows
  group_rows-entries index [] g g' name h =
      sym (ap (λ k. has_entry name k.batches) (ok_inj h)) ∙ or_false (has_entry name g.batches)
  group_rows-entries index (a ∷ rows) g g' name h =
      let (next, e, rest) = bind-ok (group_row schemas schema_of convert index a g) _ g' h in
      let one = group_row-entries index a g next name e in
      let more = group_rows-entries (suc index) rows next g' name rest in
      more
      ∙ ap (λ b. b || any_of (λ x. text_eq (schema_of x) name) rows) one
      ∙ or_shuffle (text_eq (schema_of a) name) (has_entry name g.batches)
          (any_of (λ x. text_eq (schema_of x) name) rows)
