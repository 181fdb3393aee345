-- ===== src/Insert/Rounds.antt =====
-- sdk/api/insert.nodes.go: one round of the first loop of `InsertNodesBatchAuto`, taken apart.
use ultipa_go_driver.Prelude.{
  ℕ, ◌≡◌, refl, sym, ap, ◌∙◌, ◌⊎◌, inl, inr, Bool, true, false, List, [], ◌∷◌, ◌++◌, Option, none,
  some, Text, text_eq, Result, ok, err, length, lookup, lookup-insert_other, lookup-insert_same,
  get_at, get_at-put_at, if◌then◌else◌, Option-cases, Result-cases, ◌==◌,
}
use ultipa_go_driver.Rows.{EntityRow, RowError, Schema}
use ultipa_go_driver.Insert.{InsertError}
use ultipa_go_driver.Insert.Grouping.{
  Batch, Grouped, batch_of, find_schema, row_result, row_number, numbers_in, or_zero, add_row,
  group_row,
}

pub or_zero_if :
    (b : Bool) (i : ℕ) (o : Option ℕ)
    → or_zero (if b then some i else o) ≡ (if b then i else or_zero o)
or_zero_if true i o = refl
or_zero_if false i o = refl

pub row_number-other :
    (name n : Text) (k : ℕ) (b : Batch) (row : EntityRow) (index : ℕ) (g : Grouped)
    → text_eq name n ≡ false
    → row_number n k (add_row name b row index g) ≡ row_number n k g
unfolding add_row row_number
row_number-other name n k b row index g miss =
    ap (λ o. or_zero (get_at k (numbers_in o))) (lookup-insert_other name n _ g.row_numbers miss)

pub row_number-same :
    (name : Text) (k : ℕ) (b : Batch) (row : EntityRow) (index : ℕ) (g : Grouped)
    → row_number name k (add_row name b row index g)
      ≡ (if length b.rows == k then index else row_number name k g)
unfolding add_row row_number
row_number-same name k b row index g =
    ap (λ o. or_zero (get_at k (numbers_in o))) (lookup-insert_same name _ g.row_numbers)
    ∙ ap or_zero (get_at-put_at (length b.rows) k index (numbers_in (lookup name g.row_numbers)))
    ∙ or_zero_if (length b.rows == k) index (get_at k (numbers_in (lookup name g.row_numbers)))

-- The batch of a name after a row was added to that name, and of any other name.
pub batches-same :
    (name : Text) (b : Batch) (row : EntityRow) (index : ℕ) (g : Grouped)
    → lookup name (add_row name b row index g).batches
      ≡ some (record b { rows = b.rows ++ (row ∷ []) })
unfolding add_row
batches-same name b row index g = lookup-insert_same name _ g.batches

pub batches-other :
    (name n : Text) (b : Batch) (row : EntityRow) (index : ℕ) (g : Grouped)
    → text_eq name n ≡ false
    → lookup n (add_row name b row index g).batches ≡ lookup n g.batches
unfolding add_row
batches-other name n b row index g miss = lookup-insert_other name n _ g.batches miss

pub some_inj : {A : Type 0} {a b : A} → some a ≡ some b → a ≡ b
some_inj h = cc

pub ok_inj : {A : Type 0} {a b : A} → ◌≡◌ {A = Result InsertError A} (ok a) (ok b) → a ≡ b
ok_inj h = cc

-- The batch that a row is added to: the one in the map, or an empty one.
pub batch_of_cases :
    (schemas : List Schema) (name : Text) (g : Grouped) (b : Batch)
    → batch_of schemas name g.batches ≡ ok b
    → (lookup name g.batches ≡ some b) ⊎ ((lookup name g.batches ≡ none) × (b.rows ≡ []))
unfolding batch_of
batch_of_cases schemas name g b h = elim (Option-cases (lookup name g.batches)) [
  | inr (c, e) ↦ inl (e ∙ ap some (ok_inj (rw (batch_of, e) at h)))
  | inl e ↦ elim (Option-cases (find_schema name schemas)) [
    | inl none_found ↦ cc (rw (batch_of, e, none_found) at h)
    | inr (s, f) ↦ inr (e, ap (λ x. x.rows) (sym (ok_inj (rw (batch_of, e, f) at h))))
  ]
]

pub row_result-ok : {A : Type 0} (r : Result RowError A) (a : A) → row_result r ≡ ok a → r ≡ ok a
row_result-ok (ok b) a h = cc
row_result-ok (err RowError.panics) a h = cc
row_result-ok (err _) a h = cc

pub group_row_cases :
    {A : Type 0} (schemas : List Schema) (schema_of : A → Text)
    (convert : Schema → A → Result RowError EntityRow) (index : ℕ) (a : A) (g g' : Grouped)
    → group_row schemas schema_of convert index a g ≡ ok g'
    → (b : Batch) × (row : EntityRow) × (batch_of schemas (schema_of a) g.batches ≡ ok b)
      × (convert b.schema a ≡ ok row)
      × (add_row (schema_of a) b row index g ≡ g')
unfolding group_row
group_row_cases schemas schema_of convert index a g g' h =
    elim (Result-cases (batch_of schemas (schema_of a) g.batches)) [
      | inr (e, x) ↦ cc (rw x at h)
      | inl (b, x) ↦ elim (Result-cases (row_result (convert b.schema a))) [
        | inl (row, y) ↦
            (b, row, x, row_result-ok (convert b.schema a) row y, ok_inj (rw (x, y) at h))
        | inr (e, y) ↦ cc (rw (x, y) at h)
      ]
    ]
