-- ===== src/Insert/Numbers.antt =====
-- sdk/api/insert.nodes.go: where the rows of a request are after the first loop of
-- `InsertNodesBatchAuto`, and under which numbers.
use ultipa_go_driver.Prelude.{
  ℕ, ◌≡◌, refl, sym, ◌∙◌, subst, inl, inr, List, [], ◌∷◌, ◌++◌, some, Text, text_eq, text_eq→eq,
  Result, ok, length, lookup, get_elem?, get_elem?-snoc, get_elem?-append, get_elem?-length,
  get_elem?-lt, length-snoc, lookup-nil, Bool-cases, Result-cases,
}
use mathlib.Core.List.{append_assoc, append-nil}
use ultipa_go_driver.Rows.{EntityRow, RowError, Schema}
use ultipa_go_driver.Insert.Grouping.{
  Batch, Grouped, no_groups, batch_of, add_row, row_number, group_row, group_rows,
}
use ultipa_go_driver.Insert.Rounds.{
  row_number-other, row_number-same, batches-same, batches-other, some_inj, ok_inj, batch_of_cases,
  group_row_cases,
}
use ultipa_go_driver.Insert.Sound.{
  IsSound, IsComplete, Placed, not_same, clash, add_row-number_new, group_row-IsSound,
}

module _ {A : Type 0} where
  module _ (schemas : List Schema) (schema_of : A → Text)
      (convert : Schema → A → Result RowError EntityRow) where
    -- A row that is placed stays placed.
    add_row-Placed_same :
        (done : List A) (g : Grouped) (a : A) (b : Batch) (row : EntityRow)
        → batch_of schemas (schema_of a) g.batches ≡ ok b
        → (i : ℕ) → Placed g (schema_of a) i
        → Placed (add_row (schema_of a) b row (length done) g) (schema_of a) i
    add_row-Placed_same done g a b row e i (c, k, r, found, at, number) =
        elim (batch_of_cases schemas (schema_of a) g b e) [
          | inr (missing, _) ↦ cc
          | inl there ↦
              let same : c ≡ b = some_inj (sym found ∙ there) in
              let at_b : get_elem? b.rows k ≡ some r =
                subst (λ x. get_elem? x.rows k ≡ some r) same at in
              (
                record b { rows = b.rows ++ (row ∷ []) },
                k,
                r,
                batches-same (schema_of a) b row (length done) g,
                get_elem?-append b.rows (row ∷ []) r k at_b,
                row_number-same (schema_of a) k b row (length done) g
                    ∙ rw (not_same (length b.rows) k (get_elem?-lt b.rows r k at_b)) number,
              )
        ]

    add_row-Placed :
        (done : List A) (g : Grouped) (a : A) (b : Batch) (row : EntityRow)
        → batch_of schemas (schema_of a) g.batches ≡ ok b
        → (i : ℕ) (n : Text) → Placed g n i
        → Placed (add_row (schema_of a) b row (length done) g) n i
    add_row-Placed done g a b row e i n placed = elim (Bool-cases (text_eq (schema_of a) n)) [
      | inr miss ↦
          let (c, k, r, found, at, number) = placed in
          (
            c,
            k,
            r,
            batches-other (schema_of a) n b row (length done) g miss ∙ found,
            at,
            row_number-other (schema_of a) n k b row (length done) g miss ∙ number,
          )
      | inl hit ↦
          subst (λ m. Placed g m i → Placed (add_row (schema_of a) b row (length done) g) m i)
            (text_eq→eq (schema_of a) n hit) (add_row-Placed_same done g a b row e i) placed
    ]

    add_row-Placed_new :
        (done : List A) (g : Grouped) (a : A) (b : Batch) (row : EntityRow)
        → Placed (add_row (schema_of a) b row (length done) g) (schema_of a) (length done)
    add_row-Placed_new done g a b row = (
      record b { rows = b.rows ++ (row ∷ []) },
      length b.rows,
      row,
      batches-same (schema_of a) b row (length done) g,
      get_elem?-length b.rows row,
      add_row-number_new schemas schema_of convert done g a b row (length b.rows) refl,
    )

    group_row-IsComplete :
        (done : List A) (g g' : Grouped) (a : A)
        → IsComplete schema_of done g
        → group_row schemas schema_of convert (length done) a g ≡ ok g'
        → IsComplete schema_of (done ++ (a ∷ [])) g'
    group_row-IsComplete done g g' a complete h =
        let (b, row, e, v, last) =
          group_row_cases schemas schema_of convert (length done) a g g' h in
        subst (IsComplete schema_of (done ++ (a ∷ []))) last (λ i x at.
          elim (get_elem?-snoc done a x i at) [
            | inl old ↦ add_row-Placed done g a b row e i (schema_of x) (complete i x old)
            | inr (end, new) ↦
                subst (λ n. Placed (add_row (schema_of a) b row (length done) g) (schema_of x) n)
                  (sym end)
                  (subst
                    (λ y.
                      Placed (add_row (schema_of a) b row (length done) g) (schema_of y)
                        (length done))
                    new (add_row-Placed_new done g a b row))
          ])

    group_rows-Tracks :
        (done rest : List A) (g g' : Grouped)
        → IsSound schema_of convert done g
        → IsComplete schema_of done g
        → group_rows schemas schema_of convert (length done) rest g ≡ ok g'
        → IsSound schema_of convert (done ++ rest) g' × IsComplete schema_of (done ++ rest) g'
    unfolding group_rows
    group_rows-Tracks done [] g g' sound complete h =
        subst (λ x. IsSound schema_of convert (done ++ []) x × IsComplete schema_of (done ++ []) x)
          (ok_inj h)
          (subst (λ rows. IsSound schema_of convert rows g × IsComplete schema_of rows g)
            (sym (append-nil done)) (sound, complete))
    group_rows-Tracks done (a ∷ rest) g g' sound complete h =
        elim (Result-cases (group_row schemas schema_of convert (length done) a g)) [
          | inr (e, x) ↦ cc (rw x at h)
          | inl (next, x) ↦
              subst (λ rows. IsSound schema_of convert rows g' × IsComplete schema_of rows g')
                (append_assoc done (a ∷ []) rest)
                (group_rows-Tracks (done ++ (a ∷ [])) rest next g'
                  (group_row-IsSound schemas schema_of convert done g next a sound x)
                  (group_row-IsComplete done g next a complete x)
                  (subst (λ n. group_rows schemas schema_of convert n rest next ≡ ok g')
                    (length-snoc done a) (rw x at h)))
        ]

    group_rows-start :
        (rows : List A) (g : Grouped)
        → group_rows schemas schema_of convert 0 rows no_groups ≡ ok g
        → IsSound schema_of convert rows g × IsComplete schema_of rows g
    group_rows-start rows g h =
        group_rows-Tracks [] rows no_groups g
          (λ name k b row found at. absurd (clash (sym (lookup-nil name) ∙ found))) (λ i a at. cc) h

    -- Where the rows of a request are grouped without an error: a row at a place of a batch is the
    -- conversion, by the schema of the batch, of the row of the request whose number the map has for that
    -- place, and this row names the batch; and each row of the request stands at some place of the batch
    -- that it names, for which the map has its number.
    pub group_rows_lem :
        (rows : List A) (g : Grouped) (name : Text) (k : ℕ) (b : Batch) (row : EntityRow) (i : ℕ)
        (a : A)
        → group_rows schemas schema_of convert 0 rows no_groups ≡ ok g
        → lookup name g.batches ≡ some b
        → get_elem? b.rows k ≡ some row
        → get_elem? rows i ≡ some a
        → ((x : A) × (get_elem? rows (row_number name k g) ≡ some x)
            × (schema_of x ≡ name)
            × (convert b.schema x ≡ ok row))
          × Placed g (schema_of a) i
    group_rows_lem rows g name k b row i a h found at_row at_a =
        let (sound, complete) = group_rows-start rows g h in
        (sound name k b row found at_row, complete i a at_a)
