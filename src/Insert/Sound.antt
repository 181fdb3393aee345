-- ===== src/Insert/Sound.antt =====
-- sdk/api/insert.nodes.go: the rows of the batches come from the request, under their numbers.
use ultipa_go_driver.Prelude.{
  ℕ, ◌<◌, ◌≡◌, refl, sym, ap, ◌∙◌, subst, inl, inr, false, List, [], ◌∷◌, ◌++◌, none, some, Text,
  text_eq, text_eq→eq, Result, ok, length, get_elem?, lookup, get_elem?-snoc, get_elem?-append,
  get_elem?-length, get_elem?-lt, Bool-cases, arith, ==_iff, ◌==◌,
}
use ultipa_go_driver.Rows.{EntityRow, RowError, Schema}
use ultipa_go_driver.Insert.Grouping.{Batch, Grouped, batch_of, row_number, add_row, group_row}
use ultipa_go_driver.Insert.Rounds.{
  row_number-other, row_number-same, batches-same, batches-other, some_inj, batch_of_cases,
  group_row_cases,
}

pub clash : {V : Type 0} {v : V} → none ≡ some v → ⊥
clash h = cc

-- A batch has a row at a place for which the map has this number.
abbrev pub Placed : Grouped → Text → ℕ → Type 0
Placed g name i =
    (b : Batch) × (k : ℕ) × (row : EntityRow) × (lookup name g.batches ≡ some b)
    × (get_elem? b.rows k ≡ some row)
    × (row_number name k g ≡ i)

pub not_same : (n k : ℕ) → k < n → (n == k) ≡ false
not_same n k h = ground arith

module _ {A : Type 0} where
  -- Every row of a batch is the conversion, by the schema of the batch, of the row of the request whose
  -- number the map has for it, and that row names the batch.
  abbrev pub IsSound :
      (A → Text) → (Schema → A → Result RowError EntityRow) → List A → Grouped → Type 0
  IsSound schema_of convert rows g =
      (name : Text) (k : ℕ) (b : Batch) (row : EntityRow)
      → lookup name g.batches ≡ some b
      → get_elem? b.rows k ≡ some row
      → (a : A) × (get_elem? rows (row_number name k g) ≡ some a)
        × (schema_of a ≡ name)
        × (convert b.schema a ≡ ok row)

  -- Every row of the request stands in the batch that it names, at a place for which the map has its
  -- number.
  abbrev pub IsComplete : (A → Text) → List A → Grouped → Type 0
  IsComplete schema_of rows g =
      (i : ℕ) (a : A) → get_elem? rows i ≡ some a → Placed g (schema_of a) i

  module _ (schemas : List Schema) (schema_of : A → Text)
      (convert : Schema → A → Result RowError EntityRow) where
    add_row-IsSound_other :
        (done : List A) (g : Grouped) (a : A) (b : Batch) (row : EntityRow)
        → IsSound schema_of convert done g
        → (name : Text) (k : ℕ) (c : Batch) (r : EntityRow) → text_eq (schema_of a) name ≡ false
        → lookup name (add_row (schema_of a) b row (length done) g).batches ≡ some c
        → get_elem? c.rows k ≡ some r
        → (x : A) × (get_elem?
              (done ++ (a ∷ []))
              (row_number name k (add_row (schema_of a) b row (length done) g))
            ≡ some x)
          × (schema_of x ≡ name)
          × (convert c.schema x ≡ ok r)
    add_row-IsSound_other done g a b row sound name k c r miss h at =
        let (x, e, n, v) =
          sound name k c r (sym (batches-other (schema_of a) name b row (length done) g miss) ∙ h)
            at in
        (
          x,
          rw (row_number-other (schema_of a) name k b row (length done) g miss)
              (get_elem?-append done (a ∷ []) x (row_number name k g) e),
          n,
          v,
        )

    -- An old place of the batch that the row is added to …
    add_row-IsSound_old :
        (done : List A) (g : Grouped) (a : A) (b : Batch) (row : EntityRow)
        → IsSound schema_of convert done g
        → batch_of schemas (schema_of a) g.batches ≡ ok b
        → (k : ℕ) (r : EntityRow) → get_elem? b.rows k ≡ some r
        → (x : A) × (get_elem?
              (done ++ (a ∷ []))
              (row_number (schema_of a) k (add_row (schema_of a) b row (length done) g))
            ≡ some x)
          × (schema_of x ≡ schema_of a)
          × (convert b.schema x ≡ ok r)
    add_row-IsSound_old done g a b row sound e k r at =
        elim (batch_of_cases schemas (schema_of a) g b e) [
          | inr (_, empty) ↦ cc (subst (λ rs. get_elem? rs k ≡ some r) empty at)
          | inl found ↦
              let (x, f, n, v) = sound (schema_of a) k b r found at in
              (
                x,
                rw
                    (
                      row_number-same (schema_of a) k b row (length done) g,
                      not_same (length b.rows) k (get_elem?-lt b.rows r k at),
                    )
                    (get_elem?-append done (a ∷ []) x (row_number (schema_of a) k g) f),
                n,
                v,
              )
        ]

    -- … and the new one.
    pub add_row-number_new :
        (done : List A) (g : Grouped) (a : A) (b : Batch) (row : EntityRow) (k : ℕ)
        → k ≡ length b.rows
        → row_number (schema_of a) k (add_row (schema_of a) b row (length done) g) ≡ length done
    add_row-number_new done g a b row k e =
        row_number-same (schema_of a) k b row (length done) g
        ∙ rw ((==_iff (length b.rows) k).1 (sym e)) refl

    add_row-IsSound_same :
        (done : List A) (g : Grouped) (a : A) (b : Batch) (row : EntityRow)
        → IsSound schema_of convert done g
        → batch_of schemas (schema_of a) g.batches ≡ ok b
        → convert b.schema a ≡ ok row
        → (k : ℕ) (c : Batch) (r : EntityRow)
        → lookup (schema_of a) (add_row (schema_of a) b row (length done) g).batches ≡ some c
        → get_elem? c.rows k ≡ some r
        → (x : A) × (get_elem?
              (done ++ (a ∷ []))
              (row_number (schema_of a) k (add_row (schema_of a) b row (length done) g))
            ≡ some x)
          × (schema_of x ≡ schema_of a)
          × (convert c.schema x ≡ ok r)
    add_row-IsSound_same done g a b row sound e v k c r h at =
        let same : record b { rows = b.rows ++ (row ∷ []) } ≡ c =
          some_inj (sym (batches-same (schema_of a) b row (length done) g) ∙ h) in
        subst
          (λ c'.
            (x : A) × (get_elem? (done ++ (a ∷ []))
                (row_number (schema_of a) k (add_row (schema_of a) b row (length done) g))
              ≡ some x)
            × (schema_of x ≡ schema_of a)
            × (convert c'.schema x ≡ ok r))
          same
          (elim (get_elem?-snoc b.rows row r k (ap (λ c'. get_elem? c'.rows k) same ∙ at)) [
            | inl old ↦ add_row-IsSound_old done g a b row sound e k r old
            | inr (end, new) ↦ (
              a,
              rw (add_row-number_new done g a b row k end) (get_elem?-length done a),
              refl,
              v ∙ ap ok new,
            )
          ])

    pub group_row-IsSound :
        (done : List A) (g g' : Grouped) (a : A)
        → IsSound schema_of convert done g
        → group_row schemas schema_of convert (length done) a g ≡ ok g'
        → IsSound schema_of convert (done ++ (a ∷ [])) g'
    group_row-IsSound done g g' a sound h =
        let (b, row, e, v, last) =
          group_row_cases schemas schema_of convert (length done) a g g' h in
        subst (IsSound schema_of convert (done ++ (a ∷ []))) last (λ name k c r found at.
          elim (Bool-cases (text_eq (schema_of a) name)) [
            | inr miss ↦ add_row-IsSound_other done g a b row sound name k c r miss found at
            | inl hit ↦
                subst
                  (λ n.
                    lookup n (add_row (schema_of a) b row (length done) g).batches ≡ some c
                    → (x : A) × (get_elem? (done ++ (a ∷ []))
                          (row_number n k (add_row (schema_of a) b row (length done) g))
                        ≡ some x)
                      × (schema_of x ≡ n)
                      × (convert c.schema x ≡ ok r))
                  (text_eq→eq (schema_of a) name hit)
                  (λ same. add_row-IsSound_same done g a b row sound e v k c r same at) found
          ])
