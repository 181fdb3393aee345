-- ===== src/Items/Columns.antt =====
-- sdk/http/dataitem.go and sdk/structs/table.go: a table that is read and taken by the names of its
-- columns.
use ultipa_go_driver.Prelude.{
  ℕ, zero, suc, ◌≡◌, refl, sym, ap, ◌∙◌, subst, inl, inr, Bool, true, false, List, [], ◌∷◌, none,
  some, Text, text_eq, Result, ok, err, traverse, bind-ok, ok_inj, length, get_elem?, insert,
  lookup, lookup-insert_other, lookup-insert_same, some_inj, if◌then◌else◌, All, Bool-cases, arith,
}
use ultipa_go_driver.Types.{PropertyType, Value, Table}
use ultipa_go_driver.Runtime.{Runtime}
use ultipa_go_driver.Serial.{SerialError}
use ultipa_go_driver.Serial.Decode.{convert_bytes_to_interface}
use ultipa_go_driver.Rows.{Values}
use ultipa_go_driver.Items.Tables.{GoTable, field_value, row_kv, to_kv, read_fields, read_table}

-- No two headers have the same name.
abbrev pub has_name : Text → List (Text × PropertyType) → Bool
has_name n [] = false
has_name n ((m, t) ∷ rest) = if text_eq m n then true else has_name n rest

abbrev pub AreDistinct : List (Text × PropertyType) → Type 0
AreDistinct [] = Unit {0}
AreDistinct ((n, t) ∷ rest) = (has_name n rest ≡ false) × AreDistinct rest

traverse-get {ℓ} :
    {E : Type 0} {A : Type ℓ} {B : Type 0} (f : A → Result E B) (xs : List A) (ys : List B) (i : ℕ)
    (x : A)
    → traverse f xs ≡ ok ys
    → get_elem? xs i ≡ some x
    → (y : B) × (get_elem? ys i ≡ some y) × (f x ≡ ok y)
traverse-get f [] ys i x h at = cc
traverse-get f (a ∷ xs) ys zero x h at =
    let (b, e, g) = bind-ok (f a) _ ys h in
    let (bs, _, g') = bind-ok (traverse f xs) _ ys g in
    subst (λ zs. (y : _) × (get_elem? zs 0 ≡ some y) × (f x ≡ ok y)) (ok_inj g')
      (b, refl, ap f (sym (some_inj at)) ∙ e)
traverse-get f (a ∷ xs) ys (suc j) x h at =
    let (b, _, g) = bind-ok (f a) _ ys h in
    let (bs, e, g') = bind-ok (traverse f xs) _ ys g in
    subst (λ zs. (y : _) × (get_elem? zs (suc j) ≡ some y) × (f x ≡ ok y)) (ok_inj g')
      (traverse-get f xs bs j x e at)

-- Rows that all have a length are read with that length, and a loop that succeeds on each succeeds.
traverse-All {ℓ} :
    {E : Type 0} {A : Type ℓ} {B : Type 0} (f : A → Result E B) (P : A → Type 0) (Q : B → Type 0)
    → ((a : A) (b : B) → P a → f a ≡ ok b → Q b)
    → (xs : List A) (ys : List B) → All P xs
    → traverse f xs ≡ ok ys
    → All Q ys
traverse-All f P Q step [] ys all h = subst (All Q) (ok_inj h) tt
traverse-All f P Q step (x ∷ xs) ys (p, ps) h =
    let (b, e, g) = bind-ok (f x) _ ys h in
    let (bs, e', g') = bind-ok (traverse f xs) _ ys g in
    subst (All Q) (ok_inj g') (step x b p e, traverse-All f P Q step xs bs ps e')

traverse_total {ℓ} :
    {E : Type 0} {A : Type ℓ} {B : Type 0} (f : A → Result E B) (P : A → Type 0)
    → ((a : A) → P a → (b : B) × (f a ≡ ok b))
    → (xs : List A) → All P xs
    → (ys : List B) × (traverse f xs ≡ ok ys)
traverse_total f P step [] all = ([], refl)
traverse_total f P step (x ∷ xs) (p, ps) =
    let (b, e) = step x p in
    let (bs, e') = traverse_total f P step xs ps in (b ∷ bs, rw (e, e') refl)

-- The values of one row under the names of the headers.
row_kv-fresh :
    (hs : List (Text × PropertyType)) (vs : List Value) (d kv : Values) (n : Text)
    → has_name n hs ≡ false
    → row_kv hs vs d ≡ ok kv
    → lookup n kv ≡ lookup n d
unfolding row_kv
row_kv-fresh [] vs d kv n fresh h = ap (lookup n) (sym (ok_inj h))
row_kv-fresh ((m, t) ∷ hs) [] d kv n fresh h = cc
row_kv-fresh ((m, t) ∷ hs) (v ∷ vs) d kv n fresh h = elim (Bool-cases (text_eq m n)) [
  | inl hit ↦ cc (rw hit at fresh)
  | inr miss ↦
      row_kv-fresh hs vs (insert m v d) kv n (rw miss at fresh) h ∙ lookup-insert_other m n v d miss
]

row_kv-at :
    (hs : List (Text × PropertyType)) (vs : List Value) (d kv : Values) (j : ℕ) (n : Text)
    (t : PropertyType) (v : Value)
    → AreDistinct hs
    → row_kv hs vs d ≡ ok kv
    → get_elem? hs j ≡ some (n, t)
    → get_elem? vs j ≡ some v
    → lookup n kv ≡ some v
unfolding row_kv
row_kv-at [] vs d kv j n t v ds h at_h at_v = cc
row_kv-at ((m, u) ∷ hs) [] d kv j n t v ds h at_h at_v = cc
row_kv-at ((m, u) ∷ hs) (w ∷ vs) d kv zero n t v (fresh, ds) h at_h at_v =
    let same_name : m ≡ n = ap (λ x. x.0) (some_inj at_h) in
    subst (λ k. lookup k kv ≡ some v) same_name
      (row_kv-fresh hs vs (insert m w d) kv m fresh h ∙ lookup-insert_same m w d ∙ at_v)
row_kv-at ((m, u) ∷ hs) (w ∷ vs) d kv (suc j) n t v (fresh, ds) h at_h at_v =
    row_kv-at hs vs (insert m w d) kv j n t v ds h at_h at_v

row_kv_total :
    (hs : List (Text × PropertyType)) (vs : List Value) (d : Values)
    → length vs ≡ length hs
    → (kv : Values) × (row_kv hs vs d ≡ ok kv)
unfolding row_kv
row_kv_total [] vs d h = (d, refl)
row_kv_total ((m, t) ∷ hs) [] d h = absurd (omega arith)
row_kv_total ((m, t) ∷ hs) (v ∷ vs) d h = row_kv_total hs vs (insert m v d) (omega arith)

field_value-ok : (r : Result SerialError Value) (v : Value) → field_value r ≡ ok v → r ≡ ok v
field_value-ok (ok w) v h = cc
field_value-ok (err SerialError.panics) v h = cc
field_value-ok (err _) v h = cc

module _ (rt : Runtime) where
  length-read_fields :
      (hs : List (Text × PropertyType)) (bs : List Text) (vs : List Value)
      → read_fields rt hs bs ≡ ok vs
      → length vs ≡ length bs
  unfolding read_fields
  length-read_fields hs [] vs h = ap length (sym (ok_inj h))
  length-read_fields [] (b ∷ bs) vs h = cc
  length-read_fields ((n, t) ∷ hs) (b ∷ bs) vs h =
      let (v, e, g) = bind-ok (field_value (convert_bytes_to_interface rt b t none)) _ vs h in
      let (ws, e', g') = bind-ok (read_fields rt hs bs) _ vs g in
      ap length (sym (ok_inj g')) ∙ ap suc (length-read_fields hs bs ws e')

  -- One field, by the type of its header.
  abbrev Column : List Value → ℕ → PropertyType → Text → Type 0
  Column vs j t b =
      (v : Value) × (get_elem? vs j ≡ some v) × (convert_bytes_to_interface rt b t none ≡ ok v)

  read_fields-at :
      (hs : List (Text × PropertyType)) (bs : List Text) (vs : List Value) (j : ℕ) (n : Text)
      (t : PropertyType) (b : Text)
      → read_fields rt hs bs ≡ ok vs
      → get_elem? hs j ≡ some (n, t)
      → get_elem? bs j ≡ some b
      → Column vs j t b
  unfolding read_fields
  read_fields-at hs [] vs j n t b h at_h at_b = cc
  read_fields-at [] (c ∷ bs) vs j n t b h at_h at_b = cc
  read_fields-at ((m, u) ∷ hs) (c ∷ bs) vs zero n t b h at_h at_b =
      let (v, e, g) = bind-ok (field_value (convert_bytes_to_interface rt c u none)) _ vs h in
      let (ws, _, g') = bind-ok (read_fields rt hs bs) _ vs g in
      let same_type : u ≡ t = ap (λ x. x.1) (some_inj at_h) in
      subst (λ zs. Column zs 0 t b) (ok_inj g')
        (
          v,
          refl,
          subst (λ x. convert_bytes_to_interface rt x t none ≡ ok v) (some_inj at_b)
              (subst (λ x. convert_bytes_to_interface rt c x none ≡ ok v) same_type
                (field_value-ok _ v e)),
        )
  read_fields-at ((m, u) ∷ hs) (c ∷ bs) vs (suc j) n t b h at_h at_b =
      let (v, _, g) = bind-ok (field_value (convert_bytes_to_interface rt c u none)) _ vs h in
      let (ws, e, g') = bind-ok (read_fields rt hs bs) _ vs g in
      subst (λ zs. Column zs (suc j) t b) (ok_inj g') (read_fields-at hs bs ws j n t b e at_h at_b)

  -- The row of a converted table, by names.
  abbrev ByName : List Values → ℕ → Text → PropertyType → Text → Type 0
  ByName kvs i n t b =
      (kv : Values) × (v : Value) × (get_elem? kvs i ≡ some kv)
      × (lookup n kv ≡ some v)
      × (convert_bytes_to_interface rt b t none ≡ ok v)

  to_kv-rows :
      (t : Table) (rows : List (List Value)) (kvs : List Values) (i j : ℕ) (row : List Text)
      (n : Text) (ty : PropertyType) (b : Text)
      → AreDistinct t.headers
      → traverse (read_fields rt t.headers) t.table_rows ≡ ok rows
      → traverse (λ vs. row_kv t.headers vs []) rows ≡ ok kvs
      → get_elem? t.table_rows i ≡ some row
      → get_elem? t.headers j ≡ some (n, ty)
      → get_elem? row j ≡ some b
      → ByName kvs i n ty b
  to_kv-rows t rows kvs i j row n ty b ds e f at_row at_h at_b =
      let (vs, at_vs, read) =
        traverse-get (read_fields rt t.headers) t.table_rows rows i row e at_row in
      let (kv, at_kv, made) = traverse-get (λ us. row_kv t.headers us []) rows kvs i vs f at_vs in
      let (v, at_v, converted) = read_fields-at t.headers row vs j n ty b read at_h at_b in
      (kv, v, at_kv, row_kv-at t.headers vs [] kv j n ty v ds made at_h at_v, converted)

  -- A table whose headers have distinct names and whose rows have a field for every header, and that
  -- is converted without an error, is taken by names without an error, and the row at a place has under
  -- the name of a header the value of its field there, converted by the type of that header.
  pub to_kv-read_table :
      (t : Table) (g : GoTable) (i j : ℕ) (row : List Text) (n : Text) (ty : PropertyType)
      (b : Text)
      → AreDistinct t.headers
      → All (λ fields. length fields ≡ length t.headers) t.table_rows
      → read_table rt t ≡ ok g
      → get_elem? t.table_rows i ≡ some row
      → get_elem? t.headers j ≡ some (n, ty)
      → get_elem? row j ≡ some b
      → (kvs : List Values) × (to_kv g ≡ ok kvs)
        × (kv : Values) × (v : Value) × (get_elem? kvs i ≡ some kv)
        × (lookup n kv ≡ some v)
        × (convert_bytes_to_interface rt b ty none ≡ ok v)
  unfolding read_table to_kv
  to_kv-read_table t g i j row n ty b ds wide h at_row at_h at_b =
      let (rows, e, last) = bind-ok (traverse (read_fields rt t.headers) t.table_rows) _ g h in
      let lengths =
        traverse-All (read_fields rt t.headers) (λ fields. length fields ≡ length t.headers)
          (λ vs. length vs ≡ length t.headers)
          (λ fields vs k r. length-read_fields t.headers fields vs r ∙ k) t.table_rows rows wide
          e in
      let (kvs, f) =
        traverse_total (λ vs. row_kv t.headers vs []) (λ vs. length vs ≡ length t.headers)
          (λ vs k. row_kv_total t.headers vs [] k) rows lengths in
      let (kv, v, at_kv, found, converted) =
        to_kv-rows t rows kvs i j row n ty b ds e f at_row at_h at_b in
      (kvs, subst (λ x. to_kv x ≡ ok kvs) (ok_inj last) f, kv, v, at_kv, found, converted)
