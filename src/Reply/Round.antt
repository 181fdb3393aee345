-- ===== src/Reply/Round.antt =====
-- sdk/utils/merge.reply.go: one round of the merge, for one alias of the header.
use ultipa_go_driver.Prelude.{
  ◌≡◌, refl, sym, inl, inr, List, [], ◌++◌, Option, none, some, Text, text_eq, if◌then◌else◌,
}
use ultipa_go_driver.Types.{ResultType}
use ultipa_go_driver.Reply.{
  Entry, Reply, Joined, Outcome, go_on, settle, merge_family, join_rows, join_tables, join_attrs,
  merge_alias,
}
use ultipa_go_driver.Reply.Family.{AllGood, Joins, Leaves, rows_named, merge_family-Leaves}
use ultipa_go_driver.Reply.Header.{names, if_same}

-- The rows of a table that may be nil.
abbrev pub table_rows : {R : Type 0} → Option (List R) → List R
table_rows none = []
table_rows (some rs) = rs

abbrev pub own_rows : {R : Type 0} → List R → List R
own_rows rs = rs

abbrev pub Present : {R : Type 0} → Option (List R) → Type 0
Present c = (rs : List _) × (c ≡ some rs)

abbrev pub Anything : {R : Type 0} → List R → Type 0
Anything c = Unit {0}

abbrev pub Filled : {P : Type 0} → (P → Type 0) → Option (List (Entry P)) → Type 0
Filled G f = (es : List (Entry _)) × (f ≡ some es) × AllGood G es

module _ {R : Type 0} where
  -- No slice of the reply is nil, and no table in it.
  abbrev pub IsWhole : Reply R → Type 0
  IsWhole r =
      Filled Present r.nodes
      × Filled Present r.edges
      × Filled Anything r.tables
      × Filled Anything r.paths
      × Filled Present r.attrs

  abbrev pub rows_of_family : {P : Type 0} → (P → List R) → Text → Option (List (Entry P)) → List R
  rows_of_family rows m none = []
  rows_of_family rows m (some es) = rows_named rows m es

  -- The rows that the reply holds under a result type and an alias.
  abbrev pub rows_in : ResultType → Reply R → Text → List R
  rows_in ResultType.node r m = rows_of_family table_rows m r.nodes
  rows_in ResultType.edge r m = rows_of_family table_rows m r.edges
  rows_in ResultType.table r m = rows_of_family own_rows m r.tables
  rows_in ResultType.path r m = rows_of_family own_rows m r.paths
  rows_in ResultType.attr r m = rows_of_family table_rows m r.attrs
  rows_in ResultType.unset r m = []

  join_tables-Joins : Joins {R = R} table_rows Present join_tables
  join_tables-Joins c1 c2 (r1, e1) (r2, e2) =
      (some (r1 ++ r2), rw (e1, e2), (r1 ++ r2, refl), rw (e1, e2))

  join_attrs-Joins : Joins {R = R} table_rows Present join_attrs
  join_attrs-Joins c1 c2 (r1, e1) (r2, e2) =
      (some (r1 ++ r2), rw (e1, e2), (r1 ++ r2, refl), rw (e1, e2))

  join_rows-Joins : Joins {R = R} own_rows Anything join_rows
  join_rows-Joins c1 c2 _ _ = (c1 ++ c2, refl, tt, refl)

  settle-Leaves :
      {P : Type 0} (r1 r2 : Reply R) (put : List (Entry P) → Reply R) (o : Outcome P)
      (es1 es : List (Entry P))
      → put es1 ≡ r1
      → Leaves o es1 es
      → settle r1 r2 put o ≡ go_on (put es)
  settle-Leaves r1 r2 put o es1 es h (inl (e, f)) = rw (e, f, h)
  settle-Leaves r1 r2 put o es1 es h (inr e) = rw e

  -- One round on one family, in a reply that is `put f1`.
  merge_family-Filled :
      {P : Type 0} (rows : P → List R) (G : P → Type 0) (join : P → P → Joined P)
      → Joins rows G join
      → (n : Text) (f1 f2 : Option (List (Entry P))) (put : Option (List (Entry P)) → Reply R)
        (r2 : Reply R)
      → Filled G f1
      → Filled G f2
      → (es : List (Entry P)) × (settle (put f1) r2 (λ x. put (some x)) (merge_family join n f1 f2)
          ≡ go_on (put (some es)))
        × Filled G (some es)
        × ((m : Text)
            → rows_named rows m es ≡ (
                if text_eq n m
                then rows_of_family rows m f1 ++ rows_of_family rows m f2
                else rows_of_family rows m f1))
  merge_family-Filled rows G join j n f1 f2 put r2 (es1, e1, a1) (es2, e2, a2) =
      (let (es, l, a, g) = merge_family-Leaves rows G join j n es1 es2 a1 a2 in
        (
          es,
          rw (e1, e2) (settle-Leaves (put (some es1)) r2 (λ x. put (some x)) _ es1 es refl l),
          (es, refl, a),
          λ m. rw (e1, e2) (g m),
        ))

  -- What one round does to the rows, where both replies are whole.
  abbrev pub GainsAt : Text → ResultType → Reply R → Reply R → Reply R → Text → ResultType → Type 0
  GainsAt n t r1 r2 r m t' =
      rows_in t' r m
      ≡ (if names m t' (n, t) then rows_in t' r1 m ++ rows_in t' r2 m else rows_in t' r1 m)

  abbrev pub Gains : Text → ResultType → Reply R → Reply R → Reply R → Type 0
  Gains n t r1 r2 r = (t' : ResultType) (m : Text) → GainsAt n t r1 r2 r m t'

  pub merge_alias-Gains :
      (n : Text) (t : ResultType) (r1 r2 : Reply R)
      → IsWhole r1
      → IsWhole r2
      → (r : Reply R) × (merge_alias (n, t) r1 r2 ≡ go_on r)
        × IsWhole r
        × (r.alias ≡ r1.alias)
        × Gains n t r1 r2 r
  unfolding merge_alias
  merge_alias-Gains n ResultType.node r1 r2 (hn, he, ht, hp, ha) (kn, ke, kt, kp, ka) =
      (let (es, e, w, g) =
          merge_family-Filled table_rows Present join_tables join_tables-Joins n r1.nodes r2.nodes
            (λ x. record r1 { nodes = x }) r2 hn kn in
        (
          record r1 { nodes = some es },
          e,
          (w, he, ht, hp, ha),
          refl,
          λ t' m. elim t' as (GainsAt n ResultType.node r1 r2 (record r1 { nodes = some es }) m) [
            | ResultType.node ↦ g m
            | ResultType.edge ↦ refl
            | ResultType.table ↦ refl
            | ResultType.path ↦ refl
            | ResultType.attr ↦ refl
            | ResultType.unset ↦ refl
          ],
        ))
  merge_alias-Gains n ResultType.edge r1 r2 (hn, he, ht, hp, ha) (kn, ke, kt, kp, ka) =
      (let (es, e, w, g) =
          merge_family-Filled table_rows Present join_tables join_tables-Joins n r1.edges r2.edges
            (λ x. record r1 { edges = x }) r2 he ke in
        (
          record r1 { edges = some es },
          e,
          (hn, w, ht, hp, ha),
          refl,
          λ t' m. elim t' as (GainsAt n ResultType.edge r1 r2 (record r1 { edges = some es }) m) [
            | ResultType.node ↦ refl
            | ResultType.edge ↦ g m
            | ResultType.table ↦ refl
            | ResultType.path ↦ refl
            | ResultType.attr ↦ refl
            | ResultType.unset ↦ refl
          ],
        ))
  merge_alias-Gains n ResultType.table r1 r2 (hn, he, ht, hp, ha) (kn, ke, kt, kp, ka) =
      (let (es, e, w, g) =
          merge_family-Filled own_rows Anything join_rows join_rows-Joins n r1.tables r2.tables
            (λ x. record r1 { tables = x }) r2 ht kt in
        (
          record r1 { tables = some es },
          e,
          (hn, he, w, hp, ha),
          refl,
          λ t' m. elim t' as (GainsAt n ResultType.table r1 r2 (record r1 { tables = some es }) m) [
            | ResultType.node ↦ refl
            | ResultType.edge ↦ refl
            | ResultType.table ↦ g m
            | ResultType.path ↦ refl
            | ResultType.attr ↦ refl
            | ResultType.unset ↦ refl
          ],
        ))
  merge_alias-Gains n ResultType.path r1 r2 (hn, he, ht, hp, ha) (kn, ke, kt, kp, ka) =
      (let (es, e, w, g) =
          merge_family-Filled own_rows Anything join_rows join_rows-Joins n r1.paths r2.paths
            (λ x. record r1 { paths = x }) r2 hp kp in
        (
          record r1 { paths = some es },
          e,
          (hn, he, ht, w, ha),
          refl,
          λ t' m. elim t' as (GainsAt n ResultType.path r1 r2 (record r1 { paths = some es }) m) [
            | ResultType.node ↦ refl
            | ResultType.edge ↦ refl
            | ResultType.table ↦ refl
            | ResultType.path ↦ g m
            | ResultType.attr ↦ refl
            | ResultType.unset ↦ refl
          ],
        ))
  merge_alias-Gains n ResultType.attr r1 r2 (hn, he, ht, hp, ha) (kn, ke, kt, kp, ka) =
      (let (es, e, w, g) =
          merge_family-Filled table_rows Present join_attrs join_attrs-Joins n r1.attrs r2.attrs
            (λ x. record r1 { attrs = x }) r2 ha ka in
        (
          record r1 { attrs = some es },
          e,
          (hn, he, ht, hp, w),
          refl,
          λ t' m. elim t' as (GainsAt n ResultType.attr r1 r2 (record r1 { attrs = some es }) m) [
            | ResultType.node ↦ refl
            | ResultType.edge ↦ refl
            | ResultType.table ↦ refl
            | ResultType.path ↦ refl
            | ResultType.attr ↦ g m
            | ResultType.unset ↦ refl
          ],
        ))
  merge_alias-Gains n ResultType.unset r1 r2 w1 w2 = (
    r1,
    refl,
    w1,
    refl,
    λ t' m. elim t' as (GainsAt n ResultType.unset r1 r2 r1 m) [
      | ResultType.node ↦ refl
      | ResultType.edge ↦ refl
      | ResultType.table ↦ refl
      | ResultType.path ↦ refl
      | ResultType.attr ↦ refl
      | ResultType.unset ↦ sym (if_same (names m ResultType.unset (n, ResultType.unset)) [])
    ],
  )
