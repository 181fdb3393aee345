-- ===== src/Reply/Family.antt =====
-- sdk/utils/merge.reply.go: one family of entries under the merge of one alias.
use ultipa_go_driver.Prelude.{
  ◌≡◌, refl, sym, ap, ◌∙◌, ◌⊎◌, subst, inl, inr, true, false, List, [], ◌∷◌, ◌++◌, Option, none,
  some, Text, text_eq, text_eq_iff, text_eq→eq, if◌then◌else◌, All, Bool-cases, Option-cases, arith,
}
use mathlib.Core.List.{append-nil}
use ultipa_go_driver.Reply.{
  Entry, Outcome, same, changed, Joined, joined, find, write_found, merge_family,
}

some_inj : {A : Type 0} {x y : A} → some x ≡ some y → x ≡ y
some_inj h = cc

module _ {P : Type 0} where
  -- The outcome leaves the entries `es`.
  abbrev pub Leaves : Outcome P → List (Entry P) → List (Entry P) → Type 0
  Leaves o es1 es = ((o ≡ same) × (es ≡ es1)) ⊎ (o ≡ changed es)

  find_self :
      (n : Text) (es : List (Entry P)) (e : Entry P) → find n es ≡ some e → text_eq e.name n ≡ true
  unfolding find
  find_self n [] e h = cc
  find_self n (x ∷ es) e h = elim (Bool-cases (text_eq x.name n)) [
    | inl hit ↦
        (let same_entry : x ≡ e = some_inj (rw hit at h) in
          ap (λ d. text_eq d.name n) (sym same_entry) ∙ hit)
    | inr miss ↦ find_self n es e (rw miss at h)
  ]

  find-write_found :
      (n m : Text) (c : P) (es : List (Entry P)) (d : Entry P)
      → find n es ≡ some d
      → find m (write_found n c es)
        ≡ (if text_eq n m then some (record d { content = c }) else find m es)
  unfolding find write_found
  find-write_found n m c [] d h = cc
  find-write_found n m c (x ∷ es) d h = ground (
    arith,
    text_eq_iff x.name n,
    text_eq_iff x.name m,
    text_eq_iff n m,
    find-write_found n m c es d,
  )

  find-append :
      (n m : Text) (es : List (Entry P)) (d : Entry P)
      → find n es ≡ none
      → text_eq d.name n ≡ true
      → find m (es ++ (d ∷ [])) ≡ (if text_eq n m then some d else find m es)
  unfolding find
  find-append n m [] d h k =
      ground (arith, text_eq_iff d.name n, text_eq_iff d.name m, text_eq_iff n m)
  find-append n m (x ∷ es) d h k =
      ground
        (arith, text_eq_iff x.name n, text_eq_iff x.name m, text_eq_iff n m, find-append n m es d)

-- The rows under one name.
module _ {R P : Type 0} (rows : P → List R) where
  abbrev pub rows_of : Option (Entry P) → List R
  rows_of none = []
  rows_of (some e) = rows e.content

  abbrev pub rows_named : Text → List (Entry P) → List R
  rows_named m es = rows_of (find m es)

  -- The join of two good contents is good and has the rows of both.
  abbrev pub Joins : (P → Type 0) → (P → P → Joined P) → Type 0
  Joins G join =
      (c1 c2 : P)
      → G c1
      → G c2
      → (c : P) × (join c1 c2 ≡ joined c) × G c × (rows c ≡ rows c1 ++ rows c2)

module _ {P : Type 0} (G : P → Type 0) where
  abbrev pub AllGood : List (Entry P) → Type 0
  AllGood es = All (λ d. G d.content) es

  find-AllGood :
      (n : Text) (es : List (Entry P)) (e : Entry P) → AllGood es → find n es ≡ some e → G e.content
  unfolding find
  find-AllGood n [] e a h = cc
  find-AllGood n (x ∷ es) e a h = elim (Bool-cases (text_eq x.name n)) [
    | inl hit ↦
        (let same_entry : x ≡ e = some_inj (rw hit at h) in subst (λ d. G d.content) same_entry a.0)
    | inr miss ↦ find-AllGood n es e a.1 (rw miss at h)
  ]

  write_found-AllGood :
      (n : Text) (c : P) (es : List (Entry P)) → AllGood es → G c → AllGood (write_found n c es)
  unfolding write_found
  write_found-AllGood n c [] a g = a
  write_found-AllGood n c (x ∷ es) a g =
      elim (text_eq x.name n)
        as (λ b. AllGood (if b then record x { content = c } ∷ es else x ∷ write_found n c es)) [
          | true ↦ (g, a.1)
          | false ↦ (a.0, write_found-AllGood n c es a.1 g)
        ]

  append-AllGood :
      (es : List (Entry P)) (d : Entry P) → AllGood es → G d.content → AllGood (es ++ (d ∷ []))
  append-AllGood [] d a g = (g, a)
  append-AllGood (x ∷ es) d a g = (a.0, append-AllGood es d a.1 g)

module _ {R P : Type 0} (rows : P → List R) (G : P → Type 0) (join : P → P → Joined P) where
  -- A family whose contents are good merges into one, and gains the rows under the name.
  pub merge_family-Leaves :
      Joins rows G join
      → (n : Text) (es1 es2 : List (Entry P)) → AllGood G es1
      → AllGood G es2
      → (es : List (Entry P)) × Leaves (merge_family join n (some es1) (some es2)) es1 es
        × AllGood G es
        × ((m : Text)
            → rows_named rows m es ≡ (
                if text_eq n m
                then rows_named rows m es1 ++ rows_named rows m es2
                else rows_named rows m es1))
  unfolding merge_family
  merge_family-Leaves j n es1 es2 a1 a2 = elim (Option-cases (find n es2)) [
    | inl nothing ↦ (
      es1,
      inl (rw nothing, refl),
      a1,
      λ m. elim (Bool-cases (text_eq n m)) [
        | inl hit ↦ rw (hit, ← text_eq→eq n m hit, nothing, append-nil)
        | inr miss ↦ rw miss
      ],
    )
    | inr (d2, e2) ↦ elim (Option-cases (find n es1)) [
      | inl nothing ↦ (
        es1 ++ (d2 ∷ []),
        inr (rw (e2, nothing)),
        append-AllGood G es1 d2 a1 (find-AllGood G n es2 d2 a2 e2),
        λ m. elim (Bool-cases (text_eq n m)) [
          | inl hit ↦ rw (
            find-append n m es1 d2 nothing (find_self n es2 d2 e2),
            hit,
            ← text_eq→eq n m hit,
            nothing,
            e2,
          )
          | inr miss ↦ rw (find-append n m es1 d2 nothing (find_self n es2 d2 e2), miss)
        ],
      )
      | inr (d1, e1) ↦
          (let (c, jc, g, rc) =
              j d1.content d2.content (find-AllGood G n es1 d1 a1 e1)
                (find-AllGood G n es2 d2 a2 e2) in
            (
              write_found n c es1,
              inr (rw (e1, e2, jc)),
              write_found-AllGood G n c es1 a1 g,
              λ m. elim (Bool-cases (text_eq n m)) [
                | inl hit ↦
                    rw (find-write_found n m c es1 d1 e1, hit, ← text_eq→eq n m hit, e1, e2, rc)
                | inr miss ↦ rw (find-write_found n m c es1 d1 e1, miss)
              ],
            ))
    ]
  ]
