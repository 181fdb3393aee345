-- ===== src/Reply/Merge.antt =====
-- sdk/utils/merge.reply.go: the merge of two replies that both hold every family of entries.
use ultipa_go_driver.Prelude.{
  ◌≡◌, refl, ◌∙◌, subst, inl, inr, true, false, not, List, [], ◌∷◌, ◌++◌, Text, if◌then◌else◌,
  Bool-cases, any_of,
}
use ultipa_go_driver.Types.{ResultType}
use ultipa_go_driver.Reply.{Reply, return, merge_all, merge_uql_reply}
use ultipa_go_driver.Reply.Header.{names, distinct, true≢false, and_true, not-true, names→eq}
use ultipa_go_driver.Reply.Round.{IsWhole, rows_in, merge_alias-Gains}

module _ {R : Type 0} where
  -- The rows are gained once for every entry of the header that names them.
  abbrev gathered : ResultType → Text → List (Text × ResultType) → List R → List R → List R
  gathered t m [] a b = a
  gathered t m (x ∷ rest) a b = gathered t m rest (if names m t x then a ++ b else a) b

  merge_all-gathered :
      (header : List (Text × ResultType)) (r1 r2 : Reply R)
      → IsWhole r1
      → IsWhole r2
      → (r : Reply R) × (merge_all header r1 r2 ≡ return r)
        × IsWhole r
        × (r.alias ≡ r1.alias)
        × ((t : ResultType) (m : Text)
            → rows_in t r m ≡ gathered t m header (rows_in t r1 m) (rows_in t r2 m))
  unfolding merge_all
  merge_all-gathered [] r1 r2 w1 w2 = (r1, refl, w1, refl, λ t m. refl)
  merge_all-gathered ((n, t) ∷ rest) r1 r2 w1 w2 =
      (let (s, e, w, a, g) = merge_alias-Gains n t r1 r2 w1 w2 in
        let (r, f, v, b, k) = merge_all-gathered rest s r2 w w2 in
        (r, rw (merge_all, e) f, v, b ∙ a, λ t' m. rw (k t' m, g t' m)))

  gathered_none :
      (t : ResultType) (m : Text) (header : List (Text × ResultType)) (a b : List R)
      → any_of (names m t) header ≡ false
      → gathered t m header a b ≡ a
  gathered_none t m [] a b h = refl
  gathered_none t m (x ∷ rest) a b h = elim (Bool-cases (names m t x)) [
    | inl hit ↦ absurd (true≢false (rw hit at h))
    | inr miss ↦ rw miss (gathered_none t m rest a b (rw miss at h))
  ]

  gathered-distinct :
      (t : ResultType) (m : Text) (header : List (Text × ResultType)) (a b : List R)
      → distinct header ≡ true
      → gathered t m header a b ≡ (if any_of (names m t) header then a ++ b else a)
  gathered-distinct t m [] a b h = refl
  gathered-distinct t m ((n, t') ∷ rest) a b h =
      (let (fresh, d) = and_true (not (any_of (names n t') rest)) (distinct rest) h in
        elim (Bool-cases (names m t (n, t'))) [
          | inl hit ↦
              (let (same_name, same_type') = names→eq m n t t' hit in
                rw hit (
                  gathered_none t m rest (a ++ b) b (
                    subst (λ x. any_of (names x t) rest ≡ false) same_name
                      (subst (λ x. any_of (names n x) rest ≡ false) same_type'
                        (not-true (any_of (names n t') rest) fresh)))))
          | inr miss ↦ rw miss (gathered-distinct t m rest a b d)
        ])

  -- The merge keeps the header, and a reply that it returns is whole again.
  pub merge_uql_reply-IsWhole :
      (r1 r2 : Reply R)
      → IsWhole r1
      → IsWhole r2
      → distinct r1.alias ≡ true
      → (r : Reply R) × (merge_uql_reply r1 r2 ≡ return r)
        × IsWhole r
        × (r.alias ≡ r1.alias)
        × ((t : ResultType) (m : Text)
            → rows_in t r m ≡ (
                if any_of (names m t) r1.alias
                then rows_in t r1 m ++ rows_in t r2 m
                else rows_in t r1 m))
  unfolding merge_uql_reply
  merge_uql_reply-IsWhole r1 r2 w1 w2 d =
      (let (r, e, w, a, g) = merge_all-gathered r1.alias r1 r2 w1 w2 in
        (
          r,
          e,
          w,
          a,
          λ t m. g t m ∙ gathered-distinct t m r1.alias (rows_in t r1 m) (rows_in t r2 m) d,
        ))

  -- Where no two entries of the header of the first reply have both alias and result type in common,
  -- and neither reply has a nil slice or a nil table, the merge returns a reply in which every alias
  -- that the header names has the rows of both replies in order, and every other alias the rows of
  -- the first.
  pub merge_uql_reply_lem :
      (r1 r2 : Reply R)
      → IsWhole r1
      → IsWhole r2
      → distinct r1.alias ≡ true
      → (r : Reply R) × (merge_uql_reply r1 r2 ≡ return r)
        × ((t : ResultType) (m : Text)
            → rows_in t r m ≡ (
                if any_of (names m t) r1.alias
                then rows_in t r1 m ++ rows_in t r2 m
                else rows_in t r1 m))
  merge_uql_reply_lem r1 r2 w1 w2 d =
      (let (r, e, w, a, g) = merge_uql_reply-IsWhole r1 r2 w1 w2 d in (r, e, g))
