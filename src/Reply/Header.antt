-- ===== src/Reply/Header.antt =====
-- The header of a reply: the entries that name the same alias and result type.
use ultipa_go_driver.Prelude.{
  ◌≡◌, refl, ap, ◌∙◌, sym, ℕ, ◌==◌, ==_iff, inl, inr, Bool, true, false, ◌&&◌, not, List, [], ◌∷◌,
  Text, text_eq, text_eq→eq, if◌then◌else◌, Bool-cases, any_of,
}
use ultipa_go_driver.Types.{ResultType}

-- The number of a result type.
abbrev pub result_code : ResultType → ℕ
result_code ResultType.unset = 0
result_code ResultType.path = 1
result_code ResultType.node = 2
result_code ResultType.edge = 3
result_code ResultType.attr = 4
result_code ResultType.table = 5

abbrev of_code : ℕ → ResultType
of_code n =
    if n == 0
    then ResultType.unset
    else if n == 1
    then ResultType.path
    else if n == 2
    then ResultType.node
    else if n == 3
    then ResultType.edge
    else if n == 4
    then ResultType.attr
    else ResultType.table

of_code-result_code : (t : ResultType) → of_code (result_code t) ≡ t
of_code-result_code ResultType.unset = refl
of_code-result_code ResultType.path = refl
of_code-result_code ResultType.node = refl
of_code-result_code ResultType.edge = refl
of_code-result_code ResultType.attr = refl
of_code-result_code ResultType.table = refl

abbrev pub same_type : ResultType → ResultType → Bool
same_type t t' = result_code t == result_code t'

same_type→eq : (t t' : ResultType) → same_type t t' ≡ true → t ≡ t'
same_type→eq t t' h =
    sym (of_code-result_code t)
    ∙ ap of_code ((==_iff (result_code t) (result_code t')).0 h)
    ∙ of_code-result_code t'

-- Whether an entry of the header has this alias and this result type.
abbrev pub names : Text → ResultType → Text × ResultType → Bool
names m t (n, t') = same_type t' t && text_eq n m

-- No two entries of the header have both the alias and the result type in common.
-- No two entries of the header have both the alias and the result type in common.
abbrev pub distinct : List (Text × ResultType) → Bool
distinct [] = true
distinct ((m, t) ∷ rest) = not (any_of (names m t) rest) && distinct rest

pub true≢false : true ≡ false → ⊥
true≢false h = cc

pub and_true : (a b : Bool) → (a && b) ≡ true → (a ≡ true) × (b ≡ true)
and_true true b h = (refl, h)
and_true false b h = absurd (true≢false (sym h))

pub not-true : (a : Bool) → not a ≡ true → a ≡ false
not-true true h = absurd (true≢false (sym h))
not-true false h = refl

pub names→eq : (m n : Text) (t t' : ResultType) → names m t (n, t') ≡ true → (n ≡ m) × (t' ≡ t)
names→eq m n t t' h = elim (Bool-cases (same_type t' t)) [
  | inl hit ↦ (text_eq→eq n m (rw hit at h), same_type→eq t' t hit)
  | inr miss ↦ absurd (true≢false (sym (rw miss at h)))
]

pub if_same : {A : Type 0} (b : Bool) (x : A) → (if b then x else x) ≡ x
if_same true x = refl
if_same false x = refl
