-- ===== src/Rows/Batch/Complete.antt =====
-- sdk/api/insert.nodes.go: `setPropertiesToNodeRow` where nothing fails, in every order of its steps.
use ultipa_go_driver.Prelude.{
  ℕ, zero, suc, IsAmong, IsAmong-front, IsAmong-back, IsAmong-take_out, get_elem?, ◌⊎◌, inl, inr,
  ◌+◌, ◌<◌, ◌≡◌, refl, ap, sym, subst, ◌∙◌, true, false, List, [], ◌∷◌, ◌++◌, Option, none, some,
  Result, ok, err, length, length-append, All, arith,
}
use ultipa_go_driver.Rows.Batch.{
  Main, looping, selecting, returned, State, Step, check_fails, check_passes, select_done,
  select_default, wait_ends, convert_fails, convert_ends, Reach, here, next, start,
}

module _ {X : Type 0} (P : X → Type 0) where
  All-append_one : (xs : List X) (x : X) → All P xs → P x → All P (xs ++ (x ∷ []))
  All-append_one [] x h p = (p, tt)
  All-append_one (y ∷ ys) x (q, h) p = (q, All-append_one ys x h p)

  All-take_out :
      (front back : List X) (x : X) → All P (front ++ (x ∷ back)) → P x × All P (front ++ back)
  All-take_out [] back x h = h
  All-take_out (y ∷ ys) back x (q, h) = (let (p, r) = All-take_out ys back x h in (p, (q, r)))

-- The rows with their indices.
unfoldable pub numbered : {X : Type 0} → ℕ → List X → List (ℕ × X)
numbered k [] = []
numbered k (x ∷ xs) = (k, x) ∷ numbered (k + 1) xs

length-numbered : {X : Type 0} (k : ℕ) (xs : List X) → length (numbered k xs) ≡ length xs
unfolding numbered
length-numbered k [] = refl
length-numbered k (x ∷ xs) = omega (arith, length-numbered (k + 1) xs)

IsAmong-numbered :
    {X : Type 0} (k : ℕ) (xs : List X) (i : ℕ) (x : X)
    → get_elem? xs i ≡ some x
    → IsAmong (k + i, x) (numbered k xs)
unfolding numbered
IsAmong-numbered k [] i x h = cc
IsAmong-numbered k (y ∷ xs) zero x h =
    inl (ap (λ (n : ℕ). (n, x)) (omega arith) ∙ ap (λ w. (k, w)) (cc h))
IsAmong-numbered k (y ∷ xs) (suc i) x h = inr (
    subst (λ (n : ℕ). IsAmong (n, x) (numbered (k + 1) xs)) (omega arith)
      (IsAmong-numbered (k + 1) xs i x h))

none-some : {X : Type 0} {o : Option X} {x : X} → o ≡ none → o ≡ some x → ⊥
none-some h k = cc

true-false : true ≡ false → ⊥
true-false h = cc

ok-err : {E B : Type 0} {o : Result E B} {b : B} {e : E} → o ≡ ok b → o ≡ err e → ⊥
ok-err h k = cc

length-take_out :
    {X : Type 0} (front back : List X) (x : X)
    → length (front ++ (x ∷ back)) ≡ length (front ++ back) + 1
length-take_out [] back x = omega arith
length-take_out (y ∷ ys) back x = omega (arith, length-take_out ys back x)

module _ {A B E : Type 0} (check : A → Option E) (convert : A → Result E B) where
  -- A row that passes the check and can be converted.
  abbrev pub Fine : ℕ × A → Type 0
  Fine (i, a) = (check a ≡ none) × ((b : B) × (convert a ≡ ok b))

  abbrev Settled : ℕ → ℕ → Main E → Type 0
  Settled total n (returned r) = (r ≡ none) × (n ≡ total)
  Settled total n _ = Unit {0}

  abbrev Sound : ℕ → State A B E → Type 0
  Sound total s =
      (s.error ≡ none)
      × (s.cancelled ≡ false)
      × All Fine s.todo
      × All Fine s.running
      × (length s.todo + length s.running + length s.rows ≡ total)
      × Settled total (length s.rows) s.main

  Settled-suc : (total n : ℕ) (m : Main E) → n < total → Settled total n m → Settled total (n + 1) m
  Settled-suc total n looping h k = tt
  Settled-suc total n selecting h k = tt
  Settled-suc total n (returned r) h (e, k) = absurd (omega (arith, h, k))

  Sound-Step :
      (total : ℕ) (s t : State A B E) → Sound total s → Step A B E check convert s t → Sound total t
  Sound-Step total s _ (e, c, at, ar, n, m) (check_fails _ i a rest f l q k) =
      absurd (none-some ((subst (All Fine) q at).0.0) k)
  Sound-Step total s _ (e, c, at, ar, n, m) (check_passes _ i a rest l q k) =
      (let (fa, fr) = subst (All Fine) q at in
        (
          refl,
          c,
          fr,
          All-append_one Fine s.running (i, a) ar fa,
          omega (arith, n, ap length q, length-append s.running ((i, a) ∷ [])),
          tt,
        ))
  Sound-Step total s _ (e, c, at, ar, n, m) (select_done _ l k) = absurd (true-false (sym k ∙ c))
  Sound-Step total s _ (e, c, at, ar, n, m) (select_default _ l k) = (e, c, at, ar, n, tt)
  Sound-Step total s _ (e, c, at, ar, n, m) (wait_ends _ l q r) =
      (e, c, at, ar, n, (e, omega (arith, n, ap length q, ap length r)))
  Sound-Step total s _ (e, c, at, ar, n, m) (convert_fails _ i a front back f q k) =
      (let (fa, fr) = All-take_out Fine front back (i, a) (subst (All Fine) q ar) in
        absurd (ok-err fa.1.1 k))
  Sound-Step total s _ (e, c, at, ar, n, m) (convert_ends _ i a front back b q k) =
      (let (fa, fr) = All-take_out Fine front back (i, a) (subst (All Fine) q ar) in
        let gone = length-take_out front back (i, a) in
        let more = length-append s.rows ((i, b) ∷ []) in
        (
          refl,
          c,
          at,
          fr,
          omega (arith, n, ap length q, gone, more),
          subst (λ x. Settled total x s.main) (sym more)
              (Settled-suc total (length s.rows) s.main (omega (arith, n, ap length q, gone)) m),
        ))

  Sound-Reach :
      (total : ℕ) (s t : State A B E)
      → Sound total s
      → Reach A B E check convert s t
      → Sound total t
  Sound-Reach total s _ h here = h
  Sound-Reach total s _ h (next {t} {u} r st) = Sound-Step total t u (Sound-Reach total s t h r) st

  -- The entry of the row is filled with its conversion.
  abbrev pub Filled : List (ℕ × B) → ℕ × A → Type 0
  Filled rows (i, a) = (b : B) × (convert a ≡ ok b) × IsAmong (i, b) rows

  -- Where a row is, by where the main loop stands.
  abbrev Where : Main E → List (ℕ × A) → List (ℕ × A) → List (ℕ × B) → ℕ × A → Type 0
  Where (returned r) todo running rows x = Filled rows x
  Where _ todo running rows x = IsAmong x todo ⊎ (IsAmong x running ⊎ Filled rows x)

  abbrev IsPlaced : State A B E → ℕ × A → Type 0
  IsPlaced s x = Where s.main s.todo s.running s.rows x

  Filled-append :
      (rows : List (ℕ × B)) (y : ℕ × B) (x : ℕ × A) → Filled rows x → Filled (rows ++ (y ∷ [])) x
  Filled-append rows y (i, a) (b, e, m) = (b, e, IsAmong-front rows (y ∷ []) (i, b) m)

  -- A row that is taken over from the loop by a goroutine.
  taken_over :
      (j : ℕ) (c : A) (todo running : List (ℕ × A)) (rows : List (ℕ × B)) (x : ℕ × A)
      → IsAmong x ((j, c) ∷ todo) ⊎ (IsAmong x running ⊎ Filled rows x)
      → IsAmong x todo ⊎ (IsAmong x (running ++ ((j, c) ∷ [])) ⊎ Filled rows x)
  taken_over j c todo running rows x (inl (inl same)) =
      inr (inl (IsAmong-back running ((j, c) ∷ []) x (inl same)))
  taken_over j c todo running rows x (inl (inr later)) = inl later
  taken_over j c todo running rows x (inr (inl runs)) =
      inr (inl (IsAmong-front running ((j, c) ∷ []) x runs))
  taken_over j c todo running rows x (inr (inr done)) = inr (inr done)

  -- A row whose goroutine may have ended.
  ended_or :
      (j : ℕ) (c : A) (b : B) (front back todo : List (ℕ × A)) (rows : List (ℕ × B)) (x : ℕ × A)
      → convert c ≡ ok b
      → IsAmong x todo ⊎ (IsAmong x (front ++ ((j, c) ∷ back)) ⊎ Filled rows x)
      → IsAmong x todo ⊎ (IsAmong x (front ++ back) ⊎ Filled (rows ++ ((j, b) ∷ [])) x)
  ended_or j c b front back todo rows x k (inl waits) = inl waits
  ended_or j c b front back todo rows x k (inr (inl runs)) =
      elim (IsAmong-take_out front back (j, c) x runs) [
        | inl same ↦ inr (
            inr (
              subst (Filled (rows ++ ((j, b) ∷ []))) (sym same)
                (b, k, IsAmong-back rows ((j, b) ∷ []) (j, b) (inl refl))))
        | inr others ↦ inr (inl others)
      ]
  ended_or j c b front back todo rows x k (inr (inr done)) =
      inr (inr (Filled-append rows (j, b) x done))

  Where-ends :
      (m : Main E) (j : ℕ) (c : A) (b : B) (front back todo : List (ℕ × A)) (rows : List (ℕ × B))
      (x : ℕ × A)
      → convert c ≡ ok b
      → Where m todo (front ++ ((j, c) ∷ back)) rows x
      → Where m todo (front ++ back) (rows ++ ((j, b) ∷ [])) x
  Where-ends looping j c b front back todo rows x k h = ended_or j c b front back todo rows x k h
  Where-ends selecting j c b front back todo rows x k h = ended_or j c b front back todo rows x k h
  Where-ends (returned r) j c b front back todo rows x k h = Filled-append rows (j, b) x h

  nowhere_else : (rows : List (ℕ × B)) (x : ℕ × A) → Where looping [] [] rows x → Filled rows x
  nowhere_else rows x (inl none_waits) = absurd none_waits
  nowhere_else rows x (inr (inl none_runs)) = absurd none_runs
  nowhere_else rows x (inr (inr done)) = done

  IsPlaced-Step :
      (total : ℕ) (s t : State A B E) (x : ℕ × A)
      → Sound total s
      → IsPlaced s x
      → Step A B E check convert s t
      → IsPlaced t x
  IsPlaced-Step total s _ x (e, c, at, ar, n, m) h (check_fails _ i a rest f l q k) =
      absurd (none-some ((subst (All Fine) q at).0.0) k)
  IsPlaced-Step total s _ x sound h (check_passes _ i a rest l q k) =
      taken_over i a rest s.running s.rows x (
        subst (λ w. Where looping w s.running s.rows x) q
          (subst (λ w. Where w s.todo s.running s.rows x) l h))
  IsPlaced-Step total s _ x (e, c, at, ar, n, m) h (select_done _ l k) =
      absurd (true-false (sym k ∙ c))
  IsPlaced-Step total s _ x sound h (select_default _ l k) =
      subst (λ w. Where w s.todo s.running s.rows x) l h
  IsPlaced-Step total s _ x sound h (wait_ends _ l q r) = nowhere_else s.rows x (
      subst (λ w. Where looping [] w s.rows x) r
        (subst (λ w. Where looping w s.running s.rows x) q
          (subst (λ w. Where w s.todo s.running s.rows x) l h)))
  IsPlaced-Step total s _ x (e, c, at, ar, n, m) h (convert_fails _ i a front back f q k) =
      (let (fa, fr) = All-take_out Fine front back (i, a) (subst (All Fine) q ar) in
        absurd (ok-err fa.1.1 k))
  IsPlaced-Step total s _ x sound h (convert_ends _ i a front back b q k) =
      Where-ends s.main i a b front back s.todo s.rows x k
        (subst (λ w. Where s.main s.todo w s.rows x) q h)

  IsPlaced-Reach :
      (total : ℕ) (s t : State A B E) (x : ℕ × A)
      → Sound total s
      → IsPlaced s x
      → Reach A B E check convert s t
      → IsPlaced t x
  IsPlaced-Reach total s _ x sound h here = h
  IsPlaced-Reach total s _ x sound h (next {t} {u} r st) =
      IsPlaced-Step total t u x (Sound-Reach total s t sound r)
        (IsPlaced-Reach total s t x sound h r) st

  -- Where every row passes the check and can be converted, whatever the order of the steps, the
  -- function can only return no error, and it does so with one entry filled for each row: the entry
  -- at the index of a row, counted from 0, holds the conversion of this row.
  pub convert_complete :
      (xs : List A) (s : State A B E) (r : Option E)
      → All Fine (numbered 0 xs)
      → Reach A B E check convert (start (numbered 0 xs)) s
      → s.main ≡ returned r
      → (r ≡ none)
        × (length s.rows ≡ length xs)
        × ((i : ℕ) (a : A) → get_elem? xs i ≡ some a → Filled s.rows (i, a))
  convert_complete xs s r fine reach h =
      (let rows = numbered 0 xs in
        let first : Sound (length rows) (start rows) = (refl, refl, fine, tt, omega arith, tt) in
        let (_, _, _, _, _, settled) = Sound-Reach (length rows) (start rows) s first reach in
        let (no_error, full) = subst (Settled (length rows) (length s.rows)) h settled in
        (
          no_error,
          full ∙ length-numbered 0 xs,
          λ i a at.
              subst (λ w. Where w s.todo s.running s.rows (i, a)) h
                (IsPlaced-Reach (length rows) (start rows) s (i, a) first
                  (inl (
                    subst (λ (n : ℕ). IsAmong (n, a) rows) (omega arith)
                      (IsAmong-numbered 0 xs i a at)))
                  reach),
        ))
