-- ===== src/Rows/Batch.antt =====
-- sdk/api/insert.nodes.go: `setPropertiesToNodeRow` (and `setPropertiesToEdgeRow`, the same loop),
-- which converts each row in a goroutine of its own. All of them and the loop write one variable
-- `err`. A goroutine is one step here; `check` and `convert` are the two functions that it is given.
pub mod Complete
use ultipa_go_driver.Prelude.{
  ℕ, ◌+◌, ◌≡◌, refl, sym, ap, ◌∙◌, Bool, true, false, List, [], ◌∷◌, ◌++◌, Option, none, some,
  Result, ok, err, length, All, arith,
}

-- Where the loop stands; `returned` holds the error that the function returns.
pub data Main (E : Type 0) : Type 0 where
  looping selecting : Main E
  returned : Option E → Main E

-- `todo` are the rows that the loop has not come to, `running` the goroutines, `rows` the entries of
-- the result that are filled, with their indices.
pub record State (A B E : Type 0) : Type 0 where
  pub main : Main E
  pub todo : List (ℕ × A)
  pub running : List (ℕ × A)
  pub error : Option E
  pub cancelled : Bool
  pub rows : List (ℕ × B)

pub data Step (A B E : Type 0) (check : A → Option E) (convert : A → Result E B)
    : State A B E → State A B E → Type 0 where
  check_fails :
      (s : State A B E) (i : ℕ) (a : A) (rest : List (ℕ × A)) (e : E)
      → s.main ≡ looping
      → s.todo ≡ (i, a) ∷ rest
      → check a ≡ some e
      → Step A B E check convert s (record s { error = some e; main = returned (some e) })
  check_passes :
      (s : State A B E) (i : ℕ) (a : A) (rest : List (ℕ × A))
      → s.main ≡ looping
      → s.todo ≡ (i, a) ∷ rest
      → check a ≡ none
      → Step A B E check convert s (record s {
        error = none;
        todo = rest;
        running = s.running ++ ((i, a) ∷ []);
        main = selecting;
      })
  select_done :
      (s : State A B E)
      → s.main ≡ selecting
      → s.cancelled ≡ true
      → Step A B E check convert s (record s { main = returned s.error })
  select_default :
      (s : State A B E)
      → s.main ≡ selecting
      → s.cancelled ≡ false
      → Step A B E check convert s (record s { main = looping })
  wait_ends :
      (s : State A B E)
      → s.main ≡ looping
      → s.todo ≡ []
      → s.running ≡ []
      → Step A B E check convert s (record s { main = returned s.error })
  convert_fails :
      (s : State A B E) (i : ℕ) (a : A) (front back : List (ℕ × A)) (e : E)
      → s.running ≡ front ++ ((i, a) ∷ back)
      → convert a ≡ err e
      → Step A B E check convert s
          (record s { running = front ++ back; error = some e; cancelled = true })
  convert_ends :
      (s : State A B E) (i : ℕ) (a : A) (front back : List (ℕ × A)) (b : B)
      → s.running ≡ front ++ ((i, a) ∷ back)
      → convert a ≡ ok b
      → Step A B E check convert s
          (record s { running = front ++ back; error = none; rows = s.rows ++ ((i, b) ∷ []) })

pub data Reach (A B E : Type 0) (check : A → Option E) (convert : A → Result E B) (s : State A B E)
    : State A B E → Type 0 where
  here : Reach A B E check convert s s
  next :
      {t u : State A B E}
      → Reach A B E check convert s t
      → Step A B E check convert t u
      → Reach A B E check convert s u

module _ {A B E : Type 0} where
  abbrev pub start : List (ℕ × A) → State A B E
  start rows = record {
    main = looping;
    todo = rows;
    running = [];
    error = none;
    cancelled = false;
    rows = [];
  }

  abbrev pub ended : Option E → Bool → List (ℕ × B) → State A B E
  ended r c rows = record {
    main = returned r;
    todo = [];
    running = [];
    error = r;
    cancelled = c;
    rows = rows;
  }

  -- Of two rows that pass the check, the first of which cannot be converted, the conversion can end
  -- with no error and without the first row: its error is overwritten by the second row's goroutine.
  pub convert_loses_error :
      (check : A → Option E) (convert : A → Result E B) (a b : A) (e : E) (y : B)
      → check a ≡ none
      → check b ≡ none
      → convert a ≡ err e
      → convert b ≡ ok y
      → Reach A B E check convert (start ((0, a) ∷ (1, b) ∷ [])) (ended none true ((1, y) ∷ []))
  convert_loses_error check convert a b e y ca cb fails ends =
      next
        (next
          (next
            (next
              (next
                (next (next here (check_passes _ 0 a ((1, b) ∷ []) refl refl ca))
                  (select_default _ refl refl))
                (check_passes _ 1 b [] refl refl cb))
              (select_default _ refl refl))
            (convert_fails _ 0 a [] ((1, b) ∷ []) e refl fails))
          (convert_ends _ 1 b [] [] y refl ends))
        (wait_ends _ refl refl refl)
