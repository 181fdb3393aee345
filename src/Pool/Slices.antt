-- ===== src/Pool/Slices.antt =====
-- sdk/connection/connection.pool.go: what the goroutines of a refresh make of the slice that they
-- append to.
use ultipa_go_driver.Prelude.{
  ◌≡◌, ◌≢◌, refl, ap, subst, ◌∙◌, All, Bool-cases, lookup, insert, lookup-insert_same,
  lookup-insert_other, text_eq, text_eq_iff, List, [], ◌∷◌, ◌++◌, Option, some, Text, arith, inl,
  inr,
}
use mathlib.Core.List.{append_assoc, append-nil, Mem, mem-cons_self, mem-cons_of_mem}
use ultipa_go_driver.Pool.{
  Report, fine, failed, fatal, Event, reads, ends, Running, or_empty, finish, finish_all,
  reports_of,
}

-- The hosts that reported nothing wrong, in the order in which they ended.
abbrev pub fine_hosts : List (Text × Report) → List (Option Text)
fine_hosts [] = []
fine_hosts ((host, fine) ∷ rest) = some host ∷ fine_hosts rest
fine_hosts ((host, failed m) ∷ rest) = fine_hosts rest
fine_hosts ((host, fatal m) ∷ rest) = fine_hosts rest

-- The events where no two appends overlap.
unfoldable pub in_turn : List (Text × Report) → List Event
in_turn [] = []
in_turn ((host, fine) ∷ rest) = reads host ∷ ends host fine ∷ in_turn rest
in_turn ((host, failed m) ∷ rest) = ends host (failed m) ∷ in_turn rest
in_turn ((host, fatal m) ∷ rest) = ends host (fatal m) ∷ in_turn rest

pub finish_all-in_turn :
    (reports : List (Text × Report)) (s : Running)
    → (finish_all (in_turn reports) s).pool.actives ≡ s.pool.actives ++ fine_hosts reports
unfolding finish_all finish in_turn
finish_all-in_turn [] s = ground (arith, append-nil s.pool.actives)
finish_all-in_turn ((host, fine) ∷ rest) s =
    finish_all-in_turn rest (finish (ends host fine) (finish (reads host) s))
    ∙ ap (λ o. (or_empty o ++ (some host ∷ [])) ++ fine_hosts rest)
        (lookup-insert_same host s.pool.actives s.held)
    ∙ append_assoc s.pool.actives (some host ∷ []) (fine_hosts rest)
finish_all-in_turn ((host, failed m) ∷ rest) s =
    finish_all-in_turn rest (finish (ends host (failed m)) s)
finish_all-in_turn ((host, fatal m) ∷ rest) s =
    finish_all-in_turn rest (finish (ends host (fatal m)) s)

All-append_one {ℓ} :
    {A : Type ℓ} (P : A → Type 0) (xs : List A) (x : A) → All P xs → P x → All P (xs ++ (x ∷ []))
All-append_one P [] x h q = (q, tt)
All-append_one P (y ∷ ys) x (p, h) q = (p, All-append_one P ys x h q)

-- Every slice in use holds greeted connections only.
module _ (P : Option Text → Type 0) where
  abbrev AreHeld : List (Text × List (Option Text)) → Type 0
  AreHeld held = (host : Text) → All P (or_empty (lookup host held))

  AreHeld-insert :
      (host : Text) (xs : List (Option Text)) (held : List (Text × List (Option Text)))
      → All P xs
      → AreHeld held
      → AreHeld (insert host xs held)
  AreHeld-insert host xs held h k name = elim (Bool-cases (text_eq host name)) [
    | inl same ↦
        subst (λ n. All P (or_empty (lookup n (insert host xs held))))
          ((text_eq_iff host name).0 same) (rw (lookup-insert_same host xs held) h)
    | inr other ↦ rw (lookup-insert_other host name xs held other) (k name)
  ]

  pub finish_all-All :
      (events : List Event) (s : Running)
      → ((host : Text) → Mem (host, fine) (reports_of events) → P (some host))
      → AreHeld s.held
      → All P s.pool.actives
      → All P (finish_all events s).pool.actives
  unfolding finish_all finish reports_of
  finish_all-All [] s greeted held all = all
  finish_all-All (reads host ∷ rest) s greeted held all =
      finish_all-All rest (finish (reads host) s) greeted
        (AreHeld-insert host s.pool.actives s.held all held) all
  finish_all-All (ends host fine ∷ rest) s greeted held all =
      finish_all-All rest (finish (ends host fine) s) (λ h m. greeted h (mem-cons_of_mem _ m)) held
        (All-append_one P (or_empty (lookup host s.held)) (some host) (held host)
          (greeted host mem-cons_self))
  finish_all-All (ends host (failed m) ∷ rest) s greeted held all =
      finish_all-All rest (finish (ends host (failed m)) s) (λ h k. greeted h (mem-cons_of_mem _ k))
        held all
  finish_all-All (ends host (fatal m) ∷ rest) s greeted held all =
      finish_all-All rest (finish (ends host (fatal m)) s) (λ h k. greeted h (mem-cons_of_mem _ k))
        held all

append_one-ne-nil {ℓ} : {A : Type ℓ} (xs : List A) (x : A) → xs ++ (x ∷ []) ≢ []
append_one-ne-nil [] x h = cc
append_one-ne-nil (y ∷ ys) x h = cc

-- A slice that holds a connection is never replaced by an empty one.
finish_all-kept :
    (events : List Event) (s : Running)
    → s.pool.actives ≢ []
    → (finish_all events s).pool.actives ≢ []
unfolding finish_all finish
finish_all-kept [] s h = h
finish_all-kept (reads host ∷ rest) s h = finish_all-kept rest (finish (reads host) s) h
finish_all-kept (ends host fine ∷ rest) s h =
    finish_all-kept rest (finish (ends host fine) s) (append_one-ne-nil _ (some host))
finish_all-kept (ends host (failed m) ∷ rest) s h =
    finish_all-kept rest (finish (ends host (failed m)) s) h
finish_all-kept (ends host (fatal m) ∷ rest) s h =
    finish_all-kept rest (finish (ends host (fatal m)) s) h

pub finish_all-some :
    (events : List Event) (s : Running)
    → fine_hosts (reports_of events) ≢ []
    → (finish_all events s).pool.actives ≢ []
unfolding finish_all finish reports_of
finish_all-some [] s h = absurd (h refl)
finish_all-some (reads host ∷ rest) s h = finish_all-some rest (finish (reads host) s) h
finish_all-some (ends host fine ∷ rest) s h =
    finish_all-kept rest (finish (ends host fine) s) (append_one-ne-nil _ (some host))
finish_all-some (ends host (failed m) ∷ rest) s h =
    finish_all-some rest (finish (ends host (failed m)) s) h
finish_all-some (ends host (fatal m) ∷ rest) s h =
    finish_all-some rest (finish (ends host (fatal m)) s) h
