-- ===== src/Pool/Refresh.antt =====
-- sdk/connection/connection.pool.go: what a refresh of the active connections leaves behind.
use ultipa_go_driver.Prelude.{
  ℕ, ◌+◌, ◌-◌, ◌^◌, ◌<◌, ◌≡◌, ◌≢◌, refl, ap, ◌↔◌, ◌∙◌, All, Bool, lookup, true, false, ◌&&◌, List,
  [], ◌∷◌, Option, none, some, Text, length, get_elem?, zero, suc, ◌%◌, ok, leb, ◌==◌, arith,
  Option-cases, inl, inr,
}
use mathlib.Core.List.{Mem}
use native.Mathlib.Nat.{mod-eq_of_lt}
use ultipa_go_driver.Pool.{
  Pool, Report, fine, failed, fatal, Event, finish_all, reports_of, first_fatal, judge, verdict,
  has_nil, refresh_actives, get_random_conn, is_tcp, pick, at_tick,
}
use ultipa_go_driver.Pool.Slices.{fine_hosts, finish_all-All, finish_all-some}

-- The refresh is not skipped: more than five seconds have passed, or some connection is not active.
abbrev pub IsDue : ℕ → Pool → Type 0
IsDue now p =
    (leb (now - p.last_actives_time) 5000000000 && length p.connections == length p.actives) ≡ false

judge-ok :
    (tcp : Bool) (reports : List (Text × Report))
    → (judge tcp reports ≡ ok tt) ↔ (fine_hosts reports ≢ [])
unfolding judge
judge-ok true [] = (λ e. cc, λ h. absurd (h refl))
judge-ok false [] = (λ e. cc, λ h. absurd (h refl))
judge-ok tcp ((host, fine) ∷ rest) = (λ e f. cc, λ h. refl)
judge-ok tcp ((host, failed m) ∷ rest) = judge-ok (tcp && is_tcp (failed m)) rest
judge-ok tcp ((host, fatal m) ∷ rest) = judge-ok (tcp && is_tcp (fatal m)) rest

verdict-ok :
    (reports : List (Text × Report))
    → (verdict reports ≡ ok tt) ↔ ((first_fatal reports ≡ none) × (fine_hosts reports ≢ []))
unfolding verdict
verdict-ok reports = elim (Option-cases (first_fatal reports)) [
  | inl harmless ↦
      rw (harmless, verdict)
        (λ e. (refl, (judge-ok true reports).0 e), λ h. (judge-ok true reports).1 h.1)
  | inr (m, e) ↦ rw (e, verdict) (λ f. cc, λ h. cc (h.0))
]

refresh_lem :
    (now done : ℕ) (events : List Event) (p : Pool)
    → IsDue now p
    → has_nil p.connections ≡ false
    → refresh_actives now done events p ≡ (
      verdict (reports_of events),
      record ((finish_all events (record { pool = record p { actives = [] }; held = [] })).pool) {
        last_actives_time = done;
      },
    )
unfolding refresh_actives
refresh_lem now done events p due whole = rw (due, whole)

-- An active connection whose greeting ended well.
abbrev pub IsGreeted : List Event → Option Text → Type 0
IsGreeted events a = (host : Text) × (a ≡ some host) × Mem (host, fine) (reports_of events)

pub refresh_actives_lem :
    (now done : ℕ) (events : List Event) (p : Pool)
    → IsDue now p
    → has_nil p.connections ≡ false
    → let (r, q) = refresh_actives now done events p in
      All (IsGreeted events) q.actives
      × (fine_hosts (reports_of events) ≢ [] → q.actives ≢ [])
      × (q.last_actives_time ≡ done)
      × ((r ≡ ok tt)
          ↔ ((first_fatal (reports_of events) ≡ none) × (fine_hosts (reports_of events) ≢ [])))
unfolding lookup
refresh_actives_lem now done events p due whole = rw (refresh_lem now done events p due whole) (
  finish_all-All (IsGreeted events) events _ (λ host m. (host, refl, m)) (λ host. tt) tt,
  finish_all-some events _,
  refl,
  verdict-ok (reports_of events),
)

get_elem?-All {ℓ} :
    {A : Type ℓ} (P : A → Type 0) (xs : List A) (i : ℕ)
    → All P xs
    → i < length xs
    → (x : A) × (get_elem? xs i ≡ some x) × P x
get_elem?-All P [] i all h = absurd (omega arith)
get_elem?-All P (x ∷ xs) zero (p, all) h = (x, refl, p)
get_elem?-All P (x ∷ xs) (suc i) (p, all) h = get_elem?-All P xs i all (omega arith)

length-ne-zero {ℓ} : {A : Type ℓ} (xs : List A) → xs ≢ [] → 0 < length xs
length-ne-zero [] h = absurd (h refl)
length-ne-zero (x ∷ xs) h = omega arith

tick_lem : (t : ℕ) → t + 1 < 2 ^ 63 → (t + 1) % 2 ^ 64 ≡ t + 1
tick_lem t h = mod-eq_of_lt (omega (arith, h))

-- A request while the counter is below the largest int64.
pub get_random_conn_lem :
    (p : Pool)
    → p.random_tick + 1 < 2 ^ 63
    → 0 < length p.actives
    → get_random_conn p ≡ (
      pick (get_elem? p.actives ((p.random_tick + 1) % length p.actives)),
      record p { random_tick = p.random_tick + 1 },
    )
unfolding get_random_conn at_tick
get_random_conn_lem p h some_active = rw (tick_lem p.random_tick h) (ground arith)

-- After a due refresh that succeeds, however its goroutines interleave, the pool hands out a connection
-- at every request, as long as the counter is below the largest int64, and it is one that was greeted
-- in that refresh.
pub get_random_conn_after_refresh :
    (now done : ℕ) (events : List Event) (p : Pool) (tick : ℕ)
    → IsDue now p
    → has_nil p.connections ≡ false
    → (refresh_actives now done events p).0 ≡ ok tt
    → tick + 1 < 2 ^ 63
    → let q = record (refresh_actives now done events p).1 { random_tick = tick } in
      (host : Text) × ((get_random_conn q).0 ≡ ok host) × Mem (host, fine) (reports_of events)
get_random_conn_after_refresh now done events p tick due whole r bound =
    let (all, kept, _, iff) = refresh_actives_lem now done events p due whole in
    let q : Pool = record (refresh_actives now done events p).1 { random_tick = tick } in
    let some_active = length-ne-zero q.actives (kept ((iff.0 r).1)) in
    let (a, e, g) =
      get_elem?-All (IsGreeted events) q.actives ((tick + 1) % length q.actives) all
        (omega arith) in
    let (host, f, m) : (host : Text) × (a ≡ some host) × Mem (host, fine) (reports_of events) = g in
    (host, ap (λ x. x.0) (get_random_conn_lem q bound some_active) ∙ ap pick (e ∙ ap some f), m)
