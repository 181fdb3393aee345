-- ===== src/Pool/Rotation.antt =====
-- sdk/connection/connection.pool.go: `GetRandomConn` goes round the active connections.
use ultipa_go_driver.Prelude.{
  ℕ, zero, suc, ◌+◌, ◌-◌, ◌%◌, ◌^◌, ◌<◌, ◌≡◌, sym, ◌∙◌, ap, length, get_elem?, leb, if◌then◌else◌,
  arith, inl, inr, Bool-cases,
}
use native.Mathlib.Nat.{mod-eq_of_lt, mod-add-mod, mod-lt, add-mod_right}
use ultipa_go_driver.Pool.{Pool, pick, get_random_conn}
use ultipa_go_driver.Pool.Refresh.{get_random_conn_lem}

-- The pool after `n` requests.
unfoldable pub after_requests : ℕ → Pool → Pool
after_requests zero p = p
after_requests (suc n) p = (get_random_conn (after_requests n p)).1

module _ (p : Pool) (some_active : 0 < length p.actives) where
  after_requests_lem :
      (n : ℕ)
      → p.random_tick + n < 2 ^ 63
      → after_requests n p ≡ record p { random_tick = p.random_tick + n }
  unfolding after_requests
  after_requests_lem zero h = ground arith
  after_requests_lem (suc n) h =
      rw (after_requests, after_requests_lem n (omega (arith, h)))
        (ap (λ x. x.1)
            (get_random_conn_lem (record p { random_tick = p.random_tick + n }) (omega (arith, h))
              some_active)
          ∙ ap (λ (k : ℕ). record p { random_tick = k }) (omega arith))

  -- The request number `n` takes the active connection at that distance from the counter.
  request_lem :
      (n : ℕ)
      → p.random_tick + n + 1 < 2 ^ 63
      → (get_random_conn (after_requests n p)).0
        ≡ pick (get_elem? p.actives ((p.random_tick + n + 1) % length p.actives))
  request_lem n h = rw (after_requests_lem n (omega (arith, h))) (
      ap (λ x. x.0)
        (get_random_conn_lem (record p { random_tick = p.random_tick + n }) h some_active))

-- The distance from `t + 1` up to `j`, going round.
turns : ℕ → ℕ → ℕ → ℕ
turns t j size = if leb ((t + 1) % size) j then j - (t + 1) % size else j + size - (t + 1) % size

-- From the residue of `t + 1`, `x` steps on.
step_on : (t x size r : ℕ) → (t + 1) % size + x ≡ r → (t + x + 1) % size ≡ r % size
step_on t x size r e =
    ap (λ (n : ℕ). n % size) (omega arith)
    ∙ sym (mod-add-mod (t + 1) size x)
    ∙ ap (λ (n : ℕ). n % size) e

turns_lem :
    (t j size : ℕ) → j < size → (turns t j size < size) × ((t + turns t j size + 1) % size ≡ j)
unfolding turns
turns_lem t j size h = elim (Bool-cases (leb ((t + 1) % size) j)) [
  | inl before ↦
      rw before
        (ground arith, step_on t (j - (t + 1) % size) size j (ground arith) ∙ mod-eq_of_lt h)
  | inr behind ↦ rw behind (
    ground arith,
    step_on t (j + size - (t + 1) % size) size (j + size)
          (omega (arith, mod-lt (t + 1) {m = size} (omega arith)))
        ∙ add-mod_right j size
        ∙ mod-eq_of_lt h,
  )
]

-- While the active connections stay the same, and the counter below the largest int64, any run of as
-- many requests as there are active connections takes each of them: the one at index `j` is the answer
-- of one of these requests.
pub get_random_conn_rotates :
    (p : Pool) (j : ℕ)
    → j < length p.actives
    → p.random_tick + length p.actives < 2 ^ 63
    → (n : ℕ) × (n < length p.actives)
      × ((get_random_conn (after_requests n p)).0 ≡ pick (get_elem? p.actives j))
get_random_conn_rotates p j h bound =
    let (below, e) = turns_lem p.random_tick j (length p.actives) h in
    (
      turns p.random_tick j (length p.actives),
      below,
      request_lem p (omega arith) _ (omega (arith, bound, below))
          ∙ ap (λ (i : ℕ). pick (get_elem? p.actives i)) e,
    )
