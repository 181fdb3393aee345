-- ===== src/Pool/Race.antt =====
-- sdk/connection/connection.pool.go: the goroutines of a refresh append to `pool.Actives` with no
-- lock among them. Each `append` is a read of the slice and a write of the longer one.
use ultipa_go_driver.Prelude.{◌≡◌, refl, List, [], ◌∷◌, ◌++◌, Option, some, Text}

-- What a goroutine that was greeted still has to do with the shared slice.
pub data Stage : Type 0 where
  before : Stage
  -- It has read the slice.
  holding : List (Option Text) → Stage
  done : Stage

-- Two goroutines, for the hosts `a` and `b`, and the slice that they share.
pub record Shared : Type 0 where
  pub first : Stage
  pub second : Stage
  pub actives : List (Option Text)

pub data Step (a b : Text) : Shared → Shared → Type 0 where
  read_first : (s : Shared) → s.first ≡ before → Step a b s (record s { first = holding s.actives })
  read_second :
      (s : Shared) → s.second ≡ before → Step a b s (record s { second = holding s.actives })
  write_first :
      (s : Shared) (seen : List (Option Text))
      → s.first ≡ holding seen
      → Step a b s (record s { first = done; actives = seen ++ (some a ∷ []) })
  write_second :
      (s : Shared) (seen : List (Option Text))
      → s.second ≡ holding seen
      → Step a b s (record s { second = done; actives = seen ++ (some b ∷ []) })

pub data Reach (a b : Text) (s : Shared) : Shared → Type 0 where
  here : Reach a b s s
  next : {t u : Shared} → Reach a b s t → Step a b t u → Reach a b s u

abbrev pub start : Shared
start = record { first = before; second = before; actives = [] }

abbrev pub ended : List (Option Text) → Shared
ended xs = record { first = done; second = done; actives = xs }

-- Two greeted connections can end with either of them alone in the list of active connections: the
-- other goroutine's entry is lost, for any two hosts.
pub append_loses_entry :
    (a b : Text) → Reach a b start (ended (some a ∷ [])) × Reach a b start (ended (some b ∷ []))
append_loses_entry a b = (
  next (next (next (next here (read_first _ refl)) (read_second _ refl)) (write_second _ [] refl))
      (write_first _ [] refl),
  next (next (next (next here (read_first _ refl)) (read_second _ refl)) (write_first _ [] refl))
      (write_second _ [] refl),
)
