-- ===== src/Items/Same.antt =====
-- Results of sdk/http/dataitem.go that do not depend on the fuel of the model.
use ultipa_go_driver.Prelude.{
  ◌≡◌, ◌≢◌, refl, ap, subst, Bool, List, [], ◌∷◌, Option, none, some, Result, ok, err, ◌>>=◌,
  traverse, All, if◌then◌else◌, true, false,
}
use ultipa_go_driver.Types.{Value}
use ultipa_go_driver.Runtime.{Runtime}
use ultipa_go_driver.Serial.{SerialError}
use ultipa_go_driver.Rows.{RowError}
use ultipa_go_driver.Rows.Read.{node_table_to_nodes, edge_table_to_edges}
use ultipa_go_driver.Items.{PathMessage, ItemError, of_row}
use ultipa_go_driver.Items.Paths.{followed, parse_path, parse_paths}
use ultipa_go_driver.Items.Attrs.{unmarshalled, converted_value}

-- Two results are the same, and not for want of fuel.
abbrev pub Same : {A : Type 0} → Result ItemError A → Result ItemError A → Type 0
Same (ok a) r = ok a ≡ r
Same (err ItemError.out_of_fuel) r = ⊥
Same (err e) r = err e ≡ r

pub Same-bind :
    {A B : Type 0} (r1 r2 : Result ItemError A) (f1 f2 : A → Result ItemError B)
    → Same r1 r2
    → ((a : A) → Same (f1 a) (f2 a))
    → Same (r1 >>= f1) (r2 >>= f2)
Same-bind (ok a) r2 f1 f2 h k = subst (λ r. Same (f1 a) (r >>= f2)) h (k a)
Same-bind (err ItemError.out_of_fuel) r2 f1 f2 h k = absurd h
Same-bind (err _) r2 f1 f2 h k = ap (λ r. r >>= f2) h

pub Same-traverse :
    {A B : Type 0} (P : A → Type 0) (f1 f2 : A → Result ItemError B) (xs : List A)
    → ((a : A) → P a → Same (f1 a) (f2 a))
    → All P xs
    → Same (traverse f1 xs) (traverse f2 xs)
Same-traverse P f1 f2 [] h all = refl
Same-traverse P f1 f2 (x ∷ xs) h (p, ps) = Same-bind (f1 x) (f2 x) _ _ (h x p) (λ y.
    Same-bind (traverse f1 xs) (traverse f2 xs) _ _ (Same-traverse P f1 f2 xs h ps) (λ ys. refl))

pub Same-eq : {A : Type 0} (r1 r2 : Result ItemError A) → Same r1 r2 → r1 ≡ r2
Same-eq (ok a) r2 h = h
Same-eq (err ItemError.out_of_fuel) r2 h = absurd h
Same-eq (err _) r2 h = h

pub Same-fueled :
    {A : Type 0} (r1 r2 : Result ItemError A) → Same r1 r2 → r1 ≢ err ItemError.out_of_fuel
Same-fueled r1 r2 h e = subst (λ r. Same r r2) e h

pub Same-if :
    {A : Type 0} (b : Bool) (x y1 y2 : Result ItemError A)
    → Same x x
    → Same y1 y2
    → Same (if b then x else y1) (if b then x else y2)
Same-if true x y1 y2 h k = h
Same-if false x y1 y2 h k = k

-- What does not recurse has no fuel to want.
pub of_row-Same : {A : Type 0} (r : Result RowError A) → Same (of_row r) (of_row r)
of_row-Same (ok a) = refl
of_row-Same (err RowError.panics) = refl
of_row-Same (err _) = refl

pub followed-Same : {A : Type 0} (o : Option A) → Same (followed o) (followed o)
followed-Same none = refl
followed-Same (some a) = refl

pub unmarshalled-Same : {A : Type 0} (o : Option A) → Same (unmarshalled o) (unmarshalled o)
unmarshalled-Same none = refl
unmarshalled-Same (some a) = refl

pub converted_value-Same :
    (r : Result SerialError Value) → Same (converted_value r) (converted_value r)
converted_value-Same (ok v) = refl
converted_value-Same (err SerialError.panics) = refl
converted_value-Same (err _) = refl

pub All-mono :
    {A : Type 0} (P Q : A → Type 0) (xs : List A) → ((a : A) → P a → Q a) → All P xs → All Q xs
All-mono P Q [] h all = tt
All-mono P Q (x ∷ xs) h (p, ps) = (h x p, All-mono P Q xs h ps)

pub AllTrue : {A : Type 0} (xs : List A) → All (λ _. Unit {0}) xs
AllTrue [] = tt
AllTrue (x ∷ xs) = (tt, AllTrue xs)

module _ (rt : Runtime) where
  pub parse_path-Same : (p : PathMessage) → Same (parse_path rt p) (parse_path rt p)
  unfolding parse_path
  parse_path-Same p =
      Same-bind (followed p.node_table) (followed p.node_table) _ _ (followed-Same p.node_table)
        (λ nt.
          Same-bind (of_row (node_table_to_nodes rt nt)) (of_row (node_table_to_nodes rt nt)) _ _
            (of_row-Same (node_table_to_nodes rt nt))
            (λ ns.
              Same-bind (followed p.edge_table) (followed p.edge_table) _ _
                (followed-Same p.edge_table)
                (λ et.
                  Same-bind (of_row (edge_table_to_edges rt et))
                    (of_row (edge_table_to_edges rt et)) _ _
                    (of_row-Same (edge_table_to_edges rt et)) (λ es. refl))))

  pub parse_paths-Same : (ps : List PathMessage) → Same (parse_paths rt ps) (parse_paths rt ps)
  unfolding parse_paths
  parse_paths-Same ps =
      Same-traverse (λ _. Unit {0}) (parse_path rt) (parse_path rt) ps (λ p _. parse_path-Same p)
        (AllTrue ps)
