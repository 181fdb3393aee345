-- ===== src/Rows/Check.antt =====
-- sdk/api/check.rows.go: the tests that a row passes before it is converted. `none` is the nil error.
use ultipa_go_driver.Prelude.{
  ◌≡◌, refl, inl, inr, ◌↔◌, Bool, true, ◌&&◌, ◌||◌, not, List, [], ◌∷◌, Option, none, some, Text,
  bytes, text_eq, length, ltb, ◌==◌, if◌then◌else◌, keep_if, lookup, All, arith, Option-cases,
}
use ultipa_go_driver.Types.{Value}
use ultipa_go_driver.Rows.{Property, Schema, Values, Node, Edge, RowError, is_written}

-- The second loop, over the properties that are written.
unfoldable pub find_lacking : List Property → Values → Option RowError
find_lacking [] d = none
find_lacking (p ∷ ps) d = elim (lookup p.name d) [
  | none ↦ some (RowError.lacks p.name)
  | some _ ↦ find_lacking ps d
]

abbrev check_values : List Property → Option Values → Option RowError
check_values [] none = none
check_values [] (some d) = if ltb 0 (length d) then some RowError.properties_empty else none
check_values (p ∷ ps) none = some RowError.values_empty
check_values (p ∷ ps) (some d) =
    if ltb (length (p ∷ ps)) (length d)
    then some RowError.values_larger
    else if ltb (length d) (length (p ∷ ps))
    then some RowError.values_smaller
    else find_lacking (p ∷ ps) d

unfoldable pub check_values_and_properties : List Property → Option Values → Option RowError
unfolding find_lacking
check_values_and_properties ps vs = check_values (keep_if is_written ps) vs

unfoldable pub has_end : Text → Bool
has_end s = not (text_eq s []) && not (text_eq s (bytes "nil")) && not (text_eq s (bytes "null"))

-- The part of `CheckEdgeRows` on the ends of the edge.
unfoldable pub check_ends : Bool → Bool → Bool → Bool → Option RowError
check_ends has_from has_to has_from_uuid has_to_uuid =
    if not has_from && not has_to && not has_from_uuid && not has_to_uuid
    then some RowError.no_ends
    else if has_from && not has_to
    then some RowError.to_null
    else if has_to && not has_from
    then some RowError.from_null
    else if has_from_uuid && not has_to_uuid
    then some RowError.to_uuid_null
    else if not has_from_uuid && has_to_uuid
    then some RowError.from_uuid_null
    else none

unfoldable pub check_edge_rows : Edge → List Property → Option RowError
unfolding check_values_and_properties
check_edge_rows e ps = elim (check_values_and_properties ps e.values) [
  | some r ↦ some r
  | none ↦
      check_ends (has_end e.from) (has_end e.to) (not (e.from_uuid == 0)) (not (e.to_uuid == 0))
]

unfoldable pub check_node_properties : Schema → Option Node → Option RowError
unfolding check_values_and_properties
check_node_properties s none = some RowError.row_nil
check_node_properties s (some n) = check_values_and_properties s.properties n.values

unfoldable pub check_edge_properties : Schema → Option Edge → Option RowError
unfolding check_edge_rows
check_edge_properties s none = some RowError.row_nil
check_edge_properties s (some e) = check_edge_rows e s.properties

-- Every property has a value under its name.
abbrev pub Covers : List Property → Values → Type 0
Covers ps d = All (λ p. (v : Value) × (lookup p.name d ≡ some v)) ps

find_lacking→Covers : (ps : List Property) (d : Values) → find_lacking ps d ≡ none → Covers ps d
unfolding find_lacking
find_lacking→Covers [] d h = tt
find_lacking→Covers (p ∷ ps) d h = elim (Option-cases (lookup p.name d)) [
  | inl missing ↦ cc (rw (find_lacking, missing) at h)
  | inr (v, found) ↦ ((v, found), find_lacking→Covers ps d (rw (find_lacking, found) at h))
]

Covers→find_lacking : (ps : List Property) (d : Values) → Covers ps d → find_lacking ps d ≡ none
unfolding find_lacking
Covers→find_lacking [] d c = refl
Covers→find_lacking (p ∷ ps) d ((v, found), c) =
    rw (find_lacking, found) (Covers→find_lacking ps d c)

check_values_iff :
    (ws : List Property) (d : Values)
    → (check_values ws (some d) ≡ none) ↔ ((length d ≡ length ws) × Covers ws d)
check_values_iff [] [] = (λ h. (refl, tt), λ h. refl)
check_values_iff [] (x ∷ d) = (λ h. ground arith, λ h. ground arith)
check_values_iff (p ∷ ps) d = (
  λ h. ground (arith, find_lacking→Covers (p ∷ ps) d),
  λ (e, c). ground (arith, Covers→find_lacking (p ∷ ps) d c),
)

-- The check passes a row with a map of values exactly where the map has as many keys as there are
-- properties that are written, and has the name of each of these as a key.
pub check_values_and_properties_iff :
    (ps : List Property) (d : Values)
    → (check_values_and_properties ps (some d) ≡ none)
      ↔ ((length d ≡ length (keep_if is_written ps)) × Covers (keep_if is_written ps) d)
unfolding check_values_and_properties
check_values_and_properties_iff ps d = check_values_iff (keep_if is_written ps) d

-- The ends of an edge pass exactly where the two identifiers are given or missing together, the two
-- numbers are given or missing together, and one of the pairs is given.
check_ends_iff :
    (f t fu tu : Bool) → (check_ends f t fu tu ≡ none) ↔ ((f ≡ t) × (fu ≡ tu) × ((f || fu) ≡ true))
unfolding check_ends
check_ends_iff f t fu tu = ground arith
