-- ===== src/Items/Closed.antt =====
-- sdk/http/dataitem.go: the identifiers of a path and its maps.
use ultipa_go_driver.Prelude.{
  ℕ, ◌≡◌, refl, sym, ap, ◌∙◌, subst, ◌==◌, ==_iff, inl, inr, List, [], ◌∷◌, some, Text, Result, ok,
  err, traverse, bind-ok, ok_inj, put_at, get_at, get_at-put_at, Bool-cases, All, map, keep_if, not,
}
use ultipa_go_driver.Runtime.{Runtime}
use ultipa_go_driver.Rows.{Schema, Node, Edge, EntityRow, RowError}
use ultipa_go_driver.Rows.Read.{
  EntityTable, read_values, properties_in, table_node, table_edge, node_table_to_nodes,
  edge_table_to_edges, node_table_to_uuids, schema_map,
}
use ultipa_go_driver.Items.{PathMessage, GraphPath, of_row}
use ultipa_go_driver.Items.Paths.{keyed, node_uuid, edge_uuid, followed, parse_path}

module _ {V : Type 0} (key : V → ℕ) where
  -- The map has a value under the number, with that number.
  abbrev Has : List (ℕ × V) → ℕ → Type 0
  Has m u = (v : V) × (get_at u m ≡ some v) × (key v ≡ u)

  put_at-Has : (v : V) (m : List (ℕ × V)) (u : ℕ) → Has m u → Has (put_at (key v) v m) u
  put_at-Has v m u (w, e, k) = elim (Bool-cases (key v == u)) [
    | inl hit ↦ (v, rw (get_at-put_at (key v) u v m, hit) refl, (==_iff (key v) u).0 hit)
    | inr miss ↦ (w, rw (get_at-put_at (key v) u v m, miss) e, k)
  ]

  put_at-Has_new : (v : V) (m : List (ℕ × V)) → Has (put_at (key v) v m) (key v)
  put_at-Has_new v m =
      (v, rw (get_at-put_at (key v) (key v) v m, (==_iff (key v) (key v)).1 refl) refl, refl)

  keyed-Has : (vs : List V) (m : List (ℕ × V)) (u : ℕ) → Has m u → Has (keyed key vs m) u
  unfolding keyed
  keyed-Has [] m u h = h
  keyed-Has (v ∷ vs) m u h = keyed-Has vs (put_at (key v) v m) u (put_at-Has v m u h)

  keyed-All : (vs : List V) (m : List (ℕ × V)) → All (Has (keyed key vs m)) (map key vs)
  unfolding keyed
  keyed-All [] m = tt
  keyed-All (v ∷ vs) m = (
    keyed-Has vs (put_at (key v) v m) (key v) (put_at-Has_new v m),
    keyed-All vs (put_at (key v) v m),
  )

  -- A loop over rows keeps their numbers.
  traverse-keys :
      (f : EntityRow → Result RowError V)
      → ((r : EntityRow) (v : V) → f r ≡ ok v → key v ≡ r.uuid)
      → (rows : List EntityRow) (vs : List V) → traverse f rows ≡ ok vs
      → map key vs ≡ map (λ r. r.uuid) rows
  traverse-keys f keep [] vs h = ap (map key) (sym (ok_inj h))
  traverse-keys f keep (r ∷ rows) vs h =
      let (v, e, g) = bind-ok (f r) _ vs h in
      let (ws, e', g') = bind-ok (traverse f rows) _ vs g in
      ap (map key) (sym (ok_inj g')) ∙ rw (keep r v e, traverse-keys f keep rows ws e') refl

module _ (rt : Runtime) where
  table_node-uuid :
      (m : List (Text × Schema)) (r : EntityRow) (n : Node)
      → table_node rt m r ≡ ok n
      → node_uuid n ≡ r.uuid
  unfolding table_node
  table_node-uuid m r n h =
      let (d, _, e) = bind-ok (read_values rt (properties_in m r.schema_name) r.values []) _ n h in
      ap node_uuid (sym (ok_inj e))

  table_edge-uuid :
      (m : List (Text × Schema)) (r : EntityRow) (e : Edge)
      → table_edge rt m r ≡ ok e
      → edge_uuid e ≡ r.uuid
  unfolding table_edge
  table_edge-uuid m r x h =
      let (d, _, e) = bind-ok (read_values rt (properties_in m r.schema_name) r.values []) _ x h in
      ap edge_uuid (sym (ok_inj e))

  nodes-uuids :
      (t : EntityTable) (nodes : List Node) (m : List (Text × Schema))
      → node_table_to_nodes rt t ≡ ok (nodes, m)
      → map node_uuid nodes ≡ node_table_to_uuids t
  unfolding node_table_to_nodes node_table_to_uuids
  nodes-uuids t nodes m h =
      let (ns, e, g) =
        bind-ok
          (traverse (table_node rt (schema_map t.schemas [])) (keep_if (λ r. not r.is_null) t.rows))
          (λ x. ok (x, schema_map t.schemas [])) (nodes, m) h in
      let same : (nodes, m) ≡ (ns, schema_map t.schemas []) = sym (ok_inj g) in
      ap (λ p. map node_uuid p.0) same
      ∙ traverse-keys node_uuid (table_node rt (schema_map t.schemas []))
          (table_node-uuid (schema_map t.schemas [])) _ ns e

  edges-uuids :
      (t : EntityTable) (edges : List Edge) (m : List (Text × Schema))
      → edge_table_to_edges rt t ≡ ok (edges, m)
      → map edge_uuid edges ≡ node_table_to_uuids t
  unfolding edge_table_to_edges node_table_to_uuids
  edges-uuids t edges m h =
      let (es, e, g) =
        bind-ok
          (traverse (table_edge rt (schema_map t.schemas [])) (keep_if (λ r. not r.is_null) t.rows))
          (λ x. ok (x, schema_map t.schemas [])) (edges, m) h in
      let same : (edges, m) ≡ (es, schema_map t.schemas []) = sym (ok_inj g) in
      ap (λ p. map edge_uuid p.0) same
      ∙ traverse-keys edge_uuid (table_edge rt (schema_map t.schemas []))
          (table_edge-uuid (schema_map t.schemas [])) _ es e

of_row-ok : {A : Type 0} (r : Result RowError A) (a : A) → of_row r ≡ ok a → r ≡ ok a
of_row-ok (ok b) a h = cc
of_row-ok (err RowError.panics) a h = cc
of_row-ok (err _) a h = cc

-- In a path that is read without an error, every identifier of a node has a node under it in the map
-- of nodes, with that identifier, and every identifier of an edge an edge in the map of edges.
pub parse_path_lem :
    (rt : Runtime) (p : PathMessage) (path : GraphPath)
    → parse_path rt p ≡ ok path
    → All (λ u. (n : Node) × (get_at u path.nodes ≡ some n) × (n.uuid ≡ u)) path.node_uuids
      × All (λ u. (e : Edge) × (get_at u path.edges ≡ some e) × (e.uuid ≡ u)) path.edge_uuids
unfolding parse_path
parse_path_lem rt p path h =
    let (nt, _, h1) = bind-ok (followed p.node_table) _ path h in
    let (ns, e, h2) = bind-ok (of_row (node_table_to_nodes rt nt)) _ path h1 in
    let (et, _, h3) = bind-ok (followed p.edge_table) _ path h2 in
    let (es, f, h4) = bind-ok (of_row (edge_table_to_edges rt et)) _ path h3 in
    subst (λ x. All (Has node_uuid x.nodes) x.node_uuids × All (Has edge_uuid x.edges) x.edge_uuids)
      (ok_inj h4)
      (
        subst (All (Has node_uuid (keyed node_uuid ns.0 [])))
            (nodes-uuids rt nt ns.0 ns.1 (of_row-ok _ ns e)) (keyed-All node_uuid ns.0 []),
        subst (All (Has edge_uuid (keyed edge_uuid es.0 [])))
            (edges-uuids rt et es.0 es.1 (of_row-ok _ es f)) (keyed-All edge_uuid es.0 []),
      )
