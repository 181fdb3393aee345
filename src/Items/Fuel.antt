-- ===== src/Items/Fuel.antt =====
-- sdk/http/dataitem.go: the recursion of `parseAttr` ends, because the attributes of a list or of a
-- map are shorter than the bytes that hold them.
use ultipa_go_driver.Prelude.{
  ℕ, zero, suc, ◌<◌, ◌≤◌, ◌≡◌, ◌≢◌, refl, subst, List, [], ◌∷◌, ◌++◌, Option, none, some, Text,
  Result, ok, err, traverse, length, All, arith, Option-cases, inl, inr,
}
use ultipa_go_driver.Types.{PropertyType, ResultType}
use ultipa_go_driver.Runtime.{Runtime}
use ultipa_go_driver.Serial.Decode.{convert_bytes_to_interface}
use ultipa_go_driver.Rows.Read.{node_table_to_nodes, edge_table_to_edges}
use ultipa_go_driver.Items.{AttrMessage, ItemError, of_row}
use ultipa_go_driver.Items.Paths.{followed, parse_paths}
use ultipa_go_driver.Items.Attrs.{
  ListMessage, MapMessage, AttrCodec, Attr, Seen, nil_value, converted_value, append_list,
  append_value, append_values, parse_attr_list, parse_attr_entry, parse_attr_map, parse_scalars,
  handle_attr_values, parse_attr_with, parse_attr,
}
use ultipa_go_driver.Items.Same.{
  Same, Same-bind, Same-traverse, Same-eq, Same-fueled, Same-if, of_row-Same, followed-Same,
  converted_value-Same, All-mono, AllTrue, parse_paths-Same,
}

abbrev pub WithinValues : ℕ → Option (List Text) → Type 0
WithinValues n none = Unit {0}
WithinValues n (some vs) = All (λ v. length v < n) vs

-- The values of an attribute are shorter than this.
abbrev pub Within : ℕ → Option AttrMessage → Type 0
Within n none = Unit {0}
Within n (some a) = WithinValues n a.values

-- What protobuf guarantees: the bytes of a message are longer than those of its fields.
pub record CodecLaws (codec : AttrCodec) : Type 0 where
  pub list_longer :
      (v : Text) (d : ListMessage)
      → codec.unmarshal_attr_list v ≡ some d
      → All (λ a. Within (length v) (some a)) d.attrs
  pub map_longer :
      (v : Text) (d : MapMessage)
      → codec.unmarshal_attr_map v ≡ some d
      → Within (length v) d.key × Within (length v) d.value

WithinValues-mono :
    (m n : ℕ) (vs : Option (List Text)) → m ≤ n → WithinValues m vs → WithinValues n vs
WithinValues-mono m n none h w = tt
WithinValues-mono m n (some vs) h w =
    All-mono (λ v. length v < m) (λ v. length v < n) vs (λ v k. omega arith) w

Within-mono : (m n : ℕ) (a : Option AttrMessage) → m ≤ n → Within m a → Within n a
Within-mono m n none h w = tt
Within-mono m n (some a) h w = WithinValues-mono m n a.values h w

module _ (rt : Runtime) (codec : AttrCodec) (laws : CodecLaws codec) (n : ℕ)
    (sub1 sub2 : Option AttrMessage → Result ItemError Attr)
    (agree : (a : Option AttrMessage) → Within n a → Same (sub1 a) (sub2 a)) where
  append_list-Same :
      (t : ResultType) (d : ListMessage) (s : Seen)
      → All (λ a. Within n (some a)) d.attrs
      → Same (append_list rt codec sub1 t d s) (append_list rt codec sub2 t d s)
  append_list-Same ResultType.node d (vs, seen) h =
      Same-bind (followed d.nodes) (followed d.nodes) _ _ (followed-Same d.nodes) (λ t.
        Same-bind (of_row (node_table_to_nodes rt t)) (of_row (node_table_to_nodes rt t)) _ _
          (of_row-Same (node_table_to_nodes rt t)) (λ ns. refl))
  append_list-Same ResultType.edge d (vs, seen) h =
      Same-bind (followed d.edges) (followed d.edges) _ _ (followed-Same d.edges) (λ t.
        Same-bind (of_row (edge_table_to_edges rt t)) (of_row (edge_table_to_edges rt t)) _ _
          (of_row-Same (edge_table_to_edges rt t)) (λ es. refl))
  append_list-Same ResultType.path d (vs, seen) h =
      Same-bind (parse_paths rt d.paths) (parse_paths rt d.paths) _ _ (parse_paths-Same rt d.paths)
        (λ ps. refl)
  append_list-Same ResultType.attr d (vs, seen) h =
      Same-bind (traverse (λ a. sub1 (some a)) d.attrs) (traverse (λ a. sub2 (some a)) d.attrs) _ _
        (Same-traverse (λ a. Within n (some a)) _ _ d.attrs (λ a. agree (some a)) h) (λ subs. refl)
  append_list-Same ResultType.unset d s h = refl
  append_list-Same ResultType.table d s h = refl

  append_value-Same :
      (v : Text) (s : Seen)
      → length v < suc n
      → Same (append_value rt codec sub1 v s) (append_value rt codec sub2 v s)
  unfolding append_value
  append_value-Same v s short = elim (Option-cases (codec.unmarshal_attr_list v)) [
    | inl none_read ↦ rw none_read refl
    | inr (d, e) ↦ rw e (
        Same-if d.is_null (ok (s.0 ++ (nil_value ∷ []), s.1)) (append_list rt codec sub1 d.type d s)
          (append_list rt codec sub2 d.type d s) refl
          (append_list-Same d.type d s (
            All-mono (λ a. Within (length v) (some a)) (λ a. Within n (some a)) d.attrs
              (λ a. Within-mono (length v) n (some a) (omega arith)) (laws.list_longer v d e))))
  ]

  append_values-Same :
      (vs : List Text) (s : Seen)
      → All (λ v. length v < suc n) vs
      → Same (append_values rt codec sub1 vs s) (append_values rt codec sub2 vs s)
  unfolding append_values
  append_values-Same [] s h = refl
  append_values-Same (v ∷ vs) s (h, hs) =
      Same-bind (append_value rt codec sub1 v s) (append_value rt codec sub2 v s) _ _
        (append_value-Same v s h) (λ t. append_values-Same vs t hs)

  parse_attr_entry-Same :
      (v : Text)
      → length v < suc n
      → Same (parse_attr_entry rt codec sub1 v) (parse_attr_entry rt codec sub2 v)
  unfolding parse_attr_entry
  parse_attr_entry-Same v short = elim (Option-cases (codec.unmarshal_attr_map v)) [
    | inl none_read ↦ rw none_read refl
    | inr (d, e) ↦
        let (key, value) = laws.map_longer v d e in
        rw e (
          Same-bind (sub1 d.key) (sub2 d.key) _ _
            (agree d.key (Within-mono (length v) n d.key (omega arith) key))
            (λ k.
              Same-bind (sub1 d.value) (sub2 d.value) _ _
                (agree d.value (Within-mono (length v) n d.value (omega arith) value)) (λ x. refl)))
  ]

  parse_attr_list-Same :
      (vs : List Text)
      → All (λ v. length v < suc n) vs
      → Same (parse_attr_list rt codec sub1 vs) (parse_attr_list rt codec sub2 vs)
  unfolding parse_attr_list
  parse_attr_list-Same vs h =
      Same-bind (append_values rt codec sub1 vs ([], ResultType.unset))
        (append_values rt codec sub2 vs ([], ResultType.unset)) _ _
        (append_values-Same vs ([], ResultType.unset) h) (λ s. refl)

  parse_attr_map-Same :
      (vs : List Text)
      → All (λ v. length v < suc n) vs
      → Same (parse_attr_map rt codec sub1 vs) (parse_attr_map rt codec sub2 vs)
  unfolding parse_attr_map
  parse_attr_map-Same vs h =
      Same-bind (traverse (parse_attr_entry rt codec sub1) vs)
        (traverse (parse_attr_entry rt codec sub2) vs) _ _
        (Same-traverse (λ v. length v < suc n) _ _ vs parse_attr_entry-Same h) (λ rows. refl)

  parse_scalars-Same :
      (t : PropertyType) (vs : List Text)
      → Same (parse_scalars rt codec sub1 t vs) (parse_scalars rt codec sub2 t vs)
  unfolding parse_scalars
  parse_scalars-Same t vs =
      Same-bind (traverse (λ v. converted_value (convert_bytes_to_interface rt v t none)) vs) _ _ _
        (Same-traverse (λ _. Unit {0}) _ _ vs
          (λ v _. converted_value-Same (convert_bytes_to_interface rt v t none)) (AllTrue vs))
        (λ s. refl)

  handle_attr_values-Same :
      (t : PropertyType) (vs : List Text)
      → All (λ v. length v < suc n) vs
      → Same (handle_attr_values rt codec sub1 t vs) (handle_attr_values rt codec sub2 t vs)
  unfolding handle_attr_values
  handle_attr_values-Same PropertyType.set vs h = parse_attr_list-Same vs h
  handle_attr_values-Same PropertyType.list vs h = parse_attr_list-Same vs h
  handle_attr_values-Same PropertyType.map vs h = parse_attr_map-Same vs h
  handle_attr_values-Same t vs h = parse_scalars-Same t vs

  parse_attr_with-Same :
      (name : Text) (a : Option AttrMessage)
      → Within (suc n) a
      → Same (parse_attr_with rt codec sub1 name a) (parse_attr_with rt codec sub2 name a)
  unfolding parse_attr_with
  parse_attr_with-Same name none h = refl
  parse_attr_with-Same name (some a) h = elim (Option-cases a.values) [
    | inl e ↦ rw e refl
    | inr (vs, e) ↦ rw e (
        Same-bind (handle_attr_values rt codec sub1 a.value_type vs)
          (handle_attr_values rt codec sub2 a.value_type vs) _ _
          (handle_attr_values-Same a.value_type vs (subst (WithinValues (suc n)) e h)) (λ s. refl))
  ]

-- An attribute without values does not recurse.
handle_attr_values-empty :
    (rt : Runtime) (codec : AttrCodec) (sub1 sub2 : Option AttrMessage → Result ItemError Attr)
    (t : PropertyType) (vs : List Text)
    → All (λ v. length v < 0) vs
    → Same (handle_attr_values rt codec sub1 t vs) (handle_attr_values rt codec sub2 t vs)
unfolding handle_attr_values parse_attr_list append_values parse_attr_map parse_scalars
handle_attr_values-empty rt codec sub1 sub2 t (v ∷ vs) (h, hs) = absurd (omega arith)
handle_attr_values-empty rt codec sub1 sub2 PropertyType.set [] h = refl
handle_attr_values-empty rt codec sub1 sub2 PropertyType.list [] h = refl
handle_attr_values-empty rt codec sub1 sub2 PropertyType.map [] h = refl
handle_attr_values-empty rt codec sub1 sub2 t [] h = refl

parse_attr_with-empty :
    (rt : Runtime) (codec : AttrCodec) (sub1 sub2 : Option AttrMessage → Result ItemError Attr)
    (name : Text) (a : Option AttrMessage)
    → Within 0 a
    → Same (parse_attr_with rt codec sub1 name a) (parse_attr_with rt codec sub2 name a)
unfolding parse_attr_with
parse_attr_with-empty rt codec sub1 sub2 name none h = refl
parse_attr_with-empty rt codec sub1 sub2 name (some a) h = elim (Option-cases a.values) [
  | inl e ↦ rw e refl
  | inr (vs, e) ↦ rw e (
      Same-bind (handle_attr_values rt codec sub1 a.value_type vs)
        (handle_attr_values rt codec sub2 a.value_type vs) _ _
        (handle_attr_values-empty rt codec sub1 sub2 a.value_type vs (subst (WithinValues 0) e h))
        (λ s. refl))
]

module _ (rt : Runtime) (codec : AttrCodec) (laws : CodecLaws codec) where
  parse_attr-Same :
      (n f1 f2 : ℕ) (name : Text) (a : Option AttrMessage)
      → n < f1
      → n < f2
      → Within n a
      → Same (parse_attr rt codec f1 name a) (parse_attr rt codec f2 name a)
  unfolding parse_attr
  parse_attr-Same n zero f2 name a h1 h2 w = absurd (omega arith)
  parse_attr-Same n (suc f1) zero name a h1 h2 w = absurd (omega arith)
  parse_attr-Same zero (suc f1) (suc f2) name a h1 h2 w =
      parse_attr_with-empty rt codec (parse_attr rt codec f1 []) (parse_attr rt codec f2 []) name a
        w
  parse_attr-Same (suc n) (suc f1) (suc f2) name a h1 h2 w =
      parse_attr_with-Same rt codec laws n _ _
        (λ b k. parse_attr-Same n f1 f2 [] b (omega arith) (omega arith) k) name a w

  -- The recursion of the attribute parser ends: fuel of two more than the length of the longest value
  -- of the attribute is enough, any two amounts of at least that give the same result, and it is not for want of fuel, if
  -- protobuf messages are longer than their fields.
  pub parse_attr_terminates :
      (n f1 f2 : ℕ) (name : Text) (a : Option AttrMessage)
      → n < f1
      → n < f2
      → Within n a
      → (parse_attr rt codec f1 name a ≡ parse_attr rt codec f2 name a)
        × (parse_attr rt codec f1 name a ≢ err ItemError.out_of_fuel)
  parse_attr_terminates n f1 f2 name a h1 h2 w = (
    Same-eq _ _ (parse_attr-Same n f1 f2 name a h1 h2 w),
    Same-fueled _ _ (parse_attr-Same n f1 f2 name a h1 h2 w),
  )
