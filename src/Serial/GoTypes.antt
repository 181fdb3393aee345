-- ===== src/Serial/GoTypes.antt =====
-- The Go types of what `ConvertBytesToInterface` of sdk/utils/serilizer.go returns.
use ultipa_go_driver.Prelude.{
  ◌≡◌, refl, Bool, true, false, List, [], ◌∷◌, Option, none, some, Text, Result, ok, err, traverse,
  ◌>>=◌, All, Bool-cases, Result-cases, inl, inr, sym, subst, ◌==◌,
}
use ultipa_go_driver.Types.{PropertyType, Value, of_items, to_items, of_items-to_items}
use ultipa_go_driver.Runtime.{Runtime}
use ultipa_go_driver.Serial.Null.{is_null}
use ultipa_go_driver.Serial.Encode.{or_fail, parse_bool, point_from_str}
use ultipa_go_driver.Serial.Decode.{convert_bytes_to_interface, first_sub_type}
use ultipa_go_driver.Serial.Decode
use ultipa_go_driver.Serial.{SerialError}

-- nil, or a value of the Go type of the property type; the packed time 0 is left a uint64.
abbrev pub HasGoType : PropertyType → Value → Type 0
HasGoType _ Value.nil = Unit {0}
HasGoType PropertyType.string (Value.str _) = Unit {0}
HasGoType PropertyType.text (Value.str _) = Unit {0}
HasGoType PropertyType.decimal (Value.str _) = Unit {0}
HasGoType PropertyType.int32 (Value.int32 _) = Unit {0}
HasGoType PropertyType.int64 (Value.int64 _) = Unit {0}
HasGoType PropertyType.uint32 (Value.uint32 _) = Unit {0}
HasGoType PropertyType.uint64 (Value.uint64 _) = Unit {0}
HasGoType PropertyType.float (Value.float32 _) = Unit {0}
HasGoType PropertyType.double (Value.float64 _) = Unit {0}
HasGoType PropertyType.datetime (Value.date _) = Unit {0}
HasGoType PropertyType.datetime (Value.uint64 n) = n ≡ 0
HasGoType PropertyType.timestamp (Value.date _) = Unit {0}
HasGoType PropertyType.blob (Value.byte_slice _) = Unit {0}
HasGoType PropertyType.point (Value.point _ _) = Unit {0}
HasGoType PropertyType.bool (Value.boolean _) = Unit {0}
HasGoType PropertyType.list (Value.slice _) = Unit {0}
HasGoType PropertyType.set (Value.slice _) = Unit {0}
HasGoType _ _ = ⊥

-- A value of the Go type of the first sub-type.
abbrev pub IsElement : Runtime → Option (List PropertyType) → Value → Type 0
IsElement rt subs x = (t : PropertyType) × (first_sub_type rt subs ≡ ok t) × HasGoType t x

-- The elements of a slice have the Go type of the first sub-type.
abbrev pub ElementsHaveGoType : Runtime → Option (List PropertyType) → Value → Type 0
ElementsHaveGoType rt subs (Value.slice vs) = All (IsElement rt subs) (of_items vs)
ElementsHaveGoType _ _ _ = Unit {0}

abbrev IsTyped : Runtime → PropertyType → Option (List PropertyType) → Value → Type 0
IsTyped rt t subs v = HasGoType t v × ElementsHaveGoType rt subs v

-- A statement about the value of a result, where there is one.
abbrev Gives {ℓ} : {A : Type ℓ} → (A → Type 0) → Result SerialError A → Type 0
Gives P (ok a) = P a
Gives P (err e) = Unit {0}

Gives-bind {ℓ κ} :
    {A : Type ℓ} {B : Type κ} (P : A → Type 0) (Q : B → Type 0) (r : Result SerialError A)
    (f : A → Result SerialError B)
    → Gives P r
    → ((a : A) → P a → Gives Q (f a))
    → Gives Q (r >>= f)
Gives-bind P Q (ok a) f h step = step a h
Gives-bind P Q (err e) f h step = tt

Gives-mono {ℓ} :
    {A : Type ℓ} (P Q : A → Type 0) (r : Result SerialError A)
    → ((a : A) → P a → Q a)
    → Gives P r
    → Gives Q r
Gives-mono P Q (ok a) step h = step a h
Gives-mono P Q (err e) step h = tt

Gives-any : (r : Result SerialError Bool) → Gives (λ _. Unit {0}) r
Gives-any (ok a) = tt
Gives-any (err e) = tt

Gives-self : (r : Result SerialError PropertyType) → Gives (λ a. r ≡ ok a) r
Gives-self (ok a) = refl
Gives-self (err e) = tt

Gives-traverse {ℓ κ} :
    {A : Type ℓ} {B : Type κ} (P : B → Type 0) (f : A → Result SerialError B) (xs : List A)
    → ((a : A) → Gives P (f a))
    → Gives (All P) (traverse f xs)
Gives-traverse P f [] h = tt
Gives-traverse P f (x ∷ xs) h = Gives-bind P (All P) (f x) _ (h x) (λ y py.
    Gives-bind (All P) (All P) (traverse f xs) _ (Gives-traverse P f xs h) (λ ys pys. (py, pys)))

module _ (rt : Runtime) (element : Text → PropertyType → Result SerialError Value)
    (typed : (bs : Text) (t : PropertyType) → Gives (HasGoType t) (element bs t)) where
  elements-IsTyped :
      (t : PropertyType)
      → ((vs : List Value) → HasGoType t (Value.slice (to_items vs)))
      → (message : Option (Bool × List Text)) (subs : Option (List PropertyType))
      → Gives (IsTyped rt t subs) (Decode.deserialize_elements rt element message subs)
  unfolding Decode.deserialize_elements
  elements-IsTyped t slice none subs = tt
  elements-IsTyped t slice (some (true, values)) subs =
      (slice [], subst (All (IsElement rt subs)) (sym (of_items-to_items [])) tt)
  elements-IsTyped t slice (some (false, values)) subs =
      Gives-bind (All (IsElement rt subs)) (IsTyped rt t subs)
        (traverse (λ bs. do t ← first_sub_type rt subs; element bs t) values)
        (λ vs. ok (Value.slice (to_items vs)))
        (Gives-traverse (IsElement rt subs) (λ bs. do t ← first_sub_type rt subs; element bs t)
          values
          (λ bs.
            Gives-bind (λ s. first_sub_type rt subs ≡ ok s) (IsElement rt subs)
              (first_sub_type rt subs) (λ s. element bs s) (Gives-self (first_sub_type rt subs))
              (λ s e.
                Gives-mono (HasGoType s) (IsElement rt subs) (element bs s) (λ v hv. (s, e, hv))
                  (typed bs s))))
        (λ vs h. (slice vs, subst (All (IsElement rt subs)) (sym (of_items-to_items vs)) h))

  point-IsTyped :
      (r : Result SerialError (Option Text)) (subs : Option (List PropertyType))
      → Gives (IsTyped rt PropertyType.point subs) (r >>= Decode.point_of rt)
  point-IsTyped (err e) subs = tt
  point-IsTyped (ok none) subs = (tt, tt)
  point-IsTyped (ok (some s)) subs = elim (Result-cases (point_from_str rt s)) [
    | inl (p, e) ↦ rw e (tt, tt)
    | inr (x, e) ↦ rw e tt
  ]

  convert_typed-IsTyped :
      (bs : Text) (t : PropertyType) (subs : Option (List PropertyType))
      → Gives (IsTyped rt t subs) (Decode.convert_typed rt element bs t subs)
  convert_typed-IsTyped bs PropertyType.list subs =
      elements-IsTyped PropertyType.list (λ vs. tt) (rt.unmarshal_list bs) subs
  convert_typed-IsTyped bs PropertyType.set subs =
      elements-IsTyped PropertyType.set (λ vs. tt) (rt.unmarshal_set bs) subs
  convert_typed-IsTyped bs PropertyType.point subs =
      point-IsTyped (Decode.as_point_string rt bs) subs
  convert_typed-IsTyped [] PropertyType.bool subs = (tt, tt)
  convert_typed-IsTyped (b ∷ bs) PropertyType.bool subs =
      Gives-bind (λ _. Unit {0}) (IsTyped rt PropertyType.bool subs)
        (or_fail SerialError.bad_bool (parse_bool (b ∷ bs))) (λ v. ok (Value.boolean v))
        (Gives-any (or_fail SerialError.bad_bool (parse_bool (b ∷ bs)))) (λ _ _. (tt, tt))
  convert_typed-IsTyped [] PropertyType.decimal subs = (tt, tt)
  convert_typed-IsTyped (b ∷ bs) PropertyType.decimal subs = (tt, tt)
  convert_typed-IsTyped [] PropertyType.timestamp subs = (tt, tt)
  convert_typed-IsTyped (b ∷ bs) PropertyType.timestamp subs = (tt, tt)
  convert_typed-IsTyped [] PropertyType.datetime subs = (tt, tt)
  convert_typed-IsTyped (b ∷ bs) PropertyType.datetime subs =
      elim (Bool-cases (Decode.as_uint64 (b ∷ bs) == 0)) [
        | inl e ↦ rw e (refl, tt)
        | inr e ↦ rw e (tt, tt)
      ]
  convert_typed-IsTyped bs _ subs = (tt, tt)

  convert_with-IsTyped :
      (bs : Text) (t : PropertyType) (subs : Option (List PropertyType))
      → Gives (IsTyped rt t subs) (Decode.convert_with rt element bs t subs)
  unfolding Decode.convert_with
  convert_with-IsTyped bs t subs = elim (Bool-cases (is_null rt t bs)) [
    | inl null ↦ rw null (tt, tt)
    | inr e ↦ rw e (convert_typed-IsTyped bs t subs)
  ]

-- An element is a value of its type, where its conversion gives one.
element_typed :
    (rt : Runtime) (bs : Text) (t : PropertyType)
    → Gives (HasGoType t) (Decode.convert_element rt bs t)
unfolding Decode.convert_element
element_typed rt bs t =
    Gives-mono (IsTyped rt t none) (HasGoType t)
      (Decode.convert_with rt (λ _ _. err SerialError.panics) bs t none) (λ v h. h.0)
      (convert_with-IsTyped rt (λ _ _. err SerialError.panics) (λ _ _. tt) bs t none)

-- Whatever bytes arrive, a value that is decoded without an error is nil or a value of the Go type of
-- its property type, the packed time 0 being left a uint64, and the elements of a slice are nil or
-- have the Go type of the first sub-type.
pub convert_bytes_to_interface-HasGoType :
    (rt : Runtime) (bs : Text) (t : PropertyType) (subs : Option (List PropertyType)) (v : Value)
    → convert_bytes_to_interface rt bs t subs ≡ ok v
    → HasGoType t v × ElementsHaveGoType rt subs v
unfolding convert_bytes_to_interface
convert_bytes_to_interface-HasGoType rt bs t subs v e =
    subst (Gives (IsTyped rt t subs)) e
      (convert_with-IsTyped rt (Decode.convert_element rt) (element_typed rt) bs t subs)
