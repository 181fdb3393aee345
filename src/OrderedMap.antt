-- ===== src/OrderedMap.antt =====
-- sdk/utils/orderedmap: a map that keeps the order in which its keys were set. A value that is the
-- nil interface is `none`. `ForEach` is the list of the calls that it makes.
use ultipa_go_driver.Prelude.{
  ℕ, suc, ◌+◌, ◌≡◌, refl, ap, ◌∙◌, Bool, true, false, ◌||◌, List, [], ◌∷◌, ◌++◌, Option, none, some,
  Text, text_eq, text_eq_iff, text_eq→eq, sym, text_eq_refl, any_of, take, drop, length,
  take-append, lookup, insert, lookup-insert, if◌then◌else◌, arith, Bool-cases, inl, inr,
}

pub record OrderedMap (V : Type 0) : Type 0 where
  pub keys : List Text
  pub data_of : List (Text × Option V)

abbrev pub is_some : {V : Type 0} → Option V → Bool
is_some none = false
is_some (some v) = true

abbrev pub present : {V : Type 0} → Option (Option V) → Option V
present none = none
present (some v) = v

-- `GetKeyIndex` on the keys from the index `i` on.
unfoldable pub key_index : Text → List Text → ℕ → Option ℕ
key_index k [] i = none
key_index k (j ∷ js) i = if text_eq j k then some i else key_index k js (i + 1)

any_of-append_one :
    (k j : Text) (ks : List Text)
    → any_of (text_eq k) (ks ++ (j ∷ [])) ≡ (any_of (text_eq k) ks || text_eq k j)
any_of-append_one k j [] = ground arith
any_of-append_one k j (i ∷ ks) = ground (arith, any_of-append_one k j ks)

-- The index of a key that stands behind others.
key_index-append :
    (k : Text) (front back : List Text) (i : ℕ)
    → any_of (text_eq k) front ≡ false
    → key_index k (front ++ (k ∷ back)) i ≡ some (length front + i)
unfolding key_index
key_index-append k [] back i h = rw (text_eq_refl k) (ap some (omega arith))
key_index-append k (j ∷ front) back i h =
    ground (arith, text_eq_iff j k, text_eq_iff k j, key_index-append k front back (i + 1))

drop-suc_append :
    (front back : List Text) (k : Text) → drop (suc (length front)) (front ++ (k ∷ back)) ≡ back
drop-suc_append [] back k = refl
drop-suc_append (j ∷ front) back k = drop-suc_append front back k

module _ {V : Type 0} where
  unfoldable pub get : Text → OrderedMap V → Option V
  get k m = present (lookup k m.data_of)

  unfoldable pub has_key : Text → OrderedMap V → Bool
  unfolding get
  has_key k m = is_some (get k m)

  unfoldable pub set : Text → Option V → OrderedMap V → OrderedMap V
  unfolding get
  set k v m = record {
    keys = if is_some (get k m) then m.keys else m.keys ++ (k ∷ []);
    data_of = insert k v m.data_of;
  }

  abbrev pub remove_at : OrderedMap V → Option ℕ → OrderedMap V
  remove_at m none = m
  remove_at m (some i) = record m { keys = take i m.keys ++ drop (suc i) m.keys }

  unfoldable pub delete : Text → OrderedMap V → OrderedMap V
  unfolding get key_index
  delete k m = if is_some (get k m) then remove_at m (key_index k m.keys 0) else m

  abbrev pub calls : OrderedMap V → List Text → ℕ → List (Text × Option V × ℕ)
  calls m [] i = []
  calls m (k ∷ ks) i = (k, get k m, i) ∷ calls m ks (i + 1)

  unfoldable pub for_each : OrderedMap V → List (Text × Option V × ℕ)
  for_each m = calls m m.keys 0

  -- The keys are exactly those that have a value.
  abbrev pub Consistent : OrderedMap V → Type 0
  Consistent m = (k : Text) → any_of (text_eq k) m.keys ≡ is_some (get k m)

  get-set :
      (k j : Text) (v : Option V) (m : OrderedMap V)
      → get j (set k v m) ≡ (if text_eq k j then v else get j m)
  unfolding get set
  get-set k j v m = elim (Bool-cases (text_eq k j)) [
    | inl hit ↦ rw (lookup-insert k j v m.data_of, hit)
    | inr miss ↦ rw (lookup-insert k j v m.data_of, miss)
  ]

  -- Setting a key to a value that is not nil keeps the keys exactly those that have a value.
  set-Consistent :
      (k : Text) (v : V) (m : OrderedMap V) → Consistent m → Consistent (set k (some v) m)
  unfolding set
  set-Consistent k v m c = λ j. elim (Bool-cases (is_some (get k m))) [
    | inl there ↦ elim (Bool-cases (text_eq k j)) [
      | inl hit ↦
          rw (there, get-set k j (some v) m, hit)
            (ap (λ x. any_of (text_eq x) m.keys) (sym (text_eq→eq k j hit)) ∙ c k ∙ there)
      | inr miss ↦ rw (there, get-set k j (some v) m, miss) (c j)
    ]
    | inr absent ↦ elim (Bool-cases (text_eq k j)) [
      | inl hit ↦
          rw (absent, get-set k j (some v) m, hit, any_of-append_one j k m.keys)
            (ground (arith, text_eq_iff j k, text_eq_iff k j))
      | inr miss ↦
          rw (absent, get-set k j (some v) m, miss, any_of-append_one j k m.keys)
            (ground (arith, text_eq_iff j k, text_eq_iff k j, c j))
    ]
  ]

  delete-once :
      (k : Text) (v : V) (m : OrderedMap V) (front back : List Text)
      → get k m ≡ some v
      → m.keys ≡ front ++ (k ∷ back)
      → any_of (text_eq k) front ≡ false
      → delete k m ≡ record m { keys = front ++ back }
  unfolding delete
  delete-once k v m front back h e f =
      (let same_index : length front + 0 ≡ length front = omega arith in
        let found : key_index k (front ++ (k ∷ back)) 0 ≡ some (length front) =
          key_index-append k front back 0 f ∙ ap some same_index in
        rw (h, e, found)
          (ap (λ x. record m { keys = x ++ drop (suc (length front)) (front ++ (k ∷ back)) })
              (take-append front (k ∷ back))
            ∙ ap (λ x. record m { keys = front ++ x }) (drop-suc_append front back k)))

  -- A key that has a value and stands once among the keys is taken out of them by `Delete`, and a
  -- `Set` of the key afterwards does not put it back, although `Get` then has the new value.
  pub delete-set_lost :
      (k : Text) (v w : V) (m : OrderedMap V) (front back : List Text)
      → get k m ≡ some v
      → m.keys ≡ front ++ (k ∷ back)
      → any_of (text_eq k) front ≡ false
      → ((set k (some w) (delete k m)).keys ≡ front ++ back)
        × (get k (set k (some w) (delete k m)) ≡ some w)
  unfolding set
  delete-set_lost k v w m front back h e f =
      (let gone : delete k m ≡ record m { keys = front ++ back } =
          delete-once k v m front back h e f in
        (rw (gone, h), get-set k k (some w) (delete k m) ∙ rw (text_eq_refl k)))
