-- ===== src/Rows/Converted.antt =====
-- sdk/structs/node.go and edge.go: what `ConvertStringNodes` and `ConvertStringEdges` leave.
use ultipa_go_driver.Prelude.{
  ◌≡◌, refl, sym, ap, ◌∙◌, Bool, true, false, List, [], ◌∷◌, Option, none, some, Text, bytes,
  text_eq, text_eq_iff, Result, ok, err, lookup, lookup-insert_other, lookup-insert_same,
  if◌then◌else◌, any_of, All, bind-ok, ok_inj, subst, arith,
}
use ultipa_go_driver.Types.{PropertyType, Value, type_eq}
use ultipa_go_driver.Runtime.{Runtime, Location}
use ultipa_go_driver.Serial.{SerialError}
use ultipa_go_driver.Serial.Encode.{string_as_interface}
use ultipa_go_driver.Rows.{Property, Values, RowError}
use ultipa_go_driver.Rows.Texts.{text_of, set_if, convert_values, get_default_nil_string}

abbrev pub is_named : Text → Property → Bool
is_named name p = text_eq p.name name

-- No two properties have the same name.
abbrev pub AreDistinct : List Property → Type 0
AreDistinct [] = Unit {0}
AreDistinct (p ∷ ps) = (any_of (is_named p.name) ps ≡ false) × AreDistinct ps

-- A value that is converted, or the one that was there.
abbrev pub or_old : Result SerialError Value → Option Value → Option Value
or_old (ok v) old = some v
or_old (err e) old = old

set_if-other :
    (k name : Text) (r : Result SerialError Value) (d : Values)
    → text_eq k name ≡ false
    → lookup name (set_if k r d) ≡ lookup name d
set_if-other k name (ok v) d h = lookup-insert_other k name v d h
set_if-other k name (err e) d h = refl

set_if-same :
    (k : Text) (r : Result SerialError Value) (d : Values)
    → lookup k (set_if k r d) ≡ or_old r (lookup k d)
set_if-same k (ok v) d = lookup-insert_same k v d
set_if-same k (err e) d = refl

no_either : (b c : Bool) → (if b then true else c) ≡ false → (b ≡ false) × (c ≡ false)
no_either true c h = cc
no_either false c h = (refl, h)

text_eq-false_sym : (s t : Text) → text_eq s t ≡ false → text_eq t s ≡ false
text_eq-false_sym s t h = ground (arith, text_eq_iff s t, text_eq_iff t s)

module _ (rt : Runtime) (l : Option Location) (other : Result RowError Text) where
  -- The property has the conversion of the text of its value, where this is no error.
  abbrev pub IsConverted : Values → Values → Property → Type 0
  IsConverted d d' p =
      (s : Text) × (text_of other p.type (lookup p.name d) ≡ ok s)
      × (lookup p.name d' ≡ or_old (string_as_interface rt s p.type l) (lookup p.name d))

  convert_values-other :
      (ps : List Property) (d d' : Values) (name : Text)
      → convert_values rt l other ps d ≡ ok d'
      → any_of (is_named name) ps ≡ false
      → lookup name d' ≡ lookup name d
  unfolding convert_values
  convert_values-other [] d d' name h miss = ap (lookup name) (sym (ok_inj h))
  convert_values-other (p ∷ ps) d d' name h miss =
      let (s, e, rest) = bind-ok (text_of other p.type (lookup p.name d)) _ d' h in
      let (first, others) = no_either (is_named name p) (any_of (is_named name) ps) miss in
      convert_values-other ps _ d' name rest others
      ∙ set_if-other p.name name (string_as_interface rt s p.type l) d first

  -- Setting the value of another property makes no difference.
  IsConverted-other :
      (ps : List Property) (k : Text) (r : Result SerialError Value) (d d' : Values)
      → any_of (is_named k) ps ≡ false
      → All (IsConverted (set_if k r d) d') ps
      → All (IsConverted d d') ps
  IsConverted-other [] k r d d' miss all = tt
  IsConverted-other (p ∷ ps) k r d d' miss (one, all) =
      let (first, others) = no_either (is_named k p) (any_of (is_named k) ps) miss in
      (
        subst
            (λ o.
              (s : Text) × (text_of other p.type o ≡ ok s)
              × (lookup p.name d' ≡ or_old (string_as_interface rt s p.type l) o))
            (set_if-other k p.name r d (text_eq-false_sym p.name k first)) one,
        IsConverted-other ps k r d d' others all,
      )

  convert_values-IsConverted :
      (ps : List Property) (d d' : Values)
      → AreDistinct ps
      → convert_values rt l other ps d ≡ ok d'
      → All (IsConverted d d') ps
  unfolding convert_values
  convert_values-IsConverted [] d d' distinct h = tt
  convert_values-IsConverted (p ∷ ps) d d' (fresh, distinct) h =
      let (s, e, rest) = bind-ok (text_of other p.type (lookup p.name d)) _ d' h in
      let r = string_as_interface rt s p.type l in
      (
        (s, e, convert_values-other ps _ d' p.name rest fresh ∙ set_if-same p.name r d),
        IsConverted-other ps p.name r d d' fresh
            (convert_values-IsConverted ps (set_if p.name r d) d' distinct rest),
      )

  -- The values after the conversion of a row, for a schema whose properties have distinct names: those
  -- of the properties of the schema are converted from their texts, where that is no error, and the
  -- others stay as they are.
  pub convert_values_lem :
      (ps : List Property) (d d' : Values)
      → AreDistinct ps
      → convert_values rt l other ps d ≡ ok d'
      → All (IsConverted d d') ps
        × ((name : Text) → any_of (is_named name) ps ≡ false → lookup name d' ≡ lookup name d)
  convert_values_lem ps d d' distinct h =
      (convert_values-IsConverted ps d d' distinct h, λ name. convert_values-other ps d d' name h)

text_of-ok :
    (s : Text) (t : PropertyType) (o : Option Value) → (r : Text) × (text_of (ok s) t o ≡ ok r)
unfolding text_of
text_of-ok s t none = (_, refl)
text_of-ok s t (some Value.nil) = (_, refl)
text_of-ok s t (some (Value.str r)) = (_, refl)
text_of-ok s t (some _) = (_, refl)

convert_values_total :
    (rt : Runtime) (l : Option Location) (ps : List Property) (d : Values)
    → (d' : Values) × (convert_values rt l (ok []) ps d ≡ ok d')
unfolding convert_values
convert_values_total rt l [] d = (d, refl)
convert_values_total rt l (p ∷ ps) d =
    let (s, e) = text_of-ok [] p.type (lookup p.name d) in
    let (d', rest) =
      convert_values_total rt l ps (set_if p.name (string_as_interface rt s p.type l) d) in
    (d', rw e rest)

-- The text that stands for nil: a zero for the numbers, a date for the times.
abbrev pub nil_text : PropertyType → Text
nil_text t =
    if any_of (type_eq t) (
      PropertyType.int32 ∷ PropertyType.int64 ∷ PropertyType.uint32 ∷ PropertyType.uint64
      ∷ PropertyType.float ∷ PropertyType.double ∷ [])
    then 48 ∷ []
    else if any_of (type_eq t) (PropertyType.datetime ∷ PropertyType.timestamp ∷ [])
    then bytes "1970-01-01"
    else []

-- The text of a value of a node: its own, that of nil also where it is missing, or the empty text.
abbrev pub text_for : PropertyType → Option Value → Text
text_for t none = nil_text t
text_for t (some Value.nil) = nil_text t
text_for t (some (Value.str s)) = s
text_for t (some _) = []

get_default_nil_string-nil_text : (t : PropertyType) → get_default_nil_string t ≡ nil_text t
unfolding get_default_nil_string type_eq
get_default_nil_string-nil_text PropertyType.int32 = refl
get_default_nil_string-nil_text _ = refl

text_of-text_for : (t : PropertyType) (o : Option Value) → text_of (ok []) t o ≡ ok (text_for t o)
unfolding text_of
text_of-text_for t none = ap ok (get_default_nil_string-nil_text t)
text_of-text_for t (some Value.nil) = ap ok (get_default_nil_string-nil_text t)
text_of-text_for t (some (Value.str s)) = refl
text_of-text_for t (some _) = refl

module _ (rt : Runtime) (l : Option Location) (d d' : Values) where
  -- The property has the conversion of its text, or its old value where that is an error.
  abbrev pub IsFromText : Property → Type 0
  IsFromText p =
      lookup p.name d'
      ≡ or_old (string_as_interface rt (text_for p.type (lookup p.name d)) p.type l)
          (lookup p.name d)

  IsConverted-IsFromText :
      (ps : List Property) → All (IsConverted rt l (ok []) d d') ps → All IsFromText ps
  IsConverted-IsFromText [] all = tt
  IsConverted-IsFromText (p ∷ ps) ((s, e, f), all) =
      let same = ok_inj (sym e ∙ text_of-text_for p.type (lookup p.name d)) in
      (
        f ∙ ap (λ x. or_old (string_as_interface rt x p.type l) (lookup p.name d)) same,
        IsConverted-IsFromText ps all,
      )

-- ConvertStringNodes succeeds on the values of a node, for a schema whose properties have distinct
-- names: each property then has the conversion of the text of its value, where that is no error, and
-- the value that it had, where it is one; values that are no property stay as they are. The text of a
-- nil value is 0 for a number, 1970-01-01 for a time and empty for the other types, and that of a value
-- other than a text is empty.
pub convert_node_values_lem :
    (rt : Runtime) (l : Option Location) (ps : List Property) (d : Values)
    → AreDistinct ps
    → (d' : Values) × (convert_values rt l (ok []) ps d ≡ ok d')
      × All (IsFromText rt l d d') ps
      × ((name : Text) → any_of (is_named name) ps ≡ false → lookup name d' ≡ lookup name d)
convert_node_values_lem rt l ps d distinct =
    let (d', h) = convert_values_total rt l ps d in
    let (converted, others) = convert_values_lem rt l (ok []) ps d d' distinct h in
    (d', h, IsConverted-IsFromText rt l d d' ps converted, others)
