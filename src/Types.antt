-- ===== src/Types.antt =====
-- The wire types of rpc/ultipa.proto that the driver reads, the driver's own property types
-- (sdk/structs/property.go), and the values of a Go `interface{}` that it converts.
use ultipa_go_driver.Prelude.{
  ℕ, ◌≡◌, refl, Bool, true, false, List, [], ◌∷◌, some, Text, ◌==◌, ==_iff, ap, ◌↔◌, get_elem?,
}
use ultipa_go_driver.Prelude.Int.{ℤ}

-- `PropertyType`: the protocol's nineteen, and the seven negative numbers that the driver adds.
pub data PropertyType : Type 0 where
  unset int32 uint32 int64 uint64 float double string datetime timestamp text : PropertyType
  blob point decimal list set map null bool : PropertyType
  id uuid from to from_uuid to_uuid ignore : PropertyType

-- The number on the wire; the negative ones follow the last.
abbrev pub type_code : PropertyType → ℕ
type_code PropertyType.unset = 0
type_code PropertyType.int32 = 1
type_code PropertyType.uint32 = 2
type_code PropertyType.int64 = 3
type_code PropertyType.uint64 = 4
type_code PropertyType.float = 5
type_code PropertyType.double = 6
type_code PropertyType.string = 7
type_code PropertyType.datetime = 8
type_code PropertyType.timestamp = 9
type_code PropertyType.text = 10
type_code PropertyType.blob = 11
type_code PropertyType.point = 12
type_code PropertyType.decimal = 13
type_code PropertyType.list = 14
type_code PropertyType.set = 15
type_code PropertyType.map = 16
type_code PropertyType.null = 17
type_code PropertyType.bool = 18
type_code PropertyType.id = 19
type_code PropertyType.uuid = 20
type_code PropertyType.from = 21
type_code PropertyType.to = 22
type_code PropertyType.from_uuid = 23
type_code PropertyType.to_uuid = 24
type_code PropertyType.ignore = 25

unfoldable pub type_eq : PropertyType → PropertyType → Bool
type_eq s t = type_code s == type_code t

abbrev types : List PropertyType
types =
    PropertyType.unset ∷ PropertyType.int32 ∷ PropertyType.uint32 ∷ PropertyType.int64
    ∷ PropertyType.uint64 ∷ PropertyType.float ∷ PropertyType.double ∷ PropertyType.string
    ∷ PropertyType.datetime ∷ PropertyType.timestamp ∷ PropertyType.text ∷ PropertyType.blob
    ∷ PropertyType.point ∷ PropertyType.decimal ∷ PropertyType.list ∷ PropertyType.set
    ∷ PropertyType.map ∷ PropertyType.null ∷ PropertyType.bool ∷ PropertyType.id ∷ PropertyType.uuid
    ∷ PropertyType.from ∷ PropertyType.to ∷ PropertyType.from_uuid ∷ PropertyType.to_uuid
    ∷ PropertyType.ignore ∷ []

types-type_code : (t : PropertyType) → get_elem? types (type_code t) ≡ some t
types-type_code PropertyType.unset = refl
types-type_code _ = refl

pub type_eq_iff : (s t : PropertyType) → (type_eq s t ≡ true) ↔ (s ≡ t)
unfolding type_eq
type_eq_iff s t = (
  λ h. cc (
    ap (get_elem? types) ((==_iff (type_code s) (type_code t)).0 h),
    types-type_code s,
    types-type_code t,
  ),
  λ e. (==_iff (type_code s) (type_code t)).1 (ap type_code e),
)

-- `ResultType` and `ErrorCode`; the driver tells the success code and one other apart.
pub data ResultType : Type 0 where
  unset path node edge attr table : ResultType

pub data ErrorCode : Type 0 where
  success permission_denied : ErrorCode
  other : ℕ → ErrorCode

abbrev pub is_success : ErrorCode → Bool
is_success ErrorCode.success = true
is_success _ = false

-- `time.Time` as the driver reads it: its civil fields in its location, and its Unix seconds.
pub record GoTime : Type 0 where
  pub year : ℕ
  pub month : ℕ
  pub day : ℕ
  pub hour : ℕ
  pub minute : ℕ
  pub second : ℕ
  pub nanosecond : ℕ
  pub unix_seconds : ℤ

-- sdk/utils/time.go: the struct UltipaTime.
pub record UltipaTime : Type 0 where
  pub packed : ℕ
  pub year : ℕ
  pub month : ℕ
  pub day : ℕ
  pub hour : ℕ
  pub minute : ℕ
  pub second : ℕ
  pub macrosec : ℕ
  pub time : GoTime

-- What an `interface{}` holds: nil, or a value with its dynamic type. A float is its IEEE 754
-- bit pattern; a pointer to a time or a point is the value that it points to.
mutual
  pub data Value : Type 0 where
    nil : Value
    str : Text → Value
    int32 : ℤ → Value
    int : ℤ → Value
    int64 : ℤ → Value
    uint8 : ℕ → Value
    uint32 : ℕ → Value
    uint64 : ℕ → Value
    float32 : ℕ → Value
    float64 : ℕ → Value
    byte_slice : Text → Value
    boolean : Bool → Value
    date : UltipaTime → Value
    point : ℕ → ℕ → Value
    slice : Items → Value

  pub data Items : Type 0 where
    end : Items
    item : Value → Items → Items

pub to_items : List Value → Items
to_items [] = end
to_items (v ∷ vs) = item v (to_items vs)

pub of_items : Items → List Value
of_items end = []
of_items (item v vs) = v ∷ of_items vs

pub of_items-to_items : (vs : List Value) → of_items (to_items vs) ≡ vs
unfolding of_items to_items
of_items-to_items [] = refl
of_items-to_items (v ∷ vs) = ap (◌∷◌ v) (of_items-to_items vs)

-- `Table`: its name, its headers and its rows, a row being the bytes of its fields.
pub record Table : Type 0 where
  pub table_name : Text
  pub headers : List (Text × PropertyType)
  pub table_rows : List (List Text)
