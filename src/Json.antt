-- ===== src/Json.antt =====
-- encoding/json as the services use it: a struct is marshalled to an object of its tagged fields,
-- and unmarshalled by taking each tagged field from the object. A field name stands here as the
-- tag that it matches (the decoder compares names without regard to case).
use high_throughput_payments.Base.{
  Bool-cases, Option-cases, inl, inr, String, Option, none, some, List, [], ◌∷◌, ◌==◌, string_eq,
  ◌≡◌, refl, true, arith, if◌then◌else◌,
}
use high_throughput_payments.Base.Int.{ℤ, is_int64}

-- a field's value; `other` is a Boolean, a fraction, an array or an object
pub data Json : Type 0 where
  null other : Json
  num : ℤ → Json
  str : String → Json

abbrev pub Field : Type 0
Field = String × Json

-- the bytes of a message or of a request body
pub data Document : Type 0 where
  malformed null : Document
  object : List Field → Document

-- `null` leaves the struct's field as it was; a value of another type is an error.
abbrev set_string : Json → String → Option String
set_string (str s) old = some s
set_string null old = some old
set_string _ old = none

abbrev set_int64 : Json → ℤ → Option ℤ
set_int64 (num z) old = if is_int64 z then some z else none
set_int64 null old = some old
set_int64 _ old = none

-- The fields in order, so that a later one of the same name wins.
module _ {A : Type 0} (set : Json → A → Option A) (name : String) where
  decode_field : List Field → A → Option A
  decode_field [] old = some old
  decode_field ((k, v) ∷ rest) old = elim (if k == name then set v old else some old) [
    | none ↦ none
    | some new ↦ decode_field rest new
  ]

-- A field that is missing has its type's zero value.
unfoldable pub string_field : String → List Field → Option String
unfolding decode_field
string_field name fields = decode_field set_string name fields ""

unfoldable pub int64_field : String → List Field → Option ℤ
unfolding decode_field
int64_field name fields = decode_field set_int64 name fields (ℤ.pos 0)

set_int64_lem :
    (v : Json) (old new : ℤ)
    → is_int64 old ≡ true
    → set_int64 v old ≡ some new
    → is_int64 new ≡ true
set_int64_lem null old new k q = ground (arith, k, q)
set_int64_lem (num n) old new k q = ground (arith, q)
set_int64_lem _ old new k q = cc

int64_decoded :
    (name : String) (fields : List Field) (old z : ℤ)
    → is_int64 old ≡ true
    → decode_field set_int64 name fields old ≡ some z
    → is_int64 z ≡ true
unfolding decode_field
int64_decoded name [] old z k q = ground (arith, k, q)
int64_decoded name ((x, v) ∷ rest) old z k q = elim (Bool-cases (x == name)) [
  | inr n ↦ int64_decoded name rest old z k (ground (arith, q, n))
  | inl y ↦ elim (Option-cases (set_int64 v old)) [
    | inl f ↦ absurd (ground (arith, q, y, f))
    | inr (new, f) ↦
        int64_decoded name rest new z (set_int64_lem v old new k f) (ground (arith, q, y, f))
  ]
]

-- what an int64 field holds once it is decoded
pub int64_field_lem :
    (name : String) (fields : List Field) (z : ℤ)
    → int64_field name fields ≡ some z
    → is_int64 z ≡ true
unfolding int64_field
int64_field_lem name fields z = int64_decoded name fields (ℤ.pos 0) z refl

-- the top level of `json.Unmarshal` into a struct; `null` leaves the struct as it was
abbrev pub object_fields : Document → Option (List Field)
object_fields malformed = none
object_fields null = some []
object_fields (object fields) = some fields
