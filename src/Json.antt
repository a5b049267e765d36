-- ===== src/Json.antt =====
-- Values of type `unknown`, and the readers of their fields that the services and the worker share:
-- `toRecord`, `input[key]`, `typeof value === 'string'` and the like.
-- A number is a sign, a numerator and a power of two below it, which every finite double is;
-- the two infinities and NaN stand beside.
pub mod FieldLaws
use auto_ops.Prelude.{
  ℕ, ◌*◌, ◌^◌, ◌%◌, Bool, true, false, not, ◌&&◌, String, Option, none, some, List, [], ◌∷◌, ◌==◌,
  if◌then◌else◌, ltb, nat_eq, trim, is_empty,
}

pub data JsNumber : Type 0 where
  finite : (negative : Bool) (numerator exponent : ℕ) → JsNumber
  infinity : (negative : Bool) → JsNumber
  nan : JsNumber

-- An integer literal.
abbrev pub integer : ℕ → JsNumber
integer n = finite false n 0

abbrev pub is_finite : JsNumber → Bool
is_finite (finite s m e) = true
is_finite _ = false

-- `Number.isInteger`
abbrev pub is_integer : JsNumber → Bool
is_integer (finite s m e) = nat_eq (m % 2 ^ e) 0
is_integer _ = false

-- `value > k` at a literal k ≥ 0.
abbrev pub exceeds : JsNumber → ℕ → Bool
exceeds (finite negative m e) k = not negative && ltb (k * 2 ^ e) m
exceeds (infinity negative) k = not negative
exceeds nan k = false

mutual
  pub data Json : Type 0 where
    null : Json
    bool : Bool → Json
    num : JsNumber → Json
    str : String → Json
    arr : Items → Json
    obj : Fields → Json

  pub data Items : Type 0 where
    nil : Items
    cons : Json → Items → Items

  -- The own keys of an object, in order.
  pub data Fields : Type 0 where
    end : Fields
    field : String → Json → Fields → Fields

-- `record[key]`; `none` is `undefined`.
unfoldable pub get_field : String → Fields → Option Json
get_field k end = none
get_field k (field j v fs) = if j == k then some v else get_field k fs

-- `{ ...record, [key]: value }`: a key that is there keeps its place.
unfoldable pub set_field : String → Json → Fields → Fields
set_field k v end = field k v end
set_field k v (field j w fs) = if j == k then field j v fs else field j w (set_field k v fs)

-- `toRecord`: an object, or the empty one for anything else.
abbrev pub to_record : Json → Fields
to_record (obj fs) = fs
to_record _ = end

-- `recordValue(value)` under `?.`: an object's fields, or `undefined`.
abbrev pub record_value : Option Json → Option Fields
record_value (some (obj fs)) = some fs
record_value _ = none

-- `typeof value === 'string' ? value : undefined`
abbrev pub string_value : Option Json → Option String
string_value (some (str s)) = some s
string_value _ = none

-- A finite number, or `undefined`.
abbrev pub finite_number : JsNumber → Option JsNumber
finite_number (finite s m e) = some (finite s m e)
finite_number _ = none

abbrev pub number_value : Option Json → Option JsNumber
number_value (some (num n)) = finite_number n
number_value _ = none

abbrev pub is_true : Option Json → Bool
is_true (some (bool b)) = b
is_true _ = false

-- `typeof value === 'string' && value.trim().length > 0 ? value.trim() : null`
abbrev pub trimmed : String → Option String
trimmed s = if is_empty (trim s) then none else some (trim s)

abbrev pub trimmed_value : Option Json → Option String
trimmed_value (some (str s)) = trimmed s
trimmed_value _ = none

-- The strings among the items.
abbrev pub item_strings : Items → List String
item_strings nil = []
item_strings (cons (str s) vs) = s ∷ item_strings vs
item_strings (cons _ vs) = item_strings vs

-- `toStringArray`
abbrev pub to_string_array : Option Json → List String
to_string_array (some (arr vs)) = item_strings vs
to_string_array _ = []
