-- ===== src/Json.antt =====
-- json_types.py: JSON values, as data. Numbers are the natural ones; a dict has its fields in
-- insertion order.
use efloud.Prelude.{ℕ, String, Bool, false, List, [], ◌∷◌, Option, none, some, ◌≡◌, refl}
use efloud.Prelude.{if◌then◌else◌, ◌==◌, string_eq, nat_eq, ap}

mutual
  pub data Json : Type 0 where
    null : Json
    bool : Bool → Json
    int : ℕ → Json
    str : String → Json
    arr : JsonArray → Json
    obj : JsonObject → Json

  pub data JsonArray : Type 0 where
    nil : JsonArray
    cons : Json → JsonArray → JsonArray

  pub data JsonObject : Type 0 where
    end : JsonObject
    field : String → Json → JsonObject → JsonObject

-- `payload.get(key)`
abbrev pub get : String → JsonObject → Option Json
get k end = none
get k (field j v o) = if k == j then some v else get k o

-- `payload[key] = value`
abbrev pub put : String → Json → JsonObject → JsonObject
put k v end = field k v end
put k v (field j w o) = if k == j then field k v o else field j w (put k v o)

abbrev pub elements : JsonArray → List Json
elements nil = []
elements (cons x xs) = x ∷ elements xs

abbrev pub array : List Json → JsonArray
array [] = nil
array (x ∷ xs) = cons x (array xs)

pub elements-array : (xs : List Json) → elements (array xs) ≡ xs
elements-array [] = refl
elements-array (x ∷ xs) = ap (◌∷◌ x) (elements-array xs)

abbrev pub strings : List String → List Json
strings [] = []
strings (s ∷ ss) = str s ∷ strings ss

-- `json_mapping_or_none(value)`: all that this type holds is a JSON value.
abbrev pub mapping_or_none : Option Json → Option JsonObject
mapping_or_none (some (obj o)) = some o
mapping_or_none _ = none

-- `isinstance(value, str)`
abbrev pub string_or_none : Option Json → Option String
string_or_none (some (str s)) = some s
string_or_none _ = none

-- `isinstance(value, list)`
abbrev pub list_or_none : Option Json → Option (List Json)
list_or_none (some (arr xs)) = some (elements xs)
list_or_none _ = none

-- `value == 1`, which holds of `True` as well.
abbrev pub is_one : Option Json → Bool
is_one (some (int n)) = n == 1
is_one (some (bool b)) = b
is_one _ = false

-- `list(values)` of strings, as a value.
abbrev pub string_array : List String → Json
string_array ss = arr (array (strings ss))

-- `if value is not None: payload[key] = value`, at the end of the payload.
abbrev pub put_some : String → Option Json → JsonObject → JsonObject
put_some key none payload = payload
put_some key (some v) payload = put key v payload

-- A field that may be `None`.
abbrev pub or_null : Option String → Json
or_null none = null
or_null (some s) = str s

abbrev pub str_option : Option String → Option Json
str_option none = none
str_option (some s) = some (str s)
