-- ===== src/Json.antt =====
-- The values of Python's `json` module and of the `dict[str, Any]` fields: an object keeps its members
-- in insertion order. Numbers are natural numbers.
use async_native_ai_orchestr.Prelude.{
  ℕ, String, Bool, true, false, not, ◌==◌, str_eq, if◌then◌else◌, List, [], ◌∷◌, Option, none, some,
}

mutual
  pub data Json : Type 0 where
    null : Json
    bool : Bool → Json
    num : ℕ → Json
    str : String → Json
    arr : Items → Json
    obj : Fields → Json

  pub data Items : Type 0 where
    nil : Items
    cons : Json → Items → Items

  pub data Fields : Type 0 where
    end : Fields
    field : String → Json → Fields → Fields

-- `bool(v)`
abbrev pub truthy : Json → Bool
truthy null = false
truthy (bool b) = b
truthy (num n) = not (n == 0)
truthy (str s) = not (str_eq s "")
truthy (arr nil) = false
truthy (arr (cons x xs)) = true
truthy (obj end) = false
truthy (obj (field k v fs)) = true

-- `a or b`
abbrev pub or_json : Json → Json → Json
or_json a b = if truthy a then a else b

-- `fields.get(k)`, where a missing key is `None`
abbrev pub get_field : String → Fields → Json
get_field k end = null
get_field k (field j v fs) = if str_eq j k then v else get_field k fs

-- `v == s`, for a text `s`
abbrev pub is_str : String → Json → Bool
is_str s (str t) = str_eq t s
is_str s _ = false

-- The value under a key, if the key is there.
abbrev pub find_field : String → Fields → Option Json
find_field k end = none
find_field k (field j v fs) = if str_eq j k then some v else find_field k fs

-- `dict(v)`, which is empty for what is no object.
abbrev pub fields_of : Json → Fields
fields_of (obj fs) = fs
fields_of _ = end

abbrev pub items_of : List Json → Items
items_of [] = nil
items_of (x ∷ xs) = cons x (items_of xs)

abbrev pub list_of : Items → List Json
list_of nil = []
list_of (cons x xs) = x ∷ list_of xs

-- A literal object.
abbrev pub object : List (String × Json) → Fields
object [] = end
object ((k, v) ∷ m) = field k v (object m)
