-- ===== src/Json.antt =====
-- Values of `json.loads`: Python's None, bool, int, float, str, list and dict. A number is carried
-- as its literal: the program never computes with one. A dict is its items, in order.
use gex_test_jonatha.Prelude.{String, Bool, Option, none, some, ◌==◌, if◌then◌else◌}

mutual
  pub data Json : Type 0 where
    null : Json
    bool : Bool → Json
    integer : String → Json
    real : String → Json
    text : String → Json
    list : Items → Json
    dict : Fields → Json

  pub data Items : Type 0 where
    nil : Items
    cons : Json → Items → Items

  pub data Fields : Type 0 where
    end : Fields
    field : String → Json → Fields → Fields

-- `d.get(k)`; a dict has each key once
abbrev pub get : Fields → String → Option Json
get end k = none
get (field j v d) k = if j == k then some v else get d k

-- `d.get(k, default)`
abbrev pub get_or : Fields → String → Json → Json
get_or d k default = elim (get d k) [ none ↦ default | some v ↦ v ]

-- `{**d, k: v}`
abbrev pub set : Fields → String → Json → Fields
set end k v = field k v end
set (field j w d) k v = if j == k then field j v d else field j w (set d k v)

-- `type(v).__name__`
abbrev pub type_name : Json → String
type_name null = "NoneType"
type_name (bool _) = "bool"
type_name (integer _) = "int"
type_name (real _) = "float"
type_name (text _) = "str"
type_name (list _) = "list"
type_name (dict _) = "dict"

-- `bool(v)` of a text, and whether a value is one
abbrev pub as_text : Json → Option String
as_text (text s) = some s
as_text _ = none

abbrev pub as_dict : Json → Option Fields
as_dict (dict d) = some d
as_dict _ = none
