-- ===== src/Json.antt =====
-- Values of a dynamic language: what a YAML file or a JSON body holds (`Any` in the source).
-- A number is carried by the text that `str` prints for it, whole or fractional.
use buchi_maker.Common.{
  Dict, lookup, String, Bool, true, false, not, ◌||◌, none, some, List, [], ◌∷◌, ◌==◌,
}

mutual
  pub data Json : Type 0 where
    null : Json
    bool : Bool → Json
    num : String → Json
    str : String → Json
    arr : Items → Json
    obj : Fields → Json

  pub data Items : Type 0 where
    nil : Items
    cons : Json → Items → Items

  pub data Fields : Type 0 where
    end : Fields
    field : String → Json → Fields → Fields

-- a list, and a dict in insertion order
abbrev pub items : Items → List Json
items nil = []
items (cons v vs) = v ∷ items vs

abbrev pub fields : Fields → Dict Json
fields end = []
fields (field k v fs) = (k, v) ∷ fields fs

-- bool(value)
unfoldable pub truthy : Json → Bool
truthy null = false
truthy (bool b) = b
truthy (num n) = not (n == "0" || n == "0.0" || n == "-0.0")
truthy (str s) = not (s == "")
truthy (arr nil) = false
truthy (arr (cons v vs)) = true
truthy (obj end) = false
truthy (obj (field k v fs)) = true

-- str(value); `repr` is what Python prints for a list or a dict
module _ (repr : Json → String) where
  unfoldable pub str_of : Json → String
  str_of null = "None"
  str_of (bool true) = "True"
  str_of (bool false) = "False"
  str_of (num n) = n
  str_of (str s) = s
  str_of (arr vs) = repr (arr vs)
  str_of (obj fs) = repr (obj fs)

-- d.get(key, default), for a default that is a text
abbrev pub get_or : String → String → Dict Json → Json
get_or key default d = elim (lookup key d) [ none ↦ str default | some v ↦ v ]
