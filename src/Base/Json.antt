-- ===== src/Base/Json.antt =====
-- Values of JSON, which are Python's dicts, lists, texts, numbers, booleans and None.
use Prim.Native.Nat.{ℕ}
use Prim.Native.String.{String}
use mathlib.Core.Bool.{Bool}
use mathlib.Core.Option.{Option, none, some}
use mathlib.Core.List.{List, [], ◌∷◌}
use dbwarden_harness.Base.Equality.{◌==◌, string_eq, if◌then◌else◌}

mutual
  pub data Json : Type 0 where
    null : Json
    boolean : Bool → Json
    number : ℕ → Json
    text : String → Json
    array : Items → Json
    object : Fields → Json

  pub data Items : Type 0 where
    nil : Items
    cons : Json → Items → Items

  pub data Fields : Type 0 where
    end : Fields
    field : String → Json → Fields → Fields

abbrev pub items : Items → List Json
items nil = []
items (cons j js) = j ∷ items js

-- `value.get(key)` of a dict.
abbrev pub member : String → Fields → Option Json
member k end = none
member k (field j v fs) = let rest = member k fs in if k == j then some v else rest

-- `{key: value for key, value in d.items() if key != k}`
abbrev pub without : String → Fields → Fields
without k end = end
without k (field j v fs) = let rest = without k fs in if j == k then rest else field j v rest

abbrev pub names : Fields → List String
names end = []
names (field k v fs) = k ∷ names fs
