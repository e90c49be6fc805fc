-- ===== src/Classifier.antt =====
-- mcp_server/classifier.py: the class of a divergence, "95" or "5", from the plan of dbwarden.
pub mod Plans
mod Tests
use Prim.Native.Char.{code}
use dbwarden_harness.Base.{
  ℕ, zero, suc, String, ◌<>◌, Bool, true, false, not, ◌&&◌, ◌||◌, Option, none, some, List, [], ◌∷◌,
  ◌++◌, map, ◌==◌, string_eq, nat_eq, if◌then◌else◌, leb, contains, is_empty,
}
use dbwarden_harness.Base.Json.{
  Json, null, boolean, number, text, array, object, Items, nil, cons, Fields, end, field, items,
  member, without, names,
}
use dbwarden_harness.Base.Text.{lower}
use dbwarden_harness.Base.Result.{Result, ok, err, external_error, ◌>>=◌}

abbrev pub standard_ops : List String
standard_ops =
    "add_column" ∷ "create_table" ∷ "create_index" ∷ "drop_column" ∷ "add_constraint"
    ∷ "drop_constraint" ∷ "alter_column_type" ∷ "set_not_null" ∷ "drop_not_null" ∷ "set_default"
    ∷ "drop_default" ∷ []

abbrev pub standard_types : List String
standard_types =
    "integer" ∷ "bigint" ∷ "varchar" ∷ "text" ∷ "boolean" ∷ "timestamptz" ∷ "timestamp" ∷ "date"
    ∷ "numeric" ∷ "float" ∷ "double" ∷ "jsonb" ∷ "uuid" ∷ []

-- A character of `[\s(]`: Python's white space up to the code 160, and the parenthesis.
abbrev ends_word : ℕ → Bool
ends_word c = (leb 9 c && leb c 13) || (leb 28 c && leb c 32) || c == 133 || c == 160 || c == 40

-- `re.split(r"[\s(]", s)[0]`
pub first_word : String → String
first_word String.[] = ""
first_word (String.◌∷◌ c s) =
    let rest = first_word s in if ends_word (code c) then "" else String.◌∷◌ c rest

pub characters : String → List String
characters String.[] = []
characters (String.◌∷◌ c s) = String.◌∷◌ c "" ∷ characters s

-- `bool(value)`
pub truthy : Json → Bool
truthy null = false
truthy (boolean b) = b
truthy (number n) = not (n == 0)
truthy (text s) = not (s == "")
truthy (array nil) = false
truthy (array (cons j js)) = true
truthy (object end) = false
truthy (object (field k v fs)) = true

-- `name in standard_ops`: a list or a dict has no hash.
abbrev is_standard_name : Option Json → Result Bool
is_standard_name (some (text s)) = ok (contains standard_ops s)
is_standard_name (some (array js)) = err (external_error "TypeError")
is_standard_name (some (object fs)) = err (external_error "TypeError")
is_standard_name _ = ok false

abbrev or_member : Option Json → Option Json → Option Json
or_member none other = other
or_member (some j) other = some j

-- `str` is Python's text of a value that is no text.
module _ (str : Json → String) where
  abbrev shown : Json → String
  shown (text s) = s
  shown j = str j

  mutual
    nested_types : Json → List String
    nested_types (object fs) =
        let below = nested_fields fs in
        elim (member "type" fs) [ none ↦ below | some j ↦ shown j ∷ [] ]
    nested_types (array js) = nested_items js
    nested_types _ = []

    nested_items : Items → List String
    nested_items nil = []
    nested_items (cons j js) = nested_types j ++ nested_items js

    nested_fields : Fields → List String
    nested_fields end = []
    nested_fields (field k v fs) = nested_types v ++ nested_fields fs

  -- What a `for` over `op.get("column_types", ...)` meets.
  pub types_of : Fields → Result (List String)
  unfolding characters nested_types
  types_of op = elim (member "column_types" op) [
    | none ↦ ok (nested_types (object (without "type" op)))
    | some (array js) ↦ ok (map shown (items js))
    | some (object fs) ↦ ok (names fs)
    | some (text s) ↦ ok (characters s)
    | some _ ↦ err (external_error "TypeError")
  ]

  pub all_known : List String → Bool
  all_known [] = true
  all_known (t ∷ ts) = contains standard_types (first_word (lower t)) && all_known ts

  -- `all(... for op in ops)` stops at the first operation that fails the test.
  pub all_standard_ops : List Json → Result Bool
  all_standard_ops [] = ok true
  all_standard_ops (object op ∷ ops) =
      let rest = all_standard_ops ops in
      elim (is_standard_name (or_member (member "type" op) (member "kind" op))) [
        | err e ↦ err e
        | ok known ↦ if known then rest else ok false
      ]
  all_standard_ops (_ ∷ ops) = err (external_error "AttributeError")

  pub all_standard_types : List Json → Result Bool
  unfolding types_of
  all_standard_types [] = ok true
  all_standard_types (object op ∷ ops) =
      let rest = all_standard_types ops in
      elim (types_of op) [ err e ↦ err e | ok ts ↦ if all_known ts then rest else ok false ]
  all_standard_types (_ ∷ ops) = err (external_error "AttributeError")

  -- The class of a plan with these operations.
  pub classify_operations : List Json → Result String
  classify_operations ops = if is_empty ops then ok "5" else do
    known_ops ← all_standard_ops ops
    known_types ← all_standard_types ops
    ok (if known_ops && known_types then "95" else "5")

  -- A value of `operations` that is no list and counts as true cannot be iterated to dicts.
  pub classify_divergence : Option Fields → Result String
  unfolding classify_operations
  classify_divergence none = ok "95"
  classify_divergence (some plan) = elim (member "operations" plan) [
    | none ↦ ok "5"
    | some (array js) ↦ classify_operations (items js)
    | some j ↦ if truthy j then err (external_error "AttributeError") else ok "5"
  ]
