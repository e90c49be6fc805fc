-- ===== src/Mutations/Imports.antt =====
-- The imports of a mutated module in mcp_server/mutations.py.
use dbwarden_harness.Base.{
  String, Bool, true, false, not, ◌&&◌, ◌||◌, none, some, List, [], ◌∷◌, ◌++◌, map, ◌≡◌, ◌≢◌, refl,
  arith, string_eq, contains, select, is_empty,
}
use dbwarden_harness.Base.Json.{Json, Fields}
use dbwarden_harness.Base.Text.{sorted, contains-sorted}
use dbwarden_harness.Base.Result.{Result, ok}
use dbwarden_harness.Mutations.Syntax.{Expr, Item, Node, class_def, import_from, item}
use dbwarden_harness.Mutations.{
  text_at, model_of, with_model, known, insert_import, add_imports, edit, kind_of, mutate,
  unaliased, bound,
}

contains-append :
    (xs ys : List String) (id : String)
    → contains (xs ++ ys) id ≡ (contains xs id || contains ys id)
contains-append [] ys id = refl
contains-append (x ∷ xs) ys id = ground (arith, contains-append xs ys id)

contains-select :
    (p : String → Bool) (xs : List String) (id : String)
    → contains (select p xs) id ≡ (contains xs id && p id)
contains-select p [] id = refl
contains-select p (x ∷ xs) id = ground (arith, contains-select p xs id)

contains_empty : (xs : List String) (id : String) → is_empty xs ≡ true → contains xs id ≡ false
contains_empty [] id h = refl
contains_empty (x ∷ xs) id h = cc

bound-unaliased : (xs : List String) → map bound (map unaliased xs) ≡ xs
bound-unaliased [] = refl
bound-unaliased (x ∷ xs) = ground (arith, bound-unaliased xs)

with_model-known :
    (table : String) (new : List Item) (tree : List Node)
    → known (with_model table new tree) ≡ known tree
unfolding with_model known
with_model-known table new [] = refl
with_model-known table new (class_def header body ∷ nodes) =
    ground (arith, with_model-known table new nodes)
with_model-known table new (import_from from names ∷ nodes) =
    ground (arith, with_model-known table new nodes)
with_model-known table new (item i ∷ nodes) = ground (arith, with_model-known table new nodes)

-- A module with a class.
abbrev pub has_class : List Node → Bool
has_class [] = false
has_class (class_def header body ∷ nodes) = true
has_class (_ ∷ nodes) = has_class nodes

with_model-has_class :
    (table : String) (new : List Item) (tree : List Node)
    → model_of table tree ≢ none
    → has_class (with_model table new tree) ≡ true
unfolding with_model model_of
with_model-has_class table new [] h = absurd (h refl)
with_model-has_class table new (class_def header body ∷ nodes) h = ground arith
with_model-has_class table new (import_from from names ∷ nodes) h =
    with_model-has_class table new nodes h
with_model-has_class table new (item i ∷ nodes) h = with_model-has_class table new nodes h

insert_import-known :
    (missing : List String) (tree : List Node) (id : String)
    → has_class tree ≡ true
    → contains (known (insert_import missing tree)) id
      ≡ (contains missing id || contains (known tree) id)
unfolding insert_import known
insert_import-known missing [] id h = cc
insert_import-known missing (class_def header body ∷ nodes) id h = ground (
  arith,
  contains-append (map bound (map unaliased missing)) (known nodes) id,
  bound-unaliased missing,
)
insert_import-known missing (import_from from names ∷ nodes) id h = ground (
  arith,
  insert_import-known missing nodes id h,
  contains-append (map bound names) (known nodes) id,
  contains-append (map bound names) (known (insert_import missing nodes)) id,
)
insert_import-known missing (item i ∷ nodes) id h = insert_import-known missing nodes id h

-- The names known after an insertion are those known before and the needed ones.
add_imports-known :
    (needed : List String) (tree : List Node) (id : String)
    → has_class tree ≡ true
    → contains (known (add_imports needed tree)) id
      ≡ (contains needed id || contains (known tree) id)
unfolding add_imports
add_imports-known needed tree id h =
    let unknown = λ (x : String). not (contains (known tree) x) in
    let missing = sorted (select unknown needed) in
    ground (
      arith,
      insert_import-known missing tree id h,
      contains-sorted (select unknown needed) id,
      contains-select unknown needed id,
      contains_empty missing id,
    )

-- `parse`, `parse_expression`, `unparse`, `repr` and `literal` as in the definitions.
module _ (parse : String → Result (List Node)) (parse_expression : String → Result Expr)
    (unparse : List Node → String) (repr : String → String) (literal : Json → Expr) where
  -- The names that a mutated module imports are those that it imported before and those that the
  -- edit needs.
  pub mutate-known :
      (m : Fields) (tree tree' : List Node) (table : String) (body : List Item)
      (edited : List Item × List String) (id : String)
      → text_at "table" m ≡ ok table
      → model_of table tree ≡ some body
      → edit parse parse_expression unparse repr literal table (kind_of m) m body ≡ ok edited
      → mutate parse parse_expression unparse repr literal m tree ≡ ok tree'
      → contains (known tree') id ≡ (contains edited.1 id || contains (known tree) id)
  unfolding mutate
  mutate-known m tree tree' table body edited id t b e h = ground (
    arith,
    add_imports-known edited.1 (with_model table edited.0 tree) id,
    with_model-has_class table edited.0 tree,
    with_model-known table edited.0 tree,
  )
