-- ===== src/Mutations/Columns.antt =====
-- The columns of a mutated model in mcp_server/mutations.py.
use dbwarden_harness.Base.{
  String, false, none, some, List, [], ◌∷◌, ◌++◌, ◌≡◌, ◌≢◌, refl, arith, ◌==◌, string_eq, option_eq,
  contains, if◌then◌else◌, inl, inr, Option-cases,
}
use mathlib.Core.Path.{subst}
use mathlib.Core.List.{append_assoc}
use dbwarden_harness.Base.Json.{Json, Fields}
use dbwarden_harness.Base.Result.{Result, ok, >>=-eq-ok}
use dbwarden_harness.Mutations.Syntax.{Expr, call, Item, annotated, assign, plain, Node}
use dbwarden_harness.Mutations.{
  text_at, column_of, listed, column_names, last_column, replace_last, change_column, change_item,
  edit_column, Column, set_type,
}

-- `names` without the last `id`.
unfoldable pub without_last : String → List String → List String
without_last id [] = []
without_last id (x ∷ xs) =
    let rest = without_last id xs in
    if contains xs id then x ∷ rest else if x == id then xs else x ∷ xs

column_names-append :
    (xs ys : List Item) → column_names (xs ++ ys) ≡ column_names xs ++ column_names ys
unfolding column_names
column_names-append [] ys = refl
column_names-append (i ∷ is) ys = ground (
  arith,
  column_names-append is ys,
  append_assoc (listed (column_of i)) (column_names is) (column_names ys),
)

replace_last-names :
    (id : String) (new body : List Item)
    → column_names new ≡ id ∷ []
    → column_names (replace_last id new body) ≡ column_names body
unfolding replace_last column_names
replace_last-names id new [] h = refl
replace_last-names id new (i ∷ is) h =
    ground (arith, replace_last-names id new is h, column_names-append new is)

without_last_absent :
    (id : String) (xs : List String) → contains xs id ≡ false → without_last id xs ≡ xs
unfolding without_last
without_last_absent id [] h = refl
without_last_absent id (x ∷ xs) h = ground arith

replace_last-nothing :
    (id : String) (body : List Item)
    → column_names (replace_last id [] body) ≡ without_last id (column_names body)
unfolding replace_last column_names without_last
replace_last-nothing id [] = refl
replace_last-nothing id (i ∷ is) =
    ground (arith, replace_last-nothing id is, without_last_absent id (column_names is))

last_column-names :
    (id : String) (body : List Item) (i : Item)
    → last_column id body ≡ some i
    → column_of i ≡ some id
unfolding last_column
last_column-names id [] i h = cc
last_column-names id (j ∷ js) i h = ground (arith, last_column-names id js i)

-- `parse`, `parse_expression`, `unparse`, `repr` and `literal` as in the definitions.
module _ (parse : String → Result (List Node)) (parse_expression : String → Result Expr)
    (unparse : List Node → String) (repr : String → String) (literal : Json → Expr) where
  change_column_kept :
      (kind : String) (m : Fields) (c : Column)
      → kind ≢ "drop_column"
      → change_column parse parse_expression unparse repr literal kind m c ≢ ok none
  unfolding change_column
  change_column_kept kind m c differs h = ground (
    arith,
    >>=-eq-ok (text_at "column_type" m)
        (λ (s : String). set_type parse parse_expression unparse repr literal s c),
  )

  change_item-kept :
      (kind id : String) (m : Fields) (i : Item) (changed : List Item × List String)
      → kind ≢ "drop_column"
      → column_of i ≡ some id
      → change_item parse parse_expression unparse repr literal kind m i ≡ ok changed
      → column_names changed.0 ≡ id ∷ []
  unfolding change_item column_of column_names
  change_item-kept kind id m (assign targets value) changed differs e h = cc
  change_item-kept kind id m (plain source) changed differs e h = cc
  change_item-kept kind id m (annotated target annotation none) changed differs e h = cc
  change_item-kept kind id m (annotated target annotation (some (call f args keys))) changed differs
        e h =
      let c : Column = record {
        annotation = annotation;
        args = args;
        keywords = keys;
        imports = [];
      } in
      let (o, q, r) =
        >>=-eq-ok (change_column parse parse_expression unparse repr literal kind m c) _ h in
      elim (Option-cases o) [
        | inl none_left ↦ absurd (change_column_kept kind m c differs (cc))
        | inr (d, kept) ↦ ground arith
      ]
  change_item-kept kind id m (annotated target annotation (some _)) changed differs e h = cc

  change_item-dropped :
      (m : Fields) (i : Item) (changed : List Item × List String)
      → change_item parse parse_expression unparse repr literal "drop_column" m i ≡ ok changed
      → changed.0 ≡ []
  unfolding change_item change_column string_eq
  change_item-dropped m (assign targets value) changed h = cc
  change_item-dropped m (plain source) changed h = cc
  change_item-dropped m (annotated target annotation none) changed h = cc
  change_item-dropped m (annotated target annotation (some (call f args keys))) changed h =
      ground arith
  change_item-dropped m (annotated target annotation (some _)) changed h = cc

  -- A mutation of a column that is accepted and adds none leaves the names of the model's columns
  -- as they are, in their order, but for a removal, which takes the last column of the name away.
  pub edit_column-names :
      (table kind id : String) (m : Fields) (body : List Item) (edited : List Item × List String)
      → text_at "column" m ≡ ok id
      → kind ≢ "add_column"
      → edit_column parse parse_expression unparse repr literal table kind m body ≡ ok edited
      → column_names edited.0
        ≡ (if kind == "drop_column" then without_last id (column_names body) else column_names body)
  unfolding edit_column
  edit_column-names table kind id m body edited named differs h =
      let change = change_item parse parse_expression unparse repr literal in
      elim (Option-cases (last_column id body)) [
        | inl missing ↦ ground arith
        | inr (i, found) ↦
            let (changed, done, final) =
              >>=-eq-ok (change kind m i)
                (λ (c : List Item × List String). ok (replace_last id c.0 body, c.1)) {w = edited}
                (ground arith) in
            elim (string_eq.dec kind "drop_column") [
              | yes e ↦ ground (
                arith,
                change_item-dropped m i changed (subst (λ k. change k m i ≡ ok changed) e done),
                replace_last-nothing id body,
              )
              | no n ↦ ground (
                arith,
                change_item-kept kind id m i changed n (last_column-names id body i found) done,
                replace_last-names id changed.0 body,
              )
            ]
      ]
