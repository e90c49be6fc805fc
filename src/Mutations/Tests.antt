-- ===== src/Mutations/Tests.antt =====
-- Witnesses for the mutations: a model with two columns, whose type names are imported or not.
use dbwarden_harness.Base.{
  ℕ, String, ◌<>◌, Bool, true, false, not, ◌&&◌, ◌||◌, Option, none, some, List, [], ◌∷◌, ◌++◌,
  ◌==◌, string_eq, contains, ◌≡◌, ◌≢◌, refl, arith, text_ne, if◌then◌else◌,
}
use dbwarden_harness.Base.Json.{text, Fields, field, end}
use dbwarden_harness.Base.Result.{Result, ok}
use dbwarden_harness.Mutations.Syntax.{
  Expr, name, constant, call, no_exprs, expr, Keywords, no_keywords, Item, assign, annotated, Node,
  class_def, import_from,
}
use dbwarden_harness.Mutations.{edit_column, column_names, known}
use dbwarden_harness.Mutations.Columns.{without_last, edit_column-names}
use dbwarden_harness.Mutations.Imports.{mutate-known}

abbrev parse : String → Result (List Node)
parse s = ok []

abbrev parse_expression : String → Result Expr
parse_expression s = ok (name s)

abbrev column : String → String → Item
column id type =
    annotated (name id) (name ("Mapped[" <> type <> "]"))
      (some (call (name "mapped_column") (expr (name type) no_exprs) no_keywords))

abbrev table_name : Item
table_name = assign (name "__tablename__" ∷ []) (constant (text "users"))

abbrev body : List Item
body = table_name ∷ column "id" "Integer" ∷ column "age" "Integer" ∷ []

abbrev tree : List Node
tree =
    import_from "sqlalchemy" (("Integer", none) ∷ ("Index", some "Ix") ∷ [])
    ∷ class_def "class Users(Base)" body
    ∷ []

abbrev to_text : Fields
to_text = field "type" (text "change_type") (
    field "table" (text "users") (field "column" (text "age") (field "new_type" (text "Text") end)))

abbrev changed : List Item
changed = table_name ∷ column "id" "Integer" ∷ column "age" "Text" ∷ []

abbrev changed_tree : List Node
changed_tree =
    import_from "sqlalchemy" (("Integer", none) ∷ ("Index", some "Ix") ∷ [])
    ∷ import_from "sqlalchemy" (("Text", none) ∷ [])
    ∷ class_def "class Users(Base)" changed
    ∷ []

edit_column-names_example : column_names (table_name ∷ column "id" "Integer" ∷ []) ≡ "id" ∷ []
unfolding dbwarden_harness.Mutations.text_at string_eq edit_column
    dbwarden_harness.Mutations.Syntax.is_identifier dbwarden_harness.Mutations.Syntax.is_keyword
    dbwarden_harness.Mutations.last_column dbwarden_harness.Base.option_eq
    dbwarden_harness.Mutations.column_of dbwarden_harness.Mutations.change_item
    dbwarden_harness.Mutations.replace_last column_names without_last
edit_column-names_example =
    edit_column-names parse parse_expression (λ t. "") (λ s. s) (λ j. constant j) "users"
      "drop_column" "age" to_text body (table_name ∷ column "id" "Integer" ∷ [], []) refl
      (text_ne "drop_column" "add_column" refl) refl

mutate-known_example : contains (known changed_tree) "Text" ≡ true
unfolding dbwarden_harness.Mutations.text_at string_eq dbwarden_harness.Mutations.model_of
    dbwarden_harness.Mutations.names_table dbwarden_harness.Mutations.edit
    dbwarden_harness.Mutations.kind_of dbwarden_harness.Mutations.Syntax.is_identifier
    dbwarden_harness.Mutations.Syntax.is_keyword dbwarden_harness.Mutations.last_column
    dbwarden_harness.Base.option_eq dbwarden_harness.Mutations.column_of
    dbwarden_harness.Mutations.change_item dbwarden_harness.Mutations.replace_last column_names
    dbwarden_harness.Mutations.mutate dbwarden_harness.Mutations.add_imports
    dbwarden_harness.Base.Text.sorted dbwarden_harness.Base.nat_eq dbwarden_harness.Base.Text.join
    dbwarden_harness.Mutations.add_index dbwarden_harness.Mutations.add_to_args
    dbwarden_harness.Mutations.append_keyword dbwarden_harness.Mutations.change_column
    dbwarden_harness.Mutations.drop_keyword edit_column dbwarden_harness.Mutations.index_columns
    dbwarden_harness.Mutations.index_source dbwarden_harness.Mutations.insert_import
    dbwarden_harness.Mutations.is_unique known dbwarden_harness.Mutations.new_keywords
    dbwarden_harness.Mutations.parsed_column dbwarden_harness.Mutations.set_keyword
    dbwarden_harness.Mutations.set_type dbwarden_harness.Mutations.texts
    dbwarden_harness.Mutations.truthy dbwarden_harness.Mutations.type_name
    dbwarden_harness.Mutations.with_model dbwarden_harness.Mutations.with_type
    dbwarden_harness.Base.ℕ_discrete
mutate-known_example =
    mutate-known parse parse_expression (λ t. "") (λ s. s) (λ j. constant j) to_text tree
      changed_tree "users" body (changed, "Text" ∷ []) "Text" refl refl refl refl
