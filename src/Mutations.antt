-- ===== src/Mutations.antt =====
-- mcp_server/mutations.py: the edit of one column or index in the syntax tree of a model module.
pub mod Syntax
pub mod Columns
pub mod Imports
mod Tests
use dbwarden_harness.Base.{
  ℕ, String, ◌<>◌, Bool, true, false, not, ◌&&◌, ◌||◌, Option, none, some, List, [], ◌∷◌, ◌++◌, map,
  ◌==◌, string_eq, option_eq, nat_eq, if◌then◌else◌, contains, select, first, any, all, is_empty,
}
use dbwarden_harness.Base.Json.{
  Json, null, boolean, number, text, array, object, Items, nil, cons, Fields, end, field, member,
}
use dbwarden_harness.Base.Json
use dbwarden_harness.Base.Text.{join, sorted}
use dbwarden_harness.Classifier.{characters}
use dbwarden_harness.Base.Result.{
  Result, ok, err, Error, value_error, key_error, external_error, ◌>>=◌, ◌>>◌, guard,
}
use dbwarden_harness.Mutations.Syntax.{
  Expr, name, constant, call, tuple, dictionary, other, Exprs, no_exprs, expr, Keywords,
  no_keywords, keyword, Item, assign, annotated, plain, Node, class_def, import_from, item,
  is_identifier, is_keyword,
}

-- `mutation[key]`, which has to be a text.
pub text_at : String → Fields → Result String
text_at key m = elim (member key m) [
  | none ↦ err (key_error key)
  | some (text s) ↦ ok s
  | some _ ↦ err (external_error "TypeError")
]

-- `bool(value)`
pub truthy : Json → Bool
truthy null = false
truthy (boolean b) = b
truthy (number n) = not (n == 0)
truthy (text s) = not (s == "")
truthy (array nil) = false
truthy (array (cons _ _)) = true
truthy (object end) = false
truthy (object (field _ _ _)) = true

abbrev pub is_name : String → Expr → Bool
is_name id (name other_id) = other_id == id
is_name id _ = false

-- An assignment to `id` among the targets.
pub assigns : String → Item → Bool
assigns id (assign targets value) = any (is_name id) targets
assigns id _ = false

pub names_table : String → Item → Bool
names_table table (assign targets (constant (text value))) =
    any (is_name "__tablename__") targets && value == table
names_table table _ = false

-- The body of the first class of the table.
pub model_of : String → List Node → Option (List Item)
model_of table [] = none
model_of table (class_def header body ∷ nodes) =
    if any (names_table table) body then some body else model_of table nodes
model_of table (_ ∷ nodes) = model_of table nodes

-- The class of the table gets another body.
pub with_model : String → List Item → List Node → List Node
with_model table new [] = []
with_model table new (class_def header body ∷ nodes) =
    let rest = with_model table new nodes in
    if any (names_table table) body
    then class_def header new ∷ nodes
    else class_def header body ∷ rest
with_model table new (node ∷ nodes) = node ∷ with_model table new nodes

-- The name of a column: `name: ... = mapped_column(...)`.
pub column_of : Item → Option String
column_of (annotated (name id) _ (some (call (name f) _ _))) =
    if f == "mapped_column" then some id else none
column_of _ = none

abbrev listed : Option String → List String
listed none = []
listed (some id) = id ∷ []

pub column_names : List Item → List String
column_names [] = []
column_names (i ∷ is) = listed (column_of i) ++ column_names is

-- `columns.get(name)`: a later column of the same name replaces an earlier one.
pub last_column : String → List Item → Option Item
last_column id [] = none
last_column id (i ∷ is) = elim (last_column id is) [
  | some found ↦ some found
  | none ↦ if column_of i == some id then some i else none
]

-- The last column of a name is replaced, by nothing where it is removed.
pub replace_last : String → List Item → List Item → List Item
replace_last id new [] = []
replace_last id new (i ∷ is) =
    let rest = replace_last id new is in
    if contains (column_names is) id
    then i ∷ rest
    else if column_of i == some id
    then new ++ is
    else i ∷ is

-- `[kw for kw in call.keywords if kw.arg != arg]`
pub drop_keyword : String → Keywords → Keywords
drop_keyword arg no_keywords = no_keywords
drop_keyword arg (keyword key value rest) =
    let later = drop_keyword arg rest in if key == some arg then later else keyword key value later

pub append_keyword : String → Expr → Keywords → Keywords
append_keyword arg value no_keywords = keyword (some arg) value no_keywords
append_keyword arg value (keyword key old rest) = keyword key old (append_keyword arg value rest)

-- `_set_keyword`, with the value parsed.
pub set_keyword : String → Expr → Keywords → Keywords
set_keyword arg value keywords = append_keyword arg value (drop_keyword arg keywords)

-- The names that the module's `from ... import` lines bind.
abbrev bound : String × Option String → String
bound (original, none) = original
bound (original, some alias) = if alias == "" then original else alias

pub known : List Node → List String
known [] = []
known (import_from from names ∷ nodes) = map bound names ++ known nodes
known (_ ∷ nodes) = known nodes

abbrev unaliased : String → String × Option String
unaliased id = (id, none)

-- The import is inserted before the first class.
pub insert_import : List String → List Node → List Node
insert_import missing [] = []
insert_import missing (class_def header body ∷ nodes) =
    import_from "sqlalchemy" (map unaliased missing) ∷ class_def header body ∷ nodes
insert_import missing (node ∷ nodes) = node ∷ insert_import missing nodes

pub add_imports : List String → List Node → List Node
add_imports needed tree =
    let missing = sorted (select (λ id. not (contains (known tree) id)) needed) in
    if is_empty missing then tree else insert_import missing tree

-- The first `__table_args__` takes the index.
pub add_to_args : Expr → List Item → Result (List Item)
add_to_args index [] = ok (assign (name "__table_args__" ∷ []) (tuple (expr index no_exprs)) ∷ [])
add_to_args index (assign targets value ∷ body) =
    let later = add_to_args index body in
    if any (is_name "__table_args__") targets
    then elim value [
      | dictionary source ↦
          ok (assign targets (tuple (expr index (expr (dictionary source) no_exprs))) ∷ body)
      | tuple elements ↦ ok (assign targets (tuple (expr index elements)) ∷ body)
      | _ ↦ err (value_error "Index mutation requires literal __table_args__")
    ]
    else (do rest ← later; ok (assign targets value ∷ rest))
add_to_args index (annotated target annotation value ∷ body) = do
  rest ← add_to_args index body
  ok (annotated target annotation value ∷ rest)
add_to_args index (plain source ∷ body) = do rest ← add_to_args index body; ok (plain source ∷ rest)

-- The names of a list, each of which has to be declared; a list or a dict in it has no hash.
pub texts : List String → Items → Result (List String)
texts declared nil = ok []
texts declared (cons (text s) js) =
    let rest = texts declared js in
    if contains declared s
    then (do names ← rest; ok (s ∷ names))
    else err (value_error "Index columns must name declared columns")
texts declared (cons (array _) js) = err (external_error "TypeError")
texts declared (cons (object _) js) = err (external_error "TypeError")
texts declared (cons _ js) = err (value_error "Index columns must name declared columns")

-- `mutation["columns"]`: a list, a text, which is its characters, or a dict, which is its keys. No other
-- value that counts as true is iterable.
pub index_columns : List String → Fields → Result (List String)
unfolding texts truthy
index_columns declared m = elim (member "columns" m) [
  | none ↦ err (key_error "columns")
  | some (array js) ↦ texts declared js
  | some (text s) ↦ ok (characters s)
  | some (object fs) ↦ ok (Json.names fs)
  | some j ↦
      if truthy j
      then err (external_error "TypeError")
      else err (value_error "Index columns must name declared columns")
]

pub is_unique : Fields → Bool
unfolding truthy
is_unique m = elim (member "unique" m) [ none ↦ false | some value ↦ truthy value ]

-- The name of a type, or of its constructor.
pub type_name : Expr → Result String
type_name (name id) = ok id
type_name (call (name id) _ _) = ok id
type_name _ = err (value_error "Column type must be a SQLAlchemy type name or constructor")

abbrev is_type : Expr → Bool
is_type (name id) = true
is_type (call f args given) = true
is_type _ = false

-- The first argument is replaced.
pub with_type : Expr → Exprs → Result Exprs
with_type type no_exprs = err (value_error "Column type must be the first mapped_column argument")
with_type type (expr old rest) =
    if is_type old
    then ok (expr type rest)
    else err (value_error "Column type must be the first mapped_column argument")

-- A column's annotation, the arguments and keywords of its call, and the needed imports.
pub record Column : Type 0 where
  pub annotation : Expr
  pub args : Exprs
  pub keywords : Keywords
  pub imports : List String

abbrev keyworded : String → Expr → Column → Column
keyworded arg value c = record c { keywords = set_keyword arg value c.keywords }

-- `mutation.get("type")`, where a value that is no text is no kind.
pub kind_of : Fields → String
kind_of m = elim (member "type" m) [ some (text s) ↦ s | _ ↦ "None" ]

-- `parse` and `parse_expression` are `ast.parse`, `unparse` is `ast.unparse`, `repr` quotes a text, and
-- `literal` is the syntax of a value.
module _ (parse : String → Result (List Node)) (parse_expression : String → Result Expr)
    (unparse : List Node → String) (repr : String → String) (literal : Json → Expr) where
  pub index_source : String → List String → Bool → String
  index_source table names unique =
      "Index("
      <> repr ("ix_" <> table <> "_" <> join "_" names)
      <> ", "
      <> join ", " (map repr names)
      <> ", unique="
      <> (if unique then "True" else "False")
      <> ")"

  -- A body and the names that it needs imported.
  pub add_index : String → Fields → List Item → Result (List Item × List String)
  unfolding index_columns index_source is_unique
  add_index table m body = do
    names ← index_columns (column_names body) m
    guard (not (is_empty names) && all (contains (column_names body)) names)
        (value_error "Index columns must name declared columns")
    index ← parse_expression (index_source table names (is_unique m))
    new ← add_to_args index body
    ok (new, "Index" ∷ [])

  pub set_type : String → Column → Result Column
  unfolding type_name with_type
  set_type source c = do
    type ← parse_expression source
    root ← type_name type
    args ← with_type type c.args
    annotation ← parse_expression ("Mapped[" <> source <> "]")
    ok (record c { annotation = annotation; args = args; imports = root ∷ [] })

  -- `mutation.get("nullable", True)` and an optional default.
  new_keywords : Fields → Column → Column
  new_keywords m c =
      let nullable = elim (member "nullable" m) as (λ o. Json) [
        | none ↦ boolean true
        | some j ↦ j
      ] in
      let c' = keyworded "nullable" (literal nullable) c in
      elim (member "default" m) [ none ↦ c' | some j ↦ keyworded "default" (literal j) c' ]

  -- What the kind of the mutation does to the column; `none` removes it.
  pub change_column : String → Fields → Column → Result (Option Column)
  unfolding new_keywords set_type
  change_column kind m c =
      if kind == "add_column"
      then (do
        source ← text_at "column_type" m
        typed ← set_type source c
        ok (some (new_keywords m typed)))
      else if kind == "change_type"
      then (do source ← text_at "new_type" m; typed ← set_type source c; ok (some typed))
      else if kind == "drop_column"
      then ok none
      else if kind == "set_not_null"
      then ok (some (keyworded "nullable" (literal (boolean false)) c))
      else if kind == "drop_not_null"
      then ok (some (keyworded "nullable" (literal (boolean true)) c))
      else if kind == "set_default"
      then elim (member "default" m) [
        | none ↦ err (key_error "default")
        | some j ↦ ok (some (keyworded "default" (literal j) c))
      ]
      else if kind == "drop_default"
      then ok (some (record c { keywords = drop_keyword "default" c.keywords }))
      else err (value_error ("Unsupported mutation type: " <> kind))

  -- The statement of a column, changed or removed, and the needed imports.
  pub change_item : String → Fields → Item → Result (List Item × List String)
  unfolding change_column
  change_item kind m (annotated target annotation (some (call f args keywords))) = do
    changed ←
        change_column kind m
          (record { annotation = annotation; args = args; keywords = keywords; imports = [] })
    ok (elim changed [
      | none ↦ ([], [])
      | some c ↦ (annotated target c.annotation (some (call f c.args c.keywords)) ∷ [], c.imports)
    ])
  change_item kind m _ = err (external_error "AttributeError")

  -- The first statement of a parsed column.
  pub parsed_column : String → String → Result Item
  parsed_column id source = do
    nodes ← parse (id <> ": Mapped[" <> source <> "] = mapped_column(" <> source <> ")")
    elim nodes [ item i ∷ _ ↦ ok i | _ ↦ err (external_error "AttributeError") ]

  -- `kind` is the text of the type, or what `str` makes of another value.
  pub edit_column : String → String → Fields → List Item → Result (List Item × List String)
  edit_column table kind m body = do
    id ← text_at "column" m
    guard (is_identifier id && not (is_keyword id))
        (value_error "Column must be a Python identifier")
    elim (kind == "add_column") [
      | true ↦ do
        guard (not (contains (column_names body) id))
            (value_error ("Column " <> repr id <> " already exists"))
        source ← text_at "column_type" m
        i ← parsed_column id source
        changed ← change_item kind m i
        ok (body ++ changed.0, changed.1)
      | false ↦ elim (last_column id body) [
        | none ↦ err (value_error ("Column " <> repr id <> " not found in table " <> repr table))
        | some i ↦ do changed ← change_item kind m i; ok (replace_last id changed.0 body, changed.1)
      ]
    ]

  pub edit : String → String → Fields → List Item → Result (List Item × List String)
  unfolding edit_column add_index
  edit table kind m body =
      if kind == "add_index" then add_index table m body else edit_column table kind m body

  -- The tree after the mutation.
  unfoldable pub mutate : Fields → List Node → Result (List Node)
  unfolding edit kind_of
  mutate m tree = do
    table ← text_at "table" m
    elim (model_of table tree) [
      | none ↦ err (value_error ("Table " <> repr table <> " not found in model source"))
      | some body ↦ do
        edited ← edit table (kind_of m) m body
        ok (add_imports edited.1 (with_model table edited.0 tree))
    ]

  pub apply_mutation : String → Fields → Result String
  apply_mutation source m = do
    tree ← parse source
    mutated ← mutate m tree
    ok (unparse mutated <> "\n")
