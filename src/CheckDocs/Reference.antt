-- ===== src/CheckDocs/Reference.antt =====
-- tools/check_docs.py: the inventory of the API, from what `ast` parses.
use dbwarden_harness.Base.{
  String, ◌<>◌, Bool, false, not, ◌&&◌, ◌||◌, Option, none, some, List, [], ◌∷◌, ◌++◌, map, ◌==◌,
  string_eq, if◌then◌else◌, select, is_empty,
}
use dbwarden_harness.Base.Dict.{Dict}
use dbwarden_harness.Base.Result.{Result, ok, err, external_error, ◌>>=◌}
use dbwarden_harness.Base.Text.{join, cut, starts_with, ends_with}
use dbwarden_harness.CaseRunner.Report.{on_one_line}
use dbwarden_harness.Disk.{FilePath}

-- What the inventory looks at of a function definition; the arguments, the annotation of the result and
-- the decorators as `ast.unparse` writes them.
pub record Function : Type 0 where
  pub name : String
  pub is_async : Bool
  pub arguments : String
  pub returns : Option String
  pub decorators : List String

-- A statement in the body of a class. A field is a name with an annotation, and its text.
pub data Item : Type 0 where
  method : Function → Item
  annotated : String → String → Item
  other_item : Item

-- A statement of a module; the text of a definition is its docstring.
pub data Node : Type 0 where
  class_def : String → Option String → List Item → Node
  function_def : Option String → Function → Node
  other_node : Node

-- What `ast.parse` answers.
pub data Parsed : Type 0 where
  syntax_error : String → Parsed
  parsed : List Node → Parsed

abbrev pub gather {ℓ κ} : {A : Type ℓ} {B : Type κ} → (A → List B) → List A → List B
gather f [] = []
gather f (x ∷ xs) = f x ++ gather f xs

packages : List String
packages = "harness" ∷ "infrastructure" ∷ "tools" ∷ "mcp_server" ∷ "schemas" ∷ []

-- `path.name` and `path.parent.name`
pub name_of : FilePath → String
name_of [] = ""
name_of (part ∷ []) = part
name_of (part ∷ next ∷ rest) = name_of (next ∷ rest)

parent_name : FilePath → String
parent_name [] = ""
parent_name (part ∷ []) = ""
parent_name (part ∷ next ∷ []) = part
parent_name (part ∷ next ∷ last ∷ rest) = parent_name (next ∷ last ∷ rest)

-- The path is one that `(ROOT / folder).rglob("*" + suffix)` finds.
pub is_file_of : String → String → FilePath → Bool
unfolding name_of
is_file_of folder suffix [] = false
is_file_of folder suffix (part ∷ []) = false
is_file_of folder suffix (part ∷ next ∷ rest) =
    part == folder && ends_with (name_of (next ∷ rest)) suffix

is_source : FilePath → Bool
unfolding packages parent_name
is_source path =
    not (is_empty (select (λ folder. is_file_of folder ".py" path) packages))
    && (not (name_of path == "models.py") || parent_name path == "mcp_server")

-- The files stand in the order of their paths.
pub sources : Dict FilePath String → Dict FilePath String
unfolding is_source
sources files = select (λ f. is_source f.0) files

is_private : String → Bool
is_private name = starts_with name "_"

definition_name : Node → Option String
definition_name (class_def name doc body) = some name
definition_name (function_def doc function) = some function.name
definition_name other_node = none

is_definition : Node → Bool
unfolding is_private definition_name
is_definition node = elim (definition_name node) [
  | none ↦ false
  | some name ↦ not (is_private name)
]

-- The first paragraph of a docstring, on one line.
doc_lines : Option String → List String
doc_lines none = []
doc_lines (some doc) =
    if doc == ""
    then []
    else on_one_line (elim (cut "\n\n" doc) [ none ↦ doc | some (before, _) ↦ before ]) ∷ "" ∷ []

signature : Function → String
signature function =
    let annotation : String = elim function.returns [
      | none ↦ ""
      | some returns ↦ " -> " <> returns
    ] in
    (if function.is_async then "async " else "")
    <> "def "
    <> function.name
    <> "("
    <> function.arguments
    <> ")"
    <> annotation
    <> ": ..."

members : List Item → List Function
unfolding is_private
members [] = []
members (method function ∷ items) =
    let rest = members items in
    if not (is_private function.name) || function.name == "__init__" then function ∷ rest else rest
members (annotated name line ∷ items) = members items
members (other_item ∷ items) = members items

field_lines : List Item → List String
unfolding is_private
field_lines [] = []
field_lines (method function ∷ items) = field_lines items
field_lines (annotated name line ∷ items) =
    let rest = field_lines items in if not (is_private name) then line ∷ rest else rest
field_lines (other_item ∷ items) = field_lines items

section_lines : String → Option String → List String → List Function → List String
unfolding doc_lines signature
section_lines name doc fields functions =
    ("### `" <> name <> "`") ∷ "" ∷ doc_lines doc
    ++ ("```python" ∷ fields ++ map signature functions ++ ("```" ∷ "" ∷ []))

node_lines : Node → List String
unfolding section_lines members field_lines
node_lines (class_def name doc body) = section_lines name doc (field_lines body) (members body)
node_lines (function_def doc function) = section_lines function.name doc [] (function ∷ [])
node_lines other_node = []

module_lines : FilePath → List Node → List String
unfolding is_definition node_lines
module_lines path body =
    let definitions = select is_definition body in
    if is_empty definitions
    then []
    else ("## `" <> join "/" path <> "`") ∷ "" ∷ gather node_lines definitions

heading : List String
heading =
    "# Python API Reference" ∷ ""
    ∷ "Generated from source with `uv run python -m tools.check_docs --api-reference`."
    ∷ "Lists public definitions, constructors, methods, and dataclass fields. These are harness APIs; dbwarden is invoked through its installed CLI."
    ∷ "Abstract provider methods define the contract implemented by concrete providers. See [MCP Server](../mcp-server.md) for remote tools and limits."
    ∷ "" ∷ []

-- A SyntaxError ends the inventory and the check, except that of a snippet.
unfoldable pub parse_module : (String → Parsed) → String → Result (List Node)
parse_module parse content = elim (parse content) [
  | syntax_error message ↦ err (external_error message)
  | parsed body ↦ ok body
]

pub modules_lines : (String → Parsed) → Dict FilePath String → Result (List String)
unfolding name_of parse_module module_lines
modules_lines parse [] = ok []
modules_lines parse ((path, content) ∷ rest) =
    let later = modules_lines parse rest in
    if name_of path == "check_docs.py"
    then later
    else do body ← parse_module parse content; lines ← later; ok (module_lines path body ++ lines)

pub api_reference : (String → Parsed) → Dict FilePath String → Result String
unfolding heading modules_lines
api_reference parse files = do
  lines ← modules_lines parse (sources files)
  ok (join "\n" (heading ++ lines))
