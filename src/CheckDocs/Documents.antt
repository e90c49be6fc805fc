-- ===== src/CheckDocs/Documents.antt =====
-- tools/check_docs.py: the documents, the navigation and the issues of what a check has read.
use Prim.Native.Char.{code}
use dbwarden_harness.Base.{
  ℕ, String, ◌<>◌, Bool, false, ◌&&◌, ◌||◌, none, some, List, [], ◌∷◌, ◌++◌, map, ◌==◌, string_eq,
  nat_eq, if◌then◌else◌, contains, select,
}
use dbwarden_harness.Base.Dict
use dbwarden_harness.Base.Dict.{Dict}
use dbwarden_harness.Base.Json.{
  Json, text, array, object, member, Items, nil, cons, Fields, end, field,
}
use dbwarden_harness.Base.Result.{Result, ok, err, key_error, file_not_found, external_error}
use dbwarden_harness.Base.Text.{join, occurs, ends_with}
use dbwarden_harness.CaseRunner.{strip}
use dbwarden_harness.Disk.{FilePath, file_path_eq}
use dbwarden_harness.CheckDocs.Reference.{is_file_of}

unfoldable mutual
  pub nav_paths : Json → List String
  nav_paths (text path) = path ∷ []
  nav_paths (object fs) = nav_values fs
  nav_paths (array js) = nav_items js
  nav_paths _ = []

  nav_items : Items → List String
  nav_items nil = []
  nav_items (cons j js) = nav_paths j ++ nav_items js

  nav_values : Fields → List String
  nav_values end = []
  nav_values (field key j fs) = nav_paths j ++ nav_values fs

-- `value[key]`
unfoldable pub get_key : String → Json → Result Json
get_key key (object fs) = elim (member key fs) [ none ↦ err (key_error key) | some j ↦ ok j ]
get_key key _ = err (external_error "no dict")

unfoldable pub read_text : Dict FilePath String → FilePath → Result String
read_text files path = elim (Dict.lookup path files) [
  | none ↦ err (file_not_found (join "/" path))
  | some content ↦ ok content
]

-- The issues of the items that fail a test.
unfoldable pub flag {ℓ} : {A : Type ℓ} → (A → Bool) → (A → String) → List A → List String
flag passes issue [] = []
flag passes issue (x ∷ xs) =
    let rest = flag passes issue xs in if passes x then rest else issue x ∷ rest

-- The page's path below docs, as the navigation writes it.
pub page_name : FilePath → String
page_name [] = ""
page_name (folder ∷ path) = join "/" path

-- `path.parent`
pub parent : FilePath → FilePath
parent [] = []
parent (part ∷ []) = []
parent (part ∷ next ∷ rest) = part ∷ parent (next ∷ rest)

is_below_docs : FilePath → Bool
is_below_docs [] = false
is_below_docs (folder ∷ rest) = folder == "docs"

pub pages : Dict FilePath String → Dict FilePath String
pages files = select (λ f. is_file_of "docs" ".md" f.0) files

-- `(ROOT / "docs" / name).is_file()`, of a name without `..`, `.` and empty parts
pub is_page : Dict FilePath String → String → Bool
unfolding is_below_docs page_name
is_page files name =
    contains (map page_name (map (λ f. f.0) (select (λ f. is_below_docs f.0) files))) name

pub is_document : FilePath → Bool
is_document [] = false
is_document (name ∷ []) = ends_with name ".md"
is_document (folder ∷ next ∷ rest) =
    contains ("docs" ∷ "schemas" ∷ "suites" ∷ []) folder
    && is_file_of folder ".md" (folder ∷ next ∷ rest)

-- The files stand in the order of their paths.
pub documents : Dict FilePath String → Dict FilePath String
unfolding is_document
documents files = select (λ f. is_document f.0) files

unfoldable pub is_python : String × String → Bool
is_python (language, body) = strip language == "python" || strip language == "py"

is_angle : ℕ → Bool
is_angle c = c == 60 || c == 62

pub left_angles : String → String
unfolding is_angle
left_angles String.[] = ""
left_angles (String.◌∷◌ c s) =
    let rest = left_angles s in if is_angle (code c) then rest else String.◌∷◌ c s

pub right_angles : String → String
unfolding is_angle
right_angles String.[] = ""
right_angles (String.◌∷◌ c s) =
    let rest = right_angles s in if is_angle (code c) && rest == "" then "" else String.◌∷◌ c rest

-- What the parts of a check are read from: whether the reference is current, the targets of the
-- navigation, the variables of the sources, the reference of the environment, the tools of the server
-- and their guide.
pub record Reading : Type 0 where
  pub is_current : Bool
  pub nav : List String
  pub settings : List String
  pub environment : String
  pub remote : List String
  pub guide : String

pub record Inventory : Type 0 where
  pub document_count : ℕ
  pub python_snippets : ℕ
  pub source_modules : ℕ
  pub mcp_tools : ℕ
  pub environment_variables : ℕ
  pub issues : List String

unfoldable pub reference_issues : Reading → List String
reference_issues r =
    if r.is_current then [] else "Python API reference differs from source; regenerate it" ∷ []

unfoldable pub target_issues : Dict FilePath String → Reading → List String
unfolding flag is_page
target_issues files r = flag (is_page files) (λ name. "Missing navigation target: " <> name) r.nav

unfoldable pub page_issues : Dict FilePath String → Reading → List String
unfolding flag page_name pages
page_issues files r =
    flag (λ f. contains r.nav (page_name f.0) || page_name f.0 == "README.md")
      (λ f. "Page missing from navigation: " <> page_name f.0) (pages files)

unfoldable pub setting_issues : Reading → List String
unfolding flag
setting_issues r =
    flag (λ name. occurs ("`" <> name <> "`") r.environment)
      (λ name. "Undocumented environment variable: " <> name) r.settings

unfoldable pub tool_issues : Reading → List String
unfolding flag
tool_issues r =
    flag (λ name. occurs ("`" <> name) r.guide) (λ name. "Undocumented MCP tool: " <> name) r.remote
