-- ===== src/CheckDocs/Tests.antt =====
-- A run of tools/check_docs.py.
use dbwarden_harness.Base.{
  String, false, text_ne, ap, ◌++◌, some, none, select, List, [], ◌∷◌, ◌≡◌, ◌∙◌, ◌↔◌, refl, arith,
}
use dbwarden_harness.Base.Dict
use dbwarden_harness.Base.Dict.{Dict}
use dbwarden_harness.Base.Json.{Json, text, array, object, nil, cons, end, field}
use dbwarden_harness.Base.Result.{Result, ok, ◌>>=◌}
use dbwarden_harness.Base.Text.{sorted}
use dbwarden_harness.SchemaRunner.{distinct}
use dbwarden_harness.Disk.{FilePath, file_path_eq}
use dbwarden_harness.CheckDocs.Reference.{Parsed, parsed, gather, parse_module, is_file_of, sources}
use dbwarden_harness.CheckDocs.Documents.{Reading, Inventory, get_key, nav_paths, read_text}
use dbwarden_harness.CheckDocs.{
  read_all, check, exit_code, remote_tools, is_reference_current, navigation, settings_of,
}
use dbwarden_harness.CheckDocs.Issues.{IsDocumented, check_iff}

abbrev parse : String → Parsed
parse s = parsed []

abbrev loads : String → Result Json
loads s = ok (
    object
      (field "project" (object (field "nav" (array (cons (text "mcp-server.md") nil)) end)) end))

abbrev same : String → String
same s = s

abbrev no_snippets : String → List (String × String)
no_snippets s = []

abbrev no_links : String → List String
no_links s = []

abbrev urlsplit : String → String × String
urlsplit s = ("", s)

abbrev resolve : FilePath → String → FilePath
resolve folder path = folder

abbrev checkout : Dict FilePath String
checkout =
    ("conftest.py" ∷ [], "")
    ∷ ("docs" ∷ "mcp-server.md" ∷ [], "")
    ∷ ("docs" ∷ "reference" ∷ "environment.md" ∷ [], "")
    ∷ ("mcp_server" ∷ "server.py" ∷ [], "")
    ∷ ("zensical.toml" ∷ [], "")
    ∷ []

abbrev reading : Reading
reading = record {
  is_current = false;
  nav = "mcp-server.md" ∷ [];
  settings = [];
  environment = "";
  remote = [];
  guide = "";
}

abbrev IsFound : FilePath → Type 0
IsFound path = Dict.lookup path checkout ≡ some ""

checkout-IsFound :
    IsFound ("zensical.toml" ∷ [])
    × IsFound ("conftest.py" ∷ [])
    × IsFound ("docs" ∷ "reference" ∷ "environment.md" ∷ [])
    × IsFound ("mcp_server" ∷ "server.py" ∷ [])
    × IsFound ("docs" ∷ "mcp-server.md" ∷ [])
    × (Dict.lookup ("docs" ∷ "reference" ∷ "python-api.md" ∷ []) checkout ≡ none)
unfolding Dict.lookup
checkout-IsFound = ground (arith, text_ne "python-api.md" "environment.md" refl)

read_text-IsFound : (path : FilePath) → IsFound path → read_text checkout path ≡ ok ""
unfolding read_text
read_text-IsFound path h = ground (arith, h)

texts_read :
    (read_text checkout ("zensical.toml" ∷ []) ≡ ok "")
    × (read_text checkout ("conftest.py" ∷ []) ≡ ok "")
    × (read_text checkout ("docs" ∷ "reference" ∷ "environment.md" ∷ []) ≡ ok "")
    × (read_text checkout ("mcp_server" ∷ "server.py" ∷ []) ≡ ok "")
    × (read_text checkout ("docs" ∷ "mcp-server.md" ∷ []) ≡ ok "")
texts_read = (
  read_text-IsFound _ checkout-IsFound.0,
  read_text-IsFound _ checkout-IsFound.1,
  read_text-IsFound _ checkout-IsFound.2,
  read_text-IsFound _ checkout-IsFound.3,
  read_text-IsFound _ checkout-IsFound.4,
)

gather-nothing : (files : Dict FilePath String) → gather {B = String} (λ f. no_links f.1) files ≡ []
gather-nothing [] = refl
gather-nothing (f ∷ files) = gather-nothing files

sorted-nothing :
    (a b : Dict FilePath String)
    → sorted (distinct (gather (λ f. no_links f.1) a ++ gather (λ f. no_links f.1) b ++ [])) ≡ []
unfolding distinct sorted
sorted-nothing a b = rw (gather-nothing a) (rw (gather-nothing b) refl)

abbrev settings_from : String → Result (List String)
settings_from conftest = ok (
    sorted (
      distinct (
        gather (λ f. no_links f.1) (sources checkout)
        ++ gather (λ f. no_links f.1) (select (λ f. is_file_of "suites" ".py" f.0) checkout)
        ++ no_links conftest)))

no_settings :
    settings_of parse loads same no_snippets no_links no_links urlsplit resolve checkout ≡ ok []
unfolding settings_of
no_settings =
    ap (λ m. m >>= settings_from) texts_read.1
    ∙ ap ok
        (sorted-nothing (sources checkout) (select (λ f. is_file_of "suites" ".py" f.0) checkout))

no_reference :
    is_reference_current parse loads same no_snippets no_links no_links urlsplit resolve checkout
    ≡ ok false
unfolding is_reference_current
no_reference = ground (arith, checkout-IsFound.5)

one_target :
    navigation parse loads same no_snippets no_links no_links urlsplit resolve checkout
    ≡ ok ("mcp-server.md" ∷ [])
unfolding navigation get_key nav_paths distinct
one_target = ground (arith, texts_read.0)

checkout-read :
    read_all parse loads same no_snippets no_links no_links urlsplit resolve checkout ≡ ok reading
unfolding read_all remote_tools parse_module
checkout-read =
    ground (arith, no_reference, one_target, no_settings, texts_read.2, texts_read.3, texts_read.4)

check_iff_example :
    (report : Inventory) × (check parse loads same no_snippets no_links no_links urlsplit resolve
        checkout
      ≡ ok report)
    × ((exit_code report ≡ 0)
        ↔ IsDocumented parse loads same no_snippets no_links no_links urlsplit resolve checkout
            reading)
check_iff_example =
    check_iff parse loads same no_snippets no_links no_links urlsplit resolve checkout reading
      checkout-read
