-- ===== src/CheckDocs.antt =====
-- tools/check_docs.py: the inventory of the API, and the check of the documentation. A path is a list
-- of parts, from the root of the checkout on; what stands outside the checkout is not there.
pub mod Issues
mod Tests
pub mod Reference
pub mod Documents
use Prim.Native.Char.{code}
use dbwarden_harness.Base.{
  ℕ, zero, suc, ◌+◌, String, ◌<>◌, Bool, true, false, not, ◌&&◌, ◌||◌, Option, none, some, List, [],
  ◌∷◌, ◌++◌, map, ◌==◌, string_eq, nat_eq, if◌then◌else◌, contains, select, any, length, is_empty,
}
use dbwarden_harness.Base.Dict
use dbwarden_harness.Base.Dict.{Dict}
use dbwarden_harness.Base.Json.{
  Json, null, boolean, number, text, array, object, member, Items, nil, cons, Fields, end, field,
}
use dbwarden_harness.Base.Result.{Result, ok, err, key_error, file_not_found, external_error, ◌>>=◌}
use dbwarden_harness.Base.Text.{join, sorted, occurs, starts_with, ends_with}
use dbwarden_harness.CaseRunner.{strip}
use dbwarden_harness.SchemaRunner.{distinct}
use dbwarden_harness.Artifacts.{exists}
use dbwarden_harness.Disk.{FilePath, file_path_eq}
use dbwarden_harness.CheckDocs.Reference.{
  Node, function_def, class_def, other_node, Function, Parsed, syntax_error, parsed, parse_module,
  sources, is_file_of, api_reference, gather,
}
use dbwarden_harness.CheckDocs.Documents.{
  nav_paths, get_key, read_text, flag, page_name, pages, is_page, is_document, documents, is_python,
  left_angles, right_angles, parent, Reading, Inventory, reference_issues, target_issues,
  page_issues, setting_issues, tool_issues,
}

-- `parse` is `ast.parse` and `loads` is `tomllib.loads`; `find_snippets`, `find_links` and
-- `find_settings` are the three regular expressions; `urlsplit` answers scheme and path, and `resolve`
-- the place that an unquoted path names from a folder.
module _ (parse : String → Parsed) (loads : String → Result Json) (dedent : String → String)
    (find_snippets : String → List (String × String))
    (find_links find_settings : String → List String) (urlsplit : String → String × String)
    (resolve : FilePath → String → FilePath) where
  snippets : String → List (String × String)
  unfolding is_python
  snippets content = select is_python (find_snippets content)

  pub is_valid : String × String → Bool
  is_valid snippet = elim (parse (dedent snippet.1)) [ syntax_error _ ↦ false | parsed _ ↦ true ]

  snippet_issue : FilePath → String × String → String
  snippet_issue path snippet = elim (parse (dedent snippet.1)) [
    | syntax_error message ↦ join "/" path <> ": invalid Python snippet: " <> message
    | parsed _ ↦ ""
  ]

  -- The link leaves the checkout, or its target is there.
  pub is_reachable : Dict FilePath String → FilePath → String → Bool
  is_reachable files path link =
      let (scheme, target) = urlsplit (left_angles (right_angles link)) in
      not (scheme == "") || target == "" || exists files (resolve (parent path) target)

  pub document_issues : Dict FilePath String → FilePath × String → List String
  unfolding snippets is_valid snippet_issue is_reachable flag
  document_issues files (path, content) =
      flag is_valid (snippet_issue path) (snippets content)
      ++ flag (is_reachable files path) (λ link. join "/" path <> ": broken link " <> link)
          (find_links content)

  pub is_reference_current : Dict FilePath String → Result Bool
  is_reference_current files =
      elim (Dict.lookup ("docs" ∷ "reference" ∷ "python-api.md" ∷ []) files) [
        | none ↦ ok false
        | some content ↦ do reference ← api_reference parse files; ok (content == reference)
      ]

  navigation : Dict FilePath String → Result (List String)
  unfolding read_text get_key nav_paths
  navigation files = do
    content ← read_text files ("zensical.toml" ∷ [])
    config ← loads content
    project ← get_key "project" config
    nav ← get_key "nav" project
    ok (distinct (nav_paths nav))

  settings_of : Dict FilePath String → Result (List String)
  unfolding read_text
  settings_of files = do
    conftest ← read_text files ("conftest.py" ∷ [])
    ok (
        sorted (
          distinct (
            gather (λ f. find_settings f.1) (sources files)
            ++ gather (λ f. find_settings f.1) (select (λ f. is_file_of "suites" ".py" f.0) files)
            ++ find_settings conftest)))

  remote_tools : List Node → List String
  remote_tools [] = []
  remote_tools (function_def doc function ∷ rest) =
      let later = remote_tools rest in
      if not function.is_async && any (λ d. starts_with d "mcp.tool(") function.decorators
      then function.name ∷ later
      else later
  remote_tools (class_def name doc body ∷ rest) = remote_tools rest
  remote_tools (other_node ∷ rest) = remote_tools rest

  pub read_all : Dict FilePath String → Result Reading
  unfolding is_reference_current navigation settings_of remote_tools read_text
  read_all files = do
    is_current ← is_reference_current files
    nav ← navigation files
    settings ← settings_of files
    environment ← read_text files ("docs" ∷ "reference" ∷ "environment.md" ∷ [])
    server ← read_text files ("mcp_server" ∷ "server.py" ∷ [])
    body ← parse_module parse server
    guide ← read_text files ("docs" ∷ "mcp-server.md" ∷ [])
    ok (record {
      is_current = is_current;
      nav = nav;
      settings = settings;
      environment = environment;
      remote = remote_tools body;
      guide = guide;
    })

  pub all_issues : Dict FilePath String → Reading → List String
  unfolding document_issues
  all_issues files r =
      reference_issues r
      ++ (target_issues files r
          ++ (page_issues files r
              ++ (gather (document_issues files) (documents files)
                  ++ (setting_issues r ++ tool_issues r))))

  pub inventory : Dict FilePath String → Reading → Inventory
  unfolding snippets all_issues
  inventory files r = record {
    document_count = length (documents files);
    python_snippets = length (gather (λ f. snippets f.1) (documents files));
    source_modules = length (sources files);
    mcp_tools = length r.remote;
    environment_variables = length r.settings;
    issues = all_issues files r;
  }

  pub check : Dict FilePath String → Result Inventory
  unfolding read_all inventory
  check files = do r ← read_all files; ok (inventory files r)

-- `raise SystemExit(bool(result["issues"]))`
pub exit_code : Inventory → ℕ
exit_code report = if is_empty report.issues then 0 else 1
