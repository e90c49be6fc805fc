-- ===== src/MigrationPlayer.antt =====
-- tools/migration_player.py: one disposable project, driven through dbwarden's commands. Each command
-- is demanded to be clean.
pub mod Convergence
mod Tests
use Prim.Native.Char.{code}
use dbwarden_harness.Base.{
  ℕ, String, ◌<>◌, Bool, true, false, not, Option, none, some, List, [], ◌∷◌, ◌++◌, map, ◌==◌,
  string_eq, nat_eq, if◌then◌else◌, contains, select, is_empty,
}
use dbwarden_harness.Base.Json.{Json, text, Fields, member}
use dbwarden_harness.Base.Text.{lower, cut, join, sorted}
use dbwarden_harness.Base.Result.{Result, ok, err, assertion_error, ◌>>=◌, ◌>>◌, guard}
use dbwarden_harness.Disk.{FilePath, CommandResult, Disk, Programs, write}
use dbwarden_harness.Cli.{run, output}
use dbwarden_harness.Tracks.{config_path}
use dbwarden_harness.CaseRunner.{payload}

-- The project: its database and its directory.
pub record Player : Type 0 where
  pub database_url : String
  pub root : FilePath

-- `parse_diff_output`. `loads` has nothing for a text that is no JSON.
pub parse_diff_output : (String → Option Json) → String → List Fields
parse_diff_output loads String.[] = []
parse_diff_output loads (String.◌∷◌ c s) = elim (code c == 91) [
  | false ↦ parse_diff_output loads s
  | true ↦ elim (payload (loads (String.◌∷◌ c s))) [
    | none ↦ parse_diff_output loads s
    | some fs ↦ fs
  ]
]

-- The backend that a URL's scheme names; a scheme of no backend stands for itself.
pub backend_of : String → String
backend_of scheme =
    if scheme == "postgres"
    then "postgresql"
    else if scheme == "http"
    then "clickhouse"
    else if scheme == "https"
    then "clickhouse"
    else scheme

pub database_type : Player → String
unfolding backend_of
database_type p =
    backend_of
      (lower (elim (cut ":" p.database_url) [ none ↦ p.database_url | some (scheme, _) ↦ scheme ]))

-- The keyword arguments of `configure`; `extra` are the others, sorted by name.
pub record Settings : Type 0 where
  pub database_name : String
  pub database_type : Option String
  pub model_paths : List String
  pub dev_database_type : Option String
  pub dev_database_url : Option String
  pub extra : List (String × String)

-- `repr` quotes a text, `repr_list` a list of texts, and `versions` finds the four-digit versions of
-- the lines of a history that are versioned. A distribution is its name and whether it is a plugin.
module _ (programs : Programs) (loads : String → Option Json) (repr : String → String)
    (repr_list : List String → String) (versions : String → List String) where
  -- A line of an optional setting.
  optional : String → Option String → String
  optional name none = ""
  optional name (some value) =
      if value == "" then "" else "    " <> name <> "=" <> repr value <> ",\n"

  -- The values of `extra` are given as Python writes them.
  extras : List (String × String) → String
  extras [] = ""
  extras ((key, value) ∷ rest) = "    " <> key <> "=" <> value <> ",\n" <> extras rest

  pub config_source : Player → Settings → String
  unfolding optional extras
  config_source p s =
      let type = elim s.database_type as (λ o. String) [
        | none ↦ database_type p
        | some t ↦ if t == "" then database_type p else t
      ] in
      "from dbwarden import database_config\n\n"
      <> "primary = database_config(\n"
      <> "    database_name="
      <> repr s.database_name
      <> ",\n    default=True,\n    database_type="
      <> repr type
      <> ",\n    database_url_sync="
      <> repr p.database_url
      <> ",\n"
      <> (if is_empty s.model_paths
          then ""
          else "    model_paths=" <> repr_list s.model_paths <> ",\n")
      <> optional "dev_database_type" s.dev_database_type
      <> optional "dev_database_url" s.dev_database_url
      <> extras s.extra
      <> ")\n"

  pub configure : Player → Settings → Disk → Disk
  configure p s d = write (config_path p.root) (config_source p s) d

  -- Every plugin with a name is trusted, whatever the command answers.
  pub trust_installed_plugins : List (Option String × Bool) → Disk → Disk
  trust_installed_plugins [] d = d
  trust_installed_plugins ((none, is_plugin) ∷ rest) d = trust_installed_plugins rest d
  trust_installed_plugins ((some name, is_plugin) ∷ rest) d =
      let (_, trusted) = run programs "dbwarden" ("plugin" ∷ "trust" ∷ name ∷ []) false false d in
      trust_installed_plugins rest (if is_plugin then trusted else d)

  -- A clean command with its flags: `migrate`, `status`, `diff` and the others.
  pub command : List String → Disk → Result CommandResult × Disk
  command args d = run programs "dbwarden" args true true d

  pub init : List (Option String × Bool) → Disk → Result CommandResult × Disk
  init distributions d = command ("init" ∷ []) (trust_installed_plugins distributions d)

  -- The operations that `diff` reports, or the error of the command.
  pub operations : List String → Disk → Result (List Fields)
  operations flags d = do
    r ← (command ("diff" ∷ flags) d).0
    ok (parse_diff_output loads (output r))

  named : String → Fields → String
  named key fs = elim (member key fs) [ some (text s) ↦ s | _ ↦ "None" ]

  detail : Fields → String
  unfolding named
  detail operation = named "operation" operation <> ":" <> named "table" operation

  pub assert_converged : List String → Disk → Result (Unit {0})
  unfolding detail
  assert_converged flags d = do
    found ← operations flags d
    guard (is_empty found)
        (assertion_error ("Database is not converged: " <> join ", " (map detail found)))

  -- `file_versions` are the versions in the names of the migration files, and `history` the output of
  -- the history command.
  pub missing_versions : List String → String → List String
  missing_versions file_versions history =
      sorted (select (λ v. not (contains file_versions v)) (versions history))

  pub assert_history_integrity : List String → String → Result (Unit {0})
  assert_history_integrity file_versions history =
      guard (is_empty (missing_versions file_versions history))
        (assertion_error "Migration history is missing files")
