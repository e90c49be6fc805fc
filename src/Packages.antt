-- ===== src/Packages.antt =====
-- harness/distribution.py, plugins.py, matrix.py and the check of provenance.py: the installed
-- packages. The messages are without the names that they list.
pub mod Location
pub mod Provenance
use dbwarden_harness.Base.{
  String, ◌<>◌, Bool, true, false, not, ◌&&◌, ◌||◌, Option, none, some, List, [], ◌∷◌, ◌++◌, ◌==◌,
  string_eq, if◌then◌else◌, contains, any, map, is_empty, select,
}
use dbwarden_harness.Base.Dict
use dbwarden_harness.Base.Dict.{Dict}
use dbwarden_harness.Base.Text.{lower, occurs, ends_with, join}
use dbwarden_harness.Base.Result.{Result, ok, err, assertion_error, ◌>>=◌, ◌>>◌, guard}
use dbwarden_harness.Disk.{FilePath, file_path_eq, CommandResult, Disk, Programs}
use dbwarden_harness.Cli
use dbwarden_harness.Cli.{output}

-- An entry point is its group, its name and its value; a file is its parts.
pub record DistributionReport : Type 0 where
  pub name : String
  pub version : String
  pub files : List FilePath
  pub entry_points : List (String × String × String)
  pub location : FilePath

leaks : FilePath → Bool
leaks path =
    any
      (λ part.
        contains ("tests" ∷ ".git" ∷ ".env" ∷ []) part || ends_with (join "/" path) "dbwarden.py")
      path

pub assert_wheel_is_clean : DistributionReport → Result (Unit {0})
unfolding leaks
assert_wheel_is_clean report =
    guard (is_empty (select leaks report.files))
      (assertion_error ("Development files leaked into " <> report.name))

is_console : String × String × String → Bool
is_console (group, name, value) = group == "console_scripts" && name == "dbwarden"

pub assert_console_entry_point : DistributionReport → Result (Unit {0})
unfolding is_console
assert_console_entry_point report =
    guard (any is_console report.entry_points)
      (assertion_error (report.name <> " does not expose the dbwarden console entry point"))

-- `path.parents`
pub parents : FilePath → List FilePath
parents [] = []
parents (part ∷ rest) = [] ∷ map (λ path. part ∷ path) (parents rest)

-- The distributions of a report, none where one is not installed. Paths are resolved.
pub assert_installed_distribution :
    Dict String (Option DistributionReport) → Option FilePath → Result (Unit {0})
assert_installed_distribution distributions checkout = elim (Dict.lookup "dbwarden" distributions) [
  | none ↦ err (assertion_error "dbwarden is not installed in the harness environment")
  | some found ↦ elim found [
    | none ↦ err (assertion_error "dbwarden is not installed in the harness environment")
    | some report ↦ elim checkout [
      | none ↦ ok tt
      | some path ↦
          guard (not (report.location == path || contains (parents path) report.location)) (
            assertion_error
              ("Harness resolved dbwarden from the source checkout: " <> join "/" report.location))
    ]
  ]
]

pub build_add_command : String → Option String → List String
build_add_command distribution version =
    let wanted = elim version as (λ o. String) [
      | none ↦ distribution
      | some v ↦ if v == "" then distribution else distribution <> "==" <> v
    ] in
    "plugin" ∷ "add" ∷ wanted ∷ []

abbrev pub required_plugins : List String
required_plugins =
    "dbwarden-pgsql-types" ∷ "dbwarden-pgsql-rbac" ∷ "dbwarden-pgsql-extensions"
    ∷ "dbwarden-ch-rbac" ∷ "dbwarden-fastapi" ∷ "dbwarden-redis" ∷ "dbwarden-sandbox"
    ∷ "dbwarden-seeds" ∷ []

pub assert_discovered : CommandResult → List String → Result (Unit {0})
assert_discovered result distributions =
    let found = lower (output result) in
    guard (is_empty (select (λ d. not (occurs (lower d) found)) distributions))
      (assertion_error "Plugins missing from discovery output")

module _ (programs : Programs) where
  pub add : String → Option String → Disk → Result CommandResult × Disk
  unfolding build_add_command
  add distribution version d =
      Cli.run programs "dbwarden" (build_add_command distribution version) true false d

  -- An error ends the installation.
  pub add_many : List String → Disk → Result (List CommandResult) × Disk
  unfolding add
  add_many [] d = (ok [], d)
  add_many (distribution ∷ rest) d =
      let (first, d₁) = add distribution none d in
      let (later, d₂) = add_many rest d₁ in
      elim first [ err e ↦ (err e, d₁) | ok r ↦ (do rs ← later; ok (r ∷ rs), d₂) ]

  pub add_required : Disk → Result (List CommandResult) × Disk
  unfolding add_many
  add_required d = add_many required_plugins d

  -- `list`, `info` and `remove`, by their arguments.
  pub plugin : List String → Disk → Result CommandResult × Disk
  plugin args d = Cli.run programs "dbwarden" ("plugin" ∷ args) true false d

pub record VersionMatrix : Type 0 where
  pub python : List String
  pub postgres : List String
  pub clickhouse : List String
  pub mysql : List String
  pub mariadb : List String

abbrev pub default_matrix : VersionMatrix
default_matrix = record {
  python = "3.12" ∷ "3.13" ∷ [];
  postgres = "14" ∷ "15" ∷ "16" ∷ "17" ∷ [];
  clickhouse = "24.3" ∷ "26.6" ∷ [];
  mysql = "8.0" ∷ "8.4" ∷ [];
  mariadb = "10.11" ∷ "11.4" ∷ [];
}

pub provider_versions : VersionMatrix → List (String × String)
provider_versions m =
    map (λ v. ("postgres", v)) m.postgres
    ++ (map (λ v. ("clickhouse", v)) m.clickhouse
        ++ (map (λ v. ("mysql", v)) m.mysql ++ map (λ v. ("mariadb", v)) m.mariadb))
