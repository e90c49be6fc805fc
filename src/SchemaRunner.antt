-- ===== src/SchemaRunner.antt =====
-- tools/schema_runner.py and schemas/base.py: a reference schema in a disposable project.
pub mod Expected
mod Tests
use dbwarden_harness.Base.{
  ℕ, String, ◌<>◌, Bool, true, false, not, ◌&&◌, ◌||◌, Option, none, some, List, [], ◌∷◌, ◌++◌,
  ◌==◌, string_eq, if◌then◌else◌, contains, select, is_empty,
}
use dbwarden_harness.Base.Dict
use dbwarden_harness.Base.Dict.{Dict}
use dbwarden_harness.Base.Json.{Json, Fields}
use dbwarden_harness.Base.Text.{join, sorted}
use dbwarden_harness.Base.Result.{
  Result, ok, err, assertion_error, file_not_found, ◌>>=◌, ◌>>◌, guard,
}
use dbwarden_harness.Disk.{
  FilePath, file_path_eq, Event, CommandResult, Disk, Programs, write, read,
}
use dbwarden_harness.Cli
use dbwarden_harness.Tracks.{app_init, models_path}
use dbwarden_harness.MigrationPlayer
use dbwarden_harness.MigrationPlayer.{Player, Settings}
use dbwarden_harness.DriftChecker.{SchemaSnapshot}
use dbwarden_harness.DriftChecker.Capture.{Inspector, SystemTables, capture}

pub record ReferenceSchema : Type 0 where
  pub name : String
  pub models_py : FilePath
  pub expected_tables : List String
  pub expected_indexes : List String
  pub backend : String

-- `source`
pub source : ReferenceSchema → Disk → Result String
source s d = elim (read s.models_py d) [
  | none ↦ err (file_not_found (join "/" s.models_py))
  | some text ↦ ok text
]

pub record SchemaRunner : Type 0 where
  pub schema : ReferenceSchema
  pub player : Player
  pub database_type : String

-- `database_type or schema.backend`
pub schema_runner : ReferenceSchema → Player → Option String → SchemaRunner
schema_runner schema player type = record {
  schema = schema;
  player = player;
  database_type = elim type as (λ o. String) [
    | none ↦ schema.backend
    | some t ↦ if t == "" then schema.backend else t
  ];
}

-- Each text once.
unfoldable pub distinct : List String → List String
distinct [] = []
distinct (x ∷ xs) = let rest = distinct xs in if contains rest x then rest else x ∷ rest

-- `set(wanted) - set(found)`, sorted.
pub missing : List String → List String → List String
unfolding distinct
missing found wanted = sorted (distinct (select (λ w. not (contains found w)) wanted))

pub all_indexes : Dict String (List String) → List String
all_indexes [] = []
all_indexes ((table, indexes) ∷ rest) = indexes ++ all_indexes rest

-- `repr` quotes a text, `repr_list` a list of texts.
abbrev detail : (List String → String) → String → List String → List String
detail repr_list label [] = []
detail repr_list label (x ∷ xs) = (label <> "=" <> repr_list (x ∷ xs)) ∷ []

pub expected_schema :
    (String → String)
    → (List String → String)
    → ReferenceSchema
    → SchemaSnapshot
    → Result SchemaSnapshot
expected_schema repr repr_list s snapshot =
    let tables = missing snapshot.tables s.expected_tables in
    let indexes = missing (all_indexes snapshot.indexes) s.expected_indexes in
    if is_empty tables && is_empty indexes
    then ok snapshot
    else err (
        assertion_error (
          "Reference schema "
          <> repr s.name
          <> " is incomplete: "
          <> join ", " (detail repr_list "tables" tables ++ detail repr_list "indexes" indexes)))

-- The keyword arguments of `reverse_engineer`.
pub record Selection : Type 0 where
  pub tables : Option String
  pub exclude_tables : Option String
  pub clickhouse_engines : Bool
  pub relationships : Bool

abbrev option_flag : String → Option String → List String
option_flag flag none = []
option_flag flag (some value) = if value == "" then [] else flag ∷ value ∷ []

abbrev switch : String → Bool → List String
switch flag false = []
switch flag true = flag ∷ []

pub engineer_flags : String → Selection → List String
engineer_flags output s =
    "generate-models"
    ∷ "--output"
    ∷ output
    ∷ "--single-file"
    ∷ (option_flag "--tables" s.tables
        ++ (option_flag "--exclude-tables" s.exclude_tables
            ++ (switch "--clickhouse-engines" s.clickhouse_engines
                ++ switch "--relationships" s.relationships)))

-- As in MigrationPlayer; `inspect` and `query` reach the database after what happened so far.
module _ (programs : Programs) (loads : String → Option Json) (repr : String → String)
    (repr_list : List String → String) (versions : String → List String)
    (inspect : List Event → String → Result Inspector)
    (query : List Event → String → Result SystemTables) where
  -- A clean command, whose failure ends what follows.
  clean : {A : Type 0} → List String → (Disk → Result A × Disk) → Disk → Result A × Disk
  clean args next d =
      let (r, d') = MigrationPlayer.command programs loads repr repr_list versions args d in
      elim r [ err e ↦ (err e, d') | ok _ ↦ next d' ]

  pub prepare : SchemaRunner → Disk → Result FilePath × Disk
  prepare r d =
      let d₁ = write (app_init r.player.root) "" d in
      let path = models_path r.player.root in
      elim (source r.schema d₁) [ err e ↦ (err e, d₁) | ok text ↦ (ok path, write path text d₁) ]

  abbrev settings : String → Option String → List String → Settings
  settings name type paths = record {
    database_name = name;
    database_type = type;
    model_paths = paths;
    dev_database_type = none;
    dev_database_url = none;
    extra = [];
  }

  pub configure : SchemaRunner → Disk → Disk
  configure r d =
      MigrationPlayer.configure programs loads repr repr_list versions r.player
        (settings r.schema.name (some r.database_type) ("app" ∷ [])) d

  pub initialize : SchemaRunner → Disk → Result FilePath × Disk
  unfolding prepare configure
  initialize r d =
      let (init, d₁) =
        Cli.run programs "dbwarden" ("init" ∷ "--database" ∷ r.schema.name ∷ []) true false d in
      let (prepared, d₂) = prepare r d₁ in
      elim init [
        | err e ↦ (err e, d₁)
        | ok _ ↦ elim prepared [
          | err e ↦ (err e, d₂)
          | ok _ ↦ (ok (r.player.root ++ ("dbwarden.py" ∷ [])), configure r d₂)
        ]
      ]

  pub capture_schema : SchemaRunner → Disk → Result SchemaSnapshot
  capture_schema r d = capture (inspect d.log) (query d.log) r.player.database_url

  pub assert_expected_schema : SchemaRunner → Disk → Result SchemaSnapshot
  assert_expected_schema r d = do
    snapshot ← capture_schema r d
    expected_schema repr repr_list r.schema snapshot

  pub make_and_apply : SchemaRunner → String → Disk → Result (Unit {0}) × Disk
  unfolding clean
  make_and_apply r message =
      clean ("make-migrations" ∷ message ∷ [])
        (clean ("migrate" ∷ []) λ d. (do _ ← assert_expected_schema r d; ok tt, d))

  pub reverse_engineer : SchemaRunner → String → Selection → Disk → Result FilePath × Disk
  unfolding clean engineer_flags
  reverse_engineer r output s =
      let path = r.player.root ++ (output ∷ "models.py" ∷ []) in
      clean (engineer_flags output s) λ d. (
        elim (read path d) [
          | none ↦ err (
              assertion_error
                ("dbwarden did not generate the expected model artifact: " <> join "/" path))
          | some _ ↦ ok path
        ],
        d,
      )

  -- The operations that are left after the generated models took the place of the written ones.
  pub round_trip : SchemaRunner → String → Option String → Disk → Result (List Fields) × Disk
  unfolding reverse_engineer
  round_trip r output tables d =
      let (generated, d₁) =
        reverse_engineer r output
          (record {
            tables = tables;
            exclude_tables = none;
            clickhouse_engines = false;
            relationships = false;
          })
          d in
      let d₂ =
        MigrationPlayer.configure programs loads repr repr_list versions r.player
          (settings "primary" none (output ∷ [])) d₁ in
      let args = "--out" ∷ "json" ∷ [] in
      let left = MigrationPlayer.operations programs loads repr repr_list versions args d₂ in
      let (_, d₃) =
        MigrationPlayer.command programs loads repr repr_list versions ("diff" ∷ args) d₂ in
      elim generated [ err e ↦ (err e, d₁) | ok _ ↦ (left, d₃) ]
