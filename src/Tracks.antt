-- ===== src/Tracks.antt =====
-- mcp_server/models.py (the results of a track) and mcp_server/track_a.py: the public workflow of
-- dbwarden, run in the workspace's directory.
pub mod Protocol
mod Tests
use Prim.Native.Nat.{Ordering}
use Prim.Native.String.{compare}
use dbwarden_harness.Base.{
  ℕ, zero, suc, String, ◌<>◌, Bool, true, false, not, Option, none, some, List, [], ◌∷◌, ◌++◌, ◌==◌,
  string_eq, nat_eq, if◌then◌else◌,
}
use dbwarden_harness.Base.Dict
use dbwarden_harness.Base.Dict.{Dict}
use dbwarden_harness.Base.Json.{Fields}
use dbwarden_harness.Base.Text.{ends_with}
use dbwarden_harness.Disk.{
  FilePath, CommandResult, Event, wrote, ran, dumped, Disk, Programs, write, launch, read,
}
use dbwarden_harness.Cli.{run_command, output}

pub record TrackResult : Type 0 where
  pub success : Bool
  pub stage : String
  pub error : String
  pub schema_dump : String
  pub plan : Option Fields

pub failed : String → String → TrackResult
failed stage error = record {
  success = false;
  stage = stage;
  error = error;
  schema_dump = "";
  plan = none;
}

abbrev pub app_init : FilePath → FilePath
app_init root = root ++ ("app" ∷ "__init__.py" ∷ [])

abbrev pub models_path : FilePath → FilePath
models_path root = root ++ ("app" ∷ "models.py" ∷ [])

abbrev pub config_path : FilePath → FilePath
config_path root = root ++ ("dbwarden.py" ∷ [])

-- The name of a file directly in the directory `dir`.
unfoldable pub child_of : FilePath → FilePath → Option String
child_of [] (name ∷ []) = some name
child_of (d ∷ dir) (p ∷ path) = let rest = child_of dir path in if d == p then rest else none
child_of _ _ = none

is_plan : Option String → Bool
is_plan none = false
is_plan (some name) = ends_with name ".plan.json"

-- The text of the plan with the greatest name, as `sorted(plans)[-1]`.
latest : FilePath → Dict FilePath String → Option (String × String)
unfolding child_of is_plan
latest dir [] = none
latest dir ((path, content) ∷ files) =
    let rest = latest dir files in
    elim (child_of dir path) [
      | none ↦ rest
      | some name ↦
          let kept : Option (String × String) = elim rest [
            | none ↦ some (name, content)
            | some (best, text) ↦ elim (compare best name) [
              | Ordering.lt ↦ some (name, content)
              | _ ↦ some (best, text)
            ]
          ] in
          if is_plan (some name) then kept else rest
    ]

-- The dump is an event of its own: the driver's error counts as the stage `schema-dump`.
unfoldable pub dump_schema : Programs → String → String → Disk → Option String × Disk
dump_schema programs url backend d =
    (programs.dump d.log url backend, record d { log = dumped url ∷ d.log })

-- `repr` quotes a text as Python does, and `loads` is `json.loads`, with nothing for an error; a plan is a dict.
module _ (programs : Programs) (repr : String → String) (loads : String → Option Fields) where
  pub config_text : String → String → String
  config_text backend url =
      "from dbwarden import database_config\n\n"
      <> "primary = database_config(\n"
      <> "    database_name='primary',\n"
      <> "    default=True,\n"
      <> "    database_type="
      <> repr backend
      <> ",\n"
      <> "    database_url_sync="
      <> repr url
      <> ",\n"
      <> "    model_paths=['app'],\n"
      <> ")\n"

  unfoldable pub read_latest_plan : FilePath → Disk → Option Fields
  unfolding latest
  read_latest_plan root d = elim (latest (root ++ ("migrations" ∷ "primary" ∷ [])) d.files) [
    | none ↦ none
    | some (_, content) ↦ loads content
  ]

  invoke : List String → Disk → CommandResult × Disk
  invoke = run_command programs "dbwarden"

  finish : FilePath → Option String → Disk → TrackResult
  finish root none d = failed "schema-dump" "schema dump failed"
  finish root (some dump) d = record {
    success = true;
    stage = "complete";
    error = "";
    schema_dump = dump;
    plan = read_latest_plan root d;
  }

  -- `root` is the workspace's directory.
  unfoldable pub run_track_a :
      FilePath → String → String → String → String → Disk → TrackResult × Disk
  unfolding invoke finish
  run_track_a root backend url base mutated d =
      let d₁ = write (app_init root) "" d in
      let d₂ = write (config_path root) (config_text backend url) d₁ in
      let (init, d₃) = invoke ("init" ∷ []) d₂ in
      let d₄ = write (models_path root) base d₃ in
      let (made_base, d₅) = invoke ("make-migrations" ∷ "base" ∷ []) d₄ in
      let (migrated_base, d₆) = invoke ("migrate" ∷ []) d₅ in
      let d₇ = write (models_path root) mutated d₆ in
      let (made, d₈) = invoke ("make-migrations" ∷ "ai_fuzz_test" ∷ []) d₇ in
      let (migrated, d₉) = invoke ("migrate" ∷ []) d₈ in
      let (dump, d₁₀) = dump_schema programs url backend d₉ in
      if not (init.returncode == 0)
      then (failed "init" (output init), d₃)
      else if not (made_base.returncode == 0)
      then (failed "make-migrations-base" (output made_base), d₅)
      else if not (migrated_base.returncode == 0)
      then (failed "migrate-base" (output migrated_base), d₆)
      else if not (made.returncode == 0)
      then (failed "make-migrations" (output made), d₈)
      else if not (migrated.returncode == 0)
      then (failed "migrate" (output migrated), d₉)
      else (finish root dump d₁₀, d₁₀)
