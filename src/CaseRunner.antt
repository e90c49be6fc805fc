-- ===== src/CaseRunner.antt =====
-- tools/case_runner.py: many small projects, each taken through its revisions. The errors of a server
-- that a report quotes are not modelled.
pub mod Verdicts
pub mod Revisions
pub mod Report
pub mod Matrix
mod Tests
use Prim.Native.Char.{code}
use dbwarden_harness.Base.{
  ℕ, zero, suc, ◌+◌, ◌-◌, String, ◌<>◌, Bool, true, false, not, ◌&&◌, ◌||◌, Option, none, some,
  List, [], ◌∷◌, ◌++◌, map, ◌==◌, string_eq, nat_eq, if◌then◌else◌, contains, select, length, leb,
  is_empty,
}
use dbwarden_harness.Base.Dict
use dbwarden_harness.Base.Dict.{Dict}
use dbwarden_harness.Base.Json.{Json, array, object, Items, nil, cons, Fields}
use dbwarden_harness.Base.Text.{after_prefix?, cut, occurs, ends_with, join, sorted}
use dbwarden_harness.Base.Result.{Result, ok, err, Error}
use dbwarden_harness.Disk.{
  FilePath, file_path_eq, CommandResult, Event, executed, Disk, Programs, write, read,
}
use dbwarden_harness.Cli.{run_command}
use dbwarden_harness.Cli.Ansi.{strip_ansi}
use dbwarden_harness.Tracks.{child_of, app_init, models_path, config_path}

pub record StepResult : Type 0 where
  pub index : ℕ
  pub returncode : ℕ
  pub stdout : String
  pub stderr : String
  pub new_files : List String
  pub sql : String
  pub migrate_returncode : Option ℕ
  pub migrate_output : String

-- White space of ASCII.
abbrev is_space : ℕ → Bool
is_space c = c == 32 || (leb 9 c && leb c 13) || (leb 28 c && leb c 31)

pub left_strip : String → String
left_strip String.[] = ""
left_strip (String.◌∷◌ c s) =
    let rest = left_strip s in if is_space (code c) then rest else String.◌∷◌ c s

pub right_strip : String → String
right_strip String.[] = ""
right_strip (String.◌∷◌ c s) =
    let rest = right_strip s in if is_space (code c) && rest == "" then "" else String.◌∷◌ c rest

pub strip : String → String
unfolding left_strip right_strip
strip s = right_strip (left_strip s)

-- `s.replace(word, "")`: `skip` characters of an occurrence are still to be dropped, and `more` is
-- the length of the word less one.
pub dropped_from : ℕ → ℕ → String → String → String
dropped_from skip more word String.[] = ""
dropped_from zero more word (String.◌∷◌ c s) = elim (after_prefix? word (String.◌∷◌ c s)) [
  | none ↦ String.◌∷◌ c (dropped_from zero more word s)
  | some _ ↦ dropped_from more more word s
]
dropped_from (suc skip) more word (String.◌∷◌ c s) = dropped_from skip more word s

pub upgrade : StepResult → String
unfolding dropped_from strip
upgrade r = strip (
    dropped_from 0 9 "-- upgrade"
      (elim (cut "-- rollback" r.sql) [ none ↦ r.sql | some (before, _) ↦ before ]))

pub rollback : StepResult → String
unfolding strip
rollback r = elim (cut "-- rollback" r.sql) [ none ↦ "" | some (_, after) ↦ strip after ]

pub generated : StepResult → Bool
generated r = r.returncode == 0 && not (r.sql == "")

pub silently_skipped : StepResult → Bool
silently_skipped r = r.returncode == 0 && r.sql == ""

pub reported_no_tables : StepResult → Bool
reported_no_tables r = occurs "No tables found" r.stdout

pub step_verdict : StepResult → String
step_verdict r =
    if not (r.returncode == 0)
    then "generate-failed"
    else if r.sql == ""
    then (if reported_no_tables r then "no-tables" else "no-migration")
    else elim r.migrate_returncode [
      | none ↦ "generated"
      | some n ↦ if n == 0 then "applied" else "server-rejected"
    ]

pub record CaseResult : Type 0 where
  pub case_id : String
  pub backend : String
  pub work_dir : FilePath
  pub database : Option String
  pub steps : List StepResult
  pub harness_error : Option String
  pub live_schema : String
  pub schema_after_rollback : String
  pub rollback_returncode : Option ℕ
  pub rollback_output : String
  pub diff_online : String
  pub diff_offline : String

-- `self.steps[-1].verdict() if self.steps else "no-steps"`
pub last_verdict : List StepResult → String
last_verdict [] = "no-steps"
last_verdict (r ∷ []) = step_verdict r
last_verdict (r ∷ q ∷ rs) = last_verdict (q ∷ rs)

-- An error of the harness with an empty text would not count; `run_guarded` never makes one.
pub verdict : CaseResult → String
verdict c = elim c.harness_error [
  | none ↦ last_verdict c.steps
  | some e ↦ if e == "" then last_verdict c.steps else "harness-error"
]

pub verdict_counts : Dict String ℕ → List CaseResult → Dict String ℕ
verdict_counts counts [] = counts
verdict_counts counts (r ∷ rs) =
    verdict_counts (Dict.insert (verdict r) (Dict.get (verdict r) 0 counts + 1) counts) rs

pub record GenerationCase : Type 0 where
  pub case_id : String
  pub backend : String
  pub revisions : List String
  pub flags : List (List String)
  pub apply : Bool
  pub rollback : ℕ
  pub capture_schema : Bool
  pub capture_diff : Bool
  pub config_extra : String
  pub model_paths : List String

pub flags_for : List (List String) → ℕ → List String
flags_for [] n = []
flags_for (f ∷ fs) zero = f
flags_for (f ∷ fs) (suc n) = flags_for fs n

abbrev is_slug : ℕ → Bool
is_slug c = (leb 65 c && leb c 90) || (leb 97 c && leb c 122) || (leb 48 c && leb c 57) || c == 95

-- `re.sub(r"[^A-Za-z0-9_]+", "_", value)`: `inside` tells that the last character was replaced.
pub slug_from : Bool → String → String
slug_from inside String.[] = ""
slug_from inside (String.◌∷◌ c s) =
    if is_slug (code c)
    then String.◌∷◌ c (slug_from false s)
    else if inside
    then slug_from true s
    else "_" <> slug_from true s

abbrev pub all_dicts : Items → Bool
all_dicts nil = true
all_dicts (cons (object fs) js) = all_dicts js
all_dicts (cons _ js) = false

abbrev pub dicts : Items → List Fields
dicts nil = []
dicts (cons (object fs) js) = fs ∷ dicts js
dicts (cons _ js) = dicts js

-- The payload that a suffix of the output holds. `loads` has nothing for a text that is no JSON.
unfoldable pub payload : Option Json → Option (List Fields)
payload (some (array js)) = if all_dicts js then some (dicts js) else none
payload _ = none

unfoldable pub parse_diff : (String → Option Json) → String → List Fields
parse_diff loads String.[] = []
parse_diff loads (String.◌∷◌ c s) =
    let rest = parse_diff loads s in
    if code c == 91
    then elim (payload (loads (String.◌∷◌ c s))) [ none ↦ rest | some fs ↦ fs ]
    else rest

-- The names of the migration files, as `glob("*.sql")`.
pub migrations : FilePath → Dict FilePath String → List String
migrations dir [] = []
migrations dir ((path, _) ∷ files) =
    let rest = migrations dir files in
    elim (child_of dir path) [
      | none ↦ rest
      | some name ↦ if ends_with name ".sql" then name ∷ rest else rest
    ]

abbrev content : FilePath → Disk → String → String
content dir d name = elim (read (dir ++ (name ∷ [])) d) [ none ↦ "" | some text ↦ text ]

-- `str` writes a number, `repr` and `repr_list` quote a text and a list of texts, and `schema` is what
-- the ClickHouse server answers.
module _ (programs : Programs) (str : ℕ → String) (repr : String → String)
    (repr_list : List String → String) (schema : List Event → String → String) where
  unfoldable pub invoke : List String → Disk → CommandResult × Disk
  invoke args d =
      let (r, d') = run_command programs "dbwarden" args d in
      (record r { stdout = strip_ansi r.stdout; stderr = strip_ansi r.stderr }, d')

  pub config_text : GenerationCase → String → String
  config_text c url =
      "from dbwarden import database_config\n\n"
      <> "primary = database_config(\n"
      <> "    database_name='primary',\n"
      <> "    default=True,\n"
      <> "    database_type="
      <> repr c.backend
      <> ",\n"
      <> "    database_url_sync="
      <> repr url
      <> ",\n"
      <> "    model_paths="
      <> repr_list c.model_paths
      <> ",\n"
      <> c.config_extra
      <> ")\n"

  -- A generated migration is applied when the case asks for it.
  pub apply_step : Bool → StepResult → Disk → StepResult × Disk
  apply_step apply r d =
      let (applied, d') = invoke ("migrate" ∷ []) d in
      let output = if applied.returncode == 0 then "" else applied.stdout <> applied.stderr in
      if apply && generated r
      then (record r { migrate_returncode = some applied.returncode; migrate_output = output }, d')
      else (r, d)

  -- One revision, from the models to the result.
  pub run_step : FilePath → GenerationCase → ℕ → String → Disk → StepResult × Disk
  run_step root c index source d =
      let dir = root ++ ("migrations" ∷ "primary" ∷ []) in
      let d₁ = write (models_path root) source d in
      let before = migrations dir d₁.files in
      let (made, d₂) =
        invoke ("make-migrations" ∷ ("revision" <> str index) ∷ flags_for c.flags index) d₁ in
      let new = sorted (select (λ f. not (contains before f)) (migrations dir d₂.files)) in
      apply_step c.apply
        (record {
          index = index;
          returncode = made.returncode;
          stdout = made.stdout;
          stderr = made.stderr;
          new_files = new;
          sql = join "\n\n" (map (content dir d₂) new);
          migrate_returncode = none;
          migrate_output = "";
        })
        d₂

  pub run_steps : FilePath → GenerationCase → ℕ → List String → Disk → List StepResult × Disk
  run_steps root c index [] d = ([], d)
  run_steps root c index (source ∷ sources) d =
      let (r, d₁) = run_step root c index source d in
      let (rs, d₂) = run_steps root c (suc index) sources d₁ in (r ∷ rs, d₂)

  -- The statements before a case on ClickHouse.
  fresh_database : String → Disk → Disk
  fresh_database name d = record d {
    log =
        executed "clickhouse" ("CREATE DATABASE " <> name)
        ∷ executed "clickhouse" ("DROP DATABASE IF EXISTS " <> name)
        ∷ d.log;
  }

  abbrev on_server : GenerationCase → Option String → Option String
  on_server c none = none
  on_server c (some name) =
      if c.backend == "clickhouse" && not (name == "") then some name else none

  with_rollback : GenerationCase → Option String → CaseResult × Disk → CaseResult × Disk
  with_rollback c server (r, d) =
      let (reverted, d') = invoke ("rollback" ∷ "--count" ∷ str c.rollback ∷ []) d in
      let after : String = elim server [ none ↦ "" | some name ↦ schema d'.log name ] in
      if c.rollback == 0 then (r, d) else (
        record r {
          rollback_returncode = some reverted.returncode;
          rollback_output = reverted.stdout <> reverted.stderr;
          schema_after_rollback = after;
        },
        d',
      )

  with_diff : GenerationCase → CaseResult × Disk → CaseResult × Disk
  with_diff c (r, d) =
      let (online, d₁) = invoke ("diff" ∷ "--out" ∷ "json" ∷ []) d in
      let (offline, d₂) = invoke ("diff" ∷ "--offline" ∷ "--out" ∷ "json" ∷ []) d₁ in
      if c.capture_diff
      then (
        record r {
          diff_online = online.stdout <> online.stderr;
          diff_offline = offline.stdout <> offline.stderr;
        },
        d₂,
      )
      else (r, d)

  with_schema : GenerationCase → Option String → CaseResult × Disk → CaseResult × Disk
  with_schema c none (r, d) = (r, d)
  with_schema c (some name) (r, d) =
      if c.capture_schema then (record r { live_schema = schema d.log name }, d) else (r, d)

  -- `root` is the new directory of the case, `url` and `database` what `url_for` gives for it.
  pub run : FilePath → GenerationCase → String → Option String → Disk → CaseResult × Disk
  unfolding fresh_database with_rollback with_diff with_schema
  run root c url database d =
      let server = on_server c database in
      let d₁ = write (app_init root) "" d in
      let d₂ : Disk = elim server [ none ↦ d₁ | some name ↦ fresh_database name d₁ ] in
      let (_, d₃) = invoke ("init" ∷ []) d₂ in
      let d₄ = write (config_path root) (config_text c url) d₃ in
      let (steps, d₅) = run_steps root c 0 c.revisions d₄ in
      with_schema c server (
        with_diff c (
          with_rollback c server (
            record {
              case_id = c.case_id;
              backend = c.backend;
              work_dir = root;
              database = database;
              steps = steps;
              harness_error = none;
              live_schema = "";
              schema_after_rollback = "";
              rollback_returncode = none;
              rollback_output = "";
              diff_online = "";
              diff_offline = "";
            },
            d₅,
          )))
