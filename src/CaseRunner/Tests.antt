-- ===== src/CaseRunner/Tests.antt =====
-- Witnesses for the case runner: a case of two revisions, and a step that was applied.
use dbwarden_harness.Base.{
  String, ◌<>◌, Option, refl, arith, true, false, none, some, [], ◌∷◌, string_eq, nat_eq, ◌≡◌,
}
use dbwarden_harness.Samples.{programs, disk}
use dbwarden_harness.CaseRunner.{StepResult, CaseResult, GenerationCase}
use dbwarden_harness.Disk.{FilePath, Disk}
use dbwarden_harness.Base.Result.{Error}
use dbwarden_harness.CaseRunner.Report.{report}
use dbwarden_harness.CaseRunner.Report.OneLine.{IsPlain, lines_of, lines_of-report}
use dbwarden_harness.CaseRunner.Matrix.{body, database_of, run_all}
use dbwarden_harness.CaseRunner.Matrix.Answers.{AllAnswers, run_all-AllAnswers}
use dbwarden_harness.CaseRunner.Matrix.Databases.{database_of-append}

abbrev step : StepResult
step = record {
  index = 0;
  returncode = 0;
  stdout = "created";
  stderr = "";
  new_files = "0001_users.sql" ∷ [];
  sql = "-- upgrade\nCREATE TABLE users";
  migrate_returncode = some 0;
  migrate_output = "";
}

abbrev result : CaseResult
result = record {
  case_id = "users";
  backend = "sqlite";
  work_dir = "root" ∷ [];
  database = none;
  steps = step ∷ [];
  harness_error = none;
  live_schema = "";
  schema_after_rollback = "";
  rollback_returncode = none;
  rollback_output = "";
  diff_online = "";
  diff_offline = "";
}

abbrev two_revisions : GenerationCase
two_revisions = record {
  case_id = "users";
  backend = "sqlite";
  revisions = "one" ∷ "two" ∷ [];
  flags = ("--yes" ∷ []) ∷ [];
  apply = true;
  rollback = 0;
  capture_schema = false;
  capture_diff = false;
  config_extra = "";
  model_paths = "app" ∷ [];
}

abbrev on_clickhouse : GenerationCase
on_clickhouse = record two_revisions { backend = "clickhouse" }

plain : IsPlain result
plain = record { case_id = omega arith; backend = omega arith; harness_error = λ e h. cc }

lines_of-report_example :
    lines_of (report (result ∷ result ∷ []))
    ≡ "users [sqlite] applied" ∷ "users [sqlite] applied" ∷ []
unfolding report lines_of dbwarden_harness.CaseRunner.Report.summary dbwarden_harness.Base.Text.join
    string_eq dbwarden_harness.CaseRunner.Report.error_of dbwarden_harness.CaseRunner.verdict
    dbwarden_harness.CaseRunner.last_verdict dbwarden_harness.CaseRunner.step_verdict nat_eq
lines_of-report_example = lines_of-report result (result ∷ []) (plain, (plain, tt))

-- The ids of two cases that differ after 58 characters.
abbrev long_id : String
long_id = "a_case_with_an_id_that_is_longer_than_the_name_of_a_database"

database_of-append_example : database_of (long_id <> "_one") ≡ database_of long_id
unfolding nat_eq
database_of-append_example = database_of-append long_id "_one" refl (omega arith)

abbrev url_for : String → FilePath → String × Option String
url_for id dir = ("clickhouse://server/" <> id, some id)

-- Nothing raises.
abbrev quiet : FilePath → GenerationCase → Disk → Option (Error × Disk)
quiet root c d = none

run_all-AllAnswers_example :
    AllAnswers programs
      (λ n. "0")
      (λ s. s)
      (λ ss. "[]")
      (λ s. s)
      (λ log url sql. body "")
      (λ e. "Error")
      quiet
      none
      url_for
      ("root" ∷ [])
      disk
      (two_revisions ∷ on_clickhouse ∷ [])
      (run_all programs
        (λ n. "0")
        (λ s. s)
        (λ ss. "[]")
        (λ s. s)
        (λ log url sql. body "")
        (λ e. "Error")
        quiet
        none
        url_for
        ("root" ∷ [])
        (two_revisions ∷ on_clickhouse ∷ [])
        disk).0
run_all-AllAnswers_example =
    run_all-AllAnswers programs (λ n. "0") (λ s. s) (λ ss. "[]") (λ s. s) (λ log url sql. body "")
      (λ e. "Error") quiet none url_for ("root" ∷ []) (two_revisions ∷ on_clickhouse ∷ []) disk
