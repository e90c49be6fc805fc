-- ===== src/CaseRunner/Matrix.antt =====
-- A matrix of cases in tools/case_runner.py: the ClickHouse endpoint, the names of projects and
-- databases, and the errors of a case. The threads of the pool are one sequence of calls.
pub mod Answers
pub mod Databases
use dbwarden_harness.Base.{
  ℕ, String, ◌<>◌, Bool, true, false, not, ◌&&◌, Option, none, some, List, [], ◌∷◌, ◌++◌, ◌==◌,
  string_eq, if◌then◌else◌,
}
use dbwarden_harness.Base.Text.{join}
use dbwarden_harness.Base.Result.{
  Result, ok, err, Error, runtime_error, value_error, key_error, assertion_error, timeout_error,
  file_not_found, external_error, ◌>>=◌,
}
use dbwarden_harness.Disk.{FilePath, Event, Disk, Programs, write}
use dbwarden_harness.Tracks.{app_init}
use dbwarden_harness.RoundTrip.{remove_tree}
use dbwarden_harness.CaseRunner.{CaseResult, GenerationCase, slug_from, on_server, run}
use dbwarden_harness.CaseRunner.Report.{take_text}

-- What the endpoint answers: a body, or an error with the body that it may have.
pub data Response : Type 0 where
  body : String → Response
  failed : String → Option String → Response

pub slug : String → String
unfolding slug_from
slug value = slug_from false value

pub sqlite_urls : String → FilePath → String × Option String
sqlite_urls case_id work_dir = ("sqlite:///" <> join "/" (work_dir ++ ("app.db" ∷ [])), none)

pub database_of : String → String
unfolding slug
database_of case_id = take_text 60 ("t_" <> slug case_id)

-- `authority` is the one of the base URL.
pub clickhouse_urls : String → String → FilePath → String × Option String
unfolding database_of
clickhouse_urls authority case_id work_dir =
    ("clickhouse://" <> authority <> "/" <> database_of case_id, some (database_of case_id))

-- `f"{error}"`
pub message : Error → String
message (runtime_error m) = m
message (value_error m) = m
message (key_error m) = m
message (assertion_error m) = m
message (timeout_error m) = m
message (file_not_found m) = m
message (external_error m) = m

-- The endpoint, if there is one.
pub endpoint : Option String → Option String
endpoint none = none
endpoint (some url) = if url == "" then none else some url

pub work_dir_of : FilePath → GenerationCase → FilePath
unfolding slug
work_dir_of root c = root ++ ((c.backend <> "__" <> slug c.case_id) ∷ [])

-- `encode` is `urlencode` of a database's name, `post` the HTTP client, and `class_of` names the class
-- of an error. `interrupt` is an exception of a call that ends a case, such as the time limit of a
-- command, a command that is not found, or an error of `url_for`, and the disk at that moment; the other parameters are those of CaseRunner.
module _ (programs : Programs) (str : ℕ → String) (repr : String → String)
    (repr_list : List String → String) (encode : String → String)
    (post : List Event → String → String → Response) (class_of : Error → String)
    (interrupt : FilePath → GenerationCase → Disk → Option (Error × Disk)) (http : Option String)
    (url_for : String → FilePath → String × Option String) where
  abbrev answer : Response → ℕ × String
  answer (body text) = (0, text)
  answer (failed error none) = (1, error <> "\n")
  answer (failed error (some text)) = (1, error <> "\n" <> text)

  pub clickhouse_query : String → Option String → List Event → Result (ℕ × String)
  unfolding endpoint
  clickhouse_query sql database log = elim (endpoint http) [
    | none ↦ err (runtime_error "CaseRunner was not given a clickhouse_http endpoint")
    | some url ↦
        let query : String = elim database [
          | none ↦ ""
          | some name ↦ if name == "" then "" else encode name
        ] in
        ok (answer (post log (url <> "?" <> query) sql))
  ]

  pub clickhouse_schema : String → List Event → Result String
  clickhouse_schema database log = do
    answered ←
        clickhouse_query
          ("SELECT name, create_table_query FROM system.tables WHERE database='" <> database
            <> "' AND name NOT LIKE '%dbwarden%' AND name NOT LIKE '.inner%' ORDER BY name FORMAT TSV")
          none log
    ok answered.1

  -- What `run` reads of a schema, where there is an endpoint.
  pub schema_text : List Event → String → String
  unfolding clickhouse_schema clickhouse_query
  schema_text log database = elim (clickhouse_schema database log) [ err e ↦ "" | ok text ↦ text ]

  -- A call may raise. Without an endpoint the first statement of a case on ClickHouse raises.
  pub run_checked : FilePath → GenerationCase → Disk → Result CaseResult × Disk
  unfolding work_dir_of schema_text endpoint
  run_checked root c d =
      let work_dir = work_dir_of root c in
      let d₁ = remove_tree work_dir d in
      let (url, database) = url_for c.case_id work_dir in
      let (r, d₂) = run programs str repr repr_list schema_text work_dir c url database d₁ in
      elim (interrupt root c d) [
        | some raised ↦ (err raised.0, raised.1)
        | none ↦ elim (on_server programs str repr repr_list schema_text c database) [
          | none ↦ (ok r, d₂)
          | some name ↦ elim (clickhouse_query ("DROP DATABASE IF EXISTS " <> name) none d₁.log) [
            | err e ↦ (err e, write (app_init work_dir) "" d₁)
            | ok _ ↦ (ok r, d₂)
          ]
        ]
      ]

  -- The result of a case that an error ended.
  pub broken : FilePath → GenerationCase → Error → CaseResult
  unfolding slug message
  broken root c e = record {
    case_id = c.case_id;
    backend = c.backend;
    work_dir = root ++ (slug c.case_id ∷ []);
    database = none;
    steps = [];
    harness_error = some (class_of e <> ": " <> message e);
    live_schema = "";
    schema_after_rollback = "";
    rollback_returncode = none;
    rollback_output = "";
    diff_online = "";
    diff_offline = "";
  }

  pub run_guarded : FilePath → GenerationCase → Disk → CaseResult × Disk
  unfolding run_checked broken
  run_guarded root c d =
      let (r, d') = run_checked root c d in
      elim r [ err e ↦ (broken root c e, d') | ok result ↦ (result, d') ]

  pub run_all : FilePath → List GenerationCase → Disk → List CaseResult × Disk
  unfolding run_guarded
  run_all root [] d = ([], d)
  run_all root (c ∷ cs) d =
      let (r, d₁) = run_guarded root c d in let (rs, d₂) = run_all root cs d₁ in (r ∷ rs, d₂)
