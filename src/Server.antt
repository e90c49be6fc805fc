-- ===== src/Server.antt =====
-- mcp_server/server.py: the tools that a client calls, on the manager of the workspaces and the disk.
pub mod Tools
pub mod Frozen
pub mod Base
pub mod Verdict
pub mod Answers
pub mod Lifecycle
mod Tests
use Prim.Native.Char.{Char, code}
use dbwarden_harness.Base.{
  String, ◌<>◌, Bool, true, false, not, ◌&&◌, ◌||◌, Option, none, some, List, [], ◌∷◌, ◌++◌, ◌==◌,
  string_eq, nat_eq, if◌then◌else◌,
}
use dbwarden_harness.Base.Dict
use dbwarden_harness.Base.Text.{ends_with}
use dbwarden_harness.Base.Json.{Json, Fields}
use dbwarden_harness.Base.Result.{
  Result, ok, err, runtime_error, value_error, file_not_found, ◌>>=◌, ◌>>◌, guard,
}
use dbwarden_harness.Disk.{FilePath, Disk, Programs, write, read}
use dbwarden_harness.Workspace
use dbwarden_harness.Workspace.{Workspace, Manager, Paths, resolve_path, get}
use dbwarden_harness.Tracks.{TrackResult, failed, run_track_a}
use dbwarden_harness.Reference.{Sqlalchemy, run_track_b_nuclear, run_track_b_incremental}
use dbwarden_harness.Comparator.{Sqlglot, ComparisonResult, empty_summary, compare_schemas}
use dbwarden_harness.Mutations
use dbwarden_harness.Mutations.Syntax.{Expr, Node}
use dbwarden_harness.Bundle.{TwoTrackResult, Evidence, assemble_proof_bundle}

pub record Server : Type 0 where
  pub manager : Manager
  pub disk : Disk

-- The libraries and programs that the tools use. `parse`, `parse_expression`, `unparse` and `literal` are
-- Python's `ast`, and `bundle_dir` names the directory of a new bundle.
pub record Host (M : Type 0) : Type 0 where
  pub paths : Paths
  pub programs : Programs
  pub repr : String → String
  pub loads : String → Option Fields
  pub alchemy : Sqlalchemy M
  pub sqlglot : Sqlglot
  pub upper : String → String
  pub unified : String → String → String
  pub evidence : Evidence
  pub bundle_dir : Workspace → Disk → FilePath
  pub parse : String → Result (List Node)
  pub parse_expression : String → Result Expr
  pub unparse : List Node → String
  pub literal : Json → Expr

-- `s.replace("\\", "/")`
pub slashes : String → String
slashes String.[] = ""
slashes (String.◌∷◌ c s) =
    let rest = slashes s in if code c == 92 then "/" <> rest else String.◌∷◌ c rest

pub is_models : String → Bool
unfolding slashes
is_models relative = ends_with (slashes relative) "app/models.py"

-- The source that the tests read, after a write of the models.
pub with_source : String → Workspace → Workspace
with_source content w = elim w.base_models_source [
  | none ↦ record w { base_models_source = some content; current_models_source = some content }
  | some _ ↦ record w { current_models_source = some content }
]

-- A workspace is a shared object: its new state is found under its id from then on.
pub update : String → Workspace → Server → Server
update id w s = record s {
  manager = record (s.manager) { workspaces = Dict.insert id w s.manager.workspaces };
}

-- `base or current`
pub or_current : Option String → String → String
or_current none current = current
or_current (some base) current = if base == "" then current else base

abbrev pub no_comparison : ComparisonResult
no_comparison = record { identical = false; diff = ""; summary = empty_summary }

module _ {M : Type 0} (host : Host M) where
  pub write_model_file_internal : Workspace → String → String → Disk → Result (Workspace × Disk)
  unfolding is_models with_source
  write_model_file_internal w relative content d = do
    guard (not w.frozen) (runtime_error ("Workspace " <> w.workspace_id <> " is frozen"))
    path ← resolve_path host.paths w relative
    ok (if is_models relative then with_source content w else w, write path content d)

  pub write_model_file : String → String → String → Server → Result FilePath × Server
  unfolding update
  write_model_file id relative content s = elim (get id s.manager) [
    | err e ↦ (err e, s)
    | ok w ↦ elim (write_model_file_internal w relative content s.disk) [
      | err e ↦ (err e, s)
      | ok (after, d) ↦
          (resolve_path host.paths w relative, update id after (record s { disk = d }))
    ]
  ]

  -- `apply_mutation` of mcp_server/mutations.py.
  pub apply_model_mutation : String → Fields → Result String
  apply_model_mutation source mutation =
      Mutations.apply_mutation host.parse host.parse_expression host.unparse host.repr host.literal
        source mutation

  -- The source after the mutation, written and recorded.
  pub mutate : Workspace → Fields → Disk → Result (String × Workspace × Disk)
  mutate w mutation d = do
    guard (not w.frozen) (runtime_error ("Workspace " <> w.workspace_id <> " is frozen"))
    path ← resolve_path host.paths w "app/models.py"
    source ← apply_model_mutation (elim (read path d) [ none ↦ "" | some text ↦ text ]) mutation
    (after, written) ← write_model_file_internal w "app/models.py" source d
    ok (source, record after { mutations = after.mutations ++ (mutation ∷ []) }, written)

  pub apply_mutation : String → Fields → Server → Result String × Server
  unfolding update
  apply_mutation id mutation s = elim (get id s.manager) [
    | err e ↦ (err e, s)
    | ok w ↦ elim (mutate w mutation s.disk) [
      | err e ↦ (err e, s)
      | ok (source, after, d) ↦ (ok source, update id after (record s { disk = d }))
    ]
  ]

  -- The guards of a test: the source that it is about.
  pub testable : Workspace → String → Result String
  testable w mode = do
    guard (mode == "nuclear" || mode == "incremental")
        (value_error "reference_mode must be nuclear or incremental")
    guard (not w.frozen) (runtime_error ("Workspace " <> w.workspace_id <> " is frozen"))
    elim w.current_models_source [
      | none ↦ err (runtime_error ("Workspace " <> w.workspace_id <> " has no model file"))
      | some current ↦ ok current
    ]

  pub run_reference : Workspace → String → String → String → Disk → Result TrackResult × Disk
  run_reference w mode base current d =
      let root = host.paths.resolve w.work_dir in
      if mode == "incremental"
      then run_track_b_incremental host.alchemy host.programs root w.backend w.track_b_url
          w.mutations base current d
      else run_track_b_nuclear host.alchemy host.programs root w.backend w.track_b_url current d

  -- A test in which a track fails has no comparison.
  abbrev pub stopped : TrackResult → TrackResult → String → TwoTrackResult
  stopped a b class = record {
    passed = false;
    track_a = a;
    track_b = b;
    comparator = no_comparison;
    classification = class;
    proof_bundle_path = none;
    ai_may_inspect = true;
  }

  -- The end of a test with two dumps.
  pub judge :
      Workspace
      → String
      → String
      → String
      → TrackResult
      → TrackResult
      → Disk
      → Result TwoTrackResult × Workspace × Disk
  judge w mode base current a b d =
      elim (compare_schemas host.sqlglot host.upper host.unified a.schema_dump b.schema_dump
        w.backend) [
          | err e ↦ (err e, w, d)
          | ok comparison ↦ elim comparison.identical [
            | true ↦ (
              ok (record {
                passed = true;
                track_a = a;
                track_b = b;
                comparator = comparison;
                classification = "95";
                proof_bundle_path = none;
                ai_may_inspect = true;
              }),
              w,
              d,
            )
            | false ↦
                assemble_proof_bundle host.evidence (host.bundle_dir w d)
                  (host.paths.resolve w.work_dir) w base current a b comparison mode d
          ]
        ]

  pub with_reference :
      Workspace
      → String
      → String
      → String
      → TrackResult
      → Result TrackResult × Disk
      → Result TwoTrackResult × Workspace × Disk
  with_reference w mode base current a (err e, d) = (err e, w, d)
  with_reference w mode base current a (ok b, d) = elim b.success [
    | false ↦ (ok (stopped a b "5"), w, d)
    | true ↦ judge w mode base current a b d
  ]

  -- The test of a workspace with the given sources.
  pub two_tracks :
      Workspace → String → String → String → Disk → Result TwoTrackResult × Workspace × Disk
  unfolding with_reference
  two_tracks w mode base current d =
      let (a, d₁) =
        run_track_a host.programs host.repr host.loads (host.paths.resolve w.work_dir) w.backend
          w.track_a_url base current d in
      if not a.success
      then (
        ok (
            stopped a (failed "not-run" "Track A failed")
              (elim a.plan [ none ↦ "95" | some _ ↦ "5" ])),
        w,
        d₁,
      )
      else with_reference w mode base current a (run_reference w mode base current d₁)

  pub test_workspace : Workspace → String → Disk → Result TwoTrackResult × Workspace × Disk
  test_workspace w mode d = elim (testable w mode) [
    | err e ↦ (err e, w, d)
    | ok current ↦ two_tracks w mode (or_current w.base_models_source current) current d
  ]

  pub run_two_track_test : String → String → Server → Result TwoTrackResult × Server
  unfolding update
  run_two_track_test id mode s = elim (get id s.manager) [
    | err e ↦ (err e, s)
    | ok w ↦
        let (result, after, d) = test_workspace w mode s.disk in
        (result, update id after (record s { disk = d }))
  ]

  pub read_file : String → String → Server → Result String
  read_file id relative s = do
    w ← get id s.manager
    path ← resolve_path host.paths w relative
    elim (read path s.disk) [
      | none ↦ err (file_not_found (relative <> " not found in workspace " <> id))
      | some content ↦ ok content
    ]
