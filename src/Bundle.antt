-- ===== src/Bundle.antt =====
-- mcp_server/bundle.py and the result types of mcp_server/models.py: the evidence of a divergence, a
-- directory of files that is written once. The permissions of files are not modelled.
pub mod Manifest
pub mod Contents
mod Tests
use dbwarden_harness.Base.{
  String, ◌<>◌, Bool, true, false, Option, none, some, List, [], ◌∷◌, ◌++◌, ◌==◌, string_eq,
  if◌then◌else◌,
}
use dbwarden_harness.Base.Dict
use dbwarden_harness.Base.Dict.{Dict}
use dbwarden_harness.Base.Text.{join}
use dbwarden_harness.Base.Json.{
  Json, null, text, array, object, Items, nil, cons, Fields, end, field,
}
use dbwarden_harness.Base.Result.{Result, ok, err}
use dbwarden_harness.Disk.{FilePath, file_path_eq, Disk, write, read}
use dbwarden_harness.Providers.{Provider}
use dbwarden_harness.Workspace.{Workspace, freeze}
use dbwarden_harness.Tracks.{TrackResult}
use dbwarden_harness.Classifier.{classify_divergence}
use dbwarden_harness.Comparator.{Mismatch, ComparisonSummary, ComparisonResult}

pub record TwoTrackResult : Type 0 where
  pub passed : Bool
  pub track_a : TrackResult
  pub track_b : TrackResult
  pub comparator : ComparisonResult
  pub classification : String
  pub proof_bundle_path : Option FilePath
  pub ai_may_inspect : Bool

abbrev texts : List String → Items
texts [] = nil
texts (s ∷ ss) = cons (text s) (texts ss)

columns_json : List (String × String) → Items
columns_json [] = nil
columns_json ((t, c) ∷ cs) =
    cons (object (field "table" (text t) (field "column" (text c) end))) (columns_json cs)

mismatches_json : List Mismatch → Items
mismatches_json [] = nil
mismatches_json (m ∷ ms) =
    cons
      (object (
        field "table" (text m.table) (
          field "column" (text m.column)
            (field "expected" (text m.expected) (field "actual" (text m.actual) end)))))
      (mismatches_json ms)

-- `asdict(summary)`
pub summary_json : ComparisonSummary → Json
unfolding columns_json mismatches_json
summary_json s = object (
    field "missing_columns" (array (columns_json s.missing_columns)) (
      field "type_mismatches" (array (mismatches_json s.type_mismatches)) (
        field "missing_tables" (array (texts s.missing_tables))
          (field "extra_tables" (array (texts s.extra_tables)) end))))

abbrev objects : List Fields → Items
objects [] = nil
objects (fs ∷ rest) = cons (object fs) (objects rest)

pub plan_json : Option Fields → Json
plan_json none = null
plan_json (some plan) = object plan

-- `path.relative_to(root)`, when the path lies below the root.
pub relative_to : FilePath → FilePath → Option FilePath
relative_to [] [] = none
relative_to [] (p ∷ path) = some (p ∷ path)
relative_to (r ∷ root) [] = none
relative_to (r ∷ root) (p ∷ path) =
    let rest = relative_to root path in if r == p then rest else none

-- `shutil.copytree`: every file below `from`, written below `to`.
pub copy_tree : FilePath → FilePath → Dict FilePath String → Disk → Disk
unfolding relative_to
copy_tree from to [] d = d
copy_tree from to ((path, content) ∷ files) d = elim (relative_to from path) [
  | none ↦ copy_tree from to files d
  | some rest ↦ copy_tree from to files (write (to ++ rest) content d)
]

pub script_lines : String → String → List String
script_lines under_test url =
    "#!/bin/bash"
    ∷ "set -euo pipefail"
    ∷ ""
    ∷ "# Auto-generated by dbwarden-harness MCP server."
    ∷ "# If this script exits 0, the bug is reproducible; if it exits 1, the report was spurious."
    ∷ ""
    ∷ "SCRIPT_DIR=\"$(cd \"$(dirname \"$0\")\" && pwd)\""
    ∷ "INPUT_DIR=\"$SCRIPT_DIR/../input\""
    ∷ ""
    ∷ ("echo \"Installing dbwarden==$" <> under_test <> " (adjust as needed)\"")
    ∷ ""
    ∷ "cd \"$INPUT_DIR\""
    ∷ ""
    ∷ "# Track A reproduction using the public dbwarden CLI."
    ∷ "dbwarden init"
    ∷ "python -m dbwarden baseline --to-version 0000"
    ∷ "cp mutated_models.py app/models.py"
    ∷ "dbwarden make-migrations ai_fuzz_test"
    ∷ "dbwarden migrate"
    ∷ ""
    ∷ "# Track B reproduction using SQLAlchemy Core DDL."
    ∷ "python - <<'PY'"
    ∷ "import importlib.util, sys"
    ∷ "spec = importlib.util.spec_from_file_location(\"repro_models\", \"app/models.py\")"
    ∷ "mod = importlib.util.module_from_spec(spec)"
    ∷ "sys.modules[\"repro_models\"] = mod"
    ∷ "spec.loader.exec_module(mod)"
    ∷ "base = next((getattr(mod, n) for n in dir(mod) if isinstance(getattr(mod, n), type) and hasattr(getattr(mod, n), \"metadata\")), None)"
    ∷ "if base is None:"
    ∷ "    raise SystemExit(\"No Base found\")"
    ∷ "from sqlalchemy import create_engine"
    ∷ ("engine = create_engine(\"" <> url <> "\")")
    ∷ "base.metadata.drop_all(engine)"
    ∷ "base.metadata.create_all(engine)"
    ∷ "PY"
    ∷ ""
    ∷ "echo \"Comparing schema dumps...\""
    ∷ "diff track_a/schema_dump.sql track_b/schema_dump.sql"
    ∷ "echo \"Bug reproduced.\""
    ∷ ""
    ∷ []

-- `dumps` is `json.dumps` with the indentation that the bundle uses, `sha256` the digest of a
-- file's content, `logs` what the provider reports, and `under_test` the release from the
-- environment.
pub record Evidence : Type 0 where
  pub dumps : Json → String
  pub dumps_manifest : Dict String String → String
  pub sha256 : String → String
  pub logs : Provider → String
  pub str : Json → String
  pub under_test : String

module _ (evidence : Evidence) where
  pub write_inputs : FilePath → FilePath → Workspace → String → String → Disk → Disk
  write_inputs input_dir root w base mutated d =
      let d₁ = write (input_dir ++ ("base_models.py" ∷ [])) base d in
      let d₂ = write (input_dir ++ ("mutated_models.py" ∷ [])) mutated d₁ in
      let d₃ : Disk = elim (read (root ++ ("dbwarden.py" ∷ [])) d₂) [
        | none ↦ d₂
        | some config ↦ write (input_dir ++ ("dbwarden.py" ∷ [])) config d₂
      ] in
      write (input_dir ++ ("mutation_log.json" ∷ []))
        (evidence.dumps (array (objects w.mutations)) <> "\n") d₃

  pub write_track_a : FilePath → FilePath → Workspace → TrackResult → Disk → Disk
  unfolding copy_tree
  write_track_a track_a_dir root w result d =
      let d₁ =
        copy_tree (root ++ ("migrations" ∷ [])) (track_a_dir ++ ("generated_migrations" ∷ []))
          d.files d in
      let d₂ = write (track_a_dir ++ ("schema_dump.sql" ∷ [])) result.schema_dump d₁ in
      write (track_a_dir ++ ("container_logs.log" ∷ [])) (evidence.logs w.track_a_provider) d₂

  pub write_track_b : FilePath → TrackResult → String → Disk → Disk
  write_track_b track_b_dir result reference_mode d =
      write (track_b_dir ++ ("reference_mode.txt" ∷ [])) (reference_mode <> "\n")
        (write (track_b_dir ++ ("schema_dump.sql" ∷ [])) result.schema_dump d)

  pub write_comparator : FilePath → ComparisonResult → Disk → Disk
  write_comparator comparator_dir comparison d =
      let d₁ = write (comparator_dir ++ ("diff.patch" ∷ [])) comparison.diff d in
      let d₂ =
        write (comparator_dir ++ ("diff_summary.json" ∷ []))
          (evidence.dumps (summary_json comparison.summary) <> "\n") d₁ in
      write (comparator_dir ++ ("identical_before_mutation.txt" ∷ []))
        "Both tracks were seeded from the same base_models.py before mutation.\n" d₂

  pub write_classification : FilePath → String → Option Fields → ComparisonResult → Disk → Disk
  write_classification bundle_dir classification plan comparison d =
      write (bundle_dir ++ ("classification.json" ∷ []))
        (evidence.dumps (
            object (
              field "classification" (text classification) (
                field "plan" (plan_json plan)
                  (field "diff_summary" (summary_json comparison.summary) end))))
          <> "\n")
        d

  pub write_reproduction_script : FilePath → Workspace → Disk → Disk
  unfolding script_lines
  write_reproduction_script reproduction_dir w d =
      write (reproduction_dir ++ ("reproduce.sh" ∷ []))
        (join "\n" (script_lines evidence.under_test w.track_b_url)) d

  -- The digest of every file below the directory.
  pub manifest : FilePath → Dict FilePath String → Dict String String
  manifest bundle_dir [] = []
  manifest bundle_dir ((path, content) ∷ files) =
      let rest = manifest bundle_dir files in
      elim (relative_to bundle_dir path) [
        | none ↦ rest
        | some name ↦ (join "/" name, evidence.sha256 content) ∷ rest
      ]

  pub write_manifest : FilePath → Disk → Disk
  unfolding manifest
  write_manifest bundle_dir d =
      write (bundle_dir ++ ("manifest.json" ∷ []))
        (evidence.dumps_manifest (manifest bundle_dir d.files) <> "\n") d

  -- All the files of a bundle, in the order of the source.
  pub write_bundle :
      FilePath
      → FilePath
      → Workspace
      → String
      → String
      → TrackResult
      → TrackResult
      → ComparisonResult
      → String
      → String
      → Disk
      → Disk
  write_bundle bundle_dir root w base mutated a b comparison mode classification d =
      let d₁ = write_inputs (bundle_dir ++ ("input" ∷ [])) root w base mutated d in
      let d₂ = write_track_a (bundle_dir ++ ("track_a" ∷ [])) root w a d₁ in
      let d₃ = write_track_b (bundle_dir ++ ("track_b" ∷ [])) b mode d₂ in
      let d₄ = write_comparator (bundle_dir ++ ("comparator" ∷ [])) comparison d₃ in
      let d₅ = write_classification bundle_dir classification a.plan comparison d₄ in
      let d₆ = write_reproduction_script (bundle_dir ++ ("reproduction" ∷ [])) w d₅ in
      write_manifest bundle_dir d₆

  -- The workspace is frozen first, so it stays frozen when the classification raises. `root` is the
  -- workspace's directory and `bundle_dir` the new one.
  unfoldable pub assemble_proof_bundle :
      FilePath
      → FilePath
      → Workspace
      → String
      → String
      → TrackResult
      → TrackResult
      → ComparisonResult
      → String
      → Disk
      → Result TwoTrackResult × Workspace × Disk
  unfolding freeze write_bundle
  assemble_proof_bundle bundle_dir root w base mutated a b comparison mode d =
      elim (classify_divergence evidence.str a.plan) [
        | err e ↦ (err e, freeze w, d)
        | ok classification ↦ (
          ok (record {
            passed = false;
            track_a = a;
            track_b = b;
            comparator = comparison;
            classification = classification;
            proof_bundle_path = some bundle_dir;
            ai_may_inspect = true;
          }),
          freeze w,
          write_bundle bundle_dir root (freeze w) base mutated a b comparison mode classification d,
        )
      ]
