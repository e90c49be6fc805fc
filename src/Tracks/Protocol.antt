-- ===== src/Tracks/Protocol.antt =====
-- The workflow of Track A as a list of steps.
use dbwarden_harness.Base.{
  String, ◌==◌, if◌then◌else◌, true, false, Option, none, some, List, [], ◌∷◌, string_eq, nat_eq,
  ◌≡◌, ◌≢◌, refl, arith, text_ne,
}
use dbwarden_harness.Base.Json.{Fields}
use dbwarden_harness.Disk.{FilePath, Disk, Programs, write}
use dbwarden_harness.Cli.{run_command, output}
use dbwarden_harness.Tracks.{
  TrackResult, failed, read_latest_plan, app_init, models_path, config_path, config_text,
  dump_schema, finish, invoke, run_track_a,
}

-- A step of the workflow: a file is written, or a command has to end with 0, or else its stage fails.
pub data Step : Type 0 where
  put : FilePath → String → Step
  demand : String → List String → Step

module _ (programs : Programs) (repr : String → String) (loads : String → Option Fields) where
  -- The workflow as data.
  abbrev pub steps : FilePath → String → String → String → String → List Step
  steps root backend url base mutated =
      put (app_init root) ""
      ∷ put (config_path root) (config_text programs repr loads backend url)
      ∷ demand "init" ("init" ∷ [])
      ∷ put (models_path root) base
      ∷ demand "make-migrations-base" ("make-migrations" ∷ "base" ∷ [])
      ∷ demand "migrate-base" ("migrate" ∷ [])
      ∷ put (models_path root) mutated
      ∷ demand "make-migrations" ("make-migrations" ∷ "ai_fuzz_test" ∷ [])
      ∷ demand "migrate" ("migrate" ∷ [])
      ∷ []

  -- The steps one by one, until a command fails: its stage and its output.
  abbrev pub perform : List Step → Disk → Option (String × String) × Disk
  perform [] d = (none, d)
  perform (put path content ∷ rest) d = perform rest (write path content d)
  perform (demand stage args ∷ rest) d =
      let (r, d') = run_command programs "dbwarden" args d in
      let later = perform rest d' in
      if r.returncode == 0 then later else (some (stage, output r), d')

  -- A failed stage is reported; after the last step the schema is dumped and the plan read.
  abbrev pub reported :
      FilePath → String → String → Option (String × String) × Disk → TrackResult × Disk
  reported root backend url (some (stage, error), d) = (failed stage error, d)
  reported root backend url (none, d) =
      let (dump, d') = dump_schema programs url backend d in
      (
        elim dump as (λ o. TrackResult) [
          | none ↦ failed "schema-dump" "schema dump failed"
          | some text ↦ record {
            success = true;
            stage = "complete";
            error = "";
            schema_dump = text;
            plan = read_latest_plan programs repr loads root d';
          }
        ],
        d',
      )

  -- A run of Track A does the nine steps of the workflow in order, until a command does not end
  -- with 0, whose stage and output it reports; after the last one it reports the dump and the
  -- plan.
  pub run_track_a-perform :
      (root : FilePath) (backend url base mutated : String) (d : Disk)
      → run_track_a programs repr loads root backend url base mutated d
        ≡ reported root backend url (perform (steps root backend url base mutated) d)
  unfolding run_track_a invoke finish failed dump_schema
  run_track_a-perform root backend url base mutated d = ground arith

  -- A run that fails reports no plan and no dump, and one of six stages.
  pub run_track_a_failed :
      (root : FilePath) (backend url base mutated : String) (d : Disk)
      → let r = (run_track_a programs repr loads root backend url base mutated d).0 in
        r.success ≡ false → (r.plan ≡ none) × (r.schema_dump ≡ "") × (r.stage ≢ "complete")
  unfolding run_track_a failed finish
  run_track_a_failed root backend url base mutated d h = ground (
    arith,
    text_ne "init" "complete" refl,
    text_ne "make-migrations-base" "complete" refl,
    text_ne "migrate-base" "complete" refl,
    text_ne "make-migrations" "complete" refl,
    text_ne "migrate" "complete" refl,
    text_ne "schema-dump" "complete" refl,
  )
