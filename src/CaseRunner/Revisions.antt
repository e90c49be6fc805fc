-- ===== src/CaseRunner/Revisions.antt =====
-- The steps of a case: one for each revision, and no migration without SQL.
use dbwarden_harness.Base.{Bool, true, none, string_eq, nat_eq, ◌≡◌, ◌≢◌}
use dbwarden_harness.Disk.{Disk}
use dbwarden_harness.CaseRunner.{StepResult, generated}

-- What holds of a step that was taken: a migration ran exactly if one was generated and the case asks
-- for it.
abbrev pub IsApplied : Bool → StepResult → Type 0
IsApplied apply r =
    ((r.migrate_returncode ≢ none) → (apply ≡ true) × (generated r ≡ true))
    × (((apply ≡ true) × (generated r ≡ true)) → r.migrate_returncode ≢ none)
