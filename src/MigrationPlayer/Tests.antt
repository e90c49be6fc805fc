-- ===== src/MigrationPlayer/Tests.antt =====
-- Witnesses for the player: a project whose diff is empty.
use dbwarden_harness.Base.{String, Bool, true, false, Option, none, some, List, [], ◌∷◌, ◌≡◌, ◌↔◌}
use dbwarden_harness.Base.Json.{Json, array, nil}
use dbwarden_harness.Disk.{CommandResult, Disk, Programs}
use dbwarden_harness.Cli.{run_command, output, is_blank}
use dbwarden_harness.Base.Result.{ok}
use dbwarden_harness.Samples.{disk}
use dbwarden_harness.MigrationPlayer.{parse_diff_output, assert_converged}
use dbwarden_harness.MigrationPlayer.Convergence.{assert_converged_iff}

-- A parser that knows the empty list only.
abbrev loads : String → Option Json
loads text = some (array nil)

abbrev programs : Programs
programs = record {
  execute = λ log args. record { args = args; returncode = 0; stdout = "[]"; stderr = "" };
  change = λ log args files. files;
  dump = λ log url backend. none;
}

assert_converged_iff_example :
    (assert_converged programs loads (λ s. s) (λ ss. "[]") (λ s. []) [] disk ≡ ok tt) ↔ (
      ((run_command programs "dbwarden" ("diff" ∷ []) disk).0.returncode ≡ 0)
      × (is_blank (run_command programs "dbwarden" ("diff" ∷ []) disk).0.stderr ≡ true)
      × (parse_diff_output loads (output (run_command programs "dbwarden" ("diff" ∷ []) disk).0)
          ≡ []))
assert_converged_iff_example =
    assert_converged_iff programs loads (λ s. s) (λ ss. "[]") (λ s. []) [] disk
