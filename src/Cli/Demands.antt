-- ===== src/Cli/Demands.antt =====
-- What the demands on a command's result accept.
use dbwarden_harness.Base.{
  String, Bool, true, List, [], ◌∷◌, string_eq, nat_eq, ◌≡◌, ◌≢◌, ◌↔◌, refl, arith, is_empty, All,
}
use dbwarden_harness.Base.Text.{lower, occurs}
use dbwarden_harness.Base.Result.{ok}
use dbwarden_harness.Disk.{CommandResult, Disk, Programs}
use dbwarden_harness.Cli.{
  is_blank, require_clean, require_failure, output, missing, run, run_command,
}

missing-empty :
    (fragments : List String) (text : String)
    → (is_empty (missing fragments text) ≡ true) ↔ All (λ f. occurs (lower f) text ≡ true) fragments
missing-empty [] text = (λ _. tt, λ _. refl)
missing-empty (f ∷ fragments) text = ground (arith, missing-empty fragments text)

-- `require_clean` accepts exactly the commands that exit with 0 and leave stderr blank.
pub require_clean_iff :
    (r : CommandResult)
    → (require_clean r ≡ ok r) ↔ ((r.returncode ≡ 0) × (is_blank r.stderr ≡ true))
unfolding require_clean
require_clean_iff r = ground arith

-- `require_failure` accepts exactly the commands that fail and whose output holds each fragment,
-- in whatever case.
pub require_failure_iff :
    (fragments : List String) (r : CommandResult)
    → (require_failure fragments r ≡ ok r)
      ↔ ((r.returncode ≢ 0) × All (λ f. occurs (lower f) (lower (output r)) ≡ true) fragments)
unfolding require_failure
require_failure_iff fragments r = ground (arith, missing-empty fragments (lower (output r)))

module _ (programs : Programs) (executable : String) where
  -- `run` returns a result only of a command that exits with 0 when `check` or `clean` is set, and
  -- with `clean` only when stderr is blank too.
  pub run_accepts :
      (args : List String) (check clean : Bool) (d : Disk) (r : CommandResult)
      → (run programs executable args check clean d).0 ≡ ok r
      → (r ≡ (run_command programs executable args d).0)
        × (clean ≡ true → (r.returncode ≡ 0) × (is_blank r.stderr ≡ true))
        × (check ≡ true → r.returncode ≡ 0)
  unfolding run require_clean
  run_accepts args check clean d r h = ground arith
