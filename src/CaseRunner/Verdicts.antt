-- ===== src/CaseRunner/Verdicts.antt =====
-- The verdicts of cases and their counts.
use dbwarden_harness.Base.{
  ℕ, ◌+◌, String, Bool, true, false, not, none, All, if◌then◌else◌, some, List, [], ◌∷◌, ◌==◌,
  string_eq, nat_eq, length, select, ◌≡◌, ◌≢◌, ◌↔◌, refl, arith, text_ne,
}
use dbwarden_harness.Base.Dict
use dbwarden_harness.Base.Dict.{Dict}
use dbwarden_harness.CaseRunner.{
  StepResult, CaseResult, reported_no_tables, step_verdict, last_verdict, verdict, verdict_counts,
}

-- The verdict of a step is "applied" exactly when the generation exits with 0, leaves SQL, and the
-- migration after it exits with 0.
pub step_applied :
    (r : StepResult)
    → (step_verdict r ≡ "applied")
      ↔ ((r.returncode ≡ 0) × (r.sql ≢ "") × (r.migrate_returncode ≡ some 0))
unfolding step_verdict
step_applied r = ground (
  arith,
  text_ne "generate-failed" "applied" refl,
  text_ne "no-tables" "applied" refl,
  text_ne "no-migration" "applied" refl,
  text_ne "generated" "applied" refl,
  text_ne "server-rejected" "applied" refl,
)

-- The count of a verdict grows by the number of results that have it.
pub verdict_counts_lem :
    (v : String) (counts : Dict String ℕ) (rs : List CaseResult)
    → Dict.get v 0 (verdict_counts counts rs)
      ≡ Dict.get v 0 counts + length (select (λ r. verdict r == v) rs)
unfolding verdict_counts
verdict_counts_lem v counts [] = omega arith
verdict_counts_lem v counts (r ∷ rs) = ground (
  arith,
  verdict_counts_lem v (Dict.insert (verdict r) (Dict.get (verdict r) 0 counts + 1) counts) rs,
  Dict.get-insert v (verdict r) (Dict.get (verdict r) 0 counts + 1) 0 counts,
)

-- Every verdict of the steps of a case.
abbrev pub verdicts : List String
verdicts =
    "generate-failed" ∷ "no-tables" ∷ "no-migration" ∷ "generated" ∷ "applied" ∷ "server-rejected"
    ∷ "no-steps" ∷ []

module _ (P : String → Type 0) (holds : All P verdicts) where
  at_if : (b : Bool) (s t : String) → P s → P t → P (if b then s else t)
  at_if true s t h k = h
  at_if false s t h k = k

  step_verdict-cases : (r : StepResult) → P (step_verdict r)
  unfolding step_verdict
  step_verdict-cases r = at_if (not (r.returncode == 0)) _ _ holds.0 (
      at_if (r.sql == "") _ _ (at_if (reported_no_tables r) _ _ holds.1.0 holds.1.1.0)
        (elim r.migrate_returncode
          as (λ o. P (elim o [
            | none ↦ "generated"
            | some n ↦ if n == 0 then "applied" else "server-rejected"
          ])) [
            | none ↦ holds.1.1.1.0
            | some n ↦ at_if (n == 0) _ _ holds.1.1.1.1.0 holds.1.1.1.1.1.0
          ]))

  pub last_verdict-cases : (rs : List StepResult) → P (last_verdict rs)
  unfolding last_verdict
  last_verdict-cases [] = holds.1.1.1.1.1.1.0
  last_verdict-cases (r ∷ []) = step_verdict-cases r
  last_verdict-cases (r ∷ q ∷ rs) = last_verdict-cases (q ∷ rs)
