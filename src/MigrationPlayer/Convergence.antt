-- ===== src/MigrationPlayer/Convergence.antt =====
-- What the assertions of a player demand, and its reading of a diff.
use Prim.Native.Char.{code}
use dbwarden_harness.Base.{
  String, true, Option, List, [], ◌∷◌, ◌==◌, string_eq, nat_eq, is_empty, ◌≡◌, ◌↔◌, refl, arith,
  Bool-cases, Option-cases, inl, inr,
}
use dbwarden_harness.Base.Json.{Json}
use dbwarden_harness.Base.Result.{ok}
use dbwarden_harness.Disk.{Disk, Programs}
use dbwarden_harness.Cli.{run, run_command, output, is_blank, require_clean, require_success}
use dbwarden_harness.CaseRunner.{payload, parse_diff}
use dbwarden_harness.MigrationPlayer.{parse_diff_output, command, operations, assert_converged}

-- The parsers of a diff in the migration player and in the case runner read the same from every
-- output.
pub parse_diff_output_eq :
    (loads : String → Option Json) (output : String)
    → parse_diff_output loads output ≡ parse_diff loads output
unfolding parse_diff_output parse_diff
parse_diff_output_eq loads String.[] = refl
parse_diff_output_eq loads (String.◌∷◌ c s) = elim (Bool-cases (code c == 91)) [
  | inr n ↦ ground (arith, n, parse_diff_output_eq loads s)
  | inl y ↦ elim (Option-cases (payload (loads (String.◌∷◌ c s)))) [
    | inl e ↦ ground (arith, y, e, parse_diff_output_eq loads s)
    | inr (fs, e) ↦ ground (arith, y, e)
  ]
]

nil_of_is_empty : {A : Type 0} (xs : List A) → is_empty xs ≡ true → xs ≡ []
nil_of_is_empty [] h = refl
nil_of_is_empty (x ∷ xs) h = ground (arith, h)

empty_of_nil : {A : Type 0} (xs : List A) → xs ≡ [] → is_empty xs ≡ true
empty_of_nil [] h = refl
empty_of_nil (x ∷ xs) h = cc

module _ (programs : Programs) (loads : String → Option Json) (repr : String → String)
    (repr_list : List String → String) (versions : String → List String) where
  -- `assert_converged` passes exactly when the diff command exits with 0, leaves stderr blank and
  -- no operation is read from its output.
  pub assert_converged_iff :
      (flags : List String) (d : Disk)
      → (assert_converged programs loads repr repr_list versions flags d ≡ ok tt) ↔ (
          ((run_command programs "dbwarden" ("diff" ∷ flags) d).0.returncode ≡ 0)
          × (is_blank (run_command programs "dbwarden" ("diff" ∷ flags) d).0.stderr ≡ true)
          × (parse_diff_output loads (output (run_command programs "dbwarden" ("diff" ∷ flags) d).0)
              ≡ []))
  unfolding assert_converged operations command run require_clean require_success
  assert_converged_iff flags d =
      let r = (run_command programs "dbwarden" ("diff" ∷ flags) d).0 in
      let found = parse_diff_output loads (output r) in
      elim (Bool-cases (r.returncode == 0)) [
        | inr c ↦ (λ h. ground (arith, h, c), λ h. ground (arith, h.0, c))
        | inl c ↦ elim (Bool-cases (is_blank r.stderr)) [
          | inr b ↦ (λ h. ground (arith, h, c, b), λ h. ground (arith, h.1, b))
          | inl b ↦ elim (Bool-cases (is_empty found)) [
            | inr n ↦
                (λ h. ground (arith, h, c, b, n), λ h. ground (arith, n, empty_of_nil found h.2))
            | inl e ↦
                (λ h. (ground (arith, c), b, nil_of_is_empty found e), λ h. ground (arith, c, b, e))
          ]
        ]
      ]
