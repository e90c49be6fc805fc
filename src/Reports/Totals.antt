-- ===== src/Reports/Totals.antt =====
-- The totals of the reports of tools/report_generator.py.
use dbwarden_harness.Base.{ℕ, ◌+◌, String, none, List, [], ◌∷◌, ◌≡◌, arith, string_eq}
use dbwarden_harness.Base.Dict
use dbwarden_harness.Base.Dict.{Dict}
use dbwarden_harness.Base.Result.{Result, ok, >>=-eq-ok}
use dbwarden_harness.Reports.{
  Element, attributes, leaves_of, Suite, Report, number_of, total, count_of, suites_of,
  load_junit_report,
}

abbrev pub sum_of : (Suite → ℕ) → List Suite → ℕ
sum_of count [] = 0
sum_of count (s ∷ suites) = count s + sum_of count suites

module _ (int : String → Result ℕ) where
  total-suites_of :
      (elements : List Element) (suites : List Suite)
      → suites_of int elements ≡ ok suites
      → (total int "tests" elements ≡ ok (sum_of (λ s. s.tests) suites))
        × (total int "failures" elements ≡ ok (sum_of (λ s. s.failures) suites))
  unfolding total suites_of
  total-suites_of [] suites h = (ground (arith, h), ground (arith, h))
  total-suites_of (e ∷ elements) suites h =
      let (tests, t, h₁) = >>=-eq-ok (number_of int "tests" e) _ h in
      let (failures, f, h₂) = >>=-eq-ok (number_of int "failures" e) _ h₁ in
      let (others, o, h₃) = >>=-eq-ok (suites_of int elements) _ h₂ in
      let (later, later') = total-suites_of elements others o in
      (ground (arith, h₃, t, later), ground (arith, h₃, f, later'))

  -- Where the root states no counts of tests and failures, a report that is read has as many of each
  -- as its suites together.
  pub load_junit_report-sum :
      (root : Element) (report : Report)
      → load_junit_report int root ≡ ok report
      → Dict.lookup "tests" (attributes root) ≡ none
      → Dict.lookup "failures" (attributes root) ≡ none
      → (report.tests ≡ sum_of (λ s. s.tests) report.suites)
        × (report.failures ≡ sum_of (λ s. s.failures) report.suites)
  unfolding load_junit_report count_of
  load_junit_report-sum root report h no_tests no_failures =
      let (tests, t, h₁) = >>=-eq-ok (count_of int "tests" root) _ h in
      let (failures, f, h₂) = >>=-eq-ok (count_of int "failures" root) _ h₁ in
      let (errors, e, h₃) = >>=-eq-ok (count_of int "errors" root) _ h₂ in
      let (skipped, k, h₄) = >>=-eq-ok (count_of int "skipped" root) _ h₃ in
      let (suites, s, h₅) = >>=-eq-ok (suites_of int (leaves_of root)) _ h₄ in
      let (same, same') = total-suites_of (leaves_of root) suites s in
      (ground (arith, h₅, t, no_tests, same), ground (arith, h₅, f, no_failures, same'))
