-- ===== src/CaseRunner/Report/OneLine.antt =====
-- The report of tools/case_runner.py has a line for each result.
use Prim.Native.Char.{code}
use text.Mathlib.TextLemmas.{nil-append, cons-append}
use dbwarden_harness.Base.{
  ℕ, zero, suc, String, ◌<>◌, Bool, true, false, none, some, List, [], ◌∷◌, map, ◌==◌, string_eq,
  nat_eq, if◌then◌else◌, All, ◌≡◌, ◌≢◌, refl, arith, inl, inr, Bool-cases, Option-cases, ap, ◌∙◌,
}
use dbwarden_harness.Base.Text.{join}
use dbwarden_harness.CaseRunner.{
  StepResult, CaseResult, left_strip, right_strip, strip, last_verdict, verdict,
}
use dbwarden_harness.CaseRunner.Verdicts.{last_verdict-cases}
use dbwarden_harness.CaseRunner.Report.{
  on_one_line, error_of, server_error, take_text, last_error, details, summary, report,
}

-- A text without a line feed.
abbrev pub IsLine : String → Type 0
IsLine String.[] = Unit {0}
IsLine (String.◌∷◌ c s) = (code c ≢ 10) × IsLine s

-- `text.split("\n")`
unfoldable pub lines_of : String → List String
lines_of String.[] = "" ∷ []
lines_of (String.◌∷◌ c s) =
    let rest = lines_of s in
    if code c == 10
    then "" ∷ rest
    else elim rest [ [] ↦ String.◌∷◌ c "" ∷ [] | line ∷ more ↦ String.◌∷◌ c line ∷ more ]

lines_of-line : (s : String) → IsLine s → lines_of s ≡ s ∷ []
unfolding lines_of
lines_of-line String.[] h = refl
lines_of-line (String.◌∷◌ c s) h = ground (arith, lines_of-line s h.1)

newline-append : (t : String) → "\n" <> t ≡ String.◌∷◌ "\n" t
newline-append t = cons-append "\n" "" t ∙ ap (String.◌∷◌ "\n") (nil-append t)

lines_of-append : (s t : String) → IsLine s → lines_of (s <> ("\n" <> t)) ≡ s ∷ lines_of t
unfolding lines_of
lines_of-append String.[] t h = rw nil-append (rw (newline-append t) (ground arith))
lines_of-append (String.◌∷◌ c s) t h = rw cons-append (ground (arith, lines_of-append s t h.1))

lines_of-join :
    (x : String) (xs : List String) → All IsLine (x ∷ xs) → lines_of (join "\n" (x ∷ xs)) ≡ x ∷ xs
unfolding join
lines_of-join x [] h = lines_of-line x h.0
lines_of-join x (y ∷ ys) h = cc (lines_of-append x (join "\n" (y ∷ ys)) h.0, lines_of-join y ys h.1)

IsLine-if : (b : Bool) (s t : String) → IsLine s → IsLine t → IsLine (if b then s else t)
IsLine-if true s t h k = h
IsLine-if false s t h k = k

IsLine-append : (s t : String) → IsLine s → IsLine t → IsLine (s <> t)
IsLine-append String.[] t h k = rw nil-append k
IsLine-append (String.◌∷◌ c s) t h k = rw cons-append (h.0, IsLine-append s t h.1 k)

IsLine-left_strip : (s : String) → IsLine s → IsLine (left_strip s)
unfolding left_strip
IsLine-left_strip String.[] h = tt
IsLine-left_strip (String.◌∷◌ c s) h = ground (arith, IsLine-left_strip s h.1)

IsLine-right_strip : (s : String) → IsLine s → IsLine (right_strip s)
unfolding right_strip
IsLine-right_strip String.[] h = tt
IsLine-right_strip (String.◌∷◌ c s) h = ground (arith, IsLine-right_strip s h.1)

IsLine-take_text : (n : ℕ) (s : String) → IsLine s → IsLine (take_text n s)
unfolding take_text
IsLine-take_text n String.[] h = tt
IsLine-take_text zero (String.◌∷◌ c s) h = tt
IsLine-take_text (suc n) (String.◌∷◌ c s) h = (h.0, IsLine-take_text n s h.1)

on_one_line-IsLine : (s : String) → IsLine (on_one_line s)
unfolding on_one_line
on_one_line-IsLine String.[] = tt
on_one_line-IsLine (String.◌∷◌ c s) = elim (Bool-cases (code c == 10)) [
  | inl e ↦ rw e (IsLine-append " " (on_one_line s) (ground arith) (on_one_line-IsLine s))
  | inr e ↦ ground (arith, e, on_one_line-IsLine s)
]

strip-IsLine : (s : String) → IsLine s → IsLine (strip s)
unfolding strip
strip-IsLine s h = IsLine-right_strip (left_strip s) (IsLine-left_strip s h)

server_error-IsLine : (r : StepResult) → IsLine (server_error r)
unfolding server_error
server_error-IsLine r =
    elim (error_of r)
      as (λ o. IsLine (elim o [ none ↦ "" | some error ↦ strip (on_one_line error) ])) [
        | none ↦ tt
        | some t ↦ strip-IsLine (on_one_line t) (on_one_line-IsLine t)
      ]

last_verdict-IsLine : (rs : List StepResult) → IsLine (last_verdict rs)
last_verdict-IsLine rs = last_verdict-cases IsLine (omega arith) rs

-- What the harness puts into a result is free of line feeds.
pub record IsPlain (c : CaseResult) : Type 0 where
  pub case_id : IsLine c.case_id
  pub backend : IsLine c.backend
  pub harness_error : (e : String) → c.harness_error ≡ some e → IsLine e

last_error-IsLine : (rs : List StepResult) → All IsLine (last_error rs)
unfolding last_error
last_error-IsLine [] = tt
last_error-IsLine (r ∷ []) = elim (Bool-cases (server_error r == "")) [
  | inl e ↦ rw e tt
  | inr e ↦ rw e (IsLine-take_text 160 (server_error r) (server_error-IsLine r), tt)
]
last_error-IsLine (r ∷ q ∷ rs) = last_error-IsLine (q ∷ rs)

details-IsLine : {c : CaseResult} → IsPlain c → All IsLine (details c)
unfolding details
details-IsLine {c} h = elim (Option-cases c.harness_error) [
  | inl e ↦ rw e (last_error-IsLine c.steps)
  | inr (t, e) ↦ rw e (elim (Bool-cases (t == "")) [
    | inl empty ↦ rw empty (last_error-IsLine c.steps)
    | inr full ↦ rw full (h.harness_error t e, tt)
  ])
]

verdict-IsLine : (c : CaseResult) → IsLine (verdict c)
unfolding verdict
verdict-IsLine c = elim (Option-cases c.harness_error) [
  | inl e ↦ rw e (last_verdict-IsLine c.steps)
  | inr (t, e) ↦ rw e (IsLine-if (t == "") _ _ (last_verdict-IsLine c.steps) (omega arith))
]

join-IsLine : (xs : List String) → All IsLine xs → IsLine (join " :: " xs)
unfolding join
join-IsLine [] h = tt
join-IsLine (x ∷ []) h = h.0
join-IsLine (x ∷ y ∷ ys) h =
    IsLine-append x (" :: " <> join " :: " (y ∷ ys)) h.0
      (IsLine-append " :: " (join " :: " (y ∷ ys)) (omega arith) (join-IsLine (y ∷ ys) h.1))

summary-IsLine : {c : CaseResult} → IsPlain c → IsLine (summary c)
unfolding summary
summary-IsLine {c} h = join-IsLine _ (
  IsLine-append c.case_id (" [" <> (c.backend <> ("] " <> verdict c))) h.case_id (
      IsLine-append " [" (c.backend <> ("] " <> verdict c)) (omega arith) (
        IsLine-append c.backend ("] " <> verdict c) h.backend
          (IsLine-append "] " (verdict c) (omega arith) (verdict-IsLine c)))),
  details-IsLine h,
)

summaries-IsLine : (rs : List CaseResult) → All IsPlain rs → All IsLine (map summary rs)
summaries-IsLine [] h = tt
summaries-IsLine (r ∷ rs) h = (summary-IsLine h.0, summaries-IsLine rs h.1)

-- The lines of the report of one or more results are their summaries, one for each in order, where
-- no case id, backend or error of the harness holds a line feed.
pub lines_of-report :
    (r : CaseResult) (rs : List CaseResult)
    → All IsPlain (r ∷ rs)
    → lines_of (report (r ∷ rs)) ≡ map summary (r ∷ rs)
unfolding report
lines_of-report r rs h = lines_of-join (summary r) (map summary rs) (summaries-IsLine (r ∷ rs) h)
