-- ===== src/CaseRunner/Matrix/Answers.antt =====
-- What a matrix of tools/case_runner.py answers, whatever goes wrong.
use mathlib.Core.Path.{subst}
use text.Mathlib.TextLemmas.{nil-append, cons-append}
use dbwarden_harness.Base.{
  ℕ, String, ◌<>◌, not, ◌&&◌, Option, none, some, List, [], ◌∷◌, ◌≡◌, ◌≢◌, ◌↔◌, ◌∙◌, sym, refl,
  arith, ◌==◌, string_eq, nat_eq, ◌⊎◌, inl, inr, Option-cases, Bool-cases,
}
use dbwarden_harness.Base.Result.{Error, runtime_error}
use dbwarden_harness.Disk.{FilePath, Event, Disk, Programs}
use dbwarden_harness.RoundTrip.{remove_tree}
use dbwarden_harness.CaseRunner.{
  StepResult, CaseResult, GenerationCase, last_verdict, verdict, with_rollback, with_diff,
  with_schema, on_server, run,
}
use dbwarden_harness.CaseRunner.Verdicts.{last_verdict-cases}
use dbwarden_harness.CaseRunner.Matrix.{
  Response, endpoint, run_checked, broken, run_guarded, run_all, schema_text, message,
  clickhouse_query, work_dir_of,
}

last_verdict-ne : (rs : List StepResult) → last_verdict rs ≢ "harness-error"
last_verdict-ne rs =
    last_verdict-cases (λ s. s ≢ "harness-error")
      (λ e. cc, (λ e. cc, (λ e. cc, (λ e. cc, (λ e. cc, (λ e. cc, (λ e. cc, tt))))))) rs

error_text-ne : (name text : String) → (name <> ": " <> text) ≢ ""
error_text-ne String.[] text h = cc (cons-append ":" " " text, nil-append (": " <> text), h)
error_text-ne (String.◌∷◌ c s) text h = cc (cons-append c s (": " <> text), h)

-- What an operation leaves as it was.
abbrev SameNames : CaseResult → CaseResult → Type 0
SameNames a b =
    (a.case_id ≡ b.case_id) × (a.backend ≡ b.backend) × (a.harness_error ≡ b.harness_error)

-- A result before anything ran.
abbrev fresh : FilePath → GenerationCase → Option String → CaseResult
fresh root c database = record {
  case_id = c.case_id;
  backend = c.backend;
  work_dir = root;
  database = database;
  steps = [];
  harness_error = none;
  live_schema = "";
  schema_after_rollback = "";
  rollback_returncode = none;
  rollback_output = "";
  diff_online = "";
  diff_offline = "";
}

SameNames-trans : (a b c : CaseResult) → SameNames a b → SameNames b c → SameNames a c
SameNames-trans a b c h k = (h.0 ∙ k.0, h.1 ∙ k.1, h.2 ∙ k.2)

module _ (programs : Programs) (str : ℕ → String) (repr : String → String)
    (repr_list : List String → String) (schema : List Event → String → String) where
  rollback-names :
      (c : GenerationCase) (server : Option String) (rd : CaseResult × Disk)
      → SameNames (with_rollback programs str repr repr_list schema c server rd).0 rd.0
  unfolding with_rollback
  rollback-names c server (r, d) = ground arith

  diff-names :
      (c : GenerationCase) (rd : CaseResult × Disk)
      → SameNames (with_diff programs str repr repr_list schema c rd).0 rd.0
  unfolding with_diff
  diff-names c (r, d) = ground arith

  schema-names :
      (c : GenerationCase) (server : Option String) (rd : CaseResult × Disk)
      → SameNames (with_schema programs str repr repr_list schema c server rd).0 rd.0
  unfolding with_schema
  schema-names c none (r, d) = ground arith
  schema-names c (some name) (r, d) = ground arith

  later-names :
      (c : GenerationCase) (server : Option String) (rd : CaseResult × Disk)
      → SameNames
          (with_schema programs str repr repr_list schema c server (
            with_diff programs str repr repr_list schema c
              (with_rollback programs str repr repr_list schema c server rd))).0
          rd.0
  later-names c server rd =
      let one = with_rollback programs str repr repr_list schema c server rd in
      let two = with_diff programs str repr repr_list schema c one in
      let three = with_schema programs str repr repr_list schema c server two in
      SameNames-trans three.0 two.0 rd.0 (schema-names c server two)
        (SameNames-trans two.0 one.0 rd.0 (diff-names c one) (rollback-names c server rd))

  run-names :
      (root : FilePath) (c : GenerationCase) (url : String) (database : Option String) (d : Disk)
      → SameNames
          (run programs str repr repr_list schema root c url database d).0
          (fresh root c database)
  unfolding run
  run-names root c url database d = later-names c _ _

abbrev pub IsServed : GenerationCase → Option String → Type 0
IsServed c database =
    (c.backend ≡ "clickhouse") × ((name : String) × (database ≡ some name) × (name ≢ ""))

-- A case needs a server where it is on ClickHouse and its URL names a database.
abbrev pub NeedsServer :
    (String → FilePath → String × Option String) → FilePath → GenerationCase → Type 0
NeedsServer url_for root c = IsServed c (url_for c.case_id (work_dir_of root c)).1

-- A call of the case raises, or the case needs a server and there is no endpoint.
abbrev pub IsBroken :
    (FilePath → GenerationCase → Disk → Option (Error × Disk))
    → Option String
    → (String → FilePath → String × Option String)
    → FilePath
    → GenerationCase
    → Disk
    → Type 0
IsBroken interrupt http url_for root c d =
    (interrupt root c d ≢ none) ⊎ (NeedsServer url_for root c × (endpoint http ≡ none))

-- The result of a case on a disk has its id and its backend, and its verdict is an error of the harness
-- exactly when the case breaks.
abbrev pub Answers :
    (FilePath → GenerationCase → Disk → Option (Error × Disk))
    → Option String
    → (String → FilePath → String × Option String)
    → FilePath
    → GenerationCase
    → Disk
    → CaseResult
    → Type 0
Answers interrupt http url_for root c d r =
    (r.case_id ≡ c.case_id)
    × (r.backend ≡ c.backend)
    × ((verdict r ≡ "harness-error") ↔ IsBroken interrupt http url_for root c d)

module _ (programs : Programs) (str : ℕ → String) (repr : String → String)
    (repr_list : List String → String) (encode : String → String)
    (post : List Event → String → String → Response) (class_of : Error → String)
    (interrupt : FilePath → GenerationCase → Disk → Option (Error × Disk)) (http : Option String)
    (url_for : String → FilePath → String × Option String) where
  abbrev schema : List Event → String → String
  schema = schema_text programs str repr repr_list encode post class_of interrupt http url_for

  IsServed-cases :
      (c : GenerationCase) (database : Option String)
      → ((on_server programs str repr repr_list schema c database ≡ none) × ¬ IsServed c database)
        ⊎ ((name : String) × (on_server programs str repr repr_list schema c database ≡ some name)
            × IsServed c database)
  IsServed-cases c none = inl (refl, λ h. cc (h.1.1))
  IsServed-cases c (some name) = elim (Bool-cases (c.backend == "clickhouse" && not (name == ""))) [
    | inl e ↦ inr (
      name,
      ground (arith, e),
      (ground (arith, e), (name, refl, λ empty. ground (arith, e, empty))),
    )
    | inr e ↦ inl (
      ground (arith, e),
      λ h. let (other, same, full) = h.1 in ground (arith, e, h.0, same, full),
    )
  ]

  -- The result of a case that ran.
  ran-Answers :
      (root : FilePath) (c : GenerationCase) (d : Disk) (r : CaseResult) (database : Option String)
      → SameNames r (fresh (work_dir_of root c) c database)
      → ¬ IsBroken interrupt http url_for root c d
      → Answers interrupt http url_for root c d r
  unfolding verdict
  ran-Answers root c d r database names fine = (
    names.0,
    names.1,
    (λ h. absurd (last_verdict-ne r.steps (ground (arith, h, names.2))), λ h. absurd (fine h)),
  )

  broken-Answers :
      (root : FilePath) (c : GenerationCase) (d : Disk) (e : Error)
      → IsBroken interrupt http url_for root c d
      → Answers interrupt http url_for root c d
          (broken programs str repr repr_list encode post class_of interrupt http url_for root c e)
  unfolding broken verdict
  broken-Answers root c d e breaks =
      (refl, refl, (λ h. breaks, λ h. ground (arith, error_text-ne (class_of e) (message e))))

  run_guarded-Answers :
      (root : FilePath) (c : GenerationCase) (d : Disk)
      → Answers interrupt http url_for root c d
          (run_guarded programs str repr repr_list encode post class_of interrupt http url_for root
            c d).0
  unfolding run_guarded run_checked clickhouse_query
  run_guarded-Answers root c d =
      let work_dir = work_dir_of root c in
      let (url, database) = url_for c.case_id work_dir in
      let d₁ = remove_tree work_dir d in
      let ran = (run programs str repr repr_list schema work_dir c url database d₁).0 in
      let names = run-names programs str repr repr_list schema work_dir c url database d₁ in
      let guarded =
        (run_guarded programs str repr repr_list encode post class_of interrupt http url_for root c
          d).0 in
      let fails =
        broken programs str repr repr_list encode post class_of interrupt http url_for root c in
      elim (Option-cases (interrupt root c d)) [
        | inr ((e, left), raised) ↦
            let same : guarded ≡ fails e = ground (arith, raised) in
            subst (Answers interrupt http url_for root c d) (sym same)
              (broken-Answers root c d e (inl (λ quiet. ground (arith, raised, quiet))))
        | inl quiet ↦ elim (IsServed-cases c database) [
          | inl (e, alone) ↦
              let same : guarded ≡ ran = ground (arith, quiet, e) in
              subst (Answers interrupt http url_for root c d) (sym same) (
                ran-Answers root c d ran database names
                  (λ h. elim h [ inl raises ↦ raises quiet | inr needs ↦ alone needs.0 ]))
          | inr (name, e, needs) ↦ elim (Option-cases (endpoint http)) [
            | inl missing ↦
                let why = runtime_error "CaseRunner was not given a clickhouse_http endpoint" in
                let same : guarded ≡ fails why = ground (arith, quiet, e, missing) in
                subst (Answers interrupt http url_for root c d) (sym same)
                  (broken-Answers root c d why (inr (needs, missing)))
            | inr (there, f) ↦
                let same : guarded ≡ ran = ground (arith, quiet, e, f) in
                subst (Answers interrupt http url_for root c d) (sym same) (
                  ran-Answers root c d ran database names (λ h. elim h [
                    | inl raises ↦ raises quiet
                    | inr both ↦ ground (arith, f, both.1)
                  ]))
          ]
        ]
      ]

  -- Each case is answered on the disk that the cases before it leave.
  abbrev pub AllAnswers : FilePath → Disk → List GenerationCase → List CaseResult → Type 0
  AllAnswers root d [] [] = Unit {0}
  AllAnswers root d (c ∷ cs) (r ∷ rs) =
      Answers interrupt http url_for root c d r
      × AllAnswers root
          (run_guarded programs str repr repr_list encode post class_of interrupt http url_for root
            c d).1
          cs rs
  AllAnswers root d _ _ = ⊥

  -- Every case of a matrix has a result at its place, with its id and its backend, and its verdict
  -- is an error of the harness exactly when a call of the case raises, or the case is on
  -- ClickHouse, its URL names a database and no endpoint is given.
  pub run_all-AllAnswers :
      (root : FilePath) (cs : List GenerationCase) (d : Disk)
      → AllAnswers root d cs
          (run_all programs str repr repr_list encode post class_of interrupt http url_for root cs
            d).0
  unfolding run_all
  run_all-AllAnswers root [] d = tt
  run_all-AllAnswers root (c ∷ cs) d = (run_guarded-Answers root c d, run_all-AllAnswers root cs _)
