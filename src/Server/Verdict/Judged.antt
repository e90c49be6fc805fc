-- ===== src/Server/Verdict/Judged.antt =====
-- What the judgement of two tracks makes of their results.
use mathlib.Core.Path.{subst, sym}
use dbwarden_harness.Base.{
  String, true, false, none, some, ◌==◌, string_eq, ◌≡◌, ◌≢◌, ◌↔◌, ◌⊎◌, refl, ap, ◌∙◌, arith,
  Bool-cases, inl, inr,
}
use dbwarden_harness.Base.Result.{ok, Result-cases}
use dbwarden_harness.Disk.{FilePath, Disk, read}
use dbwarden_harness.Disk.Files.{file_in}
use dbwarden_harness.Workspace.{Workspace, freeze}
use dbwarden_harness.Tracks.{TrackResult, run_track_a}
use dbwarden_harness.Comparator.{
  ComparisonResult, normalize_schema_dump, parse_schema, compare_schemas,
}
use dbwarden_harness.Bundle.{TwoTrackResult, write_bundle, assemble_proof_bundle}
use dbwarden_harness.Bundle.Contents.{write_bundle-read}
use dbwarden_harness.Classifier.{classify_divergence}
use dbwarden_harness.Server.{Host, stopped, judge, run_reference}

pub ok_injective : {V : Type 0} (v w : V) → ok v ≡ ok w → v ≡ w
ok_injective v w h = cc

module _ {M : Type 0} (host : Host M) where
  -- Both dumps have a normal text, and it is the same.
  abbrev pub SameDumps : String → String → String → Type 0
  SameDumps dump_a dump_b backend =
      (normal : String) × (normalize_schema_dump host.sqlglot host.upper dump_a backend ≡ ok normal)
      × (normalize_schema_dump host.sqlglot host.upper dump_b backend ≡ ok normal)

  -- Both tracks of a report succeeded.
  abbrev pub BothSucceed : TwoTrackResult → Type 0
  BothSucceed r = (r.track_a.success ≡ true) × (r.track_b.success ≡ true)

  -- The bundle's directory holds the dumps of both tracks and their difference.
  abbrev pub HasBundle : TwoTrackResult → Disk → Type 0
  HasBundle r d =
      (dir : FilePath) × (r.proof_bundle_path ≡ some dir)
      × (read (file_in dir "track_a" "schema_dump.sql") d ≡ some r.track_a.schema_dump)
      × (read (file_in dir "track_b" "schema_dump.sql") d ≡ some r.track_b.schema_dump)
      × (read (file_in dir "comparator" "diff.patch") d ≡ some r.comparator.diff)

  -- What a report says of the workspace and the disk after the test.
  abbrev pub Outcome : Workspace → TwoTrackResult → Workspace → Disk → Type 0
  Outcome w r after d =
      ((r.passed ≡ true)
        ↔ (BothSucceed r × SameDumps r.track_a.schema_dump r.track_b.schema_dump w.backend))
      × ((after.frozen ≡ true) ↔ (r.proof_bundle_path ≢ none))
      × ((r.proof_bundle_path ≢ none)
          ↔ (BothSucceed r × ¬ SameDumps r.track_a.schema_dump r.track_b.schema_dump w.backend))
      × ((r.proof_bundle_path ≡ none) ⊎ HasBundle r d)

  -- Track A's result is that of its run, and where it succeeded, Track B's is that of the reference.
  abbrev pub Reports : Workspace → String → String → String → Disk → TwoTrackResult → Type 0
  Reports w mode base current d r =
      let (a, d₁) =
        run_track_a host.programs host.repr host.loads (host.paths.resolve w.work_dir) w.backend
          w.track_a_url base current d in
      (r.track_a ≡ a)
      × ((r.track_a.success ≡ false)
          ⊎ ((run_reference host w mode base current d₁).0 ≡ ok r.track_b))

  compare_schemas-SameDumps :
      (dump_a dump_b backend : String) (c : ComparisonResult)
      → compare_schemas host.sqlglot host.upper host.unified dump_a dump_b backend ≡ ok c
      → (c.identical ≡ true) ↔ SameDumps dump_a dump_b backend
  unfolding compare_schemas
  compare_schemas-SameDumps dump_a dump_b backend c h =
      elim (Result-cases (normalize_schema_dump host.sqlglot host.upper dump_a backend)) [
        | inr (e, p) ↦ ground (arith, h, p)
        | inl (a, p) ↦
            elim (Result-cases (normalize_schema_dump host.sqlglot host.upper dump_b backend)) [
              | inr (e, q) ↦ ground (arith, h, p, q)
              | inl (b, q) ↦ elim (Bool-cases (a == b)) [
                | inl same ↦
                    let equal : a ≡ b = ground (arith, same) in
                    (λ i. (a, p, q ∙ ap ok (sym equal)), λ k. ground (arith, h, p, q, same))
                | inr differ ↦
                    let no : c.identical ≡ false =
                      elim (Result-cases (parse_schema host.sqlglot host.upper a backend)) [
                        | inr (e, x) ↦ ground (arith, h, p, q, differ, x)
                        | inl (actual, x) ↦
                            elim (Result-cases (parse_schema host.sqlglot host.upper b backend)) [
                              | inr (e, y) ↦ ground (arith, h, p, q, differ, x, y)
                              | inl (expected, y) ↦ ground (arith, h, p, q, differ, x, y)
                            ]
                      ] in
                    (
                      λ i. ground (arith, no, i),
                      λ k.
                          let (normal, x, y) = k in
                          let left : a ≡ normal = ok_injective a normal (sym p ∙ x) in
                          let right : b ≡ normal = ok_injective b normal (sym q ∙ y) in
                          ground (arith, differ, left, right),
                    )
              ]
            ]
      ]

  -- A report without a comparison.
  pub stopped-Outcome :
      (w : Workspace) (a b : TrackResult) (class : String) (d : Disk)
      → w.frozen ≡ false
      → (a.success ≡ false) ⊎ (b.success ≡ false)
      → Outcome w (stopped host a b class) w d
  stopped-Outcome w a b class d f fails = (
    (λ h. cc, λ h. ground (arith, fails, h.0)),
    (λ h. ground (arith, f, h), λ n. absurd (n refl)),
    (λ n. absurd (n refl), λ h. ground (arith, fails, h.0)),
    inl refl,
  )

  pub judge-Outcome :
      (w : Workspace) (mode base current : String) (a b : TrackResult) (d : Disk)
      (r : TwoTrackResult)
      → w.frozen ≡ false
      → a.success ≡ true
      → b.success ≡ true
      → (judge host w mode base current a b d).0 ≡ ok r
      → let done = judge host w mode base current a b d in Outcome w r done.1 done.2
  unfolding judge assemble_proof_bundle freeze
  judge-Outcome w mode base current a b d r f sa sb h =
      let compared =
        compare_schemas host.sqlglot host.upper host.unified a.schema_dump b.schema_dump
          w.backend in
      let done = judge host w mode base current a b d in
      elim (Result-cases compared) [
        | inr (e, p) ↦ ground (arith, h, p)
        | inl (c, p) ↦
            let (to, from) = compare_schemas-SameDumps a.schema_dump b.schema_dump w.backend c p in
            elim (Bool-cases c.identical) [
              | inl q ↦
                  let report : TwoTrackResult = record {
                    passed = true;
                    track_a = a;
                    track_b = b;
                    comparator = c;
                    classification = "95";
                    proof_bundle_path = none;
                    ai_may_inspect = true;
                  } in
                  let same : done ≡ (ok report, w, d) = ground (arith, p, q) in
                  let this : report ≡ r = ok_injective report r (sym (ap (λ o. o.0) same) ∙ h) in
                  subst (λ o. Outcome w r o.1 o.2) (sym same)
                    (subst (λ x. Outcome w x w d) this
                      (
                        (λ k. ((sa, sb), to q), λ k. refl),
                        (λ k. ground (arith, f, k), λ n. absurd (n refl)),
                        (λ n. absurd (n refl), λ k. absurd (k.1 (to q))),
                        inl refl,
                      ))
              | inr q ↦ elim (Result-cases (classify_divergence host.evidence.str a.plan)) [
                | inr (e, k) ↦ ground (arith, h, p, q, k)
                | inl (class, k) ↦
                    let dir = host.bundle_dir w d in
                    let root = host.paths.resolve w.work_dir in
                    let report : TwoTrackResult = record {
                      passed = false;
                      track_a = a;
                      track_b = b;
                      comparator = c;
                      classification = class;
                      proof_bundle_path = some dir;
                      ai_may_inspect = true;
                    } in
                    let d' =
                      write_bundle host.evidence dir root (freeze w) base current a b c mode class
                        d in
                    let same : done ≡ (ok report, freeze w, d') = ground (arith, p, q, k) in
                    let this : report ≡ r = ok_injective report r (sym (ap (λ o. o.0) same) ∙ h) in
                    let (read_a, read_b, read_diff) =
                      write_bundle-read host.evidence dir root (freeze w) base current a b c mode
                        class d in
                    let differ : ¬ SameDumps a.schema_dump b.schema_dump w.backend =
                      λ x. ground (arith, q, from x) in
                    subst (λ o. Outcome w r o.1 o.2) (sym same)
                      (subst (λ x. Outcome w x (freeze w) d') this
                        (
                          (λ x. cc, λ x. absurd (differ x.1)),
                          (λ x e. cc, λ x. refl),
                          (λ x. ((sa, sb), differ), λ x e. cc),
                          inr (dir, refl, read_a, read_b, read_diff),
                        ))
              ]
            ]
      ]
