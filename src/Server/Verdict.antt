-- ===== src/Server/Verdict.antt =====
-- What a test of a workspace reports, and when it freezes the workspace.
pub mod Judged
use dbwarden_harness.Base.{
  String, false, Option, ◌==◌, string_eq, ◌≡◌, ◌≢◌, ◌↔◌, ◌⊎◌, refl, arith, Bool-cases, inl, inr,
}
use dbwarden_harness.Base.Result.{Result, ok, err, Result-cases, ◌>>=◌}
use dbwarden_harness.Disk.{FilePath, Disk, read}
use dbwarden_harness.Disk.Files.{file_in}
use dbwarden_harness.Workspace.{Workspace, freeze}
use dbwarden_harness.Tracks.{TrackResult, run_track_a}
use dbwarden_harness.Tracks.Protocol.{run_track_a_failed}
use dbwarden_harness.Comparator.{
  ComparisonResult, normalize_schema_dump, parse_schema, compare_schemas,
}
use dbwarden_harness.Bundle.{TwoTrackResult, write_bundle, assemble_proof_bundle}
use dbwarden_harness.Bundle.Contents.{write_bundle-read}
use dbwarden_harness.Classifier.{classify_divergence}
use dbwarden_harness.Server.{Host, judge, run_reference, with_reference, two_tracks}

module _ {M : Type 0} (host : Host M) where
  judge_track_a :
      (w : Workspace) (mode base current : String) (a b : TrackResult) (d : Disk)
      (r : TwoTrackResult)
      → (judge host w mode base current a b d).0 ≡ ok r
      → r.track_a ≡ a
  unfolding judge assemble_proof_bundle
  judge_track_a w mode base current a b d r h = ground (arith, h)

  with_reference_track_a :
      (w : Workspace) (mode base current : String) (a : TrackResult) (o : Result TrackResult × Disk)
      (r : TwoTrackResult)
      → (with_reference host w mode base current a o).0 ≡ ok r
      → r.track_a ≡ a
  unfolding with_reference
  with_reference_track_a w mode base current a (err e, d) r h = ground (arith, h)
  with_reference_track_a w mode base current a (ok b, d) r h =
      ground (arith, h, judge_track_a w mode base current a b d r)

  -- A report whose Track A failed is of the class "95", never "5".
  pub failed_class :
      (w : Workspace) (mode base current : String) (d : Disk) (r : TwoTrackResult)
      → (two_tracks host w mode base current d).0 ≡ ok r
      → r.track_a.success ≡ false
      → r.classification ≡ "95"
  unfolding two_tracks
  failed_class w mode base current d r h f =
      let root = host.paths.resolve w.work_dir in
      let (a, d₁) =
        run_track_a host.programs host.repr host.loads root w.backend w.track_a_url base current
          d in
      elim (Bool-cases a.success) [
        | inl q ↦ ground (
          arith,
          q,
          h,
          f,
          with_reference_track_a w mode base current a (run_reference host w mode base current d₁)
              r,
        )
        | inr q ↦ ground (
          arith,
          q,
          h,
          run_track_a_failed host.programs host.repr host.loads root w.backend w.track_a_url base
              current d,
        )
      ]
