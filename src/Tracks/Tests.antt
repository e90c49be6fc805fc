-- ===== src/Tracks/Tests.antt =====
-- Witnesses for Track A: a run in which every command succeeds.
use dbwarden_harness.Base.{none, [], ◌∷◌, ◌≡◌}
use dbwarden_harness.Samples.{programs, disk}
use dbwarden_harness.Tracks.{run_track_a}
use dbwarden_harness.Tracks.Protocol.{steps, perform, reported, run_track_a-perform}

run_track_a-perform_example :
    run_track_a programs (λ s. s) (λ s. none) ("/w" ∷ []) "sqlite" "url" "base" "mutated" disk
    ≡ reported programs
        (λ s. s)
        (λ s. none)
        ("/w" ∷ [])
        "sqlite"
        "url"
        (perform programs
          (λ s. s)
          (λ s. none)
          (steps programs (λ s. s) (λ s. none) ("/w" ∷ []) "sqlite" "url" "base" "mutated")
          disk)
run_track_a-perform_example =
    run_track_a-perform programs (λ s. s) (λ s. none) ("/w" ∷ []) "sqlite" "url" "base" "mutated"
      disk
