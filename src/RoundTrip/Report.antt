-- ===== src/RoundTrip/Report.antt =====
-- The report of tools/round_trip_driver.py: what its flags say.
use dbwarden_harness.Base.{ℕ, String, true, Option, List, [], ◌≡◌, ◌↔◌, arith}
use dbwarden_harness.Base.Dict.{Dict}
use dbwarden_harness.Base.Json.{Json, Fields}
use dbwarden_harness.Disk.{FilePath, Programs, Disk}
use dbwarden_harness.RoundTrip.{RoundTripResult, setup_ok, converged, unimportable, flags}

module _ (programs : Programs) (loads : String → Option Json) (python : String)
    (show : FilePath → String) (str : ℕ → String) (repr_list : List String → String)
    (repr_operations : List Fields → String) (repr_dict : Dict String String → String) where
  -- A report of a round trip that started has no flag exactly if it converged and every module imports.
  pub flags-converged :
      (r : RoundTripResult) (d : Disk)
      → setup_ok r ≡ true
      → let broken = (unimportable programs loads python show r.work_dir r.generated_files d).0 in
        (flags programs loads python show str repr_list repr_operations repr_dict r broken ≡ [])
        ↔ (converged programs loads python show r ≡ true) × (broken ≡ [])
  unfolding flags converged
  flags-converged r d started = ground arith
