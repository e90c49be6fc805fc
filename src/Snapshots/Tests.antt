-- ===== src/Snapshots/Tests.antt =====
-- Witnesses for the snapshots: one SQL file, and a digest that is the text itself.
use dbwarden_harness.Base.{
  String, ◌<>◌, Bool, true, false, not, ◌&&◌, Option, none, some, List, [], ◌∷◌, ◌++◌, ◌==◌, ◌≡◌,
  refl, arith, string_eq, nat_eq, option_eq, if◌then◌else◌,
}
use dbwarden_harness.Base.Dict
use dbwarden_harness.Base.Dict.{Dict}
use dbwarden_harness.Base.Result.{Result, ok}
use dbwarden_harness.Disk.{file_path_eq, Disk}
use dbwarden_harness.Snapshots.{
  SqlSnapshot, compare, approve, capture, assert_unchanged, write_manifest, verify_manifest,
}
use dbwarden_harness.Snapshots.Manifest.{verify-write}

abbrev disk : Disk
disk = record { files = ("root" ∷ "a.sql" ∷ [], "CREATE") ∷ []; log = [] }

abbrev sha : String → String
sha s = "sha:" <> s

abbrev no_text : Dict String String → String
no_text m = ""

abbrev no_manifest : String → Result (Dict String String)
no_manifest s = ok []

-- What JSON reads back of the manifest of `disk`.
abbrev read_back : String → Result (Dict String String)
read_back s = ok (("a.sql", "sha:CREATE") ∷ [])

verify-write_example :
    verify_manifest sha
      (λ a b. "")
      no_text
      read_back
      ("root" ∷ [])
      none
      (write_manifest sha (λ a b. "") no_text read_back ("root" ∷ []) none disk).1
    ≡ ok tt
unfolding dbwarden_harness.OfflineIntegrity.same_dict nat_eq
    dbwarden_harness.Snapshots.build_manifest dbwarden_harness.Snapshots.digests
    dbwarden_harness.Snapshots.below string_eq dbwarden_harness.Snapshots.is_sql
    dbwarden_harness.Base.Text.ends_with Dict.insert dbwarden_harness.OfflineIntegrity.agrees
    option_eq Dict.lookup dbwarden_harness.Base.Text.join
verify-write_example =
    verify-write sha (λ a b. "") no_text read_back ("root" ∷ []) none disk
      (("a.sql", "sha:CREATE") ∷ []) refl refl refl
