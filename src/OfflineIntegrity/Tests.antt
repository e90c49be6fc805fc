-- ===== src/OfflineIntegrity/Tests.antt =====
-- A witness for the digests: one exported state.
use dbwarden_harness.Base.{
  string_eq, String, ◌<>◌, Option, none, some, List, [], ◌∷◌, length, ◌≡◌, refl, arith,
}
use dbwarden_harness.Base.Dict.{Dict}
use dbwarden_harness.Base.Dict
use dbwarden_harness.Base.Result.{ok}
use dbwarden_harness.Disk.{Disk, read, file_path_eq}
use dbwarden_harness.OfflineIntegrity.{
  build_state_manifest, verify_state_manifest, state_files, is_state,
}
use dbwarden_harness.OfflineIntegrity.Tampering.{verify_state_manifest_lem}

abbrev disk : Disk
disk = record { files = ("w" ∷ ".dbwarden" ∷ "model_state.json" ∷ [], "{}") ∷ []; log = [] }

file-read : read ("w" ∷ ".dbwarden" ∷ "model_state.json" ∷ []) disk ≡ some "{}"
unfolding read Dict.lookup
file-read = ground arith

-- Every content has the same digest.
abbrev digest : String → String
digest content = "digest"

abbrev entries : Dict String String
entries = (".dbwarden/model_state.json", "digest") ∷ []

verify_state_manifest_lem_example :
    (length entries ≡ length (state_files ("w" ∷ []) disk))
    × (Dict.lookup ".dbwarden/model_state.json" entries ≡ some "digest")
unfolding verify_state_manifest build_state_manifest state_files is_state
    dbwarden_harness.Base.Text.sorted dbwarden_harness.Tracks.child_of
    dbwarden_harness.Base.string_eq dbwarden_harness.Base.Text.starts_with
    dbwarden_harness.Base.Text.ends_with dbwarden_harness.OfflineIntegrity.same_dict
    dbwarden_harness.OfflineIntegrity.agrees dbwarden_harness.Base.option_eq
    dbwarden_harness.Base.Dict.lookup
verify_state_manifest_lem_example =
    verify_state_manifest_lem digest (λ m. "{}") (λ text. ok entries) ("w" ∷ []) "{}" disk entries
      "model_state.json" "{}" refl refl refl file-read
