-- ===== src/OfflineIntegrity.antt =====
-- tools/offline_integrity.py: the digests of the exported model states.
pub mod Tampering
mod Tests
use dbwarden_harness.Base.{
  String, ◌<>◌, Bool, true, false, not, ◌&&◌, Option, none, some, List, [], ◌∷◌, ◌++◌, map, ◌==◌,
  string_eq, nat_eq, option_eq, if◌then◌else◌, is_empty, length,
}
use dbwarden_harness.Base.Dict
use dbwarden_harness.Base.Dict.{Dict}
use dbwarden_harness.Base.Text.{starts_with, ends_with, sorted}
use dbwarden_harness.Base.Result.{Result, ok, err, assertion_error, ◌>>=◌, ◌>>◌, guard}
use dbwarden_harness.Disk.{FilePath, file_path_eq, Disk, read, write}
use dbwarden_harness.Tracks.{child_of}

-- A name of `glob("model_state*.json")` that is no manifest.
pub is_state : String → Bool
is_state name =
    starts_with name "model_state"
    && ends_with name ".json"
    && not (ends_with name ".SHA256SUMS.json")

state_names : FilePath → Dict FilePath String → List String
unfolding is_state
state_names dir [] = []
state_names dir ((path, _) ∷ files) =
    let rest = state_names dir files in
    elim (child_of dir path) [
      | none ↦ rest
      | some name ↦ if is_state name then name ∷ rest else rest
    ]

pub state_files : FilePath → Disk → List String
unfolding state_names
state_files root d = sorted (state_names (root ++ (".dbwarden" ∷ [])) d.files)

-- Every entry of `actual` stands in `expected`.
unfoldable pub agrees : Dict String String → Dict String String → Bool
agrees expected [] = true
agrees expected ((k, v) ∷ rest) = Dict.lookup k expected == some v && agrees expected rest

-- `expected == actual` of two dicts with distinct keys.
unfoldable pub same_dict : Dict String String → Dict String String → Bool
same_dict expected actual = length expected == length actual && agrees expected actual

-- `sha256` is the digest of a content, `loads` reads a manifest and `dumps` writes one.
module _ (sha256 : String → String) (dumps : Dict String String → String)
    (loads : String → Result (Dict String String)) where
  digest : FilePath → Disk → String → String × String
  digest root d name = (
    ".dbwarden/" <> name,
    sha256 (elim (read (root ++ (".dbwarden" ∷ name ∷ [])) d) [ none ↦ "" | some text ↦ text ]),
  )

  pub build_state_manifest : FilePath → Disk → Result (Dict String String)
  unfolding digest
  build_state_manifest root d = do
    guard (not (is_empty (state_files root d))) (assertion_error "No exported model state found")
    ok (map (digest root d) (state_files root d))

  pub write_state_manifest : FilePath → FilePath → Disk → Result (Unit {0}) × Disk
  write_state_manifest root destination d = elim (build_state_manifest root d) [
    | err e ↦ (err e, d)
    | ok manifest ↦ (ok tt, write destination (dumps manifest <> "\n") d)
  ]

  pub verify_state_manifest : FilePath → String → Disk → Result (Unit {0})
  verify_state_manifest root manifest d = do
    expected ← loads manifest
    actual ← build_state_manifest root d
    guard (same_dict expected actual) (assertion_error "Offline model-state checksum mismatch")
