-- ===== src/Snapshots.antt =====
-- tools/snapshot_manager.py: approved SQL files, their digests and their manifest.
pub mod Manifest
pub mod Baselines
mod Tests
use dbwarden_harness.Base.{
  String, ◌<>◌, Bool, true, false, not, ◌&&◌, Option, none, some, List, [], ◌∷◌, ◌++◌, ◌==◌,
  string_eq, nat_eq, option_eq, if◌then◌else◌,
}
use dbwarden_harness.Base.Dict
use dbwarden_harness.Base.Dict.{Dict}
use dbwarden_harness.Base.Text.{cut, ends_with, join}
use dbwarden_harness.Base.Result.{
  Result, ok, err, value_error, assertion_error, file_not_found, ◌>>=◌, ◌>>◌, guard,
}
use dbwarden_harness.Disk.{FilePath, file_path_eq, Disk, read, write}
use dbwarden_harness.OfflineIntegrity.{same_dict}

pub record SqlSnapshot : Type 0 where
  pub relative_path : String
  pub content : String
  pub sha256 : String

pub record SnapshotDiff : Type 0 where
  pub expected : SqlSnapshot
  pub actual : SqlSnapshot

unfoldable pub changed : SnapshotDiff → Bool
changed d = not (d.expected.sha256 == d.actual.sha256)

pub compare : SqlSnapshot → SqlSnapshot → SnapshotDiff
compare current baseline = record { expected = baseline; actual = current }

pub approve : SnapshotDiff → FilePath → Disk → Disk
approve d destination disk = write destination d.actual.content disk

-- The parts after the directory `root`.
pub below : FilePath → FilePath → Option FilePath
below [] path = some path
below (d ∷ root) [] = none
below (d ∷ root) (p ∷ path) = let rest = below root path in if d == p then rest else none

abbrev last_part : FilePath → String
last_part [] = ""
last_part (p ∷ []) = p
last_part (p ∷ q ∷ path) = last_part (q ∷ path)

-- A path of `rglob("*.sql")`.
pub is_sql : FilePath → Bool
is_sql path = ends_with (last_part path) ".sql"

pub relative_name : FilePath → Option FilePath → Result String
relative_name path none = ok (last_part path)
relative_name path (some root) = elim (below root path) [
  | none ↦ err (value_error "the path is not in the subpath of the root")
  | some rest ↦ ok (join "/" rest)
]

-- The directories of a version: its own, and that of its series.
pub candidates : String → List String
candidates version = ("v" <> version) ∷ elim (cut "." version) [
  | none ↦ []
  | some (major, rest) ↦
      ("v"
        <> major
        <> "."
        <> elim (cut "." rest) as (λ o. String) [ none ↦ rest | some (minor, _) ↦ minor ])
      ∷ []
]

-- A baseline is a file.
pub first_baseline : FilePath → String → String → List String → Disk → Option FilePath
first_baseline root backend name [] d = none
first_baseline root backend name (directory ∷ rest) d =
    let later = first_baseline root backend name rest d in
    let baseline = root ++ (directory ∷ backend ∷ name ∷ []) in
    elim (read baseline d) [ none ↦ later | some _ ↦ some baseline ]

pub baseline_for : FilePath → String → String → String → Disk → Option FilePath
baseline_for root version backend name d = first_baseline root backend name (candidates version) d

abbrev pub manifest_path : FilePath → Option FilePath → FilePath
manifest_path root none = root ++ ("SHA256SUMS.json" ∷ [])
manifest_path root (some path) = path

-- `sha256` is the digest of a content, `unified` the difference of two snapshots, `dumps` and `loads`
-- write and read a manifest.
module _ (sha256 : String → String) (unified : SqlSnapshot → SqlSnapshot → String)
    (dumps : Dict String String → String) (loads : String → Result (Dict String String)) where
  unfoldable pub capture : FilePath → Option FilePath → Disk → Result SqlSnapshot
  capture path root d = elim (read path d) [
    | none ↦ err (file_not_found (join "/" path))
    | some content ↦ do
      relative ← relative_name path root
      ok (record { relative_path = relative; content = content; sha256 = sha256 content })
  ]

  pub assert_unchanged : SnapshotDiff → Result (Unit {0})
  assert_unchanged d = guard (not (changed d)) (
      assertion_error (
        "SQL snapshot changed for "
        <> d.actual.relative_path
        <> ": "
        <> d.expected.sha256
        <> " -> "
        <> d.actual.sha256
        <> "\n"
        <> unified d.expected d.actual))

  -- The SQL files of a directory with their digests. The order of a dict counts for nothing: it is
  -- compared as a dict and written with sorted keys.
  pub digests : FilePath → Dict FilePath String → Dict String String
  digests root [] = []
  digests root ((path, content) ∷ files) =
      let rest = digests root files in
      elim (below root path) [
        | none ↦ rest
        | some relative ↦
            if is_sql path then Dict.insert (join "/" relative) (sha256 content) rest else rest
      ]

  pub build_manifest : FilePath → Disk → Dict String String
  build_manifest root d = digests root d.files

  pub write_manifest : FilePath → Option FilePath → Disk → FilePath × Disk
  write_manifest root destination d =
      let path = manifest_path root destination in
      (path, write path (dumps (build_manifest root d) <> "\n") d)

  pub verify_manifest : FilePath → Option FilePath → Disk → Result (Unit {0})
  verify_manifest root manifest d = elim (read (manifest_path root manifest) d) [
    | none ↦ err (file_not_found (join "/" (manifest_path root manifest)))
    | some content ↦ do
      expected ← loads content
      guard (same_dict expected (build_manifest root d))
          (assertion_error "Snapshot manifest mismatch")
  ]
