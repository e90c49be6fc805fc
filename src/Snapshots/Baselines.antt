-- ===== src/Snapshots/Baselines.antt =====
-- Approved baselines of tools/snapshot_manager.py.
use dbwarden_harness.Base.{String, Option, some, ◌≡◌, arith, string_eq}
use dbwarden_harness.Base.Dict.{Dict, lookup-insert}
use dbwarden_harness.Base.Result.{Result, ok}
use dbwarden_harness.Disk.{FilePath, file_path_eq, Disk, read, write}
use dbwarden_harness.Snapshots.{SqlSnapshot, changed, compare, approve, capture, assert_unchanged}

module _ (sha256 : String → String) (unified : SqlSnapshot → SqlSnapshot → String)
    (dumps : Dict String String → String) (loads : String → Result (Dict String String)) where
  capture-content :
      (path : FilePath) (root : Option FilePath) (content : String) (d : Disk) (s : SqlSnapshot)
      → read path d ≡ some content
      → capture sha256 unified dumps loads path root d ≡ ok s
      → (s.content ≡ content) × (s.sha256 ≡ sha256 content)
  unfolding capture
  capture-content path root content d s e h = ground (arith, e)

  capture-digest :
      (path : FilePath) (root : Option FilePath) (d : Disk) (s : SqlSnapshot)
      → capture sha256 unified dumps loads path root d ≡ ok s
      → s.sha256 ≡ sha256 s.content
  unfolding capture
  capture-digest path root d s h = ground arith

  -- What a capture finds at an approved destination is unchanged against what was approved.
  pub approve-capture :
      (path destination : FilePath) (old_root root : Option FilePath) (before d : Disk)
      (baseline current found : SqlSnapshot)
      → capture sha256 unified dumps loads path old_root before ≡ ok current
      → capture sha256 unified dumps loads destination root
          (approve (compare current baseline) destination d)
        ≡ ok found
      → (found.content ≡ current.content)
        × (assert_unchanged sha256 unified dumps loads (compare found current) ≡ ok tt)
  unfolding approve compare write read assert_unchanged changed
  approve-capture path destination old_root root before d baseline current found taken again =
      let disk = approve (compare current baseline) destination d in
      let stored : read destination disk ≡ some current.content =
        ground (arith, lookup-insert destination destination current.content d.files) in
      ground (
        arith,
        capture-content destination root current.content disk found stored again,
        capture-digest path old_root before current taken,
      )
