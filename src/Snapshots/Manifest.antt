-- ===== src/Snapshots/Manifest.antt =====
-- The manifest of tools/snapshot_manager.py: written and verified.
use dbwarden_harness.Base.{
  String, ◌<>◌, true, false, Option, [], ◌∷◌, ◌≡◌, arith, string_eq, nat_eq, option_eq,
}
use dbwarden_harness.Base.Dict
use dbwarden_harness.Base.Dict.{Dict, lookup-insert}
use dbwarden_harness.Base.Result.{Result, ok}
use dbwarden_harness.Disk.{FilePath, file_path_eq, Disk, read, write}
use dbwarden_harness.OfflineIntegrity.{same_dict}
use dbwarden_harness.Snapshots.{
  SqlSnapshot, is_sql, manifest_path, digests, build_manifest, write_manifest, verify_manifest,
}

module _ (sha256 : String → String) (unified : SqlSnapshot → SqlSnapshot → String)
    (dumps : Dict String String → String) (loads : String → Result (Dict String String)) where
  -- A file that is no SQL file counts for nothing.
  digests-insert :
      (root path : FilePath) (content : String) (files : Dict FilePath String)
      → is_sql path ≡ false
      → digests sha256 unified dumps loads root (Dict.insert path content files)
        ≡ digests sha256 unified dumps loads root files
  unfolding digests Dict.insert
  digests-insert root path content [] h = ground arith
  digests-insert root path content (_ ∷ files) h =
      ground (arith, digests-insert root path content files h)

  -- A manifest that is written to a file that is no SQL file is verified at once, where what JSON
  -- reads back of it is the same dict.
  pub verify-write :
      (root : FilePath) (destination : Option FilePath) (d : Disk) (back : Dict String String)
      → loads (dumps (build_manifest sha256 unified dumps loads root d) <> "\n") ≡ ok back
      → same_dict back (build_manifest sha256 unified dumps loads root d) ≡ true
      → is_sql (manifest_path root destination) ≡ false
      → verify_manifest sha256 unified dumps loads root destination
          (write_manifest sha256 unified dumps loads root destination d).1
        ≡ ok tt
  unfolding verify_manifest write_manifest build_manifest write read
  verify-write root destination d back loaded same h =
      let m = digests sha256 unified dumps loads root d.files in
      let path = manifest_path root destination in
      ground (
        arith,
        digests-insert root path (dumps m <> "\n") d.files h,
        lookup-insert path path (dumps m <> "\n") d.files,
      )
