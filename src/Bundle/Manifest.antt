-- ===== src/Bundle/Manifest.antt =====
-- What the manifest of a bundle covers.
use dbwarden_harness.Base.{String, some, [], ◌∷◌, ◌≡◌, inl, inr, arith, Any, Option-cases}
use dbwarden_harness.Base.Dict
use dbwarden_harness.Base.Dict.{Dict}
use dbwarden_harness.Base.Text.{join}
use dbwarden_harness.Disk.{FilePath, file_path_eq}
use dbwarden_harness.Bundle.{Evidence, relative_to, manifest}

-- A file below the bundle's directory stands in the manifest, under its name there, with the
-- digest of its content.
pub manifest_covers :
    (evidence : Evidence) (bundle_dir path name : FilePath) (content : String)
    (files : Dict FilePath String)
    → Dict.lookup path files ≡ some content
    → relative_to bundle_dir path ≡ some name
    → Any (λ m. m ≡ (join "/" name, evidence.sha256 content)) (manifest evidence bundle_dir files)
unfolding manifest Dict.lookup
manifest_covers evidence bundle_dir path name content [] h r = ground (arith, h)
manifest_covers evidence bundle_dir path name content ((p, c) ∷ files) h r =
    elim (Option-cases (relative_to bundle_dir p)) [
      | inl e ↦ ground (arith, h, r, e, manifest_covers evidence bundle_dir path name content files)
      | inr (n, e) ↦
          ground (arith, h, r, e, manifest_covers evidence bundle_dir path name content files)
    ]
