-- ===== src/Bundle/Tests.antt =====
-- A witness for the manifest: one file of the bundle and one outside it.
use dbwarden_harness.Base.{
  String, some, [], ◌∷◌, string_eq, nat_eq, option_eq, Any, ◌≡◌, refl, arith,
}
use dbwarden_harness.Base.Dict
use dbwarden_harness.Base.Dict.{Dict}
use dbwarden_harness.Base.Text.{join}
use dbwarden_harness.Disk.{FilePath, file_path_eq}
use dbwarden_harness.Samples.{evidence}
use dbwarden_harness.Bundle.{relative_to, manifest}
use dbwarden_harness.Bundle.Manifest.{manifest_covers}

abbrev bundled : FilePath
bundled = "bundle" ∷ "input" ∷ "base_models.py" ∷ []

abbrev files : Dict FilePath String
files = (bundled, "class Base") ∷ ("w" ∷ "dbwarden.py" ∷ [], "config") ∷ []

found : Dict.lookup bundled files ≡ some "class Base"
unfolding Dict.lookup
found = ground arith

manifest_covers_example :
    Any
      (λ m. m ≡ (join "/" ("input" ∷ "base_models.py" ∷ []), "sha:class Base"))
      (manifest evidence ("bundle" ∷ []) files)
unfolding relative_to string_eq
manifest_covers_example =
    manifest_covers evidence ("bundle" ∷ []) bundled ("input" ∷ "base_models.py" ∷ []) "class Base"
      files found refl
