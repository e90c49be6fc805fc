-- ===== src/RoundTrip/Tests.antt =====
-- Witnesses for the round-trip driver: two generated models, one of them the package's own.
use dbwarden_harness.Base.{
  ℕ, suc, String, ◌<>◌, Bool, true, false, not, ◌&&◌, Option, none, some, List, [], ◌∷◌, ◌++◌, ◌==◌,
  string_eq, contains, ◌≡◌, ◌↔◌, refl, arith, if◌then◌else◌,
}
use dbwarden_harness.Base.Dict.{Dict}
use dbwarden_harness.Disk.{file_path_eq, Disk, read}
use dbwarden_harness.RoundTrip.{adopt, app_file, gen_file, text_of}
use dbwarden_harness.RoundTrip.Adoption.{adopt-read}

abbrev generated : Disk
generated = record {
  files =
      (app_file [] "models.py", "written")
      ∷ (gen_file [] "__init__.py", "")
      ∷ (gen_file [] "users.py", "class Users")
      ∷ [];
  log = [];
}

adopt-read_example :
    read (app_file [] "users.py") (adopt [] ("__init__.py" ∷ "users.py" ∷ []) generated)
    ≡ some (text_of (gen_file [] "users.py") generated)
unfolding read string_eq dbwarden_harness.Base.Dict.lookup adopt
adopt-read_example = adopt-read [] ("__init__.py" ∷ "users.py" ∷ []) "users.py" generated
