-- ===== src/Artifacts/Tests.antt =====
-- Runs of tools/artifacts.py.
use dbwarden_harness.Base.{String, some, [], ◌∷◌, ◌≡◌, inl, refl, text_ne, arith}
use dbwarden_harness.Base.Dict.{lookup-insert}
use dbwarden_harness.Base.Json.{Json, end, null}
use dbwarden_harness.Disk.{FilePath, file_path_eq, CommandResult, Disk, read, write}
use dbwarden_harness.Artifacts.{capture}
use dbwarden_harness.Artifacts.Copied.{Apart, capture-read}

abbrev work_dir : FilePath
work_dir = "work" ∷ []

abbrev destination : FilePath
destination = "artifacts" ∷ []

abbrev failed : CommandResult
failed = record { args = "migrate" ∷ []; returncode = 1; stdout = ""; stderr = "no such table" }

abbrev migration : FilePath
migration = "work" ∷ "migrations" ∷ "0001.sql" ∷ []

abbrev project : Disk
project = write migration "DROP TABLE a" (record { files = []; log = [] })

project-read : read migration project ≡ some "DROP TABLE a"
unfolding read write
project-read = ground (arith, lookup-insert {V = String} migration migration "DROP TABLE a" [])

abbrev dumped : Json → String
dumped j = "{}"

cons_eq : (x y : String) (xs ys : FilePath) → x ∷ xs ≡ y ∷ ys → x ≡ y
cons_eq x y xs ys h = cc

destination-Apart : Apart destination work_dir
destination-Apart q r e = text_ne "artifacts" "work" refl (cons_eq "artifacts" "work" q r e)

capture-read_example :
    read
      ("artifacts" ∷ "migrations" ∷ "0001.sql" ∷ [])
      (capture dumped end [] null failed work_dir destination [] end project).1
    ≡ some "DROP TABLE a"
capture-read_example =
    capture-read dumped end [] null failed work_dir destination destination-Apart end project
      "migrations" ("0001.sql" ∷ []) "DROP TABLE a" (inl refl) project-read
