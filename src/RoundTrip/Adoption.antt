-- ===== src/RoundTrip/Adoption.antt =====
-- The adoption of generated models in tools/round_trip_driver.py, and the commands of a run.
use dbwarden_harness.Base.{
  String, false, not, ◌&&◌, Option, none, some, List, [], ◌∷◌, ◌++◌, ◌≡◌, ◌≢◌, refl, arith,
  contains, ◌==◌, string_eq, if◌then◌else◌, text_ne,
}
use dbwarden_harness.Base.Dict.{lookup-insert, lookup-erase}
use dbwarden_harness.Disk.{FilePath, file_path_eq, Event, ran, Disk, Programs, write, read, launch}
use dbwarden_harness.Cli.{run_command}
use dbwarden_harness.Tracks.{models_path}
use dbwarden_harness.RoundTrip.{
  is_init, app_file, gen_file, text_of, unlink, copy_models, adopt, invoke, run, new_project,
  remove_tree, prepared,
}

append_injective : (xs ys zs : FilePath) → (xs ++ ys ≡ xs ++ zs) → ys ≡ zs
append_injective [] ys zs h = h
append_injective (x ∷ xs) ys zs h = ground (arith, append_injective xs ys zs)

app_file_injective : (root : FilePath) (m n : String) → app_file root m ≡ app_file root n → m ≡ n
app_file_injective root m n h =
    ground (arith, append_injective root ("app" ∷ m ∷ []) ("app" ∷ n ∷ []) h)

app_file_gen : (root : FilePath) (m n : String) → app_file root m ≢ gen_file root n
app_file_gen root m n h =
    ground
      (arith, append_injective root ("app" ∷ m ∷ []) ("gen" ∷ n ∷ []) h, text_ne "app" "gen" refl)

read-write :
    (path other : FilePath) (content : String) (d : Disk)
    → read path (write other content d) ≡ (if path == other then some content else read path d)
unfolding read write
read-write path other content d = lookup-insert path other content d.files

app_file_eq : (root : FilePath) (m n : String) → (app_file root m == app_file root n) ≡ (m == n)
app_file_eq root m n = ground (arith, app_file_injective root m n)

app_file_ne_gen : (root : FilePath) (m n : String) → (gen_file root n == app_file root m) ≡ false
app_file_ne_gen root m n = ground (arith, app_file_gen root m n)

text_of-copied :
    (root : FilePath) (m n content : String) (d : Disk)
    → text_of (gen_file root n) (write (app_file root m) content d) ≡ text_of (gen_file root n) d
text_of-copied root m n content d =
    ground
      (arith, read-write (gen_file root n) (app_file root m) content d, app_file_ne_gen root m n)

-- What `copy_models` leaves at a name of the package.
copy_models-read :
    (root : FilePath) (names : List String) (n : String) (d : Disk)
    → read (app_file root n) (copy_models root names d) ≡ (
        if contains names n && not (is_init n)
        then some (text_of (gen_file root n) d)
        else read (app_file root n) d)
unfolding copy_models
copy_models-read root [] n d = refl
copy_models-read root (m ∷ names) n d =
    let copied = write (app_file root m) (text_of (gen_file root m) d) d in
    ground (
      arith,
      copy_models-read root names n (if is_init m then d else copied),
      read-write (app_file root n) (app_file root m) (text_of (gen_file root m) d) d,
      app_file_eq root n m,
      text_of-copied root m n (text_of (gen_file root m) d) d,
    )

-- After the adoption every generated model but the package's own file is in the package with its
-- text, the written models are gone unless a model of that name was generated, and the rest of the
-- package is as it was.
pub adopt-read :
    (root : FilePath) (names : List String) (n : String) (d : Disk)
    → read (app_file root n) (adopt root names d) ≡ (
        if contains names n && not (is_init n)
        then some (text_of (gen_file root n) d)
        else if n == "models.py"
        then none
        else read (app_file root n) d)
unfolding adopt unlink read
adopt-read root names n d = ground (
  arith,
  copy_models-read root names n (unlink (models_path root) d),
  lookup-erase (app_file root n) (models_path root) d.files,
  lookup-erase (gen_file root n) (models_path root) d.files,
  app_file_eq root n "models.py",
  app_file_ne_gen root "models.py" n,
)

-- The commands of a log, the newest first.
abbrev pub commands : List Event → List (List String)
commands [] = []
commands (ran args ∷ log) = args ∷ commands log
commands (_ ∷ log) = commands log

copy_models-commands :
    (root : FilePath) (names : List String) (d : Disk)
    → commands (copy_models root names d).log ≡ commands d.log
unfolding copy_models write
copy_models-commands root [] d = refl
copy_models-commands root (m ∷ names) d = ground (
  arith,
  copy_models-commands root names
      (if is_init m then d else write (app_file root m) (text_of (gen_file root m) d) d),
)

adopt-commands :
    (root : FilePath) (names : List String) (d : Disk)
    → commands (adopt root names d).log ≡ commands d.log
unfolding adopt unlink
adopt-commands root names d = copy_models-commands root names (unlink (models_path root) d)

write-commands :
    (path : FilePath) (content : String) (d : Disk)
    → commands (write path content d).log ≡ commands d.log
unfolding write
write-commands path content d = refl

module _ (programs : Programs) (repr : String → String) where
  invoke-commands :
      (args : List String) (d : Disk)
      → commands (invoke programs repr args d).1.log ≡ ("dbwarden" ∷ args) ∷ commands d.log
  unfolding invoke run_command launch
  invoke-commands args d = refl

  new_project-commands :
      (root : FilePath) (d : Disk)
      → commands (new_project programs repr root d).log ≡ commands d.log
  unfolding new_project remove_tree write
  new_project-commands root d = refl

  ruleset steps = (adopt-commands, write-commands, invoke-commands, new_project-commands)

  -- A run without a database to prepare gives dbwarden its six commands in order, whatever they
  -- answer, and no other.
  pub run-commands :
      (root : FilePath) (backend shape_id url : String) (database : Option String)
      (model_source : String) (d : Disk)
      → commands (run programs repr root backend none shape_id url database model_source d).1.log
        ≡ ("dbwarden" ∷ "make-migrations" ∷ "adopt" ∷ [])
          ∷ ("dbwarden" ∷ "diff" ∷ "--out" ∷ "json" ∷ [])
          ∷ ("dbwarden" ∷ "generate-models" ∷ "--output" ∷ "gen" ∷ [])
          ∷ ("dbwarden" ∷ "migrate" ∷ [])
          ∷ ("dbwarden" ∷ "make-migrations" ∷ "declare" ∷ [])
          ∷ ("dbwarden" ∷ "init" ∷ [])
          ∷ commands d.log
  unfolding run prepared
  run-commands root backend shape_id url database model_source d = simp steps
