-- ===== src/RoundTrip.antt =====
-- tools/round_trip_driver.py: from models to a database, back to generated models, and what is left
-- to migrate then.
pub mod Adoption
pub mod Report
mod Tests
use Prim.Native.Char.{code}
use dbwarden_harness.Base.{
  ℕ, zero, suc, ◌-◌, String, ◌<>◌, Bool, true, false, not, ◌&&◌, ◌||◌, Option, none, some, List, [],
  ◌∷◌, ◌++◌, map, ◌==◌, string_eq, nat_eq, if◌then◌else◌, contains, select, any, is_empty, leb,
}
use dbwarden_harness.Base.Dict
use dbwarden_harness.Base.Dict.{Dict}
use dbwarden_harness.Base.Json.{Json, Fields}
use dbwarden_harness.Base.Text.{ends_with, occurs, join, sorted}
use dbwarden_harness.Disk.{
  FilePath, file_path_eq, CommandResult, Disk, Programs, write, read, launch,
}
use dbwarden_harness.Cli.{run_command}
use dbwarden_harness.Cli.Ansi.{strip_ansi}
use dbwarden_harness.Tracks.{child_of, app_init, models_path, config_path}
use dbwarden_harness.CaseRunner.{parse_diff, migrations, slug_from, strip}

pub bookkeeping : List String
bookkeeping = "dbwarden_lock" ∷ "dbwarden_migrations" ∷ "_dbwarden_migrations" ∷ []

pub record RoundTripResult : Type 0 where
  pub shape_id : String
  pub work_dir : FilePath
  pub database : Option String
  pub make_returncode : ℕ
  pub migrate_returncode : ℕ
  pub generate_returncode : ℕ
  pub generate_output : String
  pub generated_files : List String
  pub generated_sources : Dict String String
  pub live_schema : String
  pub rediff_output : String
  pub remake_output : String
  pub remake_returncode : ℕ
  pub remake_sql : String

pub regenerated_migration : RoundTripResult → Bool
regenerated_migration r = occurs "Created migration file" r.remake_output

pub bookkeeping_models : RoundTripResult → List String
unfolding bookkeeping
bookkeeping_models r =
    select (λ name. any (λ marker. occurs marker name) bookkeeping) r.generated_files

pub setup_ok : RoundTripResult → Bool
setup_ok r =
    r.make_returncode == 0
    && r.migrate_returncode == 0
    && r.generate_returncode == 0
    && not (is_empty r.generated_files)

-- The characters at which `splitlines` splits.
abbrev is_break : ℕ → Bool
is_break c = (leb 10 c && leb c 13) || (leb 28 c && leb c 30) || c == 133 || c == 8232 || c == 8233

-- `\r\n` leaves an empty line, which the caller passes over.
pub split_lines : String → List String
split_lines String.[] = []
split_lines (String.◌∷◌ c s) =
    let rest = split_lines s in
    if is_break (code c)
    then "" ∷ rest
    else elim rest [ [] ↦ String.◌∷◌ c "" ∷ [] | line ∷ lines ↦ String.◌∷◌ c line ∷ lines ]

pub last_of : String → List String → String
last_of default [] = default
last_of default (x ∷ xs) = last_of x xs

-- The last line of an error that is not blank.
pub failure_text : String → String
unfolding split_lines last_of
failure_text stderr =
    last_of "import failed" (select (λ line. not (strip line == "")) (split_lines stderr))

-- `text[-count:]`
abbrev size : String → ℕ
size String.[] = 0
size (String.◌∷◌ c s) = suc (size s)

pub last_characters : ℕ → String → String
last_characters count String.[] = ""
last_characters count (String.◌∷◌ c s) =
    let rest = last_characters count s in if leb (suc (size s)) count then String.◌∷◌ c s else rest

pub import_script : String
import_script =
    "import importlib.util, sys\n"
    <> "spec = importlib.util.spec_from_file_location('generated', sys.argv[1])\n"
    <> "module = importlib.util.module_from_spec(spec)\n" <> "spec.loader.exec_module(module)\n"

abbrev pub is_init : String → Bool
is_init name = name == "__init__.py"

-- The names that `glob("*.py")` finds in a directory.
pub python_files : FilePath → Dict FilePath String → List String
python_files dir [] = []
python_files dir ((path, _) ∷ files) =
    let rest = python_files dir files in
    elim (child_of dir path) [
      | none ↦ rest
      | some name ↦ if ends_with name ".py" then name ∷ rest else rest
    ]

abbrev pub app_file : FilePath → String → FilePath
app_file root name = root ++ ("app" ∷ name ∷ [])

abbrev pub gen_file : FilePath → String → FilePath
gen_file root name = root ++ ("gen" ∷ name ∷ [])

abbrev pub text_of : FilePath → Disk → String
text_of path d = elim (read path d) [ none ↦ "" | some text ↦ text ]

pub sources_of : FilePath → Disk → List String → Dict String String
sources_of root d [] = []
sources_of root d (name ∷ names) =
    Dict.insert name (text_of (gen_file root name) d) (sources_of root d names)

pub unlink : FilePath → Disk → Disk
unlink path d = record d { files = Dict.erase path d.files }

-- The copies of the generated models, one by one.
pub copy_models : FilePath → List String → Disk → Disk
copy_models root [] d = d
copy_models root (name ∷ names) d =
    copy_models root names
      (if is_init name then d else write (app_file root name) (text_of (gen_file root name) d) d)

-- The generated models take the place of the written ones.
pub adopt : FilePath → List String → Disk → Disk
adopt root names d = copy_models root names (unlink (models_path root) d)

-- `shutil.rmtree`
pub inside : FilePath → FilePath → Bool
inside [] path = true
inside (d ∷ dir) [] = false
inside (d ∷ dir) (p ∷ path) = let rest = inside dir path in d == p && rest

pub remove_tree : FilePath → Disk → Disk
unfolding inside
remove_tree dir d = record d { files = select (λ f. not (inside dir f.0)) d.files }

-- `show` writes a path, `loads` has nothing for a text that is no JSON, and the `repr` functions quote.
module _ (programs : Programs) (loads : String → Option Json) (python : String)
    (show : FilePath → String) where
  pub diff_is_clean : RoundTripResult → Bool
  diff_is_clean r = is_empty (parse_diff loads r.rediff_output)

  pub converged : RoundTripResult → Bool
  converged r =
      setup_ok r
      && diff_is_clean r
      && not (regenerated_migration r)
      && is_empty (bookkeeping_models r)

  -- The generated modules that Python cannot import, with the text of the failure.
  pub unimportable : FilePath → List String → Disk → Dict String String × Disk
  unimportable root [] d = ([], d)
  unimportable root (name ∷ names) d =
      let (probe, d') =
        launch programs (python ∷ "-c" ∷ import_script ∷ show (gen_file root name) ∷ []) d in
      let (broken, d₁) = unimportable root names (if is_init name then d else d') in
      (
        if is_init name || probe.returncode == 0
            then broken
            else (name, failure_text probe.stderr) ∷ broken,
        d₁,
      )

  module _ (str : ℕ → String) (repr_list : List String → String)
      (repr_operations : List Fields → String) (repr_dict : Dict String String → String) where
    abbrev flag : Bool → String → List String
    flag true text = text ∷ []
    flag false text = []

    -- The reasons against convergence that a report names.
    pub flags : RoundTripResult → Dict String String → List String
    flags r broken =
        flag (not (diff_is_clean r)) ("diff=" <> repr_operations (parse_diff loads r.rediff_output))
        ++ (flag (regenerated_migration r) "regenerated-migration"
            ++ (flag (not (is_empty (bookkeeping_models r)))
                  ("bookkeeping=" <> repr_list (bookkeeping_models r))
                ++ flag (not (is_empty broken)) ("unimportable=" <> repr_dict broken)))

    never_started : RoundTripResult → String
    never_started r =
        ": round trip never started (make="
        <> str r.make_returncode
        <> " migrate="
        <> str r.migrate_returncode
        <> " generate="
        <> str r.generate_returncode
        <> " files="
        <> repr_list r.generated_files
        <> ")\n"
        <> last_characters 600 r.generate_output

    -- Modules are imported only when the setup was fine.
    pub summary : RoundTripResult → Disk → String × Disk
    unfolding never_started
    summary r d =
        let (broken, d') = unimportable r.work_dir r.generated_files d in
        let found = flags r broken in
        if setup_ok r
        then (r.shape_id <> ": " <> (if is_empty found then "converged" else join "; " found), d')
        else (r.shape_id <> never_started r, d)

module _ (programs : Programs) (repr : String → String) where
  unfoldable pub invoke : List String → Disk → (ℕ × String) × Disk
  invoke args d =
      let (r, d') = run_command programs "dbwarden" args d in
      ((r.returncode, strip_ansi r.stdout <> strip_ansi r.stderr), d')

  pub config_text : String → String → String
  config_text backend url =
      "from dbwarden import database_config\n\n"
      <> "primary = database_config(\n"
      <> "    database_name='primary', default=True,\n"
      <> "    database_type="
      <> repr backend
      <> ",\n"
      <> "    database_url_sync="
      <> repr url
      <> ",\n"
      <> "    model_paths=['app'],\n)\n"

  -- `prepare_database` is the caller's, where there is one.
  pub prepared : Option (String → Disk → Disk) → Option String → Disk → Disk
  prepared (some prepare) (some name) d = if name == "" then d else prepare name d
  prepared _ _ d = d

  -- The new directory of a shape, with its empty package.
  pub new_project : FilePath → Disk → Disk
  new_project work_dir d = write (app_init work_dir) "" (remove_tree work_dir d)

  -- `url` and `database` are what `url_for` gives for the shape.
  pub run :
      FilePath
      → String
      → Option (String → Disk → Disk)
      → String
      → String
      → Option String
      → String
      → Disk
      → RoundTripResult × Disk
  unfolding config_text prepared
  run root backend prepare shape_id url database model_source d =
      let work_dir = root ++ (("rt__" <> slug_from false shape_id) ∷ []) in
      let d₁ = prepared prepare database (new_project work_dir d) in
      let (init, d₂) = invoke ("init" ∷ []) d₁ in
      let d₃ = write (config_path work_dir) (config_text backend url) d₂ in
      let d₄ = write (models_path work_dir) model_source d₃ in
      let ((make, _), d₅) = invoke ("make-migrations" ∷ "declare" ∷ []) d₄ in
      let ((migrate, _), d₆) = invoke ("migrate" ∷ []) d₅ in
      let ((generate, generated), d₇) = invoke ("generate-models" ∷ "--output" ∷ "gen" ∷ []) d₆ in
      let files = sorted (python_files (work_dir ++ ("gen" ∷ [])) d₇.files) in
      let d₈ = adopt work_dir files d₇ in
      let ((_, rediff), d₉) = invoke ("diff" ∷ "--out" ∷ "json" ∷ []) d₈ in
      let dir = work_dir ++ ("migrations" ∷ "primary" ∷ []) in
      let before = migrations dir d₉.files in
      let ((remake, remade), d₁₀) = invoke ("make-migrations" ∷ "adopt" ∷ []) d₉ in
      let new = select (λ f. not (contains before f)) (migrations dir d₁₀.files) in
      (
        record {
          shape_id = shape_id;
          work_dir = work_dir;
          database = database;
          make_returncode = make;
          migrate_returncode = migrate;
          generate_returncode = generate;
          generate_output = generated;
          generated_files = files;
          generated_sources = sources_of work_dir d₇ files;
          live_schema = "";
          rediff_output = rediff;
          remake_output = remade;
          remake_returncode = remake;
          remake_sql = join "\n\n" (map (λ f. text_of (dir ++ (f ∷ [])) d₁₀) (sorted new));
        },
        d₁₀,
      )
