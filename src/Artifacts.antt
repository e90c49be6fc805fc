-- ===== src/Artifacts.antt =====
-- tools/artifacts.py: what is kept of a command that failed. A directory exists where it holds a
-- file, and a file is a tree of its own.
pub mod Copied
mod Tests
use dbwarden_harness.Base.{
  ℕ, String, ◌<>◌, Bool, true, false, not, ◌&&◌, ◌||◌, Option, none, some, List, [], ◌∷◌, ◌++◌, map,
  ◌==◌, string_eq, if◌then◌else◌, contains, select, any,
}
use dbwarden_harness.Base.Dict
use dbwarden_harness.Base.Dict.{Dict}
use dbwarden_harness.Base.Json.{
  Json, text, number, array, object, Items, nil, cons, Fields, end, field,
}
use dbwarden_harness.Base.Text.{join, starts_with}
use dbwarden_harness.Disk.{FilePath, file_path_eq, CommandResult, Disk, write}

pub record ArtifactBundle : Type 0 where
  pub directory : FilePath
  pub stdout : FilePath
  pub stderr : FilePath
  pub metadata : FilePath
  pub copied_paths : List FilePath

-- `path.relative_to(dir)`, if `path` is `dir` or lies below it.
pub relative_to : FilePath → FilePath → Option FilePath
relative_to [] path = some path
relative_to (d ∷ dir) [] = none
relative_to (d ∷ dir) (p ∷ path) = let rest = relative_to dir path in if d == p then rest else none

is_below : FilePath → FilePath → Bool
unfolding relative_to
is_below dir path = elim (relative_to dir path) [ none ↦ false | some _ ↦ true ]

pub exists : Dict FilePath String → FilePath → Bool
unfolding is_below
exists files path = any (λ f. is_below path f.0) files

-- `path.name`
last_part : FilePath → FilePath
last_part [] = []
last_part (part ∷ []) = part ∷ []
last_part (part ∷ next ∷ rest) = last_part (next ∷ rest)

pub relative : FilePath → FilePath → FilePath
unfolding last_part
relative work_dir source = elim (relative_to work_dir source) [
  | none ↦ last_part source
  | some path ↦ path
]

-- `copytree` and `copy2`: the files that stand at or below `source`, written below `target`.
pub copy_files : FilePath → FilePath → Dict FilePath String → Disk → Disk
unfolding relative_to
copy_files source target [] d = d
copy_files source target ((path, content) ∷ files) d =
    let done = copy_files source target files d in
    elim (relative_to source path) [ none ↦ done | some rest ↦ write (target ++ rest) content done ]

pub copy_sources : FilePath → FilePath → List FilePath → Disk → List FilePath × Disk
unfolding exists copy_files relative
copy_sources work_dir destination [] d = ([], d)
copy_sources work_dir destination (source ∷ sources) d =
    let target = destination ++ relative work_dir source in
    let there = exists d.files source in
    let (paths, d') =
      copy_sources work_dir destination sources
        (if there then copy_files source target d.files d else d) in
    (if there then target ∷ paths else paths, d')

-- The default directories that exist and are not named already.
pub add_defaults : Dict FilePath String → List FilePath → List FilePath → List FilePath
unfolding exists
add_defaults files sources [] = sources
add_defaults files sources (path ∷ paths) =
    add_defaults files
      (if exists files path && not (contains sources path) then sources ++ (path ∷ []) else sources)
      paths

texts : List String → Items
texts [] = nil
texts (s ∷ ss) = cons (text s) (texts ss)

text_fields : Dict String String → Fields
text_fields [] = end
text_fields ((key, value) ∷ rest) = field key (text value) (text_fields rest)

-- `dumps` writes JSON, `runtime` tells of Python and the platform, `environ` is the environment in the
-- order of its names, and `provenance` what `collect_provenance` answers.
module _ (dumps : Json → String) (runtime : Fields) (environ : Dict String String)
    (provenance : Json) where
  metadata : CommandResult → FilePath → List FilePath → Fields → Disk → Json
  unfolding exists texts text_fields
  metadata result work_dir sources extra d = object (
      field "args" (array (texts result.args)) (
        field "returncode" (number result.returncode) (
          field "work_dir" (text (join "/" work_dir)) (
            field "captured_paths"
              (array (texts (map (join "/") (select (exists d.files) sources))))
              (field "runtime" (object runtime) (
                field "harness_environment"
                  (object (text_fields (select (λ v. starts_with v.0 "DBWARDEN_HARNESS_") environ)))
                  (field "extra" (object extra) end)))))))

  pub capture :
      CommandResult → FilePath → FilePath → List FilePath → Fields → Disk → ArtifactBundle × Disk
  unfolding copy_sources add_defaults metadata
  capture result work_dir destination extra_paths extra_metadata d =
      let stdout = destination ++ ("stdout.txt" ∷ []) in
      let stderr = destination ++ ("stderr.txt" ∷ []) in
      let command = destination ++ ("command.json" ∷ []) in
      let d₁ = write stderr result.stderr (write stdout result.stdout d) in
      let sources =
        add_defaults d₁.files extra_paths
          ((work_dir ++ ("migrations" ∷ [])) ∷ (work_dir ++ (".dbwarden" ∷ [])) ∷ []) in
      let about = dumps (metadata result work_dir sources extra_metadata d₁) <> "\n" in
      let d₂ = write command about d₁ in
      let d₃ = write (destination ++ ("provenance.json" ∷ [])) (dumps provenance <> "\n") d₂ in
      let (copied, d₄) = copy_sources work_dir destination sources d₃ in
      (
        record {
          directory = destination;
          stdout = stdout;
          stderr = stderr;
          metadata = command;
          copied_paths = copied;
        },
        d₄,
      )

  -- A provider without diagnostics or logs has an empty dict or text; the diagnostics stand in the
  -- order of their keys.
  pub capture_provider : Fields → String → FilePath → Disk → (FilePath × FilePath) × Disk
  capture_provider diagnostics logs destination d =
      let at = destination ++ ("provider.json" ∷ []) in
      let log = destination ++ ("provider.log" ∷ []) in
      ((at, log), write log logs (write at (dumps (object diagnostics) <> "\n") d))
