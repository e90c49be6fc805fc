-- ===== src/Disk.antt =====
-- The files of a project and the programs that run in it. A program is outside the model: what it
-- answers and what it does to the files is a parameter, a function of all that happened before.
pub mod Files
use dbwarden_harness.Base.{ℕ, String, Option, List, ◌∷◌, Eq, string_eq, string_dec}
use dbwarden_harness.Base.Dict
use dbwarden_harness.Base.Dict.{Dict}

-- A path as its parts.
abbrev pub FilePath : Type 0
FilePath = List String

FilePath-discrete : Discrete (List String)
FilePath-discrete = hlevel string_dec

instance pub file_path_eq : Eq (List String)
file_path_eq = record { dec = FilePath-discrete }

-- What a program leaves: the exit status and the two streams. A status below zero, which a signal
-- gives, is some number other than 0.
pub record CommandResult : Type 0 where
  pub args : List String
  pub returncode : ℕ
  pub stdout : String
  pub stderr : String

pub data Event : Type 0 where
  wrote : FilePath → String → Event
  ran : List String → Event
  dumped : String → Event
  -- SQLAlchemy's `drop_all` and `create_all` on a database, and a statement of the harness itself.
  dropped created : String → Event
  executed : String → String → Event

-- The log has the newest event first.
pub record Disk : Type 0 where
  pub files : Dict FilePath String
  pub log : List Event

-- The programs: `execute` answers a command, given all events before it, and `change` is what the
-- command does to the files. `dump` is a native schema dump of a database, or the driver's error.
pub record Programs : Type 0 where
  pub execute : List Event → List String → CommandResult
  pub change : List Event → List String → Dict FilePath String → Dict FilePath String
  pub dump : List Event → String → String → Option String

-- `path.write_text(content)`
unfoldable pub write : FilePath → String → Disk → Disk
write path content d = record {
  files = Dict.insert path content d.files;
  log = wrote path content ∷ d.log;
}

-- `subprocess.run(command)` of a program that is found and ends within the time limit. What follows from
-- an exception of the call is outside, but for the cases of CaseRunner.Matrix.
unfoldable pub launch : Programs → List String → Disk → CommandResult × Disk
launch programs command d = (
  programs.execute d.log command,
  record { files = programs.change d.log command d.files; log = ran command ∷ d.log },
)

unfoldable pub read : FilePath → Disk → Option String
read path d = Dict.lookup path d.files
