-- ===== src/Providers/Sqlite.antt =====
-- infrastructure/providers/sqlite.py: the provider that is a file.
use dbwarden_harness.Base.{String, ◌<>◌, Bool, true, false, Option, none, some, if◌then◌else◌}
use dbwarden_harness.Base.Result.{Result, ok, err, runtime_error}
use dbwarden_harness.World.{Environment, World, call, unlinked}

-- `directory` is `_directory`, and `owns_directory` is `_owns_directory`.
pub record SqliteProvider : Type 0 where
  pub path : Option String
  pub owns_directory : Bool
  pub directory : Option String

pub sqlite_at : Option String → SqliteProvider
sqlite_at path = record {
  path = path;
  owns_directory = elim path [ none ↦ true | some _ ↦ false ];
  directory = none;
}

-- A provider without a path makes its own directory. `mkdir` of the parent changes nothing here.
pub prepare : Environment → SqliteProvider → World → SqliteProvider × World
prepare env p w = elim p.path [
  | some _ ↦ (p, w)
  | none ↦
      let home = env.temp_dir w.calls in
      (record p { directory = some home; path = some (home <> "/harness.db") }, (call env w).1)
]

pub url : SqliteProvider → Result String
url p = elim p.path [
  | none ↦ err (runtime_error "SQLiteProvider.start() must run before url()")
  | some path ↦ ok ("sqlite:///" <> path)
]

pub dispose : SqliteProvider → SqliteProvider
dispose p = elim p.directory [
  | none ↦ p
  | some _ ↦ if p.owns_directory then record p { directory = none; path = none } else p
]

pub forget : SqliteProvider → World → World
forget p w = elim p.path [ none ↦ w | some path ↦ unlinked path w ]

-- `stop` removes the directory that the provider made, with the database in it.
pub stop : SqliteProvider → World → SqliteProvider × World
unfolding dispose forget
stop p w = elim p.directory [
  | none ↦ (dispose p, w)
  | some _ ↦ (dispose p, if p.owns_directory then forget p w else w)
]
