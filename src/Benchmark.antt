-- ===== src/Benchmark.antt =====
-- tools/convergence_benchmark.py and tools/performance_baseline.py: a long history of migrations, its
-- times, and their limits. Times are whole milliseconds, and the executable is the default one. An
-- assertion's message is without its numbers.
use Prim.Native.Nat.{◌/◌, ◌%◌}
use Prim.Native.String.{char_at}
use dbwarden_harness.Base.{
  ℕ, zero, suc, ◌+◌, ◌-◌, ◌*◌, String, ◌<>◌, Bool, true, false, Option, none, List, [], ◌∷◌, ◌++◌,
  ◌==◌, nat_eq, string_eq, if◌then◌else◌, ltb, leb,
}
use dbwarden_harness.Base.Json.{Json}
use dbwarden_harness.Base.Text.{join}
use dbwarden_harness.Base.Result.{Result, ok, err, value_error, assertion_error, ◌>>◌, guard}
use dbwarden_harness.Disk.{FilePath, Disk, Programs, write}
use dbwarden_harness.Cli
use dbwarden_harness.Tracks.{app_init, models_path}
use dbwarden_harness.MigrationPlayer
use dbwarden_harness.MigrationPlayer.{Player}

pub record BenchmarkResult : Type 0 where
  pub migration_count : ℕ
  pub prepare_time : ℕ
  pub migrate_time : ℕ
  pub diff_time : ℕ
  pub total_time : ℕ

abbrev digit : ℕ → String
digit n = String.◌∷◌ (char_at "0123456789" n) ""

-- The decimal digits. The fuel bounds their number.
digits : ℕ → ℕ → String
digits zero n = ""
digits (suc fuel) n =
    let front = digits fuel (n / 10) in if ltb n 10 then digit n else front <> digit (n % 10)

-- `f"{n:04d}"`: a number of n digits needs fuel n, and n is more than enough.
pub id : ℕ → String
unfolding digits
id n =
    (if ltb n 10 then "000" else if ltb n 100 then "00" else if ltb n 1000 then "0" else "")
    <> digits (suc n) n

table_lines : ℕ → List String
table_lines index =
    ("class Table" <> id index <> "(Base):")
    ∷ ("    __tablename__ = \"table_" <> id index <> "\"")
    ∷ "    id = Column(Integer, primary_key=True)"
    ∷ "    class Meta(TableMeta):"
    ∷ ("        comment = \"Benchmark table " <> id index <> "\"")
    ∷ ""
    ∷ []

-- The tables from `first` on, `count` of them.
tables : ℕ → ℕ → List String
unfolding table_lines
tables first zero = []
tables first (suc count) = table_lines first ++ tables (suc first) count

pub model_source : ℕ → String
unfolding tables
model_source count = join "\n" (
    "from sqlalchemy import Column, Integer"
    ∷ "from sqlalchemy.orm import declarative_base"
    ∷ "from dbwarden.databases import TableMeta"
    ∷ ""
    ∷ "Base = declarative_base()"
    ∷ ""
    ∷ tables 1 count)

abbrev pub migration_path : FilePath → ℕ → FilePath
migration_path root index =
    root
    ++ ("migrations"
        ∷ "primary"
        ∷ ("primary__" <> id index <> "_create_table_" <> id index <> ".sql")
        ∷ [])

abbrev pub migration_text : ℕ → String
migration_text index =
    "-- upgrade\nCREATE TABLE table_"
    <> id index
    <> " (id INTEGER PRIMARY KEY);\n-- rollback\nDROP TABLE table_"
    <> id index
    <> ";\n"

-- The migrations from `first` on, `count` of them.
pub write_history : FilePath → ℕ → ℕ → Disk → Disk
write_history root first zero d = d
write_history root first (suc count) d =
    write_history root (suc first) count
      (write (migration_path root first) (migration_text first) d)

pub create_history : FilePath → ℕ → Disk → Disk
create_history root count d = write_history root 1 count d

-- `now` is the clock after what happened so far, `defer` the switch of the environment, and the
-- other parameters are those of MigrationPlayer.
module _ (programs : Programs) (loads : String → Option Json) (repr : String → String)
    (repr_list : List String → String) (versions : String → List String) (now : Disk → ℕ)
    (defer : Bool) where
  player : FilePath → Player
  player root = record {
    database_url = "sqlite:///" <> join "/" (root ++ ("app.db" ∷ []));
    root = root;
  }

  -- The project with its history. The error of `init` ends it.
  pub prepare : Player → List (Option String × Bool) → ℕ → Disk → Result (Unit {0}) × Disk
  prepare p distributions count d =
      let (init, d₁) =
        MigrationPlayer.init programs loads repr repr_list versions distributions d in
      let d₂ = write (app_init p.root) "" d₁ in
      let d₃ = write (models_path p.root) (model_source count) d₂ in
      let d₄ =
        MigrationPlayer.configure programs loads repr repr_list versions p
          (record {
            database_name = "primary";
            database_type = none;
            model_paths = "app" ∷ [];
            dev_database_type = none;
            dev_database_url = none;
            extra = [];
          })
          d₃ in
      elim init [ err e ↦ (err e, d₁) | ok _ ↦ (ok tt, create_history p.root count d₄) ]

  pub run_convergence_benchmark :
      FilePath → List (Option String × Bool) → ℕ → Disk → Result BenchmarkResult × Disk
  unfolding prepare player
  run_convergence_benchmark root distributions zero d =
      (err (value_error "migration_count must be positive"), d)
  run_convergence_benchmark root distributions (suc n) d =
      let started = now d in
      let p = player root in
      let (ready, d₁) = prepare p distributions (suc n) d in
      let flags = if defer then "--defer-snapshots" ∷ [] else [] in
      let (migrate, d₂) = Cli.run programs "dbwarden" ("migrate" ∷ flags) true false d₁ in
      let (diff, d₃) = Cli.run programs "dbwarden" ("diff" ∷ []) true false d₂ in
      elim ready [
        | err e ↦ (err e, d₁)
        | ok _ ↦ elim migrate [
          | err e ↦ (err e, d₂)
          | ok _ ↦ elim diff [
            | err e ↦ (err e, d₃)
            | ok _ ↦ (
              ok (record {
                migration_count = suc n;
                prepare_time = now d₁ - started;
                migrate_time = now d₂ - now d₁;
                diff_time = now d₃ - now d₂;
                total_time = now d₃ - started;
              }),
              d₃,
            )
          ]
        ]
      ]

-- `PerformanceBaseline.assert_within`, with the tolerance in hundredths.
pub within : ℕ → String → ℕ → ℕ → Result (Unit {0})
within tolerance name actual expected =
    guard (leb (actual * 100) (expected * (100 + tolerance)))
      (assertion_error ("Performance regression in " <> name))

pub assert_within : BenchmarkResult → BenchmarkResult → ℕ → Result (Unit {0})
unfolding within
assert_within baseline r tolerance = do
  guard (r.migration_count == baseline.migration_count) (assertion_error "Benchmark count changed")
  within tolerance "prepare_seconds" r.prepare_time baseline.prepare_time
  within tolerance "migrate_seconds" r.migrate_time baseline.migrate_time
  within tolerance "diff_seconds" r.diff_time baseline.diff_time
  within tolerance "total_seconds" r.total_time baseline.total_time
