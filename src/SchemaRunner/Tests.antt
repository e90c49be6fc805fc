-- ===== src/SchemaRunner/Tests.antt =====
-- Witnesses for the schema runner: a reference schema with one table and one index.
use dbwarden_harness.Base.{false, none, some, [], ◌∷◌, ◌≡◌, ◌↔◌, string_eq}
use dbwarden_harness.Base.Result.{ok, err, runtime_error}
use dbwarden_harness.Samples.{programs, disk}
use dbwarden_harness.DriftChecker.Capture.{Inspector, snapshot_of}
use dbwarden_harness.SchemaRunner.{
  SchemaRunner, all_indexes, capture_schema, assert_expected_schema,
}
use dbwarden_harness.SchemaRunner.Expected.{AllFound, assert_expected_schema_iff}

abbrev inspector : Inspector
inspector = record {
  table_names = "users" ∷ [];
  view_names = [];
  columns = λ t. ("id", "INTEGER", false, none) ∷ [];
  indexes = λ t. some "ix_users" ∷ [];
  primary_key = λ t. "id" ∷ [];
  foreign_keys = λ t. [];
  unique_constraints = λ t. [];
  table_options = λ t. none;
}

abbrev runner : SchemaRunner
runner = record {
  schema = record {
    name = "users";
    models_py = "models" ∷ "users.py" ∷ [];
    expected_tables = "users" ∷ [];
    expected_indexes = "ix_users" ∷ [];
    backend = "sqlite";
  };
  player = record { database_url = "sqlite:///db"; root = "w" ∷ [] };
  database_type = "sqlite";
}

assert_expected_schema_iff_example :
    (assert_expected_schema programs
        (λ s. none)
        (λ s. s)
        (λ l. "[]")
        (λ s. [])
        (λ log url. ok inspector)
        (λ log url. err (runtime_error "no driver"))
        runner
        disk
      ≡ ok (snapshot_of inspector))
    ↔ ((capture_schema programs
            (λ s. none)
            (λ s. s)
            (λ l. "[]")
            (λ s. [])
            (λ log url. ok inspector)
            (λ log url. err (runtime_error "no driver"))
            runner
            disk
          ≡ ok (snapshot_of inspector))
        × AllFound (snapshot_of inspector).tables ("users" ∷ [])
        × AllFound (all_indexes (snapshot_of inspector).indexes) ("ix_users" ∷ []))
assert_expected_schema_iff_example =
    assert_expected_schema_iff programs (λ s. none) (λ s. s) (λ l. "[]") (λ s. [])
      (λ log url. ok inspector) (λ log url. err (runtime_error "no driver")) runner disk
      (snapshot_of inspector)
