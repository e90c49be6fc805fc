-- ===== src/DriftChecker/Tests.antt =====
-- A witness for the drift checker: two snapshots that differ in an index.
use dbwarden_harness.Base.{
  String, false, none, List, [], ◌∷◌, string_eq, nat_eq, option_eq, ◌≡◌, ◌↔◌, refl, arith,
}
use dbwarden_harness.Base.Dict
use dbwarden_harness.DriftChecker.{SchemaSnapshot, diff}
use dbwarden_harness.Base.Result.{Result, ok, err, runtime_error}
use dbwarden_harness.DriftChecker.Capture.{Inspector, SystemTables, capture, clickhouse_snapshot}
use dbwarden_harness.DriftChecker.WellFormed.{capture-diff}
use dbwarden_harness.DriftChecker.Completeness.{SameTable, IsWellFormed}

abbrev snapshot : List String → SchemaSnapshot
snapshot indexes = record {
  tables = "users" ∷ [];
  columns = ("users", "id" ∷ []) ∷ [];
  indexes = ("users", indexes) ∷ [];
  column_details = ("users", ("id", "INT", false, none) ∷ []) ∷ [];
  primary_keys = ("users", "id" ∷ []) ∷ [];
  foreign_keys = ("users", []) ∷ [];
  unique_constraints = ("users", []) ∷ [];
  views = [];
  table_options = ("users", []) ∷ [];
}

snapshot-IsWellFormed : (indexes : List String) → IsWellFormed (snapshot indexes)
unfolding Dict.lookup
snapshot-IsWellFormed indexes t h = elim (string_eq.dec t "users") [
  | yes e ↦ ground (arith, h, e)
  | no n ↦ ground (arith, h, n)
]

abbrev indexed : SchemaSnapshot
indexed = snapshot ("by_id" ∷ [])

abbrev plain : SchemaSnapshot
plain = snapshot []

-- ClickHouse with one table.
abbrev system_tables : SystemTables
system_tables = record {
  tables = "users" ∷ [];
  table_rows = ("users", "MergeTree", "id", "", "id") ∷ [];
  column_rows = ("users", "id", "UInt64", "", "") ∷ [];
}

abbrev no_inspector : String → Result Inspector
no_inspector url = err (runtime_error "no driver")

abbrev server : String → Result SystemTables
server url = ok system_tables

abbrev captured : SchemaSnapshot
captured = clickhouse_snapshot system_tables

capture-diff_example : (diff captured captured ≡ []) ↔ (
    (captured.tables ≡ captured.tables)
    × (captured.views ≡ captured.views)
    × ((t : String) → SameTable captured captured t))
unfolding capture dbwarden_harness.Base.Text.starts_with
capture-diff_example =
    capture-diff no_inspector server "http://a:8123" "https://b:8443" captured captured
      (λ url q e. ground arith) refl refl
