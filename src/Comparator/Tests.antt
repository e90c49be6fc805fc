-- ===== src/Comparator/Tests.antt =====
-- Witnesses for the comparison: a table with a column that is expected, and one that is not.
use dbwarden_harness.Base.{
  String, true, false, none, some, List, Option, Bool, ◌<>◌, ◌==◌, if◌then◌else◌, [], ◌∷◌,
  string_eq, nat_eq, option_eq, Any, ◌≡◌, ◌≢◌, ◌↔◌, refl,
}
use dbwarden_harness.Base.Dict
use dbwarden_harness.Base.Dict.{Dict}
use mathlib.Core.Quot
use dbwarden_harness.Base.Order.{here}
use dbwarden_harness.Base.Result.{ok}
use dbwarden_harness.Comparator.Bags.{compare_schemas-Bag}
use dbwarden_harness.Comparator.{
  Statement, Sqlglot, empty_summary, compare_schemas, missing_columns, type_mismatches,
}
use dbwarden_harness.Comparator.Summary.{summary_blind}

abbrev actual : Dict String String
actual = ("id", "INT") ∷ []

abbrev expected : Dict String String
expected = ("id", "INT") ∷ ("age", "INT") ∷ []

summary_blind_example :
    (missing_columns "users" (Dict.insert "legacy" "TEXT" actual) expected
      ≡ missing_columns "users" actual expected)
    × (type_mismatches "users" (Dict.insert "legacy" "TEXT" actual) expected
        ≡ type_mismatches "users" actual expected)
unfolding Dict.lookup string_eq
summary_blind_example = summary_blind "users" "legacy" "TEXT" actual expected refl

abbrev create : String → Statement
create name = record {
  is_command = false;
  table = some name;
  creates = some name;
  items = [];
  source = "CREATE TABLE " <> name;
}

abbrev order : Bool → List (Option Statement)
order true = some (create "users") ∷ some (create "posts") ∷ []
order false = some (create "posts") ∷ some (create "users") ∷ []

abbrev two_tables : Sqlglot
two_tables = record {
  parse = λ dialect dump. ok (order (dump == "users first"));
  sql = λ dialect s. ok s.source;
  primary_key = λ dialect name. "PRIMARY KEY (" <> name <> ")";
}

compare_schemas-Bag_example :
    compare_schemas two_tables (λ s. s) (λ a b. "") "users first" "posts first" "sqlite"
    ≡ ok (record { identical = true; diff = ""; summary = empty_summary })
unfolding dbwarden_harness.Comparator.Bags.statements dbwarden_harness.Comparator.normal_statements
    string_eq dbwarden_harness.Comparator.is_dbwarden_table dbwarden_harness.Base.Text.starts_with
    dbwarden_harness.Base.Text.lower dbwarden_harness.Comparator.canonical_items
    dbwarden_harness.Comparator.split_items
compare_schemas-Bag_example =
    compare_schemas-Bag two_tables (λ s. s) (λ a b. "") "users first" "posts first" "sqlite"
      ("CREATE TABLE users" ∷ "CREATE TABLE posts" ∷ [])
      ("CREATE TABLE posts" ∷ "CREATE TABLE users" ∷ []) refl refl
      (Quot.sound (here "CREATE TABLE users" "CREATE TABLE posts" []))
