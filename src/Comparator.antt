-- ===== src/Comparator.antt =====
-- mcp_server/comparator.py: two schema dumps, normalised and compared.
pub mod Summary
pub mod Bags
mod Tests
use dbwarden_harness.Base.{
  String, ◌<>◌, Bool, true, false, not, ◌&&◌, ◌||◌, Option, none, some, List, [], ◌∷◌, ◌++◌, map,
  ◌==◌, string_eq, if◌then◌else◌, contains, any, select, is_empty,
}
use dbwarden_harness.Base.Dict
use dbwarden_harness.Base.Dict.{Dict}
use dbwarden_harness.Base.Text.{lower, starts_with, join, sorted}
use dbwarden_harness.Base.Result.{Result, ok, err, external_error, ◌>>=◌, ◌>>◌, guard}

-- What the harness reads of a statement that sqlglot has parsed. Comments are no part of it.
pub record Constraint : Type 0 where
  pub bare_primary_key : Bool
  pub autoincrement : Bool
  pub sql : String

-- `spelling` is the word after the column's name in the dump's text, if there is one.
pub record ColumnDef : Type 0 where
  pub name : String
  pub kind : String
  pub spelling : Option String
  pub constraints : List Constraint

pub data Item : Type 0 where
  column : ColumnDef → Item
  constraint : String → Item

-- `table` is the name of the table that the statement or its index is about, and `creates` tells
-- `CREATE TABLE name (items)`, with the name as SQL.
pub record Statement : Type 0 where
  pub is_command : Bool
  pub table : Option String
  pub creates : Option String
  pub items : List Item
  pub source : String

-- sqlglot: `parse` has nothing for an empty statement; `sql` writes a statement with normalised and
-- quoted identifiers, `primary_key` a key of one column.
pub record Sqlglot : Type 0 where
  pub parse : Option String → String → Result (List (Option Statement))
  pub sql : Option String → Statement → Result String
  pub primary_key : Option String → String → String

pub record Mismatch : Type 0 where
  pub table : String
  pub column : String
  pub expected : String
  pub actual : String

pub record ComparisonSummary : Type 0 where
  pub missing_columns : List (String × String)
  pub type_mismatches : List Mismatch
  pub missing_tables : List String
  pub extra_tables : List String

pub record ComparisonResult : Type 0 where
  pub identical : Bool
  pub diff : String
  pub summary : ComparisonSummary

abbrev pub empty_summary : ComparisonSummary
empty_summary = record {
  missing_columns = [];
  type_mismatches = [];
  missing_tables = [];
  extra_tables = [];
}

pub dialect : String → Option String
dialect backend =
    if backend == "postgresql"
    then some "postgres"
    else if backend == "mariadb"
    then some "mysql"
    else if backend == ""
    then none
    else some backend

-- `^(?:_?dbwarden[_-]|dbwarden_)`, in any case.
unfoldable pub is_dbwarden_table : String → Bool
is_dbwarden_table name =
    any (starts_with (lower name)) ("_dbwarden_" ∷ "_dbwarden-" ∷ "dbwarden_" ∷ "dbwarden-" ∷ [])

-- The type of a SQLite column keeps the spelling of the dump.
pub spelled : (String → String) → String → ColumnDef → Result ColumnDef
spelled upper backend c =
    if backend == "sqlite" && starts_with c.kind "INTEGER"
    then elim c.spelling [
      | none ↦ err (external_error "Cannot preserve SQLite integer type spelling")
      | some word ↦ ok (record c { kind = upper word })
    ]
    else ok c

-- The constraints of a column that become keys of the table, and those that stay.
pub lift_keys : Bool → List Constraint → List Constraint × List Constraint
lift_keys auto [] = ([], [])
lift_keys auto (k ∷ ks) =
    let (keys, rest) = lift_keys auto ks in
    if k.bare_primary_key && not auto then (k ∷ keys, rest) else (keys, k ∷ rest)

module _ (sqlglot : Sqlglot) (upper : String → String) where
  -- The columns of a table in their order, and its constraints.
  pub split_items : String → List Item → Result (List Item × List String)
  unfolding spelled lift_keys
  split_items backend [] = ok ([], [])
  split_items backend (constraint sql ∷ is) = do
    (columns, constraints) ← split_items backend is
    ok (columns, sql ∷ constraints)
  split_items backend (column c ∷ is) = do
    kept ← spelled upper backend c
    (columns, constraints) ← split_items backend is
    let auto = any (λ k. k.autoincrement) c.constraints
    let (keys, rest) = lift_keys auto c.constraints
    ok (
      column (record kept { constraints = rest }) ∷ columns,
      map (λ _. sqlglot.primary_key (dialect backend) c.name) keys ++ constraints,
    )

  unfoldable pub canonical_items : String → Statement → Result Statement
  canonical_items backend s = elim s.creates [
    | none ↦ ok s
    | some _ ↦ do
      (columns, constraints) ← split_items backend s.items
      ok (record s { items = columns ++ map constraint (sorted constraints) })
  ]

  abbrev is_internal : Statement → Bool
  is_internal s = elim s.table [ none ↦ false | some name ↦ is_dbwarden_table name ]

  -- The statements as SQL, without the tables of dbwarden.
  unfoldable pub normal_statements : String → List (Option Statement) → Result (List String)
  normal_statements backend [] = ok []
  normal_statements backend (none ∷ ss) = normal_statements backend ss
  normal_statements backend (some s ∷ ss) = do
    guard (not s.is_command) (external_error "Unsupported schema statement")
    elim (is_internal s) [
      | true ↦ normal_statements backend ss
      | false ↦ do
        canonical ← canonical_items backend s
        sql ← sqlglot.sql (dialect backend) canonical
        sqls ← normal_statements backend ss
        ok (sql ∷ sqls)
    ]

  unfoldable pub normalize_schema_dump : String → String → Result String
  unfolding sorted
  normalize_schema_dump dump backend = do
    statements ← sqlglot.parse (dialect backend) dump
    sqls ← normal_statements backend statements
    ok (join ";\n" (sorted sqls) <> (if is_empty sqls then "" else ";\n"))

  -- A later column or table of the same name wins.
  columns_of : Dict String String → List Item → Dict String String
  columns_of seen [] = seen
  columns_of seen (constraint _ ∷ is) = columns_of seen is
  columns_of seen (column c ∷ is) = columns_of (Dict.insert c.name c.kind seen) is

  tables_of :
      Dict String (Dict String String) → List (Option Statement) → Dict String (Dict String String)
  unfolding columns_of
  tables_of seen [] = seen
  tables_of seen (none ∷ ss) = tables_of seen ss
  tables_of seen (some s ∷ ss) = elim s.creates [
    | none ↦ tables_of seen ss
    | some name ↦ tables_of (Dict.insert name (columns_of [] s.items) seen) ss
  ]

  pub parse_schema : String → String → Result (Dict String (Dict String String))
  unfolding tables_of
  parse_schema dump backend = do
    statements ← sqlglot.parse (dialect backend) dump
    ok (tables_of [] statements)

-- The columns of `expected` that a table of `actual` has not, or has with another type.
pub missing_columns : String → Dict String String → Dict String String → List (String × String)
missing_columns table actual [] = []
missing_columns table actual ((c, type) ∷ expected) =
    let rest = missing_columns table actual expected in
    elim (Dict.lookup c actual) [ none ↦ (table, c) ∷ rest | some _ ↦ rest ]

pub type_mismatches : String → Dict String String → Dict String String → List Mismatch
type_mismatches table actual [] = []
type_mismatches table actual ((c, type) ∷ expected) =
    let rest = type_mismatches table actual expected in
    elim (Dict.lookup c actual) [
      | none ↦ rest
      | some found ↦
          if found == type
          then rest
          else record { table = table; column = c; expected = type; actual = found } ∷ rest
    ]

abbrev pub Schema : Type 0
Schema = Dict String (Dict String String)

-- `sorted(wanted.keys() - there.keys())`
pub absent : Schema → Schema → List String
unfolding sorted
absent wanted there = sorted (select (λ t. not (contains (Dict.keys there) t)) (Dict.keys wanted))

-- `sorted(actual.keys() & expected.keys())`
pub shared : Schema → Schema → List String
unfolding sorted
shared actual expected = sorted (select (contains (Dict.keys expected)) (Dict.keys actual))

-- The items of all shared tables, `find` taking the columns of both sides.
pub gather {ℓ} :
    {A : Type ℓ}
    → (String → Dict String String → Dict String String → List A)
    → Schema
    → Schema
    → List String
    → List A
gather find actual expected [] = []
gather find actual expected (t ∷ ts) =
    find t (Dict.get t [] actual) (Dict.get t [] expected) ++ gather find actual expected ts

pub summarize : Schema → Schema → ComparisonSummary
unfolding absent shared gather missing_columns type_mismatches
summarize actual expected = record {
  missing_columns = gather missing_columns actual expected (shared actual expected);
  type_mismatches = gather type_mismatches actual expected (shared actual expected);
  missing_tables = absent expected actual;
  extra_tables = absent actual expected;
}

-- `unified` is difflib's `unified_diff` of the two texts' lines, joined.
module _ (sqlglot : Sqlglot) (upper : String → String) (unified : String → String → String) where
  unfoldable pub compare_schemas : String → String → String → Result ComparisonResult
  unfolding summarize
  compare_schemas dump_a dump_b backend = do
    norm_a ← normalize_schema_dump sqlglot upper dump_a backend
    norm_b ← normalize_schema_dump sqlglot upper dump_b backend
    elim (norm_a == norm_b) [
      | true ↦ ok (record { identical = true; diff = ""; summary = empty_summary })
      | false ↦ do
        actual ← parse_schema sqlglot upper norm_a backend
        expected ← parse_schema sqlglot upper norm_b backend
        ok (record {
          identical = false;
          diff = unified norm_a norm_b;
          summary = summarize actual expected;
        })
    ]
