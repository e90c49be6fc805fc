-- ===== src/DriftChecker/Capture.antt =====
-- `capture` in tools/drift_checker.py: a snapshot of a live database. The answers of SQLAlchemy's
-- inspector and of ClickHouse's system tables are parameters.
use Prim.Native.String.{compare}
use Prim.Native.Nat.{Ordering}
use dbwarden_harness.Base.{
  String, Bool, true, false, ◌||◌, Option, none, some, List, [], ◌∷◌, ◌++◌, map, ◌==◌, string_eq,
  if◌then◌else◌,
}
use dbwarden_harness.Base.Dict
use dbwarden_harness.Base.Dict.{Dict}
use dbwarden_harness.Base.Text.{sorted, starts_with}
use dbwarden_harness.Base.Result.{Result, ok, ◌>>=◌}
use dbwarden_harness.DriftChecker.{Detail, ForeignKey, SchemaSnapshot}

-- What `inspect(engine)` answers. A table without options of its own gives `none`.
pub record Inspector : Type 0 where
  pub table_names : List String
  pub view_names : List String
  pub columns : String → List Detail
  pub indexes : String → List (Option String)
  pub primary_key : String → List String
  pub foreign_keys : String → List ForeignKey
  pub unique_constraints : String → List (Option String)
  pub table_options : String → Option (List (String × String))

-- `(..., name)` for each constraint that has one.
pub named : List (Option String) → List String
named [] = []
named (none ∷ rest) = named rest
named (some name ∷ rest) = let later = named rest in if name == "" then later else name ∷ later

-- The order of texts, then of what follows.
abbrev earlier : String → String → Bool → Bool
earlier a b rest = elim (compare a b) [
  | Ordering.lt ↦ true
  | Ordering.eq ↦ rest
  | Ordering.gt ↦ false
]

insert_by : {A : Type 0} → (A → A → Bool) → A → List A → List A
insert_by before x [] = x ∷ []
insert_by before x (y ∷ ys) =
    let rest = insert_by before x ys in if before y x then y ∷ rest else x ∷ y ∷ ys

-- `sorted` of tuples.
pub sort_by : {A : Type 0} → (A → A → Bool) → List A → List A
unfolding insert_by
sort_by before [] = []
sort_by before (x ∷ xs) = insert_by before x (sort_by before xs)

pub foreign_key_before : ForeignKey → ForeignKey → Bool
foreign_key_before (a, b, c) (x, y, z) = earlier a x (earlier b y (earlier c z false))

pub option_before : String × String → String × String → Bool
option_before (a, b) (x, y) = earlier a x (earlier b y false)

-- `{table: f(table) for table in tables}`, into `d`.
unfoldable pub collect : {A : Type 0} → (String → A) → List String → Dict String A → Dict String A
collect f [] d = d
collect f (t ∷ ts) d = collect f ts (Dict.insert t (f t) d)

pub options_of : Option (List (String × String)) → List (String × String)
unfolding option_before sort_by
options_of none = []
options_of (some options) = sort_by option_before options

abbrev column_name : Detail → String
column_name d = d.0

unfoldable pub snapshot_of : Inspector → SchemaSnapshot
snapshot_of i =
    let tables = sorted i.table_names in
    record {
      tables = tables;
      columns = collect (λ t. map column_name (i.columns t)) tables [];
      column_details = collect i.columns tables [];
      indexes = collect (λ t. sorted (named (i.indexes t))) tables [];
      primary_keys = collect i.primary_key tables [];
      foreign_keys = collect (λ t. sort_by foreign_key_before (i.foreign_keys t)) tables [];
      unique_constraints = collect (λ t. sorted (named (i.unique_constraints t))) tables [];
      views = sorted i.view_names;
      table_options = collect (λ t. options_of (i.table_options t)) tables [];
    }

-- The rows of ClickHouse: the names of the tables, their options, and for each column its table, name,
-- type, kind of default and default.
pub record SystemTables : Type 0 where
  pub tables : List String
  pub table_rows : List (String × String × String × String × String)
  pub column_rows : List (String × String × String × String × String)

pub group :
    List (String × String × String × String × String)
    → Dict String (List Detail)
    → Dict String (List Detail)
group [] grouped = grouped
group ((table, name, type, kind, default) ∷ rows) grouped =
    let detail : Detail = (name, type, false, if kind == "" then none else some default) in
    group rows (Dict.insert table (Dict.get table [] grouped ++ (detail ∷ [])) grouped)

unfoldable pub option_rows :
    List (String × String × String × String × String)
    → Dict String (List (String × String))
    → Dict String (List (String × String))
option_rows [] d = d
option_rows ((table, engine, sorting, partition, primary) ∷ rows) d = option_rows rows (
    Dict.insert table
      (("engine", engine)
        ∷ ("sorting_key", sorting)
        ∷ ("partition_key", partition)
        ∷ ("primary_key", primary)
        ∷ [])
      d)

unfoldable pub clickhouse_snapshot : SystemTables → SchemaSnapshot
clickhouse_snapshot s =
    let grouped = group s.column_rows (collect (λ t. []) s.tables []) in
    record {
      tables = s.tables;
      columns = collect (λ t. map column_name (Dict.get t [] grouped)) s.tables [];
      indexes = collect (λ t. []) s.tables [];
      column_details = collect (λ t. Dict.get t [] grouped) s.tables [];
      primary_keys = collect (λ t. []) s.tables [];
      foreign_keys = collect (λ t. []) s.tables [];
      unique_constraints = collect (λ t. []) s.tables [];
      views = [];
      table_options = option_rows s.table_rows [];
    }

-- `inspect` and `query` reach the database, or raise.
module _ (inspect : String → Result Inspector) (query : String → Result SystemTables) where
  unfoldable pub capture : String → Result SchemaSnapshot
  capture url =
      if starts_with url "http://" || starts_with url "https://"
      then (do s ← query url; ok (clickhouse_snapshot s))
      else (do i ← inspect url; ok (snapshot_of i))
