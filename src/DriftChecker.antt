-- ===== src/DriftChecker.antt =====
-- tools/drift_checker.py: two snapshots of a schema, compared.
pub mod Completeness
pub mod Capture
pub mod WellFormed
mod Tests
use dbwarden_harness.Base.{
  String, ◌<>◌, Bool, true, false, not, Option, none, some, List, [], ◌∷◌, ◌++◌, map, ◌==◌, Eq,
  string_eq, string_dec, option_eq, if◌then◌else◌, contains, select,
}
use mathlib.Core.Bool.{Bool-discrete}
use dbwarden_harness.Base.Dict
use dbwarden_harness.Base.Dict.{Dict}
use dbwarden_harness.Base.Text.{join, sorted}
use dbwarden_harness.Base.Result.{Result, ok, err, assertion_error}

-- The name, the type, whether NULL is allowed, and the default of a column.
abbrev pub Detail : Type 0
Detail = String × String × Bool × Option String

abbrev pub ForeignKey : Type 0
ForeignKey = String × String × String

pub record SchemaSnapshot : Type 0 where
  pub tables : List String
  pub columns : Dict String (List String)
  pub indexes : Dict String (List String)
  pub column_details : Dict String (List Detail)
  pub primary_keys : Dict String (List String)
  pub foreign_keys : Dict String (List ForeignKey)
  pub unique_constraints : Dict String (List String)
  pub views : List String
  pub table_options : Dict String (List (String × String))

names_discrete : Discrete (List String)
names_discrete = hlevel string_dec

details_discrete : Discrete (List Detail)
details_discrete = hlevel (string_dec, Bool-discrete, (option_eq {A = String}).dec)

foreign_keys_discrete : Discrete (List ForeignKey)
foreign_keys_discrete = hlevel string_dec

options_discrete : Discrete (List (String × String))
options_discrete = hlevel string_dec

instance pub names_eq : Eq (List String)
names_eq = record { dec = names_discrete }

instance pub details_eq : Eq (List Detail)
details_eq = record { dec = details_discrete }

instance pub foreign_keys_eq : Eq (List ForeignKey)
foreign_keys_eq = record { dec = foreign_keys_discrete }

instance pub options_eq : Eq (List (String × String))
options_eq = record { dec = options_discrete }

-- The value of a drift, which has one of these types in the source.
pub data Value : Type 0 where
  names : Option (List String) → Value
  details : Option (List Detail) → Value
  references : Option (List ForeignKey) → Value
  options : Option (List (String × String)) → Value

pub record DriftItem : Type 0 where
  pub kind : String
  pub object_name : String
  pub expected : Value
  pub actual : Value

-- `if expected.f.get(table) != actual.f.get(table): items.append(...)`
pub changed :
    {A : Type 0} ⦃e : Eq A⦄
    → String
    → (Option A → Value)
    → String
    → Option A
    → Option A
    → List DriftItem
changed kind value name old new =
    if old == new
    then []
    else record { kind = kind; object_name = name; expected = value old; actual = value new } ∷ []

-- The drift of one table.
pub table_drift : SchemaSnapshot → SchemaSnapshot → String → List DriftItem
table_drift old new t =
    changed "columns" names t (Dict.lookup t old.columns) (Dict.lookup t new.columns)
    ++ (changed "indexes" names t (Dict.lookup t old.indexes) (Dict.lookup t new.indexes)
        ++ (changed "column_details" details t (Dict.lookup t old.column_details)
              (Dict.lookup t new.column_details)
            ++ (changed "primary_keys" names t (Dict.lookup t old.primary_keys)
                  (Dict.lookup t new.primary_keys)
                ++ (changed "foreign_keys" references t (Dict.lookup t old.foreign_keys)
                      (Dict.lookup t new.foreign_keys)
                    ++ (changed "unique_constraints" names t (Dict.lookup t old.unique_constraints)
                          (Dict.lookup t new.unique_constraints)
                        ++ (changed "table_options" options t (Dict.lookup t old.table_options)
                            (Dict.lookup t new.table_options)))))))

pub tables_drift : SchemaSnapshot → SchemaSnapshot → List String → List DriftItem
tables_drift old new [] = []
tables_drift old new (t ∷ ts) = table_drift old new t ++ tables_drift old new ts

-- `sorted(set(expected.columns) | set(actual.columns))`
pub all_tables : SchemaSnapshot → SchemaSnapshot → List String
all_tables old new =
    let known = Dict.keys old.columns in
    sorted (known ++ select (λ t. not (contains known t)) (Dict.keys new.columns))

pub diff : SchemaSnapshot → SchemaSnapshot → List DriftItem
diff old new =
    changed "tables" names "__all__" (some old.tables) (some new.tables)
    ++ (changed "views" names "__all__" (some old.views) (some new.views)
        ++ tables_drift old new (all_tables old new))

abbrev pub label : DriftItem → String
label i = i.kind <> ":" <> i.object_name

pub assert_equal : SchemaSnapshot → SchemaSnapshot → Result (Unit {0})
assert_equal old new = elim (diff old new) [
  | [] ↦ ok tt
  | i ∷ is ↦ err (assertion_error ("Schema drift detected:\n" <> join "\n" (map label (i ∷ is))))
]
