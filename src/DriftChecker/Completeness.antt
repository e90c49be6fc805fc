-- ===== src/DriftChecker/Completeness.antt =====
-- What an empty drift means.
use dbwarden_harness.Base.{
  String, true, false, not, ◌||◌, ◌&&◌, Option, none, some, List, [], ◌∷◌, ◌++◌, Eq, string_eq,
  option_eq, contains, select, ◌≡◌, ◌↔◌, refl, arith, Bool-cases, ap, sym, inl, inr,
}
use mathlib.Core.Path.{subst}
use mathlib.Core.Bool.{false≢true}
use dbwarden_harness.Base.Dict
use dbwarden_harness.Base.Dict.{Dict}
use dbwarden_harness.Base.Text.{contains-sorted}
use dbwarden_harness.DriftChecker.{
  SchemaSnapshot, Value, DriftItem, names, details, references, options, changed, table_drift,
  tables_drift, all_tables, diff, names_eq, details_eq, foreign_keys_eq, options_eq,
}

changed-empty :
    {A : Type 0} ⦃e : Eq A⦄ (kind : String) (value : Option A → Value) (name : String)
    (old new : Option A)
    → (changed kind value name old new ≡ []) ↔ (old ≡ new)
unfolding changed
changed-empty kind value name old new = ground arith

append-empty : {A : Type 0} (xs ys : List A) → ((xs ++ ys) ≡ []) ↔ ((xs ≡ []) × (ys ≡ []))
append-empty [] ys = ground arith
append-empty (x ∷ xs) ys = ground arith

-- The two snapshots say the same of the table.
abbrev pub SameTable : SchemaSnapshot → SchemaSnapshot → String → Type 0
SameTable old new t =
    (Dict.lookup t old.columns ≡ Dict.lookup t new.columns)
    × (Dict.lookup t old.indexes ≡ Dict.lookup t new.indexes)
    × (Dict.lookup t old.column_details ≡ Dict.lookup t new.column_details)
    × (Dict.lookup t old.primary_keys ≡ Dict.lookup t new.primary_keys)
    × (Dict.lookup t old.foreign_keys ≡ Dict.lookup t new.foreign_keys)
    × (Dict.lookup t old.unique_constraints ≡ Dict.lookup t new.unique_constraints)
    × (Dict.lookup t old.table_options ≡ Dict.lookup t new.table_options)

changed-then :
    {A R : Type 0} ⦃e : Eq A⦄ (kind : String) (value : Option A → Value) (name : String)
    (old new : Option A) {rest : List DriftItem}
    → ((rest ≡ []) ↔ R)
    → ((changed kind value name old new ++ rest) ≡ []) ↔ ((old ≡ new) × R)
changed-then kind value name old new {rest = rest} h = ground (
  arith,
  h,
  append-empty (changed kind value name old new) rest,
  changed-empty kind value name old new,
)

table_drift-empty :
    (old new : SchemaSnapshot) (t : String) → (table_drift old new t ≡ []) ↔ SameTable old new t
unfolding table_drift
table_drift-empty old new t =
    let whole =
      changed-then "columns" names t (Dict.lookup t old.columns) (Dict.lookup t new.columns) (
        changed-then "indexes" names t (Dict.lookup t old.indexes) (Dict.lookup t new.indexes) (
          changed-then "column_details" details t (Dict.lookup t old.column_details)
            (Dict.lookup t new.column_details)
            (changed-then "primary_keys" names t (Dict.lookup t old.primary_keys)
              (Dict.lookup t new.primary_keys)
              (changed-then "foreign_keys" references t (Dict.lookup t old.foreign_keys)
                (Dict.lookup t new.foreign_keys)
                (changed-then "unique_constraints" names t (Dict.lookup t old.unique_constraints)
                  (Dict.lookup t new.unique_constraints)
                  (changed-empty "table_options" options t (Dict.lookup t old.table_options)
                    (Dict.lookup t new.table_options))))))) in
    (
      λ h. let (a, (b, (c, (d, (e, (f, g)))))) = whole.0 h in (a, b, c, d, e, f, g),
      λ h. whole.1 (h.0, (h.1, (h.2, (h.3, (h.4, (h.5, h.6)))))),
    )

eq-contains : (x : String) (xs : List String) → contains (x ∷ xs) x ≡ true
eq-contains x xs = ground arith

contains-later :
    (t x : String) (xs : List String) → contains xs t ≡ true → contains (x ∷ xs) t ≡ true
contains-later t x xs h = ground (arith, h)

tables_drift-empty :
    (old new : SchemaSnapshot) (ts : List String)
    → (tables_drift old new ts ≡ []) ↔ ((t : String) → contains ts t ≡ true → SameTable old new t)
unfolding tables_drift
tables_drift-empty old new [] = (λ h t c. absurd (false≢true c), λ h. refl)
tables_drift-empty old new (x ∷ xs) =
    let here = table_drift-empty old new x in
    let later = tables_drift-empty old new xs in
    let both = append-empty (table_drift old new x) (tables_drift old new xs) in
    (
      λ h t c. member t c (here.0 (both.0 h).0) (later.0 (both.0 h).1),
      λ h. both.1 (here.1 (h x (eq-contains x xs)), later.1 (λ t c. h t (contains-later t x xs c))),
    )
  where
    member :
        (t : String)
        → contains (x ∷ xs) t ≡ true
        → SameTable old new x
        → ((u : String) → contains xs u ≡ true → SameTable old new u)
        → SameTable old new t
    member t c same rest = elim (string_eq.dec t x) [
      | yes e ↦ subst (SameTable old new) (sym e) same
      | no n ↦ rest t (ground (arith, c, n))
    ]

contains-append :
    (xs ys : List String) (t : String) → contains (xs ++ ys) t ≡ (contains xs t || contains ys t)
contains-append [] ys t = refl
contains-append (x ∷ xs) ys t = ground (arith, contains-append xs ys t)

contains-new :
    (known xs : List String) (t : String)
    → contains (select (λ x. not (contains known x)) xs) t
      ≡ (not (contains known t) && contains xs t)
contains-new known [] t = ground arith
contains-new known (x ∷ xs) t = ground (arith, contains-new known xs t)

contains-select :
    (known xs : List String) (t : String)
    → contains (known ++ select (λ x. not (contains known x)) xs) t
      ≡ (contains known t || contains xs t)
contains-select known xs t = ground (
  arith,
  contains-append known (select (λ x. not (contains known x)) xs) t,
  contains-new known xs t,
)

-- A table in any of the dicts is in the one of the columns, as `capture` makes them.
abbrev pub IsWellFormed : SchemaSnapshot → Type 0
IsWellFormed s =
    (t : String)
    → Dict.lookup t s.columns ≡ none
    → (Dict.lookup t s.indexes ≡ none)
      × (Dict.lookup t s.column_details ≡ none)
      × (Dict.lookup t s.primary_keys ≡ none)
      × (Dict.lookup t s.foreign_keys ≡ none)
      × (Dict.lookup t s.unique_constraints ≡ none)
      × (Dict.lookup t s.table_options ≡ none)

absent_table :
    (old new : SchemaSnapshot) (t : String)
    → IsWellFormed old
    → IsWellFormed new
    → contains (all_tables old new) t ≡ false
    → SameTable old new t
unfolding all_tables
absent_table old new t u v h = ground (
  arith,
  u t,
  v t,
  h,
  contains-sorted
      (Dict.keys old.columns
        ++ select (λ x. not (contains (Dict.keys old.columns) x)) (Dict.keys new.columns))
      t,
  contains-select (Dict.keys old.columns) (Dict.keys new.columns) t,
  Dict.contains-keys old.columns t,
  Dict.contains-keys new.columns t,
)

everywhere :
    (old new : SchemaSnapshot)
    → IsWellFormed old
    → IsWellFormed new
    → ((t : String) → contains (all_tables old new) t ≡ true → SameTable old new t)
    → (t : String) → SameTable old new t
everywhere old new u v same t = elim (Bool-cases (contains (all_tables old new) t)) [
  | inl c ↦ same t c
  | inr c ↦ absent_table old new t u v c
]

-- Two snapshots in which every table has an entry for its columns show no drift exactly when they
-- have the same tables and views and the same seven entries for every table.
pub diff-empty :
    (old new : SchemaSnapshot)
    → IsWellFormed old
    → IsWellFormed new
    → (diff old new ≡ [])
      ↔ ((old.tables ≡ new.tables) × (old.views ≡ new.views) × ((t : String) → SameTable old new t))
unfolding diff
diff-empty old new u v =
    let whole = changed-then "tables" names "__all__" (some old.tables) (some new.tables) (
      changed-then "views" names "__all__" (some old.views) (some new.views)
        (tables_drift-empty old new (all_tables old new))) in
    (
      λ h.
          let (ts, (vs, same)) = whole.0 h in
          (ground (arith, ts), ground (arith, vs), λ t. everywhere old new u v same t),
      λ h. whole.1 (ap some h.0, (ap some h.1, λ t c. h.2 t)),
    )
