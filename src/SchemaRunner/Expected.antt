-- ===== src/SchemaRunner/Expected.antt =====
-- What `assert_expected_schema` of tools/schema_runner.py accepts.
use dbwarden_harness.Base.{
  String, true, false, not, ◌&&◌, Option, List, [], ◌∷◌, ◌≡◌, ◌↔◌, refl, arith, string_eq, contains,
  select, is_empty,
}
use dbwarden_harness.Base.Text.{sorted, contains-sorted}
use dbwarden_harness.Base.Json.{Json}
use dbwarden_harness.Base.Result.{Result, ok, >>=-eq-ok}
use dbwarden_harness.Disk.{Event, Disk, Programs}
use dbwarden_harness.DriftChecker.{SchemaSnapshot}
use dbwarden_harness.SchemaRunner.{
  ReferenceSchema, SchemaRunner, distinct, missing, all_indexes, expected_schema, capture_schema,
  assert_expected_schema,
}
use dbwarden_harness.DriftChecker.Capture.{Inspector, SystemTables}

empty_iff : (xs : List String) → (is_empty xs ≡ true) ↔ ((x : String) → contains xs x ≡ false)
empty_iff [] = (λ h x. refl, λ h. refl)
empty_iff (x ∷ xs) = (λ h. ground arith, λ h. ground (arith, h x))

contains-select :
    (found wanted : List String) (x : String)
    → contains (select (λ w. not (contains found w)) wanted) x
      ≡ (contains wanted x && not (contains found x))
contains-select found [] x = refl
contains-select found (w ∷ ws) x = ground (arith, contains-select found ws x)

contains-distinct : (xs : List String) (x : String) → contains (distinct xs) x ≡ contains xs x
unfolding distinct
contains-distinct [] x = refl
contains-distinct (y ∷ ys) x = elim (string_eq.dec y x) [
  | yes e ↦ ground (arith, e, contains-distinct ys x, contains-distinct ys y)
  | no n ↦ ground (arith, n, contains-distinct ys x)
]

-- Every name is found.
abbrev pub AllFound : List String → List String → Type 0
AllFound found wanted = (x : String) → contains wanted x ≡ true → contains found x ≡ true

missing-empty :
    (found wanted : List String) → (is_empty (missing found wanted) ≡ true) ↔ AllFound found wanted
unfolding missing
missing-empty found wanted =
    let new = select (λ w. not (contains found w)) wanted in
    let left = distinct new in
    (
      λ h x w. ground (
        arith,
        (empty_iff (sorted left)).0 h x,
        contains-sorted left x,
        contains-distinct new x,
        contains-select found wanted x,
      ),
      λ h. (empty_iff (sorted left)).1 λ x. ground (
        arith,
        h x,
        contains-sorted left x,
        contains-distinct new x,
        contains-select found wanted x,
      ),
    )

both_empty :
    (repr : String → String) (repr_list : List String → String) (s : ReferenceSchema)
    (snapshot found : SchemaSnapshot)
    → (expected_schema repr repr_list s snapshot ≡ ok found) ↔ (
        (snapshot ≡ found)
        × (is_empty (missing snapshot.tables s.expected_tables) ≡ true)
        × (is_empty (missing (all_indexes snapshot.indexes) s.expected_indexes) ≡ true))
unfolding expected_schema
both_empty repr repr_list s snapshot found = ground arith

-- As in the definitions.
module _ (programs : Programs) (loads : String → Option Json) (repr : String → String)
    (repr_list : List String → String) (versions : String → List String)
    (inspect : List Event → String → Result Inspector)
    (query : List Event → String → Result SystemTables) where
  -- The check of a reference schema answers a snapshot exactly when the capture answers that
  -- snapshot, every expected table is among its tables and every expected index is an index of one
  -- of its tables.
  pub assert_expected_schema_iff :
      (r : SchemaRunner) (d : Disk) (snapshot : SchemaSnapshot)
      → (assert_expected_schema programs loads repr repr_list versions inspect query r d
          ≡ ok snapshot)
        ↔ ((capture_schema programs loads repr repr_list versions inspect query r d ≡ ok snapshot)
            × AllFound snapshot.tables r.schema.expected_tables
            × AllFound (all_indexes snapshot.indexes) r.schema.expected_indexes)
  unfolding assert_expected_schema
  assert_expected_schema_iff r d snapshot =
      let captured = capture_schema programs loads repr repr_list versions inspect query r d in
      let tables = missing-empty snapshot.tables r.schema.expected_tables in
      let indexes = missing-empty (all_indexes snapshot.indexes) r.schema.expected_indexes in
      (
        λ h.
            let (s, e, f) = >>=-eq-ok captured (expected_schema repr repr_list r.schema) h in
            let (same, t, i) = (both_empty repr repr_list r.schema s snapshot).0 f in
            (
              ground (arith, e, same),
              tables.0 (ground (arith, t, same)),
              indexes.0 (ground (arith, i, same)),
            ),
        λ h. ground (
          arith,
          h.0,
          tables.1 h.1,
          indexes.1 h.2,
          both_empty repr repr_list r.schema snapshot snapshot,
        ),
      )
