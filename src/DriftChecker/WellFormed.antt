-- ===== src/DriftChecker/WellFormed.antt =====
-- Every snapshot that `capture` makes is well formed.
use dbwarden_harness.Base.{
  String, true, false, ◌||◌, none, List, [], ◌∷◌, ◌≡◌, ◌↔◌, refl, arith, string_eq, contains, All,
  Bool-cases, inl, inr,
}
use mathlib.Core.Path.{subst}
use dbwarden_harness.Base.Dict
use dbwarden_harness.Base.Dict.{Dict, lookup-insert}
use dbwarden_harness.Base.Text.{sorted, starts_with}
use dbwarden_harness.Base.Result.{Result, ok, >>=-eq-ok}
use dbwarden_harness.DriftChecker.{SchemaSnapshot, diff}
use dbwarden_harness.DriftChecker.Completeness.{IsWellFormed, SameTable, diff-empty}
use dbwarden_harness.DriftChecker.Capture.{
  Inspector, SystemTables, collect, snapshot_of, option_rows, clickhouse_snapshot, capture,
}

collect-absent :
    {A : Type 0} (f : String → A) (ts : List String) (d : Dict String A) (t : String)
    → (Dict.lookup t (collect f ts d) ≡ none) ↔ ((contains ts t ≡ false) × (Dict.lookup t d ≡ none))
unfolding collect
collect-absent f [] d t = ground arith
collect-absent f (u ∷ us) d t =
    ground (arith, collect-absent f us (Dict.insert u (f u) d) t, lookup-insert t u (f u) d)

-- The first query named the table.
abbrev pub IsListed : List String → String × String × String × String × String → Type 0
IsListed tables row = contains tables row.0 ≡ true

option_rows-absent :
    (tables : List String) (rows : List (String × String × String × String × String))
    (d : Dict String (List (String × String))) (t : String)
    → All (IsListed tables) rows
    → contains tables t ≡ false
    → Dict.lookup t d ≡ none
    → Dict.lookup t (option_rows rows d) ≡ none
unfolding option_rows
option_rows-absent tables [] d t h absent e = e
option_rows-absent tables ((table, engine, sorting, partition, primary) ∷ rows) d t h absent e =
    let options : List (String × String) =
      ("engine", engine)
      ∷ ("sorting_key", sorting)
      ∷ ("partition_key", partition)
      ∷ ("primary_key", primary)
      ∷ [] in
    elim (string_eq.dec t table) [
      | yes same ↦ ground (arith, h.0, same)
      | no differ ↦
          option_rows-absent tables rows (Dict.insert table options d) t h.1 absent
            (ground (arith, lookup-insert t table options d, differ))
    ]

-- A table that one dict lacks is in none of them.
collect-collect :
    {A B : Type 0} (f : String → A) (g : String → B) (ts : List String) (t : String)
    → Dict.lookup t (collect f ts []) ≡ none
    → Dict.lookup t (collect g ts []) ≡ none
unfolding Dict.lookup
collect-collect f g ts t h = ground (arith, collect-absent f ts [] t, collect-absent g ts [] t)

snapshot_of-IsWellFormed : (i : Inspector) → IsWellFormed (snapshot_of i)
unfolding snapshot_of
snapshot_of-IsWellFormed i t h =
    let tables = sorted i.table_names in
    (
      collect-collect _ _ tables t h,
      collect-collect _ _ tables t h,
      collect-collect _ _ tables t h,
      collect-collect _ _ tables t h,
      collect-collect _ _ tables t h,
      collect-collect _ _ tables t h,
    )

clickhouse_snapshot-IsWellFormed :
    (s : SystemTables) → All (IsListed s.tables) s.table_rows → IsWellFormed (clickhouse_snapshot s)
unfolding clickhouse_snapshot Dict.lookup
clickhouse_snapshot-IsWellFormed s listed t h = (
  collect-collect _ _ s.tables t h,
  collect-collect _ _ s.tables t h,
  collect-collect _ _ s.tables t h,
  collect-collect _ _ s.tables t h,
  collect-collect _ _ s.tables t h,
  option_rows-absent s.tables s.table_rows [] t listed ((collect-absent _ s.tables [] t).0 h).0
      refl,
)

-- ClickHouse names no table in the second query that it did not name in the first.
module _ (inspect : String → Result Inspector) (query : String → Result SystemTables) where
  pub capture-IsWellFormed :
      (url : String) (s : SchemaSnapshot)
      → ((q : SystemTables) → query url ≡ ok q → All (IsListed q.tables) q.table_rows)
      → capture inspect query url ≡ ok s
      → IsWellFormed s
  unfolding capture
  capture-IsWellFormed url s stable h =
      elim (Bool-cases (starts_with url "http://" || starts_with url "https://")) [
        | inl web ↦
            let (q, asked, done) =
              >>=-eq-ok (query url) (λ (v : SystemTables). ok (clickhouse_snapshot v)) {w = s}
                (ground (arith, h)) in
            let same : clickhouse_snapshot q ≡ s = ground arith in
            subst IsWellFormed same (clickhouse_snapshot-IsWellFormed q (stable q asked))
        | inr other ↦
            let (i, asked, done) =
              >>=-eq-ok (inspect url) (λ (v : Inspector). ok (snapshot_of v)) {w = s}
                (ground (arith, h)) in
            let same : snapshot_of i ≡ s = ground arith in
            subst IsWellFormed same (snapshot_of-IsWellFormed i)
      ]

  -- Two captured snapshots, where ClickHouse describes no table that it did not list, show no
  -- drift exactly when they have the same tables and views and the same seven entries for every
  -- table.
  pub capture-diff :
      (before after : String) (old new : SchemaSnapshot)
      → ((url : String) (q : SystemTables)
          → query url ≡ ok q
          → All (IsListed q.tables) q.table_rows)
      → capture inspect query before ≡ ok old
      → capture inspect query after ≡ ok new
      → (diff old new ≡ []) ↔ (
          (old.tables ≡ new.tables)
          × (old.views ≡ new.views)
          × ((t : String) → SameTable old new t))
  capture-diff before after old new stable first second =
      diff-empty old new (capture-IsWellFormed before old (stable before) first)
        (capture-IsWellFormed after new (stable after) second)
