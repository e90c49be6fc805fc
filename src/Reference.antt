-- ===== src/Reference.antt =====
-- mcp_server/track_b.py: the reference schema, made by SQLAlchemy.
pub mod Order
use dbwarden_harness.Base.{
  String, ◌<>◌, Bool, true, false, not, ◌&&◌, ◌||◌, Option, none, some, List, [], ◌∷◌, ◌==◌,
  string_eq, option_eq, if◌then◌else◌, any, is_empty, first,
}
use dbwarden_harness.Base.Json.{Json, text, object, Fields, member}
use dbwarden_harness.Base.Result.{Result, ok, err, Error, ◌>>=◌, key_error}
use dbwarden_harness.Disk.{
  FilePath, Event, dumped, dropped, created, executed, Disk, Programs, write,
}
use dbwarden_harness.Tracks.{TrackResult, failed, models_path, dump_schema}

-- A name of a loaded module: is it a class, its `metadata`, and whether that has `create_all`.
pub record Attribute (M : Type 0) : Type 0 where
  pub is_class : Bool
  pub metadata : Option M
  pub creates : Bool

-- SQLAlchemy and the Python import. `load` gives the attributes of a module in the order of `dir`,
-- or what its code raises. The other operations answer given all events before; `none` is success,
-- and a text the error. `column_ddl` and `table_name` look a table up in the metadata.
pub record Sqlalchemy (M : Type 0) : Type 0 where
  pub load : String → Result (List (Attribute M))
  pub drop_all : List Event → String → M → Option String
  pub create_all : List Event → String → M → Option String
  pub execute : List Event → String → String → Option String
  pub column_ddl : String → M → Json → Json → Result String
  pub table_name : String → M → Json → Result String
  pub message : Error → String

-- `mutation.get("type") in {"add_column"}`
abbrev pub adds_column : Fields → Bool
adds_column m = elim (member "type" m) [ some (text s) ↦ s == "add_column" | _ ↦ false ]

pub item : String → Fields → Result Json
item key m = elim (member key m) [ none ↦ err (key_error key) | some j ↦ ok j ]

-- What the driver reports, `none` when all went well, with the disk after it.
abbrev Outcome : Type 0
Outcome = Option String × Disk

pub and_then : Outcome → (Disk → Outcome) → Outcome
and_then (none, d) next = next d
and_then (some e, d) next = (some e, d)

pub logged : Event → (List Event → Option String) → Disk → Outcome
logged event answer d = (answer d.log, record d { log = event ∷ d.log })

module _ {M : Type 0} (alchemy : Sqlalchemy M) (programs : Programs) where
  pub is_base : Attribute M → Bool
  is_base a = elim a.metadata [ none ↦ false | some _ ↦ a.is_class && a.creates ]

  unfoldable pub find_declarative_base : List (Attribute M) → Option M
  unfolding is_base
  find_declarative_base attributes = elim (first is_base attributes) [
    | none ↦ none
    | some a ↦ a.metadata
  ]

  -- The source is written and executed.
  pub load_models_module : FilePath → String → Disk → Result (List (Attribute M)) × Disk
  load_models_module root source d = (alchemy.load source, write (models_path root) source d)

  pub recreate : String → M → Disk → Outcome
  unfolding and_then logged
  recreate url base d =
      and_then (logged (dropped url) (λ log. alchemy.drop_all log url base) d)
        (logged (created url) (λ log. alchemy.create_all log url base))

  pub alter : String → M → Fields → Result String
  alter url mutated m = do
    table ← item "table" m
    column ← item "column" m
    ddl ← alchemy.column_ddl url mutated table column
    name ← alchemy.table_name url mutated table
    ok ("ALTER TABLE " <> name <> " ADD COLUMN " <> ddl)

  -- One statement for each mutation that adds a column.
  pub add_columns : String → M → List Fields → Disk → Outcome
  unfolding alter and_then logged
  add_columns url mutated [] d = (none, d)
  add_columns url mutated (m ∷ ms) d = elim (adds_column m) [
    | false ↦ add_columns url mutated ms d
    | true ↦ elim (alter url mutated m) [
      | err e ↦ (some (alchemy.message e), d)
      | ok sql ↦
          and_then (logged (executed url sql) (λ log. alchemy.execute log url sql) d)
            (λ after. add_columns url mutated ms after)
    ]
  ]

  -- The end of both references: the errors of the DDL, then the dump.
  pub dump_reference : String → String → Outcome → TrackResult × Disk
  dump_reference url backend (some e, d) = (failed "reference-ddl" e, d)
  dump_reference url backend (none, d) =
      let (dump, after) = dump_schema programs url backend d in
      elim dump [
        | none ↦ (failed "schema-dump" "schema dump failed", after)
        | some sql ↦ (
          record { success = true; stage = "complete"; error = ""; schema_dump = sql; plan = none },
          after,
        )
      ]

  -- A result, or what the models' code raises.
  abbrev Run : Type 0
  Run = Result TrackResult × Disk

  abbrev returned : TrackResult × Disk → Run
  returned (r, d) = (ok r, d)

  nuclear_from : String → String → Option M → Disk → Run
  unfolding recreate dump_reference
  nuclear_from backend url none d = (
    ok (failed "reference-load" "No SQLAlchemy DeclarativeBase subclass found in model module"),
    d,
  )
  nuclear_from backend url (some base) d =
      returned (dump_reference url backend (recreate url base d))

  unfoldable pub run_track_b_nuclear : FilePath → String → String → String → Disk → Run
  unfolding nuclear_from load_models_module
  run_track_b_nuclear root backend url mutated d =
      let (loaded, d₁) = load_models_module root mutated d in
      elim loaded [
        | err e ↦ (err e, d₁)
        | ok attributes ↦ nuclear_from backend url (find_declarative_base attributes) d₁
      ]

  incremental_from : String → String → List Fields → Option M → Option M → Disk → Run
  unfolding recreate dump_reference add_columns and_then
  incremental_from backend url mutations (some base) (some mutated) d = returned (
      dump_reference url backend
        (and_then (recreate url base d) (add_columns url mutated mutations)))
  incremental_from backend url mutations _ _ d = (
    ok (
        failed "reference-load"
          "No SQLAlchemy DeclarativeBase subclass found in base model module"),
    d,
  )

  -- `mutations` are those that the workspace has applied.
  pub run_track_b_incremental :
      FilePath → String → String → List Fields → String → String → Disk → Run
  unfolding incremental_from load_models_module
  run_track_b_incremental root backend url mutations base mutated d =
      let (loaded, d₁) = load_models_module root mutated d in
      let (loaded_base, d₂) = load_models_module root base d₁ in
      if any (λ m. not (adds_column m)) mutations || is_empty mutations
      then run_track_b_nuclear root backend url mutated d
      else elim loaded [
        | err e ↦ (err e, d₁)
        | ok attributes ↦ elim loaded_base [
          | err e ↦ (err e, d₂)
          | ok base_attributes ↦
              incremental_from backend url mutations (find_declarative_base base_attributes)
                (find_declarative_base attributes) d₂
        ]
      ]
