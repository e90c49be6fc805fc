-- ===== src/ModelSource.antt =====
-- tools/model_source.py: builders of model modules, whose cases differ in one named property.
pub mod Lines
use dbwarden_harness.Base.{
  ℕ, String, ◌<>◌, Bool, true, false, not, Option, none, some, List, [], ◌∷◌, ◌++◌, map, ◌==◌,
  string_eq, if◌then◌else◌, contains,
}
use dbwarden_harness.Base.Dict
use dbwarden_harness.Base.Dict.{Dict}
use dbwarden_harness.Base.Text.{join}

generic_imports : String
generic_imports =
    "import datetime, decimal, enum, uuid\n" <> "from typing import Optional\n"
    <> "from sqlalchemy import *\n"
    <> "from sqlalchemy.orm import declarative_base, Mapped, mapped_column\n"
    <> "from dbwarden.databases import TableMeta\n" <> "\n" <> "Base = declarative_base()\n"

clickhouse_imports : String
clickhouse_imports =
    "import datetime, decimal, enum, uuid\n" <> "from typing import Optional\n"
    <> "from sqlalchemy import (Column, Integer, BigInteger, SmallInteger, String, Text,\n"
    <> "    Boolean, Float, Numeric, DateTime, Date, Time, LargeBinary, JSON, Enum,\n"
    <> "    ForeignKey, UniqueConstraint, CheckConstraint, Index, text, func)\n"
    <> "from sqlalchemy.orm import declarative_base, Mapped, mapped_column\n"
    <> "from dbwarden.databases.clickhouse import *\n"
    <> "from dbwarden.databases.clickhouse import ch, ch_table\n" <> "\n"
    <> "Base = declarative_base()\n"

-- `IMPORTS.get(backend, GENERIC_IMPORTS)`
pub imports : String → String
imports backend = if backend == "clickhouse" then clickhouse_imports else generic_imports

pub model_module : String → List String → String → String
model_module backend bodies preamble = imports backend <> preamble <> "\n" <> join "\n" bodies

-- `Column_`
pub record Column : Type 0 where
  pub name : String
  pub type : String
  pub primary_key : Bool
  pub args : String

abbrev given : Bool → String → List String
given true part = part ∷ []
given false part = []

pub render_column : Column → String
render_column c =
    "    "
    <> c.name
    <> " = Column("
    <> join ", "
        (c.type ∷ (given c.primary_key "primary_key=True" ++ given (not (c.args == "")) c.args))
    <> ")"

pub record ClickHouseTable : Type 0 where
  pub name : String
  pub class_name : String
  pub columns : List Column
  pub engine : String
  pub order_by : Option String
  pub primary_key : Option String
  pub partition_by : Option String
  pub sample_by : Option String
  pub ttl : Option String
  pub settings : Option String
  pub indexes : Option String
  pub projections : Option String
  pub zookeeper_path : Option String
  pub replica_name : Option String
  pub comment : Option String
  pub column_meta : Dict String String
  pub column_comments : Dict String String
  pub base : String
  pub meta_base : String
  pub raw_meta : Option String

abbrev plain_column : String → String → Bool → Column
plain_column name type key = record { name = name; type = type; primary_key = key; args = "" }

-- `ClickHouseTable()`
pub default_table : ClickHouseTable
default_table = record {
  name = "t";
  class_name = "T";
  columns = plain_column "id" "Integer" true ∷ plain_column "a" "Integer" false ∷ [];
  engine = "merge_tree()";
  order_by = some "[\"id\"]";
  primary_key = none;
  partition_by = none;
  sample_by = none;
  ttl = none;
  settings = none;
  indexes = none;
  projections = none;
  zookeeper_path = none;
  replica_name = none;
  comment = none;
  column_meta = [];
  column_comments = [];
  base = "Base";
  meta_base = "CHTableMeta";
  raw_meta = none;
}

pub pairs : List (String × Option String) → List String
pairs [] = []
pairs ((key, none) ∷ rest) = pairs rest
pairs ((key, some value) ∷ rest) = (key <> "=" <> value) ∷ pairs rest

-- `_table_args`
pub table_args : ClickHouseTable → String
unfolding pairs
table_args t = join ", " (
    pairs (
      ("engine", some t.engine)
      ∷ ("order_by", t.order_by)
      ∷ ("primary_key", t.primary_key)
      ∷ ("partition_by", t.partition_by)
      ∷ ("sample_by", t.sample_by)
      ∷ ("ttl", t.ttl)
      ∷ ("settings", t.settings)
      ∷ ("projections", t.projections)
      ∷ ("indexes", t.indexes)
      ∷ ("zookeeper_path", t.zookeeper_path)
      ∷ ("replica_name", t.replica_name)
      ∷ []))

-- The keyword arguments of `with_`, one by one.
pub data Change : Type 0 where
  name class_name engine base meta_base : String → Change
  columns : List Column → Change
  order_by primary_key partition_by sample_by ttl settings indexes projections zookeeper_path
        replica_name comment raw_meta :
      Option String → Change
  column_meta column_comments : Dict String String → Change

pub replace : Change → ClickHouseTable → ClickHouseTable
replace (Change.name v) t = record t { name = v }
replace (Change.class_name v) t = record t { class_name = v }
replace (Change.engine v) t = record t { engine = v }
replace (Change.base v) t = record t { base = v }
replace (Change.meta_base v) t = record t { meta_base = v }
replace (Change.columns v) t = record t { columns = v }
replace (Change.order_by v) t = record t { order_by = v }
replace (Change.primary_key v) t = record t { primary_key = v }
replace (Change.partition_by v) t = record t { partition_by = v }
replace (Change.sample_by v) t = record t { sample_by = v }
replace (Change.ttl v) t = record t { ttl = v }
replace (Change.settings v) t = record t { settings = v }
replace (Change.indexes v) t = record t { indexes = v }
replace (Change.projections v) t = record t { projections = v }
replace (Change.zookeeper_path v) t = record t { zookeeper_path = v }
replace (Change.replica_name v) t = record t { replica_name = v }
replace (Change.comment v) t = record t { comment = v }
replace (Change.raw_meta v) t = record t { raw_meta = v }
replace (Change.column_meta v) t = record t { column_meta = v }
replace (Change.column_comments v) t = record t { column_comments = v }

pub with_ : List Change → ClickHouseTable → ClickHouseTable
with_ [] t = t
with_ (c ∷ cs) t = with_ cs (replace c t)

-- The class, its columns, and the head of `Meta`.
pub head_lines : String → String → String → List Column → String → List String
head_lines klass parent table cols meta =
    ("class " <> klass <> "(" <> parent <> "):")
    ∷ ("    __tablename__ = \"" <> table <> "\"")
    ∷ (map render_column cols ++ ("" ∷ ("    class Meta(" <> meta <> "):") ∷ []))

abbrev class_line : String → String
class_line column = "        class " <> column <> "(CHColumnMeta):"

pub meta_lines : Dict String String → List String
meta_lines [] = []
meta_lines ((column, spec) ∷ rest) =
    class_line column ∷ ("            ch = ch.field(" <> spec <> ")") ∷ meta_lines rest

-- `repr` quotes a text.
module _ (repr : String → String) where
  pub comment_lines : Option String → List String
  comment_lines none = []
  comment_lines (some text) = ("        comment = " <> repr text) ∷ []

  -- A comment of a column that has a specification is left out.
  pub column_comment_lines : List String → Dict String String → List String
  column_comment_lines known [] = []
  column_comment_lines known ((column, text) ∷ rest) =
      let later = column_comment_lines known rest in
      if contains known column
      then later
      else class_line column ∷ ("            comment = " <> repr text) ∷ later

  pub ch_line : ClickHouseTable → String
  ch_line t = elim t.raw_meta [
    | none ↦ "        ch = ch_table(" <> table_args t <> ")"
    | some raw ↦ "        " <> raw
  ]

  pub lines : ClickHouseTable → List String
  lines t =
      head_lines t.class_name t.base t.name t.columns t.meta_base
      ++ (ch_line t
          ∷ (comment_lines t.comment
              ++ (meta_lines t.column_meta
                  ++ column_comment_lines (Dict.keys t.column_meta) t.column_comments)))

  pub render : ClickHouseTable → String
  render t = join "\n" (lines t) <> "\n"

  pub source : ClickHouseTable → String
  source t = model_module "clickhouse" (render t ∷ []) ""

  pub clickhouse_single_column : String → Option String → String
  clickhouse_single_column column_type meta = source (record default_table {
    columns = plain_column "id" "Integer" true ∷ plain_column "c" column_type false ∷ [];
    column_meta = elim meta [ none ↦ [] | some spec ↦ if spec == "" then [] else ("c", spec) ∷ [] ];
  })

pub record ClickHouseView : Type 0 where
  pub name : String
  pub class_name : String
  pub columns : List Column
  pub spec : String
  pub base : String

pub render_view : ClickHouseView → String
render_view v =
    join "\n" (
      head_lines v.class_name v.base v.name v.columns "CHViewMeta"
      ++ (("        ch = " <> v.spec) ∷ []))
    <> "\n"
