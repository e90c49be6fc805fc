-- ===== src/Inspector.antt =====
-- mcp_server/inspector.py: queries of Track A's database, read-only unless the caller asks for writes.
pub mod Reads
mod Tests
use dbwarden_harness.Base.{
  ℕ, nat_eq, String, ◌<>◌, Bool, true, false, not, ◌&&◌, ◌||◌, Option, none, some, List, [], ◌∷◌,
  ◌==◌, string_eq, ite, if◌then◌else◌, any,
}
use dbwarden_harness.Base.Result.{Result, ok, err, runtime_error, value_error, ◌>>=◌, ◌>>◌, guard}
use dbwarden_harness.Base.Dict
use dbwarden_harness.Base.Dict.{Dict}
use dbwarden_harness.Dumper.{Urls, Tools, dump_database_schema}
use dbwarden_harness.Workspace.{Workspace}

-- The classes of the nodes that a query is searched for: definitions, changes of data, `INTO`, locks,
-- and the rest.
pub data Node : Type 0 where
  ddl dml into lock other : Node

-- What sqlglot tells of a statement: is it a query, and the classes of the nodes of its tree.
pub record Parsed : Type 0 where
  pub is_query : Bool
  pub nodes : List Node

pub is_unsafe : Node → Bool
is_unsafe ddl = true
is_unsafe dml = true
is_unsafe into = true
is_unsafe lock = true
is_unsafe other = false

pub read_dialect : String → String
read_dialect backend =
    if backend == "postgresql"
    then "postgres"
    else if backend == "mariadb"
    then "mysql"
    else backend

-- The statement that makes the transaction read-only.
pub read_guard : String → Option String
read_guard backend =
    if backend == "sqlite"
    then some "PRAGMA query_only = ON"
    else if backend == "postgresql"
    then some "SET TRANSACTION READ ONLY"
    else if backend == "mysql" || backend == "mariadb"
    then some "START TRANSACTION READ ONLY"
    else if backend == "clickhouse"
    then some "SET readonly = 1"
    else none

pub is_one_read : List Parsed → Bool
unfolding is_unsafe
is_one_read (p ∷ []) = p.is_query && not (any is_unsafe p.nodes)
is_one_read _ = false

module _ (parse : String → String → Result (List Parsed)) where
  -- The statements that the transaction executes, in their order.
  pub query_track_a : Workspace → String → Bool → Result (List String)
  unfolding is_one_read read_guard read_dialect
  query_track_a w sql false = do
    guard (not w.frozen) (runtime_error "Cannot write to a frozen workspace")
    ok (sql ∷ [])
  query_track_a w sql true = do
    statements ← parse (read_dialect w.backend) sql
    guard (is_one_read statements)
        (value_error "read_only requires one SELECT query without writes or locks")
    elim (read_guard w.backend) [
      | none ↦ err (value_error ("Read-only queries unsupported for " <> w.backend))
      | some first ↦ ok (first ∷ sql ∷ [])
    ]

-- The dumps of both tracks, the first before the second.
pub inspect_both_schemas : Urls → Tools → Workspace → Result (String × String)
inspect_both_schemas urls tools w = do
  a ← (dump_database_schema urls tools w.track_a_url w.backend).0
  b ← (dump_database_schema urls tools w.track_b_url w.backend).0
  ok (a, b)

-- The parts of an SQLAlchemy URL that the translation touches.
pub record EngineUrl : Type 0 where
  pub drivername : String
  pub port : Option ℕ
  pub query : Dict String String

engine_port : Option ℕ → ℕ → Option ℕ
engine_port none default = some default
engine_port (some n) default = some (if n == 0 then default else n)

-- `sqlalchemy_url`, after `make_url`.
pub sqlalchemy_url : EngineUrl → EngineUrl
unfolding engine_port
sqlalchemy_url url =
    if url.drivername == "https"
    then record {
      drivername = "clickhousedb";
      port = engine_port url.port 8443;
      query = Dict.insert "secure" "true" url.query;
    }
    else if url.drivername == "http"
    then record url { drivername = "clickhousedb"; port = engine_port url.port 8123 }
    else url
