-- ===== src/Samples.antt =====
-- Concrete data for the tests: programs that succeed, libraries that answer, and a workspace.
use dbwarden_harness.Base.{String, true, false, none, some, [], ◌∷◌, ◌++◌, ◌<>◌}
use dbwarden_harness.Base.Result.{ok}
use dbwarden_harness.Disk.{Disk, Programs}
use dbwarden_harness.Providers.{Provider, file_backed}
use dbwarden_harness.Workspace.{Workspace, Paths}
use dbwarden_harness.Reference.{Attribute, Sqlalchemy}
use dbwarden_harness.Comparator.{Statement, Sqlglot}
use dbwarden_harness.Bundle.{Evidence}
use dbwarden_harness.Mutations.Syntax.{Expr}
use dbwarden_harness.Server.{Host}

-- A program that leaves no file.
abbrev pub programs : Programs
programs = record {
  execute = λ log args. record { args = args; returncode = 0; stdout = "done"; stderr = "" };
  change = λ log args files. [];
  dump = λ log url backend. some ("CREATE TABLE users");
}

abbrev pub disk : Disk
disk = record { files = []; log = [] }

abbrev provider : Provider
provider =
    file_backed (record { path = some "/w/track_a.db"; owns_directory = false; directory = none })

abbrev pub workspace : Workspace
workspace = record {
  workspace_id = "ws-1";
  backend = "sqlite";
  db_version = some "local";
  work_dir = "/w";
  network = none;
  track_a_provider = provider;
  track_b_provider = provider;
  track_a_url = "sqlite:////w/track_a.db";
  track_b_url = "sqlite:////w/track_b.db";
  created_at = 5;
  frozen = false;
  mutations = [];
  base_models_source = some "base";
  current_models_source = some "mutated";
}

abbrev pub paths : Paths
paths = record {
  resolve = λ text. text ∷ [];
  resolve_under = λ root text. root ++ (text ∷ []);
  is_absolute = λ text. false;
  has_drive = λ text. false;
}

abbrev statement : String → Statement
statement dump = record {
  is_command = false;
  table = some "users";
  creates = none;
  items = [];
  source = dump;
}

abbrev pub sqlglot : Sqlglot
sqlglot = record {
  parse = λ dialect dump. ok (some (statement dump) ∷ []);
  sql = λ dialect s. ok s.source;
  primary_key = λ dialect name. "PRIMARY KEY (" <> name <> ")";
}

abbrev declarative_base : Attribute (Unit {0})
declarative_base = record { is_class = true; metadata = some tt; creates = true }

abbrev pub alchemy : Sqlalchemy (Unit {0})
alchemy = record {
  load = λ source. ok (declarative_base ∷ []);
  drop_all = λ log url base. none;
  create_all = λ log url base. none;
  execute = λ log url sql. none;
  column_ddl = λ url base table column. ok "age INTEGER";
  table_name = λ url base table. ok "users";
  message = λ e. "error";
}

abbrev pub evidence : Evidence
evidence = record {
  dumps = λ j. "{}";
  dumps_manifest = λ entries. "{}";
  sha256 = λ content. "sha:" <> content;
  logs = λ p. "";
  str = λ j. "dict";
  under_test = "latest";
}

abbrev pub host : Host (Unit {0})
host = record {
  paths = paths;
  programs = programs;
  repr = λ s. s;
  loads = λ s. none;
  alchemy = alchemy;
  sqlglot = sqlglot;
  upper = λ s. s;
  unified = λ a b. a <> b;
  evidence = evidence;
  bundle_dir = λ w d. "reports" ∷ "now" ∷ [];
  parse = λ source. ok [];
  parse_expression = λ source. ok (Expr.other source);
  unparse = λ tree. "tree";
  literal = λ j. Expr.constant j;
}
