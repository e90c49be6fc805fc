-- ===== src/Config.antt =====
-- mcp_server/config.py: the settings, read from the environment variables.
use mathlib.Core.Option.{get_or}
use dbwarden_harness.Base.{ℕ, String, Bool, [], ◌∷◌, ◌==◌, string_eq}
use dbwarden_harness.Base.Dict
use dbwarden_harness.Base.Dict.{Dict}
use dbwarden_harness.Base.Result.{Result, ok, ◌>>=◌}

pub record HarnessMcpConfig : Type 0 where
  pub max_workspaces : ℕ
  pub bug_reports_dir : String
  pub workspace_root : String
  pub warm_pool_enabled : Bool
  pub warm_pool_count : Dict String ℕ
  pub db_versions : Dict String String

-- `to_int` is Python's `int`, which raises ValueError; `resolve` is `Path.resolve`.
module _ (to_int : String → Result ℕ) (resolve : String → String) where
  variable : Dict String String → String → String → String
  variable environ name default = get_or (Dict.lookup name environ) default

  -- `os.environ` is the argument. A pool size below zero counts as zero, as in `range`.
  pub from_env : Dict String String → Result HarnessMcpConfig
  unfolding variable Dict.lookup
  from_env environ = do
    max_workspaces ← to_int (variable environ "MCP_MAX_WORKSPACES" "20")
    postgresql ← to_int (variable environ "MCP_WARM_POOL_POSTGRES" "5")
    mysql ← to_int (variable environ "MCP_WARM_POOL_MYSQL" "3")
    mariadb ← to_int (variable environ "MCP_WARM_POOL_MARIADB" "3")
    clickhouse ← to_int (variable environ "MCP_WARM_POOL_CLICKHOUSE" "3")
    ok (record {
      max_workspaces = max_workspaces;
      bug_reports_dir = resolve (variable environ "DBWARDEN_HARNESS_BUG_REPORTS_DIR" "bug-reports");
      workspace_root = variable environ "DBWARDEN_HARNESS_ROOT" "/tmp/dbwarden-mcp-workspaces";
      warm_pool_enabled = variable environ "MCP_WARM_POOL_ENABLED" "1" == "1";
      warm_pool_count =
          ("postgresql", postgresql)
          ∷ ("mysql", mysql)
          ∷ ("mariadb", mariadb)
          ∷ ("clickhouse", clickhouse)
          ∷ ("sqlite", 0)
          ∷ [];
      db_versions =
          ("postgresql", variable environ "MCP_POSTGRES_VERSION" "16")
          ∷ ("mysql", variable environ "MCP_MYSQL_VERSION" "8.0")
          ∷ ("mariadb", variable environ "MCP_MARIADB_VERSION" "11.4")
          ∷ ("clickhouse", variable environ "MCP_CLICKHOUSE_VERSION" "24.3")
          ∷ ("sqlite", "local")
          ∷ [];
    })
