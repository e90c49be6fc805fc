-- ===== src/Workspace/Tests.antt =====
-- Witnesses for the workspaces: two SQLite workspaces, and paths inside one.
use dbwarden_harness.Base.{
  ℕ, ◌<◌, String, true, false, none, List, [], ◌∷◌, ◌++◌, string_eq, nat_eq, option_eq, contains,
  ◌≡◌, refl,
}
use dbwarden_harness.Base.Dict
use dbwarden_harness.Base.Result.{is_ok}
use dbwarden_harness.World.{Environment}
use dbwarden_harness.Config.{HarnessMcpConfig}
use dbwarden_harness.Samples.{workspace, paths}
use dbwarden_harness.Workspace.{Manager, resolve_path, canonical, initialize}
use dbwarden_harness.Workspace.Containment.{resolve_path-inside}
use dbwarden_harness.Workspace.Registry.{Registers, initialize_lem}

abbrev env : Environment
env = record { answer = λ n. true; elapsed = λ n. 1000; temp_dir = λ n. "/tmp/harness" }

abbrev address : ℕ → String
address c = "localhost:5432"

abbrev config : HarnessMcpConfig
config = record {
  max_workspaces = 2;
  bug_reports_dir = "/reports";
  workspace_root = "/tmp";
  warm_pool_enabled = true;
  warm_pool_count = ("postgresql", 2) ∷ ("sqlite", 0) ∷ [];
  db_versions = ("postgresql", "16") ∷ ("sqlite", "local") ∷ [];
}

abbrev manager : Manager
manager = record {
  workspaces = ("ws-1", workspace) ∷ [];
  pool = record {
    queues = [];
    stopped = false;
    world = record {
      calls = 0;
      now = 0;
      next_container = 0;
      running = [];
      objects = λ c. [];
      unlisted = λ c. [];
      file_objects = λ path. [];
      links = [];
    };
  };
}

-- The path of the models.
abbrev models : List String
models = "/w" ∷ "app/models.py" ∷ []

resolve_path-inside_example :
    (models ≡ models)
    × ((rest : List String) × (models ≡ ("/w" ∷ []) ++ rest))
    × (paths.is_absolute "app/models.py" ≡ false)
    × (paths.has_drive "app/models.py" ≡ false)
unfolding resolve_path string_eq
resolve_path-inside_example = resolve_path-inside paths workspace "app/models.py" models refl

initialize_lem_example :
    let r = initialize env "3.45" address config "SQLite" none none "2" 9 manager in
    Registers env "3.45" address config (canonical "SQLite") manager r
    × (is_ok r.0 ≡ true
        → (1 < 2) × (contains (Dict.keys config.db_versions) (canonical "SQLite") ≡ true))
initialize_lem_example = initialize_lem env "3.45" address config "SQLite" none none "2" 9 manager
