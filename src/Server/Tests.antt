-- ===== src/Server/Tests.antt =====
-- Witnesses for the server: a workspace that is tested, and a frozen one.
use dbwarden_harness.Base.{
  ℕ, String, Bool, true, false, Option, none, some, List, [], ◌∷◌, ◌++◌, ◌≡◌, ◌≢◌, ◌↔◌, refl,
}
use dbwarden_harness.Base.Json.{end}
use dbwarden_harness.World.{Environment, World}
use dbwarden_harness.Config.{HarnessMcpConfig}
use dbwarden_harness.Disk.{Programs}
use dbwarden_harness.Workspace.{Workspace, freeze}
use dbwarden_harness.Tracks.{TrackResult, failed}
use dbwarden_harness.Comparator.{ComparisonResult, empty_summary}
use dbwarden_harness.Bundle.{TwoTrackResult}
use dbwarden_harness.Samples.{programs, disk, workspace, host}
use dbwarden_harness.Server.{Server, Host, stopped}
use dbwarden_harness.Server.Tools.{Tool, write_tool, mutate_tool, test_tool, perform_all}
use dbwarden_harness.Server.Frozen.{found, perform_all-frozen}
use dbwarden_harness.Server.Lifecycle.{cleanup, cleanup_empties}

abbrev world : World
world = record {
  calls = 0;
  now = 0;
  next_container = 0;
  running = [];
  objects = λ c. [];
  unlisted = λ c. [];
  file_objects = λ path. [];
  links = [];
}

-- A server with one workspace.
abbrev server : Workspace → Server
server w = record {
  manager = record {
    workspaces = ("ws-1", w) ∷ [];
    pool = record { queues = []; stopped = false; world = world };
  };
  disk = disk;
}

abbrev calls : List Tool
calls =
    write_tool "ws-1" "app/models.py" "other"
    ∷ mutate_tool "ws-1" end
    ∷ test_tool "ws-1" "nuclear"
    ∷ []

perform_all-frozen_example :
    found "ws-1" (perform_all host calls (server (freeze workspace))) ≡ some (freeze workspace)
unfolding freeze dbwarden_harness.Base.Dict.lookup dbwarden_harness.Base.string_eq
perform_all-frozen_example =
    perform_all-frozen host calls "ws-1" (freeze workspace) (server (freeze workspace)) refl refl

abbrev track : TrackResult
track = record {
  success = true;
  stage = "complete";
  error = "";
  schema_dump = "CREATE TABLE users";
  plan = none;
}

-- The report of a test in which both tracks make the same schema.
abbrev report : TwoTrackResult
report = record {
  passed = true;
  track_a = track;
  track_b = track;
  comparator = record { identical = true; diff = ""; summary = empty_summary };
  classification = "95";
  proof_bundle_path = none;
  ai_may_inspect = true;
}

-- The same libraries with a dbwarden whose commands fail.
abbrev broken : Host (Unit {0})
broken = record host {
  programs = record programs {
    execute = λ log args. record { args = args; returncode = 1; stdout = ""; stderr = "boom" };
  };
}

abbrev env : Environment
env = record { answer = λ n. true; elapsed = λ n. 1000; temp_dir = λ n. "/tmp/harness" }

abbrev address : ℕ → String
address c = "localhost:5432"

abbrev config : HarnessMcpConfig
config = record {
  max_workspaces = 2;
  bug_reports_dir = "/reports";
  workspace_root = "/tmp";
  warm_pool_enabled = false;
  warm_pool_count = [];
  db_versions = ("sqlite", "local") ∷ [];
}

cleanup_empties_example :
    ((cleanup env "3.45" address config (server workspace).manager).workspaces ≡ [])
    × ((cleanup env "3.45" address config (server workspace).manager).pool.stopped ≡ true)
cleanup_empties_example =
    cleanup_empties env "3.45" address config (server workspace).manager (refl, tt)
