-- ===== src/Server/Tools.antt =====
-- The tools that act on one existing workspace, as one step of the server.
use dbwarden_harness.Base.{String, List, [], ◌∷◌}
use dbwarden_harness.Base.Json.{Fields}
use dbwarden_harness.Server.{Server, Host, write_model_file, apply_mutation, run_two_track_test}

-- A call of a tool that may change the state. The first text is the workspace's id.
pub data Tool : Type 0 where
  write_tool : String → String → String → Tool
  mutate_tool : String → Fields → Tool
  test_tool : String → String → Tool

module _ {M : Type 0} (host : Host M) where
  unfoldable pub perform : Tool → Server → Server
  perform (write_tool id relative content) s = (write_model_file host id relative content s).1
  perform (mutate_tool id mutation) s = (apply_mutation host id mutation s).1
  perform (test_tool id mode) s = (run_two_track_test host id mode s).1

  unfoldable pub perform_all : List Tool → Server → Server
  unfolding perform
  perform_all [] s = s
  perform_all (t ∷ ts) s = perform_all ts (perform t s)
