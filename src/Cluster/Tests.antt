-- ===== src/Cluster/Tests.antt =====
-- Witnesses for the ClickHouse cluster: Docker answers every call, or all but one.
use dbwarden_harness.Base.{
  ℕ, suc, ◌+◌, ◌≤◌, String, ◌<>◌, Bool, true, false, not, Option, none, some, List, [], ◌∷◌, ◌==◌,
  nat_eq, string_eq, contains, ◌≡◌, ◌≢◌, ◌⊎◌, refl, arith, if◌then◌else◌,
}
use dbwarden_harness.Base.Result.{is_ok}
use dbwarden_harness.World.{Environment, World}
use dbwarden_harness.Cluster.{Cluster, new_cluster, start, start_node, stop, reset}
use dbwarden_harness.Cluster.Cleanup.{IsStopped, IsUp, start-stop, start_outcome}
use dbwarden_harness.Cluster.Leaks.{start_node-leaks}

abbrev env : Environment
env = record { answer = λ n. true; elapsed = λ n. 10; temp_dir = λ n. "/tmp/dbwarden-ch-1" }

-- The second call fails.
abbrev refusing : Environment
refusing = record env { answer = λ n. not (n == 1) }

abbrev world : World
world = record {
  calls = 0;
  now = 0;
  next_container = 8;
  running = 7 ∷ [];
  objects = λ c. "users" ∷ "posts" ∷ [];
  unlisted = λ c. [];
  file_objects = λ path. [];
  links = [];
}

abbrev hosts : ℕ → String
hosts c = "localhost"

abbrev mapped : ℕ → ℕ → ℕ
mapped c port = port + c

abbrev stopped : Cluster
stopped = record {
  image = "clickhouse/clickhouse-server:24.3";
  keeper_image = "clickhouse/clickhouse-keeper:24.3";
  database = "harness";
  network = none;
  keeper = none;
  nodes = [];
  node_ports = [];
  config_dir = none;
}

-- The network and the Keeper are up.
abbrev half : Cluster
half = record stopped { network = some 3; keeper = some 5 }

abbrev running : Cluster
running = record half { nodes = 6 ∷ 7 ∷ []; node_ports = 8129 ∷ 8130 ∷ [] }

start-stop_example :
    (stop env
      (start env hosts mapped stopped world).1
      (start env hosts mapped stopped world).2).2.running
    ≡ 7 ∷ []
unfolding start dbwarden_harness.Cluster.◌then_do◌ dbwarden_harness.Cluster.create_network
    dbwarden_harness.Network.create dbwarden_harness.World.call dbwarden_harness.Cluster.or_stop
    dbwarden_harness.Cluster.start_containers dbwarden_harness.Cluster.start_keeper
    dbwarden_harness.Cluster.assign dbwarden_harness.Cluster.launch dbwarden_harness.Cluster.connect
    dbwarden_harness.Network.connect dbwarden_harness.Cluster.wait_for_port
    dbwarden_harness.Cluster.port_loop dbwarden_harness.World.launched
    dbwarden_harness.Cluster.start_nodes start_node dbwarden_harness.Base.Dict.insert nat_eq
    string_eq dbwarden_harness.Cluster.ask dbwarden_harness.Cluster.attempt_loop
    dbwarden_harness.Cluster.attempts dbwarden_harness.Cluster.host_port
    dbwarden_harness.Cluster.look_up dbwarden_harness.Cluster.make_config_dir
    dbwarden_harness.Cluster.nth dbwarden_harness.Cluster.remove_network stop
    dbwarden_harness.Cluster.stop_keeper dbwarden_harness.Cluster.stop_nodes
    dbwarden_harness.Cluster.stop_quietly dbwarden_harness.Cluster.wait_for_node
    dbwarden_harness.Cluster.wait_for_nodes dbwarden_harness.Cluster.write_config
    dbwarden_harness.Network.remove dbwarden_harness.World.halted dbwarden_harness.World.remove
    dbwarden_harness.World.sleep dbwarden_harness.Base.ℕ_discrete
start-stop_example =
    start-stop env hosts mapped stopped world (refl, refl, refl, refl) refl (λ n h. refl)

start_outcome_example :
    (IsStopped (start refusing hosts mapped stopped world).1
      × (is_ok (start refusing hosts mapped stopped world).0 ≡ false))
    ⊎ IsUp 8
        (7 ∷ [])
        (start refusing hosts mapped stopped world).1
        (start refusing hosts mapped stopped world).2
start_outcome_example = start_outcome refusing hosts mapped stopped world (refl, refl, refl, refl)

start_node-leaks_example :
    let (r, q, v) = start_node refusing hosts mapped "cluster-1.xml" "ch-node1" half world in
    contains (stop refusing q v).2.running 8 ≡ true
unfolding nat_eq
start_node-leaks_example =
    start_node-leaks refusing hosts mapped "cluster-1.xml" "ch-node1" 3 half world refl refl
      (ground arith) refl refl
