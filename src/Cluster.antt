-- ===== src/Cluster.antt =====
-- infrastructure/providers/clickhouse_cluster.py: a Keeper and two ClickHouse nodes on one network,
-- which start together or not at all. `diagnostics` is left out.
pub mod Config
pub mod Cleanup
pub mod Leaks
pub mod Tables
pub mod Waiting
mod Tests
use mathlib.Core.Option.{get_or}
use dbwarden_harness.Base.{
  ℕ, zero, suc, ◌+◌, String, ◌<>◌, Bool, true, false, not, Option, none, some, List, [], ◌∷◌, ◌++◌,
  ◌==◌, nat_eq, string_eq, if◌then◌else◌, ltb, select,
}
use dbwarden_harness.Base.Dict
use dbwarden_harness.Base.Dict.{Dict}
use dbwarden_harness.Base.Text.{after_last?}
use dbwarden_harness.Base.Result.{Result, ok, err, runtime_error, timeout_error, external_error}
use dbwarden_harness.World.{Environment, World, call, sleep, launched, halted}
use dbwarden_harness.Network
use dbwarden_harness.Cluster.Config.{keeper_config, cluster_config}

-- A temporary directory with its files.
pub record ConfigDir : Type 0 where
  pub name : String
  pub files : Dict String String

-- `ClickHouseClusterProvider`: containers and the network by their numbers.
pub record Cluster : Type 0 where
  pub image : String
  pub keeper_image : String
  pub database : String
  pub network : Option ℕ
  pub keeper : Option ℕ
  pub nodes : List ℕ
  pub node_ports : List ℕ
  pub config_dir : Option ConfigDir

pub new_cluster : String → String → String → Cluster
new_cluster image keeper_image database = record {
  image = image;
  keeper_image = keeper_image;
  database = database;
  network = none;
  keeper = none;
  nodes = [];
  node_ports = [];
  config_dir = none;
}

-- `image.rsplit(":", 1)[-1]`
pub version : Cluster → String
version p = get_or (after_last? 58 p.image) p.image

-- A method that returns nothing: it leaves its outcome, the provider and the world.
abbrev pub Method : Type 0
Method = Cluster → World → Result (Unit {0}) × Cluster × World

-- One statement after another: an exception ends the method.
infixr 4 ◌then_do◌
pub ◌then_do◌ : Method → Method → Method
◌then_do◌ m k p w = let (r, p', w') = m p w in elim r [ err e ↦ (err e, p', w') | ok _ ↦ k p' w' ]

pub assign : (Cluster → Cluster) → Method
assign f p w = (ok tt, f p, w)

pub nth : ℕ → List ℕ → Option ℕ
nth n [] = none
nth zero (c ∷ cs) = some c
nth (suc n) (c ∷ cs) = nth n cs

-- `write_text` into the temporary directory.
pub write_config : String → String → Cluster → Cluster
write_config file content p = record p {
  config_dir = elim p.config_dir [
    | none ↦ none
    | some dir ↦ some (record dir { files = Dict.insert file content dir.files })
  ];
}

drop_table : ℕ → String → World → World
drop_table c table w = record w {
  objects = λ d. if d == c then select (λ t. not (t == table)) (w.objects c) else w.objects d;
}

module _ (env : Environment) where
  -- A call that changes nothing the model sees.
  pub ask : String → Method
  ask what p w =
      let (up, w') = call env w in ((if up then ok tt else err (external_error what)), p, w')

  -- The container that Docker makes and starts, handed to the rest.
  unfoldable pub launch : (ℕ → Method) → Method
  launch rest p w =
      let (up, w') = call env w in
      if up
      then rest w'.next_container p (launched w')
      else (err (external_error "container.start"), p, w')

  unfoldable pub connect : ℕ → Method
  connect c p w = elim p.network [
    | none ↦ (err (external_error "AssertionError"), p, w)
    | some n ↦ let (r, w') = Network.connect env (record { network_id = n }) c w in (r, p, w')
  ]

  -- The loop of `_wait_for_port`. The fuel bounds the attempts.
  pub port_loop : ℕ → ℕ → World → Result (Unit {0}) × World
  port_loop zero deadline w = (err (timeout_error "port"), w)
  port_loop (suc fuel) deadline w =
      let (known, w₁) = call env w in
      let (up, w₂) = call env w₁ in
      let later = port_loop fuel deadline (sleep 500 w₂) in
      if ltb w.now deadline
      then (if known
          then (if up then (ok tt, w₂) else later)
          else (err (external_error "get_exposed_port"), w₁))
      else (err (timeout_error "port"), w)

  -- The loops of `_wait_for_node`: an attempt that fails sleeps a fifth of a second.
  pub attempt_loop : String → ℕ → ℕ → World → Result (Unit {0}) × World
  attempt_loop message zero deadline w = (err (timeout_error message), w)
  attempt_loop message (suc fuel) deadline w =
      let (up, w') = call env w in
      let later = attempt_loop message fuel deadline (sleep 200 w') in
      if ltb w.now deadline
      then (if up then (ok tt, w') else later)
      else (err (timeout_error message), w)

  -- A minute holds 120 sleeps of half a second and 300 of a fifth.
  pub wait_for_port : ℕ → Method
  wait_for_port c p w =
      let (found, w₁) = call env w in
      let (r, w₂) = port_loop 120 (w.now + 60000) w₁ in
      if found then (r, p, w₂) else (err (external_error "get_container_host_ip"), p, w₁)

  pub attempts : String → Method
  attempts message p w = let (r, w') = attempt_loop message 300 (w.now + 60000) w in (r, p, w')

  pub make_config_dir : Method
  make_config_dir p w = (
    ok tt,
    record p { config_dir = some (record { name = env.temp_dir w.calls; files = [] }) },
    (call env w).1,
  )

  pub start_keeper : Method
  unfolding make_config_dir write_config
  start_keeper =
      make_config_dir
      then_do assign (write_config "keeper_config.xml" keeper_config)
      then_do launch
          λ c. assign (λ p. record p { keeper = some c }) then_do connect c then_do wait_for_port c

  -- A container that is stopped, its errors suppressed.
  pub stop_quietly : ℕ → World → World
  stop_quietly c w = let (down, w') = call env w in if down then halted c w' else w'

  pub stop_nodes : List ℕ → World → World
  stop_nodes [] w = w
  stop_nodes (c ∷ cs) w = stop_nodes cs (stop_quietly c w)

  pub stop_keeper : Option ℕ → World → World
  stop_keeper none w = w
  stop_keeper (some c) w = stop_quietly c w

  pub remove_network : Option ℕ → World → World
  remove_network none w = w
  remove_network (some n) w = Network.remove env (record { network_id = n }) w

  -- The removal of the directory is the one step whose errors escape.
  pub stop : Method
  unfolding stop_keeper remove_network
  stop p w =
      let w₁ = remove_network p.network (stop_keeper p.keeper (stop_nodes p.nodes w)) in
      let p₁ : Cluster = record p { nodes = []; node_ports = []; keeper = none; network = none } in
      let (gone, w₂) = call env w₁ in
      elim p.config_dir [
        | none ↦ (ok tt, p₁, w₁)
        | some _ ↦
            if gone
            then (ok tt, record p₁ { config_dir = none }, w₂)
            else (err (external_error "cleanup"), p₁, w₂)
      ]

  pub create_network : Method
  create_network p w =
      let (r, w') = Network.create env w in
      elim r [
        | err e ↦ (err e, p, w')
        | ok net ↦ (ok tt, record p { network = some net.network_id }, w')
      ]

  -- `except Exception: self.stop(); raise`: an error of the cleanup takes the place of the first.
  pub or_stop : Method → Method
  or_stop m p w =
      let (r, p₁, w₁) = m p w in
      let (s, p₂, w₂) = stop p₁ w₁ in
      elim r [
        | ok _ ↦ (ok tt, p₁, w₁)
        | err e ↦ (elim s [ ok _ ↦ err e | err later ↦ err later ], p₂, w₂)
      ]

  pub drop_tables : ℕ → List String → World → Result (Unit {0}) × World
  unfolding drop_table
  drop_tables c [] w = (ok tt, w)
  drop_tables c (table ∷ tables) w =
      let (done, w') = call env w in
      let rest = drop_tables c tables (drop_table c table w') in
      if done then rest else (err (external_error "DROP TABLE"), w')

  -- `hosts` is the address of a container, and `mapped` the host's port for a port of a container.
  module _ (hosts : ℕ → String) (mapped : ℕ → ℕ → ℕ) where
    -- `host_port`: both parts are calls of the container.
    pub host_port : ℕ → Cluster → World → Result (String × ℕ) × World
    unfolding nth
    host_port node p w = elim (nth node p.nodes) [
      | none ↦ (err (runtime_error "Provider is not started"), w)
      | some c ↦
          let (found, w₁) = call env w in
          let (known, w₂) = call env w₁ in
          if found
          then (if known
              then (ok (hosts c, mapped c 8123), w₂)
              else (err (external_error "get_exposed_port"), w₂))
          else (err (external_error "get_container_host_ip"), w₁)
    ]

    pub look_up : ℕ → Method
    look_up node p w =
        let (r, w') = host_port node p w in
        elim r [ err e ↦ (err e, p, w') | ok _ ↦ (ok tt, p, w') ]

    -- `_wait_for_node`. A number out of range is Python's IndexError.
    pub wait_for_node : ℕ → Method
    unfolding nth attempts
    wait_for_node node p w = elim (nth node p.nodes) [
      | none ↦ (err (external_error "IndexError"), p, w)
      | some c ↦
          (wait_for_port c
              then_do look_up node
              then_do attempts "HTTP ping did not respond"
              then_do attempts "ClickHouse node did not become ready")
            p w
    ]

    -- `for node in range(...)`: `count` nodes from `node` on.
    pub wait_for_nodes : ℕ → ℕ → Method
    wait_for_nodes node zero p w = (ok tt, p, w)
    wait_for_nodes node (suc count) p w =
        (wait_for_node node then_do wait_for_nodes (suc node) count) p w

    -- One round of the loop of `_start_nodes`: a container enters the lists when it is connected and its
    -- port is known.
    pub start_node : String → String → Method
    unfolding write_config
    start_node file replica =
        assign (write_config file (cluster_config replica))
        then_do launch λ c.
          connect c
          then_do assign (λ p. record p { nodes = p.nodes ++ (c ∷ []) })
          then_do ask "get_exposed_port"
          then_do assign (λ p. record p { node_ports = p.node_ports ++ (mapped c 8123 ∷ []) })

    pub start_nodes : Method
    start_nodes =
        start_node "cluster-1.xml" "ch-node1"
        then_do start_node "cluster-2.xml" "ch-node2"
        then_do wait_for_nodes 0 2

    pub start_containers : Method
    start_containers = start_keeper then_do start_nodes

    -- What `start` does before it returns the URL of the first node.
    pub start : Method
    start p w = elim p.nodes [
      | [] ↦ (create_network then_do or_stop start_containers then_do look_up 0) p w
      | c ∷ cs ↦ look_up 0 p w
    ]

    -- The tables of the first node: the client, `SHOW TABLES`, and one statement each.
    pub reset : Method
    reset p w = elim p.nodes [
      | [] ↦ (err (runtime_error "Provider is not started"), p, w)
      | c ∷ cs ↦
          (look_up 0 then_do ask "get_client" then_do ask "SHOW TABLES" then_do λ q v.
          let (r, v') = drop_tables c (v.objects c) v in (r, q, v'))
            p w
    ]

    module _ (str : ℕ → String) where
      pub url : ℕ → Cluster → World → Result String × World
      url node p w =
          let (r, w') = host_port node p w in
          (
            elim r [
              | err e ↦ err e
              | ok (host, port) ↦
                  ok (
                    "http://clickhouse:clickhouse@" <> host <> ":" <> str port <> "/" <> p.database)
            ],
            w',
          )
