-- ===== src/Cluster/Cleanup.antt =====
-- `start` and `stop` in infrastructure/providers/clickhouse_cluster.py: what is left behind.
use dbwarden_harness.Base.{
  ℕ, zero, suc, ◌+◌, ◌≤◌, String, true, false, none, some, List, [], ◌∷◌, ◌++◌, ◌≡◌, ◌⊎◌, inl, inr,
  refl, arith, Option-cases, nat_eq,
}
use dbwarden_harness.Base.Result.{is_ok}
use dbwarden_harness.World.{Environment, World, call, sleep, launched, halted, remove}
use dbwarden_harness.Network
use dbwarden_harness.Cluster.Config.{keeper_config}
use dbwarden_harness.Cluster.{
  Cluster, Method, nth, ◌then_do◌, assign, ask, launch, connect, port_loop, attempt_loop,
  wait_for_port, attempts, host_port, look_up, wait_for_node, wait_for_nodes, start_keeper,
  start_node, start_nodes, start_containers, stop_quietly, stop_nodes, stop_keeper, remove_network,
  stop, create_network, or_stop, start, make_config_dir, write_config,
}

-- The provider tracks no container and no network.
abbrev pub IsStopped : Cluster → Type 0
IsStopped p = (p.nodes ≡ []) × (p.node_ports ≡ []) × (p.keeper ≡ none) × (p.network ≡ none)

-- The Keeper is the container `k` and the nodes the two after it; `before` ran already.
abbrev pub IsUp : ℕ → List ℕ → Cluster → World → Type 0
IsUp k before p w =
    (p.nodes ≡ suc k ∷ suc (suc k) ∷ [])
    × (p.keeper ≡ some k)
    × (w.running ≡ suc (suc k) ∷ suc k ∷ k ∷ before)

-- A method that changes neither the provider nor which containers run.
abbrev pub Quiet : Method → Type 0
Quiet m =
    (p : Cluster) (w : World)
    → ((m p w).1 ≡ p)
      × ((m p w).2.running ≡ w.running)
      × ((m p w).2.next_container ≡ w.next_container)

then_do-Quiet : (m k : Method) → Quiet m → Quiet k → Quiet (m then_do k)
unfolding ◌then_do◌
then_do-Quiet m k hm hk p w = ground (arith, hm p w, hk (m p w).1 (m p w).2)

then_do-ok :
    (m k : Method) (p : Cluster) (w : World)
    → is_ok ((m then_do k) p w).0 ≡ true
    → (is_ok (m p w).0 ≡ true) × ((m then_do k) p w ≡ k (m p w).1 (m p w).2)
unfolding ◌then_do◌
then_do-ok m k p w h = ground arith

module _ (env : Environment) where
  pub stop-IsStopped : (p : Cluster) (w : World) → IsStopped (stop env p w).1
  unfolding stop
  stop-IsStopped p w = ground arith

  port_loop-running :
      (fuel deadline : ℕ) (w : World)
      → ((port_loop env fuel deadline w).1.running ≡ w.running)
        × ((port_loop env fuel deadline w).1.next_container ≡ w.next_container)
  unfolding port_loop call sleep
  port_loop-running zero deadline w = (refl, refl)
  port_loop-running (suc fuel) deadline w =
      ground (arith, port_loop-running fuel deadline (sleep 500 (call env (call env w).1).1))

  attempt_loop-running :
      (message : String) (fuel deadline : ℕ) (w : World)
      → ((attempt_loop env message fuel deadline w).1.running ≡ w.running)
        × ((attempt_loop env message fuel deadline w).1.next_container ≡ w.next_container)
  unfolding attempt_loop call sleep
  attempt_loop-running message zero deadline w = (refl, refl)
  attempt_loop-running message (suc fuel) deadline w =
      ground (arith, attempt_loop-running message fuel deadline (sleep 200 (call env w).1))

  wait_for_port-Quiet : (c : ℕ) → Quiet (wait_for_port env c)
  unfolding wait_for_port call
  wait_for_port-Quiet c p w = ground (arith, port_loop-running 120 (w.now + 60000) (call env w).1)

  attempts-Quiet : (message : String) → Quiet (attempts env message)
  unfolding attempts
  attempts-Quiet message p w = ground (arith, attempt_loop-running message 300 (w.now + 60000) w)

  -- What follows the launch of the Keeper's container.
  pub keeper_steps : ℕ → Method
  keeper_steps c =
      assign (λ p. record p { keeper = some c }) then_do connect env c then_do wait_for_port env c

  keeper_steps_ok :
      (c : ℕ) (p : Cluster) (w : World)
      → is_ok (keeper_steps c p w).0 ≡ true
      → ((keeper_steps c p w).1.nodes ≡ p.nodes)
        × ((keeper_steps c p w).1.keeper ≡ some c)
        × ((keeper_steps c p w).2.running ≡ w.running)
        × ((keeper_steps c p w).2.next_container ≡ w.next_container)
  unfolding keeper_steps ◌then_do◌ assign connect call Network.connect
  keeper_steps_ok c p w h =
      let q : Cluster = record p { keeper = some c } in
      ground (arith, wait_for_port-Quiet c q (connect env c q w).2)

  start_keeper_ok :
      (p : Cluster) (w : World)
      → is_ok (start_keeper env p w).0 ≡ true
      → ((start_keeper env p w).1.nodes ≡ p.nodes)
        × ((start_keeper env p w).1.keeper ≡ some w.next_container)
        × ((start_keeper env p w).2.running ≡ w.next_container ∷ w.running)
        × ((start_keeper env p w).2.next_container ≡ suc w.next_container)
  unfolding start_keeper keeper_steps ◌then_do◌ assign launch call launched write_config
      make_config_dir
  start_keeper_ok p w h =
      let q = write_config "keeper_config.xml" keeper_config (make_config_dir env p w).1 in
      ground (arith, keeper_steps_ok w.next_container q (launched (call env (call env w).1).1))

  module _ (hosts : ℕ → String) (mapped : ℕ → ℕ → ℕ) where
    look_up-Quiet : (node : ℕ) → Quiet (look_up env hosts mapped node)
    unfolding look_up host_port call
    look_up-Quiet node p w = ground arith

    wait_for_node-Quiet : (node : ℕ) → Quiet (wait_for_node env hosts mapped node)
    unfolding wait_for_node
    wait_for_node-Quiet node p w = elim (Option-cases (nth node p.nodes)) [
      | inl e ↦ ground (arith, e)
      | inr (c, e) ↦
          rw (e, wait_for_node)
            (then_do-Quiet _ _ (wait_for_port-Quiet c)
              (then_do-Quiet _ _ (look_up-Quiet node) (
                then_do-Quiet _ _ (attempts-Quiet "HTTP ping did not respond")
                  (attempts-Quiet "ClickHouse node did not become ready")))
              p w)
    ]

    wait_for_nodes-Quiet : (node count : ℕ) → Quiet (wait_for_nodes env hosts mapped node count)
    unfolding wait_for_nodes
    wait_for_nodes-Quiet node zero p w = (refl, refl, refl)
    wait_for_nodes-Quiet node (suc count) p w =
        then_do-Quiet _ _ (wait_for_node-Quiet node) (wait_for_nodes-Quiet (suc node) count) p w

    -- A node that is up is the newest container, and the last of the nodes.
    start_node_ok :
        (file replica : String) (p : Cluster) (w : World)
        → is_ok (start_node env hosts mapped file replica p w).0 ≡ true
        → ((start_node env hosts mapped file replica p w).1.nodes
            ≡ p.nodes ++ (w.next_container ∷ []))
          × ((start_node env hosts mapped file replica p w).1.keeper ≡ p.keeper)
          × ((start_node env hosts mapped file replica p w).2.running
              ≡ w.next_container ∷ w.running)
          × ((start_node env hosts mapped file replica p w).2.next_container ≡ suc w.next_container)
    unfolding start_node ◌then_do◌ assign launch connect ask call launched write_config
        Network.connect
    start_node_ok file replica p w h = ground arith

    start_containers_ok :
        (p : Cluster) (w : World)
        → p.nodes ≡ []
        → is_ok (start_containers env hosts mapped p w).0 ≡ true
        → IsUp w.next_container w.running
            (start_containers env hosts mapped p w).1
            (start_containers env hosts mapped p w).2
    unfolding start_containers start_nodes ◌then_do◌
    start_containers_ok p w e h =
        let node = start_node env hosts mapped in
        let (r₁, p₁, w₁) = start_keeper env p w in
        let (r₂, p₂, w₂) = node "cluster-1.xml" "ch-node1" p₁ w₁ in
        let (r₃, p₃, w₃) = node "cluster-2.xml" "ch-node2" p₂ w₂ in
        ground (
          arith,
          start_keeper_ok p w,
          start_node_ok "cluster-1.xml" "ch-node1" p₁ w₁,
          start_node_ok "cluster-2.xml" "ch-node2" p₂ w₂,
          wait_for_nodes-Quiet 0 2 p₃ w₃,
        )

    -- A start of a stopped cluster leaves either a failure and a provider that tracks no container
    -- and no network, or a Keeper and two nodes that are tracked and run.
    pub start_outcome :
        (p : Cluster) (w : World)
        → IsStopped p
        → (IsStopped (start env hosts mapped p w).1
            × (is_ok (start env hosts mapped p w).0 ≡ false))
          ⊎ IsUp w.next_container w.running
              (start env hosts mapped p w).1
              (start env hosts mapped p w).2
    unfolding start or_stop create_network ◌then_do◌ Network.create call
    start_outcome p w stopped =
        let q : Cluster = record p { network = some w.calls } in
        let (r, q', v) = start_containers env hosts mapped q (call env w).1 in
        ground
          (arith, stop-IsStopped q' v, start_containers_ok q (call env w).1, look_up-Quiet 0 q' v)

  stop-running :
      (k : ℕ) (before : List ℕ) (p : Cluster) (w : World)
      → IsUp k before p w
      → ((n : ℕ) → w.calls ≤ n → env.answer n ≡ true)
      → (stop env p w).2.running ≡ before
  unfolding stop stop_nodes stop_quietly stop_keeper remove_network call halted remove
      Network.remove
  stop-running k before p w up answers =
      ground (arith, answers w.calls, answers (suc w.calls), answers (suc (suc w.calls)))

  module _ (hosts : ℕ → String) (mapped : ℕ → ℕ → ℕ) where
    -- After a start of a stopped cluster that succeeds and a stop in which every call is answered,
    -- exactly the containers run that ran before, whatever the calls of the start answered on the
    -- way.
    pub start-stop :
        (p : Cluster) (w : World)
        → IsStopped p
        → is_ok (start env hosts mapped p w).0 ≡ true
        → ((n : ℕ) → (start env hosts mapped p w).2.calls ≤ n → env.answer n ≡ true)
        → (stop env (start env hosts mapped p w).1 (start env hosts mapped p w).2).2.running
          ≡ w.running
    start-stop p w stopped h answers =
        let (r, q, v) = start env hosts mapped p w in
        elim (start_outcome hosts mapped p w stopped) [
          | inl (_, failed) ↦ cc
          | inr up ↦ stop-running w.next_container w.running q v up answers
        ]
