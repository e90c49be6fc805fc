-- ===== src/Cluster/Leaks.antt =====
-- `_start_nodes` in infrastructure/providers/clickhouse_cluster.py: a node that runs before the
-- provider knows of it.
use dbwarden_harness.Base.{
  ℕ, suc, String, true, false, none, some, List, [], ◌∷◌, ◌≡◌, ◌≢◌, Option, arith, contains, nat_eq,
  ◌==◌,
}
use dbwarden_harness.World.{Environment, World, call, launched, halted, remove}
use dbwarden_harness.Network
use dbwarden_harness.Cluster.{
  Cluster, ◌then_do◌, assign, launch, connect, start_node, stop_quietly, stop_nodes, stop_keeper,
  remove_network, stop, write_config,
}

contains-remove :
    (c d : ℕ) (cs : List ℕ)
    → (c == d) ≡ false
    → contains cs c ≡ true
    → contains (remove d cs) c ≡ true
unfolding remove
contains-remove c d [] differs h = h
contains-remove c d (e ∷ cs) differs h = ground (arith, contains-remove c d cs)

module _ (env : Environment) where
  stop_nodes-contains :
      (c : ℕ) (cs : List ℕ) (w : World)
      → contains cs c ≡ false
      → contains w.running c ≡ true
      → contains (stop_nodes env cs w).running c ≡ true
  unfolding stop_nodes stop_quietly halted call
  stop_nodes-contains c [] w fresh h = h
  stop_nodes-contains c (d ∷ cs) w fresh h =
      ground (arith, contains-remove c d w.running, stop_nodes-contains c cs (stop_quietly env d w))

  stop_keeper-contains :
      (c : ℕ) (o : Option ℕ) (w : World)
      → o ≢ some c
      → contains w.running c ≡ true
      → contains (stop_keeper env o w).running c ≡ true
  unfolding stop_keeper stop_quietly halted call
  stop_keeper-contains c none w other h = h
  stop_keeper-contains c (some k) w other h = ground (arith, contains-remove c k w.running)

  stop-contains :
      (c : ℕ) (p : Cluster) (w : World)
      → contains p.nodes c ≡ false
      → p.keeper ≢ some c
      → contains w.running c ≡ true
      → contains (stop env p w).2.running c ≡ true
  unfolding stop remove_network call Network.remove
  stop-contains c p w fresh other h = ground (
    arith,
    stop_keeper-contains c p.keeper (stop_nodes env p.nodes w) other
        (stop_nodes-contains c p.nodes w fresh h),
  )

  module _ (hosts : ℕ → String) (mapped : ℕ → ℕ → ℕ) where
    -- A node whose container starts and is then refused by the network runs on after `stop`, where
    -- its number is neither that of a known node nor the Keeper's.
    pub start_node-leaks :
        (file replica : String) (n : ℕ) (p : Cluster) (w : World)
        → p.network ≡ some n
        → contains p.nodes w.next_container ≡ false
        → p.keeper ≢ some w.next_container
        → env.answer w.calls ≡ true
        → env.answer (suc w.calls) ≡ false
        → let (r, q, v) = start_node env hosts mapped file replica p w in
          contains (stop env q v).2.running w.next_container ≡ true
    unfolding start_node ◌then_do◌ assign launch connect launched write_config Network.connect call
    start_node-leaks file replica n p w net fresh other up down =
        let (r, q, v) = start_node env hosts mapped file replica p w in
        stop-contains w.next_container q v (ground arith) (ground arith) (ground arith)
