-- ===== src/Cluster/Waiting.antt =====
-- The waiting loops and `reset` in infrastructure/providers/clickhouse_cluster.py.
use native.Mathlib.Nat.{suc-add}
use dbwarden_harness.Base.{
  ℕ, zero, suc, ◌+◌, ◌*◌, ◌≤◌, String, true, List, [], ◌∷◌, ◌≡◌, ◌≢◌, ap, arith, string_eq, nat_eq,
}
use dbwarden_harness.Base.Result.{is_ok}
use dbwarden_harness.World.{Environment, World, call, sleep}
use dbwarden_harness.Cluster.Tables.{without_all, drop_tables-objects, drop_tables_others}
use dbwarden_harness.Cluster.{
  Cluster, ◌then_do◌, ask, host_port, port_loop, attempt_loop, look_up, reset,
}

module _ (env : Environment) where
  port_loop_fuel :
      (fuel more deadline : ℕ) (w : World)
      → deadline ≤ w.now + 500 * fuel
      → port_loop env (fuel + more) deadline w ≡ port_loop env fuel deadline w
  unfolding port_loop sleep call
  port_loop_fuel zero zero deadline w h = ground arith
  port_loop_fuel zero (suc more) deadline w h = ground arith
  port_loop_fuel (suc fuel) more deadline w h =
      rw suc-add
        (ground (arith, port_loop_fuel fuel more deadline (sleep 500 (call env (call env w).1).1)))

  attempt_loop_fuel :
      (message : String) (fuel more deadline : ℕ) (w : World)
      → deadline ≤ w.now + 200 * fuel
      → attempt_loop env message (fuel + more) deadline w ≡ attempt_loop env message fuel deadline w
  unfolding attempt_loop sleep call
  attempt_loop_fuel message zero zero deadline w h = ground arith
  attempt_loop_fuel message zero (suc more) deadline w h = ground arith
  attempt_loop_fuel message (suc fuel) more deadline w h =
      rw suc-add
        (ground (arith, attempt_loop_fuel message fuel more deadline (sleep 200 (call env w).1)))

  pub loops-fuel :
      (message : String) (more : ℕ) (w v : World)
      → w.now ≤ v.now
      → (port_loop env (120 + more) (w.now + 60000) v ≡ port_loop env 120 (w.now + 60000) v)
        × (attempt_loop env message (300 + more) (v.now + 60000) v
            ≡ attempt_loop env message 300 (v.now + 60000) v)
  loops-fuel message more w v h = (
    port_loop_fuel 120 more (w.now + 60000) v (omega arith),
    attempt_loop_fuel message 300 more (v.now + 60000) v (omega arith),
  )

module _ (env : Environment) where
  module _ (hosts : ℕ → String) (mapped : ℕ → ℕ → ℕ) where
    look_up-objects :
        (node : ℕ) (p : Cluster) (w : World)
        → (look_up env hosts mapped node p w).2.objects ≡ w.objects
    unfolding look_up host_port call
    look_up-objects node p w = ground arith

    -- A reset that succeeds leaves no table on the first node, and the objects of every other
    -- container as they were.
    pub reset_ok :
        (c : ℕ) (cs : List ℕ) (p : Cluster) (w : World)
        → p.nodes ≡ c ∷ cs
        → is_ok (reset env hosts mapped p w).0 ≡ true
        → ((reset env hosts mapped p w).2.objects c ≡ [])
          × ((d : ℕ) → d ≢ c → (reset env hosts mapped p w).2.objects d ≡ w.objects d)
    unfolding reset ◌then_do◌ ask call
    reset_ok c cs p w e h =
        let v = (call env (call env (look_up env hosts mapped 0 p w).2).1).1 in
        (
          ground (arith, drop_tables-objects env c (v.objects c) v, without_all (v.objects c)),
          λ d n. ground (
            arith,
            drop_tables_others env c d (v.objects c) v n,
            ap (λ (f : ℕ → List String). f d) (look_up-objects 0 p w),
          ),
        )
