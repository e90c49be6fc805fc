-- ===== src/Providers/Docker/Resets/Attempts.antt =====
-- The waits for a connection end by their deadline, for every backend.
use native.Mathlib.Nat.{suc-add}
use dbwarden_harness.Base.{ℕ, zero, suc, ◌+◌, ◌*◌, ◌≤◌, ◌≡◌, arith}
use dbwarden_harness.World.{Environment, World, call, sleep}
use dbwarden_harness.Providers.Docker.{attempts, ready_timeout, poll}
use dbwarden_harness.Providers.Docker.Readiness.{poll-attempts}
use dbwarden_harness.Providers.Docker.Resets.{calls, poll_client}

module _ (env : Environment) where
  calls-now : (n : ℕ) (w : World) → w.now ≤ (calls env n w).1.now
  unfolding calls call
  calls-now zero w = omega arith
  calls-now (suc n) w = ground (arith, calls-now n (call env w).1)

  poll_client_fuel :
      (fuel more deadline : ℕ) (w : World)
      → deadline ≤ w.now + 500 * fuel
      → poll_client env (fuel + more) deadline w ≡ poll_client env fuel deadline w
  unfolding poll_client sleep
  poll_client_fuel zero zero deadline w h = ground arith
  poll_client_fuel zero (suc more) deadline w h = ground arith
  poll_client_fuel (suc fuel) more deadline w h = rw suc-add (
      ground
        (arith, calls-now 5 w, poll_client_fuel fuel more deadline (sleep 500 (calls env 5 w).1)))

  -- A minute holds at most 120 attempts to connect, of one call or of ClickHouse's five: more fuel
  -- for either loop gives the same answer and the same world.
  pub polls-attempts :
      (more : ℕ) (w : World)
      → (poll env (attempts + more) (w.now + ready_timeout) w
          ≡ poll env attempts (w.now + ready_timeout) w)
        × (poll_client env (attempts + more) (w.now + ready_timeout) w
            ≡ poll_client env attempts (w.now + ready_timeout) w)
  polls-attempts more w = (
    poll-attempts env more w,
    poll_client_fuel attempts more (w.now + ready_timeout) w (omega arith),
  )
