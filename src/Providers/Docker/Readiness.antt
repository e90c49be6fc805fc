-- ===== src/Providers/Docker/Readiness.antt =====
-- `start` and `wait_for_connection` in infrastructure/providers/docker.py: the loop, and what a start
-- leaves.
use native.Mathlib.Nat.{suc-add}
use dbwarden_harness.Base.{
  ℕ, zero, suc, ◌+◌, ◌*◌, ◌≤◌, ◌<◌, true, none, some, ◌∷◌, ◌≡◌, ◌≢◌, refl, arith, string_eq,
}
use dbwarden_harness.Base.Result.{ok, is_ok}
use dbwarden_harness.World.{Environment, World, call, sleep, launched}
use dbwarden_harness.Providers.Docker.{
  Container, attempts, ready_timeout, poll, wait_for_connection, start,
}

-- With half a second of sleep after every attempt, fuel for the time that is left is enough: more
-- changes nothing.
poll_fuel :
    (env : Environment) (fuel more deadline : ℕ) (w : World)
    → deadline ≤ w.now + 500 * fuel
    → poll env (fuel + more) deadline w ≡ poll env fuel deadline w
unfolding poll sleep call
poll_fuel env zero zero deadline w h = ground arith
poll_fuel env zero (suc more) deadline w h = ground arith
poll_fuel env (suc fuel) more deadline w h =
    rw suc-add (ground (arith, poll_fuel env fuel more deadline (sleep 500 (call env w).1)))

-- A minute holds at most 120 attempts to connect: more fuel for the loop gives the same answer and
-- the same world.
pub poll-attempts :
    (env : Environment) (more : ℕ) (w : World)
    → poll env (attempts + more) (w.now + ready_timeout) w
      ≡ poll env attempts (w.now + ready_timeout) w
poll-attempts env more w = poll_fuel env attempts more (w.now + ready_timeout) w (omega arith)

-- A start that succeeds leaves a provider of the same image with a running container. The database
-- of a container that this start created is empty.
pub start_started :
    (env : Environment) (p : Container) (w : World)
    → is_ok (start env p w).0 ≡ true
    → ((start env p w).1.container ≢ none)
      × ((start env p w).1.image ≡ p.image)
      × ((start env p w).1.engine ≡ p.engine)
unfolding start
start_started env p w h = ground arith

-- A second start of a started provider changes nothing and calls nothing.
pub start_again :
    (env : Environment) (p : Container) (c : ℕ) (w : World)
    → p.container ≡ some c
    → start env p w ≡ (ok tt, p, w)
unfolding start
start_again env p c w e = ground arith

poll-running :
    (env : Environment) (fuel deadline : ℕ) (w : World)
    → ((poll env fuel deadline w).1.running ≡ w.running)
      × ((poll env fuel deadline w).1.next_container ≡ w.next_container)
unfolding poll sleep call
poll-running env zero deadline w = (refl, refl)
poll-running env (suc fuel) deadline w =
    ground (arith, poll-running env fuel deadline (sleep 500 (call env w).1))

-- Where Docker creates the container of a stopped provider, it runs after `start`, whether or not
-- the database ever answered.
pub start-running :
    (env : Environment) (p : Container) (w : World)
    → p.container ≡ none
    → env.answer w.calls ≡ true
    → (start env p w).2.running ≡ w.next_container ∷ w.running
unfolding start wait_for_connection launched call
start-running env p w e up = ground (
  arith,
  poll-running env attempts ((launched (call env w).1).now + ready_timeout)
      (launched (call env w).1),
)

poll_answered :
    (env : Environment) (fuel deadline : ℕ) (w : World)
    → env.answer w.calls ≡ true
    → w.now < deadline
    → (poll env (suc fuel) deadline w).0 ≡ true
unfolding poll call
poll_answered env fuel deadline w up early = ground arith

-- A start succeeds where Docker and the database answer.
pub start_answered :
    (env : Environment) (p : Container) (w : World)
    → ((n : ℕ) → env.answer n ≡ true)
    → is_ok (start env p w).0 ≡ true
unfolding start wait_for_connection call launched
start_answered env p w up =
    let v = launched (call env w).1 in
    ground (
      arith,
      up w.calls,
      poll_answered env 119 (v.now + ready_timeout) v (up v.calls) (omega arith),
    )
