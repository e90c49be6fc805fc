-- ===== src/World.antt =====
-- The outside world of the containers: Docker, the databases in the containers, and time. What
-- answers a call is a parameter, and the world counts the calls, so any behaviour is possible.
use dbwarden_harness.Base.{
  ℕ, suc, ◌+◌, String, Bool, List, [], ◌∷◌, ◌==◌, nat_eq, string_eq, if◌then◌else◌,
}

-- Whether the n-th external call succeeds, and how many milliseconds it takes.
pub record Environment : Type 0 where
  pub answer : ℕ → Bool
  pub elapsed : ℕ → ℕ
  -- The name that the n-th call gives to a temporary directory.
  pub temp_dir : ℕ → String

pub record World : Type 0 where
  pub calls : ℕ
  pub now : ℕ
  pub next_container : ℕ
  -- The containers that Docker runs.
  pub running : List ℕ
  -- The objects in the database of each container that the statements of a reset look at: the schema
  -- public of PostgreSQL, and what MySQL and ClickHouse list as tables.
  pub objects : ℕ → List String
  -- The user objects that they do not look at: other schemas, routines, events.
  pub unlisted : ℕ → List String
  -- The user objects in the SQLite database at each path.
  pub file_objects : String → List String
  -- Which container is connected to which network.
  pub links : List (ℕ × ℕ)

-- One external call.
unfoldable pub call : Environment → World → Bool × World
call env w =
    (env.answer w.calls, record w { calls = suc w.calls; now = w.now + env.elapsed w.calls })

unfoldable pub sleep : ℕ → World → World
sleep t w = record w { now = w.now + t }

-- The removal of the first item that equals `c`.
unfoldable pub remove : ℕ → List ℕ → List ℕ
remove c [] = []
remove c (d ∷ ds) = if c == d then ds else d ∷ remove c ds

-- The container `c` runs from now on, with an empty database.
unfoldable pub launched : World → World
launched w = record w {
  next_container = suc w.next_container;
  running = w.next_container ∷ w.running;
  objects = λ d. if d == w.next_container then [] else w.objects d;
  unlisted = λ d. if d == w.next_container then [] else w.unlisted d;
}

unfoldable pub halted : ℕ → World → World
halted c w = record w { running = remove c w.running }

-- A reset drops what it looks at, and leaves the rest.
unfoldable pub cleared : ℕ → World → World
cleared c w = record w { objects = λ d. if d == c then [] else w.objects d }

pub unlinked : String → World → World
unlinked path w = record w {
  file_objects = λ other. if other == path then [] else w.file_objects other;
}
