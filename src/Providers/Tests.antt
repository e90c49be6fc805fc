-- ===== src/Providers/Tests.antt =====
-- Witnesses for the providers: a PostgreSQL container that starts.
use dbwarden_harness.Base.{
  ◌+◌, some, ltb, if◌then◌else◌, none, [], ◌∷◌, ◌==◌, string_eq, nat_eq, option_eq, ◌≡◌,
}
use dbwarden_harness.World.{Environment, World}
use dbwarden_harness.Providers.Docker.{Container, postgres, mysql, attempts, ready_timeout, poll}
use dbwarden_harness.Providers.Docker.Resets.{poll_client}
use dbwarden_harness.Providers.Docker.Resets.Attempts.{polls-attempts}

-- Docker answers the first call, and no database answers afterwards.
abbrev env : Environment
env = record { answer = λ n. n == 0; elapsed = λ n. 1000; temp_dir = λ n. "/tmp/harness" }

abbrev world : World
world = record {
  calls = 0;
  now = 0;
  next_container = 8;
  running = 7 ∷ [];
  objects = λ c. [];
  unlisted = λ c. [];
  file_objects = λ path. [];
  links = [];
}

abbrev container : Container
container = record {
  engine = postgres;
  image = "postgres:16";
  database = "harness";
  container = none;
}

polls-attempts_example :
    (poll env (attempts + 7) (0 + ready_timeout) world
      ≡ poll env attempts (0 + ready_timeout) world)
    × (poll_client env (attempts + 7) (0 + ready_timeout) world
        ≡ poll_client env attempts (0 + ready_timeout) world)
polls-attempts_example = polls-attempts env 7 world

-- A MySQL database whose second drop is refused.
abbrev seven : Environment
seven = record { answer = λ n. ltb n 6; elapsed = λ n. 10; temp_dir = λ n. "/tmp/harness" }

abbrev started : Container
started = record container { engine = mysql; container = some 7 }

abbrev filled : World
filled = record world { objects = λ c. if c == 7 then "users" ∷ "posts" ∷ [] else "others" ∷ [] }
