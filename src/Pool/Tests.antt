-- ===== src/Pool/Tests.antt =====
-- Witnesses for the pool: a pool of one used PostgreSQL container, and one that fills.
use dbwarden_harness.Base.{
  ℕ, String, true, false, Option, none, some, [], ◌∷◌, string_eq, nat_eq, ◌≡◌, ◌≢◌, ◌≤◌, refl,
  length, text_ne, contains, arith,
}
use dbwarden_harness.Base.Dict
use dbwarden_harness.Base.Text.{lower, after_last?}
use dbwarden_harness.Base.Result.{is_ok}
use mathlib.Core.List.{head?}
use mathlib.Core.Path.{subst}
use dbwarden_harness.Providers.Factory.{provider_for_supported}
use Prim.Native.Nat.{max}
use dbwarden_harness.World.{Environment, World, call}
use dbwarden_harness.Config.{HarnessMcpConfig}
use dbwarden_harness.Network
use dbwarden_harness.Network.{WorkspaceNetwork}
use dbwarden_harness.Providers
use dbwarden_harness.Providers.{Provider, containerized, container_of, provider_eq}
use dbwarden_harness.Providers.Docker.{Container, postgres}
use dbwarden_harness.Pool.{
  ContainerPool, init, take, claim, release, top_up, warm_up, warm_start, stop, detach, obtain,
  hand_out, fresh, append, attach,
}
use dbwarden_harness.Pool.Handout.{IsStocked, claim-clean}
use dbwarden_harness.Pool.Refill.{queue_of, top_up_bound, top_up_full}
use dbwarden_harness.Pool.Shutdown.{queue_of-release, warm_up_after_stop}
use dbwarden_harness.Pool.Stock.{IsPlain, initial, next, refills, Reach-IsStocked}

abbrev env : Environment
env = record { answer = λ n. true; elapsed = λ n. 1000; temp_dir = λ n. "/tmp/harness" }

abbrev config : HarnessMcpConfig
config = record {
  max_workspaces = 2;
  bug_reports_dir = "/reports";
  workspace_root = "/tmp";
  warm_pool_enabled = true;
  warm_pool_count = ("postgresql", 2) ∷ ("sqlite", 0) ∷ [];
  db_versions = ("postgresql", "16") ∷ ("sqlite", "local") ∷ [];
}

abbrev world : World
world = record {
  calls = 0;
  now = 0;
  next_container = 8;
  running = 7 ∷ [];
  objects = λ c. "users" ∷ [];
  unlisted = λ c. [];
  file_objects = λ path. [];
  links = [];
}

abbrev warm : Provider
warm =
    containerized (record {
      engine = postgres;
      image = "postgres:16";
      database = "harness";
      container = some 7;
    })

abbrev net : WorkspaceNetwork
net = record { network_id = 4 }

abbrev pool : ContainerPool
pool = record { queues = ("postgresql", warm ∷ []) ∷ []; stopped = false; world = world }

pool-IsStocked : IsStocked pool
unfolding Dict.lookup container_of
pool-IsStocked backend = elim (string_eq.dec backend "postgresql") [
  | yes e ↦ ground (arith, e)
  | no n ↦ ground (arith, n)
]

claim-clean_example :
    (c : ℕ) × (container_of warm ≡ some c)
    × (Providers.version "3.45" warm ≡ "16")
    × ((claim env "3.45" config "PostgreSQL" "16" net pool).1.world.objects c ≡ [])
    × (◌≡◌ {A = Option (ℕ × ℕ)}
        (head? (claim env "3.45" config "PostgreSQL" "16" net pool).1.world.links)
        (some (4, c)))
unfolding claim after_last? string_eq lower obtain take Dict.lookup Providers.version
    dbwarden_harness.Providers.Docker.version hand_out Providers.reset
    dbwarden_harness.Providers.Docker.reset call container_of Network.connect
claim-clean_example =
    claim-clean env "3.45" config "PostgreSQL" "16" net pool
      (claim env "3.45" config "PostgreSQL" "16" net pool).1 warm pool-IsStocked refl refl

top_up_bound_example :
    length (queue_of "postgresql" (top_up env "3.45" config pool).1)
    ≤ max (Dict.get "postgresql" 0 config.warm_pool_count) (length (queue_of "postgresql" pool))
unfolding Dict.lookup string_eq
top_up_bound_example = top_up_bound env "3.45" config "postgresql" pool (refl, (refl, tt))

queue_of-release_example :
    queue_of "postgresql" (release env "3.45" config "postgresql" warm (some net) pool)
    ≡ warm ∷ warm ∷ []
unfolding string_eq Providers.reset dbwarden_harness.Providers.Docker.reset call Dict.lookup
queue_of-release_example =
    queue_of-release env "3.45" config "postgresql" "postgresql" warm (some net) pool
      (text_ne "postgresql" "sqlite" refl)

-- The container that the refill thread starts while the pool stops.
abbrev late : Provider
late =
    containerized (record {
      engine = postgres;
      image = "postgres:16";
      database = "harness";
      container = some 8;
    })

warm_up_after_stop_example :
    (queue_of "postgresql"
        (warm_up env "3.45" config 1 "postgresql" "16" (stop env "3.45" config pool))
      ≡ late ∷ [])
    × ((warm_up env "3.45" config 1 "postgresql" "16" (stop env "3.45" config pool)).stopped ≡ true)
unfolding warm_start Providers.provider_for string_eq lower Providers.start
    dbwarden_harness.Providers.Docker.start dbwarden_harness.Providers.Docker.new_container call
    dbwarden_harness.Providers.Docker.wait_for_connection dbwarden_harness.Providers.Docker.poll
    dbwarden_harness.World.launched stop dbwarden_harness.Pool.drain_all dbwarden_harness.Pool.drain
    dbwarden_harness.Pool.safe_stop Providers.stop dbwarden_harness.Providers.Docker.stop
    dbwarden_harness.World.halted nat_eq dbwarden_harness.World.remove dbwarden_harness.World.sleep
warm_up_after_stop_example = warm_up_after_stop env "3.45" config "postgresql" "16" late pool refl

config-IsPlain : IsPlain env "3.45" config config.warm_pool_count
unfolding lower after_last? Dict.lookup string_eq
config-IsPlain = ((λ n e. text_ne "postgresql" "sqlite" refl e, refl), ((λ n. n, refl), tt))

-- A new pool after a round of the refill thread.
abbrev refilled : ContainerPool
refilled = (top_up env "3.45" config (init env "3.45" config world)).1

Reach-IsStocked_example : IsStocked refilled
Reach-IsStocked_example =
    Reach-IsStocked env "3.45" config {w = world} {s = refilled} config-IsPlain
      (next initial refills)

abbrev one_backend : HarnessMcpConfig
one_backend = record config { warm_pool_count = ("postgresql", 2) ∷ [] }

known :
    (k version : String)
    → Dict.lookup k one_backend.warm_pool_count ≢ none
    → is_ok (Providers.provider_for k version) ≡ true
unfolding Dict.lookup string_eq lower
known k version h = (provider_for_supported k version).1 (
    subst
      (λ b.
        contains ("postgres" ∷ "postgresql" ∷ "mysql" ∷ "mariadb" ∷ "clickhouse" ∷ "sqlite" ∷ [])
          (lower b)
        ≡ true)
      {x = "postgresql"} {y = k} (ground (arith, h)) refl)

top_up_full_example :
    length (queue_of "postgresql" (top_up env "3.45" one_backend pool).1)
    ≡ max
        (Dict.get "postgresql" 0 one_backend.warm_pool_count)
        (length (queue_of "postgresql" pool))
unfolding Dict.lookup
top_up_full_example =
    top_up_full env "3.45" one_backend "postgresql" pool (refl, tt)
      (text_ne "postgresql" "sqlite" refl) (λ n. refl) known ((λ e. ground (arith, e)), tt)
