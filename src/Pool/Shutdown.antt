-- ===== src/Pool/Shutdown.antt =====
-- `stop` and `release` in mcp_server/pool.py: what is in the queues afterwards.
use dbwarden_harness.Base.{
  String, true, not, ◌&&◌, Option, some, List, [], ◌∷◌, ◌++◌, ◌≡◌, ◌≢◌, refl, arith, ◌==◌,
  string_eq, if◌then◌else◌,
}
use dbwarden_harness.Base.Dict
use dbwarden_harness.Base.Dict.{Dict, get-insert}
use dbwarden_harness.Base.Result.{is_ok}
use dbwarden_harness.World.{Environment, World}
use dbwarden_harness.Config.{HarnessMcpConfig}
use dbwarden_harness.Network.{WorkspaceNetwork}
use dbwarden_harness.Providers
use dbwarden_harness.Providers.{Provider}
use dbwarden_harness.Pool.{
  ContainerPool, drain, drain_all, stop, append, detach, release, warm_start, warm_up,
}
use dbwarden_harness.Pool.Refill.{queue_of}

module _ (env : Environment) (sqlite_version : String) (config : HarnessMcpConfig) where
  drain_all-empty :
      (queues : Dict String (List Provider)) (b : String) (w : World)
      → Dict.get b [] (drain_all env sqlite_version config queues w).0 ≡ []
  unfolding drain_all Dict.lookup
  drain_all-empty [] b w = refl
  drain_all-empty ((k, queue) ∷ queues) b w =
      ground (arith, drain_all-empty queues b (drain env sqlite_version config queue w))

  -- After `stop` no queue holds a provider and the pool is marked as stopped.
  pub stop-empty :
      (b : String) (s : ContainerPool)
      → (queue_of b (stop env sqlite_version config s) ≡ [])
        × ((stop env sqlite_version config s).stopped ≡ true)
  unfolding stop
  stop-empty b s = (drain_all-empty s.queues b s.world, refl)

  -- A released provider of a backend other than SQLite goes to the end of its backend's queue
  -- exactly when the pool runs and the reset succeeds, and no other queue changes.
  pub queue_of-release :
      (b backend : String) (p : Provider) (net : Option WorkspaceNetwork) (s : ContainerPool)
      → backend ≢ "sqlite"
      → queue_of b (release env sqlite_version config backend p net s) ≡ (
          if (b == backend && not s.stopped)
            && is_ok (Providers.reset env p (detach env sqlite_version config p net s.world)).0
          then queue_of b s ++ (p ∷ [])
          else queue_of b s)
  unfolding release append
  queue_of-release b backend p net s differs =
      ground (arith, get-insert b backend (queue_of backend s ++ (p ∷ [])) [] s.queues)

  -- A provider that a round of refilling starts after `stop` is queued although the pool is
  -- stopped.
  pub warm_up_after_stop :
      (backend version : String) (p : Provider) (s : ContainerPool)
      → (warm_start env sqlite_version config backend version
          (stop env sqlite_version config s).world).0
        ≡ some p
      → (queue_of backend
            (warm_up env sqlite_version config 1 backend version (stop env sqlite_version config s))
          ≡ p ∷ [])
        × ((warm_up env sqlite_version config 1 backend version
              (stop env sqlite_version config s)).stopped
            ≡ true)
  unfolding warm_up append
  warm_up_after_stop backend version p s started = ground (
    arith,
    stop-empty backend s,
    get-insert backend backend (queue_of backend (stop env sqlite_version config s) ++ (p ∷ [])) []
        (stop env sqlite_version config s).queues,
  )
