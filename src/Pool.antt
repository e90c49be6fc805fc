-- ===== src/Pool.antt =====
-- mcp_server/pool.py: the warm pool of database containers.
pub mod Claim
pub mod Stock
mod Tests
pub mod Shutdown
pub mod Refill
pub mod Handout
use dbwarden_harness.Base.{
  ℕ, zero, suc, ◌-◌, String, Bool, true, false, Option, none, some, List, [], ◌∷◌, ◌++◌, ◌==◌,
  string_eq, if◌then◌else◌, length, first,
}
use dbwarden_harness.Base.Dict
use dbwarden_harness.Base.Dict.{Dict}
use dbwarden_harness.Base.Text.{lower}
use dbwarden_harness.Base.Result.{Result, ok, err, value_error, key_error}
use dbwarden_harness.World.{Environment, World}
use dbwarden_harness.Config.{HarnessMcpConfig}
use dbwarden_harness.Network
use dbwarden_harness.Network.{WorkspaceNetwork}
use dbwarden_harness.Providers
use dbwarden_harness.Providers.{Provider, provider_eq}

-- `ContainerPool`, with the world that its calls change.
pub record ContainerPool : Type 0 where
  pub queues : Dict String (List Provider)
  pub stopped : Bool
  pub world : World

abbrev empty_queues : Dict String ℕ → Dict String (List Provider)
empty_queues [] = []
empty_queues ((backend, _) ∷ counts) = (backend, []) ∷ empty_queues counts

-- `queue.remove(provider)`: the first item that equals it.
pub remove : Provider → List Provider → List Provider
remove p [] = []
remove p (q ∷ queue) = if q == p then queue else q ∷ remove p queue

module _ (env : Environment) (sqlite_version : String) (config : HarnessMcpConfig) where
  pub init : World → ContainerPool
  init w = record { queues = empty_queues config.warm_pool_count; stopped = false; world = w }

  pub safe_stop : Provider → World → World
  safe_stop p w = let (_, _, w') = Providers.stop env p w in w'

  pub drain : List Provider → World → World
  drain [] w = w
  drain (p ∷ queue) w = drain queue (safe_stop p w)

  pub drain_all : Dict String (List Provider) → World → Dict String (List Provider) × World
  drain_all [] w = ([], w)
  drain_all ((backend, queue) ∷ queues) w =
      let (rest, w') = drain_all queues (drain queue w) in ((backend, []) ∷ rest, w')

  unfoldable pub stop : ContainerPool → ContainerPool
  stop s =
      let (queues, w) = drain_all s.queues s.world in
      record { queues = queues; stopped = true; world = w }

  -- One round of the inner loop of `_top_up`: a provider, or nothing if an error ends the loop.
  pub warm_start : String → String → World → Option Provider × World
  warm_start backend version w = elim (Providers.provider_for backend version) [
    | err e ↦ (none, w)
    | ok p ↦
        let (r, p', w') = Providers.start env p w in
        elim r [ err e ↦ (none, w') | ok _ ↦ (some p', w') ]
  ]

  -- `self._queues[backend].append(provider)`
  pub append : String → Provider → ContainerPool → ContainerPool
  append backend p s = record s {
    queues = Dict.insert backend (Dict.get backend [] s.queues ++ p ∷ []) s.queues;
  }

  -- `for _ in range(n)`, for one backend.
  pub warm_up : ℕ → String → String → ContainerPool → ContainerPool
  warm_up zero backend version s = s
  warm_up (suc n) backend version s =
      let (started, w) = warm_start backend version s.world in
      let s' : ContainerPool = record s { world = w } in
      elim started [ none ↦ s' | some p ↦ warm_up n backend version (append backend p s') ]

  -- `_top_up`, where nothing happens between its calls: the source holds the lock only to read a length
  -- and for each append. A backend that has no queue ends the round with KeyError.
  pub top_up_from : Dict String ℕ → ContainerPool → Result (Unit {0}) × ContainerPool
  top_up_from [] s = (ok tt, s)
  top_up_from ((backend, target) ∷ counts) s =
      if backend == "sqlite" then top_up_from counts s else elim (Dict.lookup backend s.queues) [
        | none ↦ (err (key_error backend), s)
        | some queue ↦
            let version = Dict.get backend "latest" config.db_versions in
            top_up_from counts (warm_up (target - length queue) backend version s)
      ]

  pub top_up : ContainerPool → Result (Unit {0}) × ContainerPool
  top_up s = top_up_from config.warm_pool_count s

  -- `start`: whether it starts the refill thread is the second part.
  pub start : ContainerPool → ContainerPool × Bool
  start s = if config.warm_pool_enabled then (record s { stopped = false }, true) else (s, false)

  -- One turn of `_refill_loop`, which ends once the pool is stopped and logs every error.
  pub refill : ContainerPool → Option ContainerPool
  refill s = let (_, s') = top_up s in if s.stopped then none else some s'

  -- The part of `claim` under the lock.
  pub take : String → String → ContainerPool → Option Provider × ContainerPool
  take backend version s =
      let queue = Dict.get backend [] s.queues in
      elim (first (λ p. Providers.version sqlite_version p == version) queue) [
        | none ↦ (none, s)
        | some p ↦ (some p, record s { queues = Dict.insert backend (remove p queue) s.queues })
      ]

  -- The provider of a claim that found none in the queue.
  pub fresh : String → String → World → Result Provider × World
  fresh backend version w = elim (Providers.provider_for backend version) [
    | err e ↦ (err e, w)
    | ok p ↦
        let (r, p', w') = Providers.start env p w in
        elim r [ err e ↦ (err e, w') | ok _ ↦ (ok p', w') ]
  ]

  attach : Provider → WorkspaceNetwork → World → Result (Unit {0}) × World
  attach p net w = elim (Providers.container_of p) [
    | none ↦ (ok tt, w)
    | some c ↦ Network.connect env net c w
  ]

  -- The `try` block of `claim`: an error stops the provider and is raised again.
  pub hand_out : Provider → WorkspaceNetwork → World → Result Provider × World
  unfolding attach
  hand_out p net w =
      let (cleared, w₁) = Providers.reset env p w in
      let (attached, w₂) = attach p net w₁ in
      elim cleared [
        | err e ↦ (err e, safe_stop p w₁)
        | ok _ ↦ elim attached [ err e ↦ (err e, safe_stop p w₂) | ok _ ↦ (ok p, w₂) ]
      ]

  -- A provider from the queue, or a new one.
  pub obtain : String → String → ContainerPool → Result Provider × ContainerPool
  obtain backend version s =
      let (found, s₁) = take backend version s in
      elim found [
        | some p ↦ (ok p, s₁)
        | none ↦ let (made, w) = fresh backend version s₁.world in (made, record s₁ { world = w })
      ]

  pub claim : String → String → WorkspaceNetwork → ContainerPool → Result Provider × ContainerPool
  claim name version net s =
      let (made, s₁) = obtain (lower name) version s in
      let claimed : Result Provider × ContainerPool = elim made [
        | err e ↦ (err e, s₁)
        | ok p ↦ let (r, w) = hand_out p net s₁.world in (r, record s₁ { world = w })
      ] in
      if lower name == "sqlite"
      then (err (value_error "SQLite does not use container pool"), s)
      else claimed

  pub detach : Provider → Option WorkspaceNetwork → World → World
  detach p none w = w
  detach p (some net) w = elim (Providers.container_of p) [
    | none ↦ w
    | some c ↦ Network.disconnect env net c w
  ]

  -- `release`, which never raises.
  pub release : String → Provider → Option WorkspaceNetwork → ContainerPool → ContainerPool
  unfolding detach
  release backend p net s =
      let w = detach p net s.world in
      let (cleared, w') = Providers.reset env p w in
      let reset_done : ContainerPool = elim cleared [
        | err e ↦ record s { world = safe_stop p w' }
        | ok _ ↦ append backend p (record s { world = w' })
      ] in
      if backend == "sqlite"
      then record s { world = safe_stop p s.world }
      else if s.stopped
      then record s { world = safe_stop p w }
      else reset_done
