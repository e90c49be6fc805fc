-- ===== src/Pool/Handout.antt =====
-- What `claim` hands out (mcp_server/pool.py): its version, its database and its network.
use mathlib.Core.List.{head?}
use dbwarden_harness.Base.Dict
use dbwarden_harness.Base.{
  ℕ, String, Bool, true, Option, none, some, List, [], ◌∷◌, ◌≡◌, ◌≢◌, refl, inl, inr, arith,
  string_eq, first, All, Option-cases,
}
use dbwarden_harness.Base.Text.{lower, lower_idem, after_last?}
use dbwarden_harness.Base.Result.{Result, ok, err}
use dbwarden_harness.World.{Environment, World, call, cleared}
use dbwarden_harness.Config.{HarnessMcpConfig}
use dbwarden_harness.Network
use dbwarden_harness.Network.{WorkspaceNetwork}
use dbwarden_harness.Providers
use dbwarden_harness.Providers.Docker
use dbwarden_harness.Providers.{
  Provider, containerized, file_backed, container_of, provider_for, provider_eq,
}
use dbwarden_harness.Providers.Factory.{start-version}
use dbwarden_harness.Pool.{ContainerPool, take, fresh, obtain, hand_out, claim}
use dbwarden_harness.Pool.Claim.{serves}

-- Every queued provider was started.
abbrev pub IsStocked : ContainerPool → Type 0
IsStocked s = (backend : String) → All (λ p. container_of p ≢ none) (Dict.get backend [] s.queues)

first_stocked :
    (test : Provider → Bool) (queue : List Provider) (p : Provider)
    → All (λ q. container_of q ≢ none) queue
    → first test queue ≡ some p
    → (test p ≡ true) × (container_of p ≢ none)
first_stocked test [] p h e = cc
first_stocked test (q ∷ queue) p h e = ground (arith, first_stocked test queue p h.1)

module _ (env : Environment) (sqlite_version : String) (config : HarnessMcpConfig) where
  -- A provider that is handed out holds nothing that its reset looks at, and is connected.
  pub hand_out-clean :
      (p q : Provider) (net : WorkspaceNetwork) (w w' : World) (c : ℕ)
      → container_of p ≡ some c
      → hand_out env sqlite_version config p net w ≡ (ok q, w')
      → (q ≡ p) × (w'.objects c ≡ []) × (w'.links ≡ (net.network_id, c) ∷ w.links)
  unfolding hand_out container_of Providers.reset Docker.reset cleared Network.connect call
  hand_out-clean (containerized d) q net w w' c e h = ground arith
  hand_out-clean (file_backed f) q net w w' c e h = ground arith

  -- A provider that no queue held is started for the claim, at the version asked for.
  fresh_started :
      (backend tag : String) (p : Provider) (w w' : World)
      → after_last? 58 tag ≡ none
      → lower backend ≢ "sqlite"
      → fresh env sqlite_version config backend tag w ≡ (ok p, w')
      → (Providers.version sqlite_version p ≡ tag) × (container_of p ≢ none)
  unfolding fresh
  fresh_started backend tag p w w' t differs h = go (provider_for backend tag) refl
    where
      go :
          (made : Result Provider)
          → provider_for backend tag ≡ made
          → (Providers.version sqlite_version p ≡ tag) × (container_of p ≢ none)
      go (err e) made = ground (arith, made)
      go (ok q) made =
          ground (arith, made, start-version sqlite_version env backend tag q w t differs made)

  -- `obtain` gives a started provider of the version, from the queue or new.
  obtain_started :
      (backend tag : String) (s s' : ContainerPool) (p : Provider)
      → IsStocked s
      → after_last? 58 tag ≡ none
      → lower backend ≢ "sqlite"
      → obtain env sqlite_version config backend tag s ≡ (ok p, s')
      → (Providers.version sqlite_version p ≡ tag) × (container_of p ≢ none)
  unfolding obtain take
  obtain_started backend tag s s' p stocked t differs h =
      let queue = Dict.get backend [] s.queues in
      ground (
        arith,
        first_stocked (serves env sqlite_version config tag) queue p (stocked backend),
        fresh_started backend tag p s.world (fresh env sqlite_version config backend tag s.world).1
            t differs,
      )

  claim-obtain :
      (name tag : String) (net : WorkspaceNetwork) (s s' : ContainerPool) (p : Provider)
      → claim env sqlite_version config name tag net s ≡ (ok p, s')
      → (q : Provider) × (s₁ : ContainerPool) × (obtain env sqlite_version config (lower name) tag s
          ≡ (ok q, s₁))
        × (lower name ≢ "sqlite")
        × (hand_out env sqlite_version config q net s₁.world ≡ (ok p, s'.world))
  unfolding claim
  claim-obtain name tag net s s' p h = go (obtain env sqlite_version config (lower name) tag s) refl
    where
      go :
          (o : Result Provider × ContainerPool)
          → obtain env sqlite_version config (lower name) tag s ≡ o
          → (q : Provider) × (s₁ : ContainerPool) × (obtain env sqlite_version config
                (lower name)
                tag
                s
              ≡ (ok q, s₁))
            × (lower name ≢ "sqlite")
            × (hand_out env sqlite_version config q net s₁.world ≡ (ok p, s'.world))
      go (err e, s₁) o = absurd (ground (arith, o, h))
      go (ok q, s₁) o = (q, s₁, o, ground (arith, o, h), ground (arith, o, h))

  -- A claim that succeeds on a pool of started providers, for a tag without a colon, hands out a
  -- started provider of the version asked for, which is connected to the workspace's network and
  -- whose database holds none of the objects that the statements of a reset look at: those of
  -- PostgreSQL's schema public, and what MySQL and ClickHouse list as tables.
  pub claim-clean :
      (name tag : String) (net : WorkspaceNetwork) (s s' : ContainerPool) (p : Provider)
      → IsStocked s
      → after_last? 58 tag ≡ none
      → claim env sqlite_version config name tag net s ≡ (ok p, s')
      → (c : ℕ) × (container_of p ≡ some c)
        × (Providers.version sqlite_version p ≡ tag)
        × (s'.world.objects c ≡ [])
        × (◌≡◌ {A = Option (ℕ × ℕ)} (head? s'.world.links) (some (net.network_id, c)))
  claim-clean name tag net s s' p stocked t h =
      let (q, s₁, made, differs, given) = claim-obtain name tag net s s' p h in
      let (serves_tag, started) =
        obtain_started (lower name) tag s s₁ q stocked t
          (λ e. differs (ground (arith, lower_idem name))) made in
      elim (Option-cases (container_of q)) [
        | inl e ↦ absurd (started e)
        | inr (c, e) ↦
            let (same, clean, linked) = hand_out-clean q p net s₁.world s'.world c e given in
            (c, ground arith, ground arith, clean, rw linked)
      ]
