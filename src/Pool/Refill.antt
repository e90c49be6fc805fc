-- ===== src/Pool/Refill.antt =====
-- `_top_up` in mcp_server/pool.py: how many providers a round of the refill thread leaves in each queue.
use dbwarden_harness.Base.{
  ℕ, zero, suc, ◌+◌, ◌-◌, ◌≤◌, String, true, none, some, List, [], ◌∷◌, ◌++◌, ◌≡◌, ◌≢◌, refl, inl,
  inr, arith, ◌==◌, string_eq, if◌then◌else◌, length, length-append, Option-cases, All,
}
use Prim.Native.Nat.{max}
use dbwarden_harness.Base.Dict
use dbwarden_harness.Base.Dict.{Dict, NodupKeys, get-insert, lookup-insert}
use dbwarden_harness.Base.Result.{Result, ok, err, is_ok}
use dbwarden_harness.World.{Environment, World}
use dbwarden_harness.Config.{HarnessMcpConfig}
use dbwarden_harness.Providers
use dbwarden_harness.Providers.{Provider}
use dbwarden_harness.Pool.{ContainerPool, append, warm_start, warm_up, top_up_from, top_up}

-- The queue of a backend, empty if there is none.
abbrev pub queue_of : String → ContainerPool → List Provider
queue_of backend s = Dict.get backend [] s.queues

module _ (env : Environment) (sqlite_version : String) (config : HarnessMcpConfig) where
  pub queue_of-append :
      (b backend : String) (p : Provider) (s : ContainerPool)
      → queue_of b (append env sqlite_version config backend p s)
        ≡ (if b == backend then queue_of backend s ++ (p ∷ []) else queue_of b s)
  unfolding append
  queue_of-append b backend p s = get-insert b backend _ [] s.queues

  -- The state in which the loop of `warm_up` goes on after a provider has started.
  abbrev pub warmed : String → String → Provider → ContainerPool → ContainerPool
  warmed backend version p s =
      append env sqlite_version config backend p
        (record s { world = (warm_start env sqlite_version config backend version s.world).1 })

  length-warmed :
      (b backend version : String) (p : Provider) (s : ContainerPool)
      → length (queue_of b (warmed backend version p s))
        ≡ (if b == backend then length (queue_of backend s) + 1 else length (queue_of b s))
  length-warmed b backend version p s =
      rw queue_of-append (ground (arith, length-append (queue_of backend s) (p ∷ [])))

  warm_up_bound :
      (n : ℕ) (backend version : String) (s : ContainerPool)
      → length (queue_of backend (warm_up env sqlite_version config n backend version s))
        ≤ length (queue_of backend s) + n
  unfolding warm_up
  warm_up_bound zero backend version s = omega arith
  warm_up_bound (suc n) backend version s =
      elim (Option-cases (warm_start env sqlite_version config backend version s.world).0) [
        | inl e ↦ ground (arith, e)
        | inr (p, e) ↦ ground (
          arith,
          e,
          warm_up_bound n backend version (warmed backend version p s),
          length-warmed backend backend version p s,
        )
      ]

  warm_up_other :
      (n : ℕ) (b backend version : String) (s : ContainerPool)
      → b ≢ backend
      → queue_of b (warm_up env sqlite_version config n backend version s) ≡ queue_of b s
  unfolding warm_up
  warm_up_other zero b backend version s differs = refl
  warm_up_other (suc n) b backend version s differs =
      elim (Option-cases (warm_start env sqlite_version config backend version s.world).0) [
        | inl e ↦ ground (arith, e)
        | inr (p, e) ↦ ground (
          arith,
          e,
          warm_up_other n b backend version (warmed backend version p s) differs,
          queue_of-append b backend p (record s {
            world = (warm_start env sqlite_version config backend version s.world).1;
          }),
        )
      ]

  -- Where every external call succeeds, `warm_up` adds as many providers as it is told.
  warm_up_full :
      (n : ℕ) (backend version : String) (s : ContainerPool)
      → ((w : World)
          → (p : Provider) × ((warm_start env sqlite_version config backend version w).0 ≡ some p))
      → length (queue_of backend (warm_up env sqlite_version config n backend version s))
        ≡ length (queue_of backend s) + n
  unfolding warm_up
  warm_up_full zero backend version s started = omega arith
  warm_up_full (suc n) backend version s started =
      let (p, e) = started s.world in
      ground (
        arith,
        e,
        warm_up_full n backend version (warmed backend version p s) started,
        length-warmed backend backend version p s,
      )

  -- The round for the first backend of the list.
  abbrev first_round : String → ℕ → ContainerPool → ContainerPool
  first_round backend target s =
      warm_up env sqlite_version config (target - length (queue_of backend s)) backend
        (Dict.get backend "latest" config.db_versions) s

  top_up_from_bound :
      (counts : Dict String ℕ) (b : String) (s : ContainerPool)
      → NodupKeys counts
      → length (queue_of b (top_up_from env sqlite_version config counts s).1)
        ≤ max (Dict.get b 0 counts) (length (queue_of b s))
  unfolding top_up_from Dict.lookup
  top_up_from_bound [] b s u = omega arith
  top_up_from_bound ((k, target) ∷ counts) b s (new, u) = ground (
    arith,
    top_up_from_bound counts b s u,
    top_up_from_bound counts b (first_round k target s) u,
    warm_up_bound (target - length (queue_of k s)) k (Dict.get k "latest" config.db_versions) s,
    warm_up_other (target - length (queue_of k s)) b k (Dict.get k "latest" config.db_versions) s,
  )

  warm_up_keeps :
      (n : ℕ) (k backend version : String) (s : ContainerPool)
      → Dict.lookup k s.queues ≢ none
      → Dict.lookup k (warm_up env sqlite_version config n backend version s).queues ≢ none
  unfolding warm_up append
  warm_up_keeps zero k backend version s h = h
  warm_up_keeps (suc n) k backend version s h =
      elim (Option-cases (warm_start env sqlite_version config backend version s.world).0) [
        | inl e ↦ ground (arith, e)
        | inr (p, e) ↦
            let kept = warm_up_keeps n k backend version (warmed backend version p s) (λ e'.
              ground
                (arith, e', lookup-insert k backend (queue_of backend s ++ (p ∷ [])) s.queues)) in
            ground (arith, e, kept)
      ]

  first_round_keeps :
      (ks : List String) (backend : String) (target : ℕ) (s : ContainerPool)
      → All (λ k. Dict.lookup k s.queues ≢ none) ks
      → All (λ k. Dict.lookup k (first_round backend target s).queues ≢ none) ks
  first_round_keeps [] backend target s h = tt
  first_round_keeps (k ∷ ks) backend target s h = (
    warm_up_keeps (target - length (queue_of backend s)) k backend
        (Dict.get backend "latest" config.db_versions) s h.0,
    first_round_keeps ks backend target s h.1,
  )

  -- A round of refilling fills the queue of every backend up to its target, if no external call
  -- fails, and a fuller queue stays as it is.
  top_up_from_full :
      (counts : Dict String ℕ) (b : String) (s : ContainerPool)
      → NodupKeys counts
      → b ≢ "sqlite"
      → All (λ k. Dict.lookup k s.queues ≢ none) (Dict.keys counts)
      → ((k version : String) (w : World)
          → Dict.lookup k counts ≢ none
          → k ≢ "sqlite"
          → (p : Provider) × ((warm_start env sqlite_version config k version w).0 ≡ some p))
      → length (queue_of b (top_up_from env sqlite_version config counts s).1)
        ≡ max (Dict.get b 0 counts) (length (queue_of b s))
  unfolding top_up_from Dict.lookup
  top_up_from_full [] b s u differs h started = omega arith
  top_up_from_full ((k, target) ∷ counts) b s (new, u) differs h started =
      elim (string_eq.dec k "sqlite") [
        | yes e ↦
            let ih =
              top_up_from_full counts b s u differs h.1 (λ j v w l. started j v w (ground arith)) in
            ground (arith, e, ih)
        | no n ↦
            let ih =
              top_up_from_full counts b (first_round k target s) u differs
                (first_round_keeps (Dict.keys counts) k target s h.1)
                (λ j v w l. started j v w (ground arith)) in
            let version = Dict.get k "latest" config.db_versions in
            ground (
              arith,
              n,
              h.0,
              ih,
              warm_up_full (target - length (queue_of k s)) k version s
                  (λ w. started k version w (ground arith) n),
              warm_up_other (target - length (queue_of k s)) b k version s,
            )
      ]

  warm_start_answered :
      (backend version : String) (w : World)
      → ((n : ℕ) → env.answer n ≡ true)
      → is_ok (Providers.provider_for backend version) ≡ true
      → (p : Provider) × ((warm_start env sqlite_version config backend version w).0 ≡ some p)
  unfolding warm_start
  warm_start_answered backend version w up supported =
      go (Providers.provider_for backend version) refl
    where
      go :
          (made : Result Provider)
          → Providers.provider_for backend version ≡ made
          → (p : Provider) × ((warm_start env sqlite_version config backend version w).0 ≡ some p)
      go (err e) made = absurd (ground (arith, made, supported))
      go (ok q) made = (
        (Providers.start env q w).1,
        ground (arith, made, Providers.Factory.start_succeeds env q w up),
      )

  -- With one entry per backend in the configuration, a round of refilling leaves no queue longer
  -- than its target or than it was, whatever external calls fail.
  pub top_up_bound :
      (b : String) (s : ContainerPool)
      → NodupKeys config.warm_pool_count
      → length (queue_of b (top_up env sqlite_version config s).1)
        ≤ max (Dict.get b 0 config.warm_pool_count) (length (queue_of b s))
  unfolding top_up
  top_up_bound b s u = top_up_from_bound config.warm_pool_count b s u

  -- Where every external call succeeds, the configuration has one entry per backend, the factory
  -- knows the configured backends and each has a queue, a round fills the queue of a backend other
  -- than SQLite to exactly its target and leaves a fuller one alone.
  pub top_up_full :
      (b : String) (s : ContainerPool)
      → NodupKeys config.warm_pool_count
      → b ≢ "sqlite"
      → ((n : ℕ) → env.answer n ≡ true)
      → ((k version : String)
          → Dict.lookup k config.warm_pool_count ≢ none
          → is_ok (Providers.provider_for k version) ≡ true)
      → All (λ k. Dict.lookup k s.queues ≢ none) (Dict.keys config.warm_pool_count)
      → length (queue_of b (top_up env sqlite_version config s).1)
        ≡ max (Dict.get b 0 config.warm_pool_count) (length (queue_of b s))
  unfolding top_up
  top_up_full b s u differs up supported queued =
      top_up_from_full config.warm_pool_count b s u differs queued
        (λ k version w l _. warm_start_answered k version w up (supported k version l))
