-- ===== src/Pool/Stock.antt =====
-- The providers in the queues, over sequences of calls of the pool (mcp_server/pool.py).
use mathlib.Core.Path.{subst}
use mathlib.Core.Option.{none-ne-some}
use dbwarden_harness.Base.{
  ℕ, zero, suc, ◌-◌, String, Bool, true, false, Option, none, some, List, [], ◌∷◌, ◌++◌, ◌≡◌, ◌≢◌,
  refl, ◌⊎◌, inl, inr, arith, ◌==◌, string_eq, if◌then◌else◌, length, first, sym, Bool-cases,
  Option-cases, All, All-append,
}
use dbwarden_harness.Base.Dict
use dbwarden_harness.Base.Dict.{Dict, get-insert}
use dbwarden_harness.Base.Text.{lower, after_last?}
use dbwarden_harness.Base.Result.{Result, ok, err}
use dbwarden_harness.World.{Environment, World}
use dbwarden_harness.Config.{HarnessMcpConfig}
use dbwarden_harness.Network.{WorkspaceNetwork}
use dbwarden_harness.Providers
use dbwarden_harness.Providers.{Provider, container_of}
use dbwarden_harness.Pool.{
  ContainerPool, remove, init, stop, append, release, warm_start, warm_up, top_up_from, top_up,
  take, obtain, claim, empty_queues,
}
use dbwarden_harness.Pool.Claim.{serves}
use dbwarden_harness.Pool.Handout.{IsStocked}
use dbwarden_harness.Pool.Shutdown.{stop-empty, queue_of-release}
use dbwarden_harness.Pool.Refill.{queue_of, queue_of-append, warmed}

-- A provider that was started.
abbrev pub IsStarted : Provider → Type 0
IsStarted p = container_of p ≢ none

All-if :
    (t : Bool) (xs ys : List Provider)
    → All IsStarted xs
    → All IsStarted ys
    → All IsStarted (if t then xs else ys)
All-if true xs ys hx hy = hx
All-if false xs ys hx hy = hy

All-remove :
    (p : Provider) (queue : List Provider) → All IsStarted queue → All IsStarted (remove p queue)
unfolding remove
All-remove p [] h = tt
All-remove p (q ∷ queue) h = ground (arith, All-remove p queue h.1)

empty_queue : (counts : Dict String ℕ) (b : String) → Dict.get b [] (empty_queues counts) ≡ []
unfolding Dict.lookup
empty_queue [] b = refl
empty_queue ((k, n) ∷ counts) b = ground (arith, empty_queue counts b)

module _ (env : Environment) (sqlite_version : String) (config : HarnessMcpConfig) where
  -- A claim removes one provider from one queue, or none.
  queue_of-claim :
      (b name tag : String) (net : WorkspaceNetwork) (s : ContainerPool)
      → (queue_of b (claim env sqlite_version config name tag net s).1 ≡ queue_of b s)
        ⊎ ((p : Provider) × (queue_of b (claim env sqlite_version config name tag net s).1
              ≡ remove p (queue_of b s)))
  unfolding claim obtain take
  queue_of-claim b name tag net s =
      elim (Option-cases (first (serves env sqlite_version config tag) (queue_of (lower name) s))) [
        | inl e ↦ inl (ground (arith, e))
        | inr (p, e) ↦ elim (string_eq.dec b (lower name)) [
          | yes same ↦ elim (string_eq.dec (lower name) "sqlite") [
            | yes lite ↦ inl (ground (arith, e, lite))
            | no heavy ↦ inr (
              p,
              ground (
                arith,
                e,
                heavy,
                same,
                get-insert b (lower name) (remove p (queue_of (lower name) s)) [] s.queues,
              ),
            )
          ]
          | no other ↦ inl (
              ground (
                arith,
                e,
                other,
                get-insert b (lower name) (remove p (queue_of (lower name) s)) [] s.queues,
              ))
        ]
      ]

  claim-IsStocked :
      (name tag : String) (net : WorkspaceNetwork) (s : ContainerPool)
      → IsStocked s
      → IsStocked (claim env sqlite_version config name tag net s).1
  claim-IsStocked name tag net s h b = elim (queue_of-claim b name tag net s) [
    | inl e ↦ subst (All IsStarted) (sym e) (h b)
    | inr (p, e) ↦ subst (All IsStarted) (sym e) (All-remove p (queue_of b s) (h b))
  ]

  release-IsStocked :
      (backend : String) (p : Provider) (net : Option WorkspaceNetwork) (s : ContainerPool)
      → backend ≢ "sqlite"
      → IsStarted p
      → IsStocked s
      → IsStocked (release env sqlite_version config backend p net s)
  release-IsStocked backend p net s differs started h b =
      subst (All IsStarted)
        (sym (queue_of-release env sqlite_version config b backend p net s differs))
        (All-if _ (queue_of b s ++ (p ∷ [])) (queue_of b s)
          (All-append IsStarted (queue_of b s) (p ∷ []) (h b) (started, tt)) (h b))

  warm_start-IsStarted :
      (backend version : String) (p : Provider) (w : World)
      → after_last? 58 version ≡ none
      → lower backend ≢ "sqlite"
      → (warm_start env sqlite_version config backend version w).0 ≡ some p
      → IsStarted p
  unfolding warm_start
  warm_start-IsStarted backend version p w t differs h =
      go (Providers.provider_for backend version) refl
    where
      go : (made : Result Provider) → Providers.provider_for backend version ≡ made → IsStarted p
      go (err e) made = absurd (none-ne-some p (ground (arith, made, h)))
      go (ok q) made = ground (
        arith,
        made,
        Providers.Factory.start-version sqlite_version env backend version q w t differs made,
      )

  append-IsStocked :
      (backend : String) (p : Provider) (s : ContainerPool)
      → IsStarted p
      → IsStocked s
      → IsStocked (append env sqlite_version config backend p s)
  append-IsStocked backend p s started h b =
      subst (All IsStarted) (sym (queue_of-append env sqlite_version config b backend p s)) (
        All-if _ (queue_of backend s ++ (p ∷ [])) (queue_of b s)
          (All-append IsStarted (queue_of backend s) (p ∷ []) (h backend) (started, tt)) (h b))

  warm_up-IsStocked :
      (n : ℕ) (backend version : String) (s : ContainerPool)
      → after_last? 58 version ≡ none
      → lower backend ≢ "sqlite"
      → IsStocked s
      → IsStocked (warm_up env sqlite_version config n backend version s)
  unfolding warm_up
  warm_up-IsStocked zero backend version s t differs h = h
  warm_up-IsStocked (suc n) backend version s t differs h =
      go (λ s'. warm_up-IsStocked n backend version s' t differs)
        (warm_start env sqlite_version config backend version s.world).0 refl
    where
      go :
          ((s' : ContainerPool)
            → IsStocked s'
            → IsStocked (warm_up env sqlite_version config n backend version s'))
          → (o : Option Provider)
          → (warm_start env sqlite_version config backend version s.world).0 ≡ o
          → IsStocked (warm_up env sqlite_version config (suc n) backend version s)
      go rest none e = rw (e, warm_up) h
      go rest (some p) e =
          rw (e, warm_up)
            (rest (warmed env sqlite_version config backend version p s) (
              append-IsStocked backend p _
                (warm_start-IsStarted backend version p s.world t differs e) h))

  -- The configured backends are lower-case names with versions that hold no colon.
  abbrev pub IsPlain : Dict String ℕ → Type 0
  IsPlain counts =
      All
        (λ k.
          (k ≢ "sqlite" → lower k ≢ "sqlite")
          × (after_last? 58 (Dict.get k "latest" config.db_versions) ≡ none))
        (Dict.keys counts)

  top_up_from-IsStocked :
      (counts : Dict String ℕ) (s : ContainerPool)
      → IsPlain counts
      → IsStocked s
      → IsStocked (top_up_from env sqlite_version config counts s).1
  unfolding top_up_from
  top_up_from-IsStocked [] s plain h = h
  top_up_from-IsStocked ((k, target) ∷ counts) s ((differs, t), plain) h =
      elim (Bool-cases (k == "sqlite")) [
        | inl lite ↦ rw (lite, top_up_from) (top_up_from-IsStocked counts s plain h)
        | inr heavy ↦ elim (Option-cases (Dict.lookup k s.queues)) [
          | inl e ↦ rw (heavy, e, top_up_from) h
          | inr (queue, e) ↦
              rw (heavy, e, top_up_from)
                (top_up_from-IsStocked counts _ plain (
                  warm_up-IsStocked (target - length queue) k
                    (Dict.get k "latest" config.db_versions) s t (differs (ground arith)) h))
        ]
      ]

  -- A call of the pool by a workspace, a round of the refill thread, or the end. Every provider
  -- that is released was started.
  pub data Step (s : ContainerPool) : ContainerPool → Type 0 where
    claims :
        (name tag : String) (net : WorkspaceNetwork)
        → Step s (claim env sqlite_version config name tag net s).1
    releases :
        (backend : String) (p : Provider) (net : Option WorkspaceNetwork)
        → backend ≢ "sqlite"
        → IsStarted p
        → Step s (release env sqlite_version config backend p net s)
    refills : Step s (top_up env sqlite_version config s).1
    stops : Step s (stop env sqlite_version config s)

  pub data Reach (w : World) : ContainerPool → Type 0 where
    initial : Reach w (init env sqlite_version config w)
    next : {s t : ContainerPool} → Reach w s → Step s t → Reach w t

  Step-IsStocked :
      {s t : ContainerPool} → IsPlain config.warm_pool_count → IsStocked s → Step s t → IsStocked t
  unfolding top_up
  Step-IsStocked {s} plain h (claims name tag net) = claim-IsStocked name tag net s h
  Step-IsStocked {s} plain h (releases backend p net differs started) =
      release-IsStocked backend p net s differs started h
  Step-IsStocked {s} plain h refills = top_up_from-IsStocked config.warm_pool_count s plain h
  Step-IsStocked {s} plain h stops =
      λ b. subst (All IsStarted) (sym (stop-empty env sqlite_version config b s).0) tt

  -- For lower-case backends and versions without a colon, every queued provider has a container in
  -- each state that claims, releases of started providers, refills and stops reach.
  pub Reach-IsStocked :
      {w : World} {s : ContainerPool} → IsPlain config.warm_pool_count → Reach w s → IsStocked s
  unfolding init
  Reach-IsStocked plain initial =
      λ b. subst (All IsStarted) (sym (empty_queue config.warm_pool_count b)) tt
  Reach-IsStocked plain (next r st) = Step-IsStocked plain (Reach-IsStocked plain r) st
