-- ===== src/Pool/Claim.antt =====
-- The part of `claim` under the lock: which provider `take` finds and what it leaves (mcp_server/pool.py).
use mathlib.Core.Option.{none-ne-some}
use dbwarden_harness.Base.{
  String, Bool, true, false, some, List, [], ◌∷◌, ◌++◌, ◌≡◌, ap, inl, inr, arith, ◌==◌, string_eq,
  if◌then◌else◌, first, All, Bool-cases, Option-cases,
}
use dbwarden_harness.Base.Dict.{lookup, lookup-insert}
use dbwarden_harness.World.{Environment}
use dbwarden_harness.Config.{HarnessMcpConfig}
use dbwarden_harness.Providers
use dbwarden_harness.Providers.{Provider, provider_eq}
use dbwarden_harness.Pool.{ContainerPool, remove, take}

-- `p` is the first item of `queue` that passes the test, and `rest` is the queue without it.
pub record Takes (test : Provider → Bool) (queue : List Provider) (p : Provider)
    (rest : List Provider) : Type 0 where
  pub before : List Provider
  pub after : List Provider
  pub whole : queue ≡ before ++ (p ∷ after)
  pub left : rest ≡ before ++ after
  pub passes : test p ≡ true
  pub skipped : All (λ q. test q ≡ false) before

first-eq-hit :
    (test : Provider → Bool) (q : Provider) (queue : List Provider) (p : Provider)
    → test q ≡ true
    → first test (q ∷ queue) ≡ some p
    → q ≡ p
first-eq-hit test q queue p hit h = ground arith

pub first-Takes :
    (test : Provider → Bool) (queue : List Provider) (p : Provider)
    → first test queue ≡ some p
    → Takes test queue p (remove p queue)
unfolding remove
first-Takes test [] p h = cc
first-Takes test (q ∷ queue) p h = elim (Bool-cases (test q)) [
  | inl hit ↦
      let e = first-eq-hit test q queue p hit h in
      record {
        before = [];
        after = queue;
        whole = rw e;
        left = ground arith;
        passes = rw (← e) hit;
        skipped = tt;
      }
  | inr miss ↦
      let t = first-Takes test queue p (ground arith) in
      record {
        before = q ∷ t.before;
        after = t.after;
        whole = ap (◌∷◌ q) t.whole;
        left = ground (arith, t.left, t.passes);
        passes = t.passes;
        skipped = (miss, t.skipped);
      }
]

module _ (env : Environment) (sqlite_version : String) (config : HarnessMcpConfig) where
  abbrev pub serves : String → Provider → Bool
  serves version p = Providers.version sqlite_version p == version

  -- `take` finds the oldest provider of the version in the backend's queue and removes it alone,
  -- and no other queue changes.
  pub take-Takes :
      (backend version : String) (s s' : ContainerPool) (p : Provider) (queue : List Provider)
      → lookup backend s.queues ≡ some queue
      → take env sqlite_version config backend version s ≡ (some p, s')
      → (rest : List Provider) × Takes (serves version) queue p rest
        × ((other : String)
            → lookup other s'.queues
              ≡ (if other == backend then some rest else lookup other s.queues))
  unfolding take
  take-Takes backend version s s' p queue found h =
      elim (Option-cases (first (serves version) queue)) [
        | inl e ↦ absurd (none-ne-some p (ground (arith, found, h, e)))
        | inr (q, e) ↦ (
          remove p queue,
          first-Takes (serves version) queue p (ground (arith, found, h, e)),
          λ other.
              ground (arith, h, e, found, lookup-insert other backend (remove q queue) s.queues),
        )
      ]

  take-missing :
      (backend version : String) (s : ContainerPool) (queue : List Provider)
      → lookup backend s.queues ≡ some queue
      → (take env sqlite_version config backend version s).0 ≡ first (serves version) queue
  unfolding take
  take-missing backend version s queue found = ground (arith, found)
