-- ===== src/Inspector/Reads.antt =====
-- What a query may send to the database of a frozen workspace.
use dbwarden_harness.Base.{
  String, Bool, true, false, some, List, [], ◌∷◌, any, All, string_eq, ◌≡◌, ◌⊎◌, refl, arith,
  Bool-cases, Option-cases, inl, inr,
}
use dbwarden_harness.Base.Result.{Result, ok, Result-cases}
use dbwarden_harness.Workspace.{Workspace}
use dbwarden_harness.Inspector.{
  Node, ddl, dml, into, lock, other, Parsed, read_dialect, read_guard, is_unsafe, is_one_read,
  query_track_a,
}

-- The statement that makes a transaction of the backend read-only.
abbrev pub ReadOnly : String → String → Type 0
ReadOnly backend first =
    ((backend ≡ "sqlite") × (first ≡ "PRAGMA query_only = ON"))
    ⊎ (((backend ≡ "postgresql") × (first ≡ "SET TRANSACTION READ ONLY"))
        ⊎ ((((backend ≡ "mysql") ⊎ (backend ≡ "mariadb")) × (first ≡ "START TRANSACTION READ ONLY"))
            ⊎ ((backend ≡ "clickhouse") × (first ≡ "SET readonly = 1"))))

-- One query, in whose tree nothing defines, changes data, writes elsewhere or locks.
abbrev pub IsOneRead : List Parsed → Type 0
IsOneRead [] = ⊥
IsOneRead (p ∷ []) = (p.is_query ≡ true) × All (λ node. node ≡ other) p.nodes
IsOneRead (p ∷ q ∷ ps) = ⊥

nodes_safe : (nodes : List Node) → any is_unsafe nodes ≡ false → All (λ node. node ≡ other) nodes
unfolding is_unsafe
nodes_safe [] h = tt
nodes_safe (other ∷ nodes) h = (refl, nodes_safe nodes h)
nodes_safe (ddl ∷ nodes) h = cc
nodes_safe (dml ∷ nodes) h = cc
nodes_safe (into ∷ nodes) h = cc
nodes_safe (lock ∷ nodes) h = cc

is_one_read-IsOneRead : (ps : List Parsed) → is_one_read ps ≡ true → IsOneRead ps
unfolding is_one_read
is_one_read-IsOneRead [] h = cc
is_one_read-IsOneRead (p ∷ []) h = (ground (arith, h), nodes_safe p.nodes (ground (arith, h)))
is_one_read-IsOneRead (p ∷ q ∷ ps) h = cc

read_guard-ReadOnly :
    (backend first : String) → read_guard backend ≡ some first → ReadOnly backend first
unfolding read_guard
read_guard-ReadOnly backend first h = ground (arith, h)

-- What a query of a frozen workspace executes is the backend's read-only statement and then one
-- query, whose tree, as parsed in the backend's dialect, holds no definition, no change of data,
-- no `INTO` and no lock.
pub frozen_query :
    (parse : String → String → Result (List Parsed)) (w : Workspace) (sql : String)
    (read_only : Bool) (sent : List String)
    → w.frozen ≡ true
    → query_track_a parse w sql read_only ≡ ok sent
    → (first : String) × (sent ≡ first ∷ sql ∷ [])
      × ReadOnly w.backend first
      × (ps : List Parsed) × (parse (read_dialect w.backend) sql ≡ ok ps)
      × IsOneRead ps
unfolding query_track_a
frozen_query parse w sql false sent f h = ground (arith, f, h)
frozen_query parse w sql true sent f h = elim (Result-cases (parse (read_dialect w.backend) sql)) [
  | inr (e, p) ↦ ground (arith, h, p)
  | inl (ps, p) ↦ elim (Bool-cases (is_one_read ps)) [
    | inr q ↦ ground (arith, h, p, q)
    | inl q ↦ elim (Option-cases (read_guard w.backend)) [
      | inl g ↦ ground (arith, h, p, q, g)
      | inr (first, g) ↦ (
        first,
        ground (arith, h, p, q, g),
        read_guard-ReadOnly w.backend first g,
        ps,
        p,
        is_one_read-IsOneRead ps q,
      )
    ]
  ]
]
