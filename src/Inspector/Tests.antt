-- ===== src/Inspector/Tests.antt =====
-- A witness for the queries: a frozen SQLite workspace is read.
use dbwarden_harness.Base.{String, true, List, [], ◌∷◌, string_eq, nat_eq, option_eq, ◌≡◌, refl}
use dbwarden_harness.Base.Result.{Result, ok}
use dbwarden_harness.Workspace.{freeze}
use dbwarden_harness.Samples.{workspace}
use dbwarden_harness.Inspector.{Parsed, other, read_dialect, query_track_a}
use dbwarden_harness.Inspector.Reads.{ReadOnly, IsOneRead, frozen_query}

-- A parser that finds one query.
abbrev parse : String → String → Result (List Parsed)
parse dialect sql = ok (record { is_query = true; nodes = other ∷ [] } ∷ [])

frozen_query_example :
    (first : String) × (("PRAGMA query_only = ON" ∷ "SELECT 1" ∷ []) ≡ first ∷ "SELECT 1" ∷ [])
    × ReadOnly "sqlite" first
    × (ps : List Parsed) × (parse (read_dialect "sqlite") "SELECT 1" ≡ ok ps)
    × IsOneRead ps
unfolding query_track_a dbwarden_harness.Inspector.read_guard dbwarden_harness.Inspector.is_one_read
    dbwarden_harness.Inspector.is_unsafe freeze string_eq
frozen_query_example =
    frozen_query parse (freeze workspace) "SELECT 1" true
      ("PRAGMA query_only = ON" ∷ "SELECT 1" ∷ []) refl refl
