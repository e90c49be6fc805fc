-- ===== src/Reference/Order.antt =====
-- The order of what a reference does to its database.
use dbwarden_harness.Base.{
  ◌+◌, String, true, none, List, [], ◌∷◌, ◌≡◌, arith, length, all, Option-cases, inl, inr,
}
use dbwarden_harness.Base.Json.{Fields}
use dbwarden_harness.Base.Result.{Result-cases}
use dbwarden_harness.Disk.{executed, Disk, Programs}
use dbwarden_harness.Reference.{Sqlalchemy, adds_column, and_then, logged, add_columns, alter}

module _ {M : Type 0} (alchemy : Sqlalchemy M) (programs : Programs) where
  -- When every mutation adds a column and nothing fails, exactly one event is logged for each
  -- mutation.
  pub length-add_columns :
      (url : String) (mutated : M) (ms : List Fields) (d : Disk)
      → all adds_column ms ≡ true
      → (add_columns alchemy programs url mutated ms d).0 ≡ none
      → length (add_columns alchemy programs url mutated ms d).1.log ≡ length ms + length d.log
  unfolding add_columns logged and_then
  length-add_columns url mutated [] d a h = omega arith
  length-add_columns url mutated (m ∷ ms) d a h =
      elim (Result-cases (alter alchemy programs url mutated m)) [
        | inr (e, p) ↦ ground (arith, a, h, p)
        | inl (sql, p) ↦ elim (Option-cases (alchemy.execute d.log url sql)) [
          | inr (e, q) ↦ ground (arith, a, h, p, q)
          | inl q ↦ ground (
            arith,
            a,
            h,
            p,
            q,
            length-add_columns url mutated ms (record d { log = executed url sql ∷ d.log }),
          )
        ]
      ]
