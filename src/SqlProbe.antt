-- ===== src/SqlProbe.antt =====
-- tools/sql_probe.py: what a live database refuses. The engine is a parameter.
use dbwarden_harness.Base.{
  String, ◌<>◌, Bool, true, false, Option, none, some, List, [], ◌∷◌, if◌then◌else◌,
}
use dbwarden_harness.Base.Result.{Result, ok, err, Error, assertion_error, external_error}

-- What a statement answers: its rows, nothing that has rows, a `DatabaseError`, or another exception.
pub data Outcome : Type 0 where
  answered : List (List String) → Outcome
  done : Outcome
  refused : String → Outcome
  failed : Error → Outcome

-- An engine with the databases `Db` and the sessions that it opens on them. What a statement does before
-- the commit, and what a rollback undoes, is the engine's: MySQL commits at a definition. A commit may be
-- refused.
pub record Engine : Type 1 where
  pub Db : Type 0
  pub Session : Type 0
  pub open_session : Db → Session
  pub send : String → Session → Outcome × Session
  pub commit : Session → Result Db
  pub rollback : Session → Db

-- The value of `scalar()`: nothing where there is no row.
first_value : List (List String) → Option String
first_value [] = none
first_value ([] ∷ _) = none
first_value ((value ∷ _) ∷ _) = some value

-- `ConstraintNotEnforced` is an `AssertionError`.
not_enforced : String → String → Error
not_enforced statement because =
    assertion_error (
      "The database accepted a statement it should have refused (" <> because <> "): " <> statement)

no_rows : Error
no_rows = external_error "This result object does not return rows."

module _ (engine : Engine) where
  open engine use {Db, Session, open_session, send, commit, rollback}

  -- The statements of a block, until one raises.
  pub send_all : List String → Session → Result (Unit {0}) × Session
  send_all [] s = (ok tt, s)
  send_all (q ∷ qs) s =
      let (o, s') = send q s in
      elim o [
        | answered _ ↦ send_all qs s'
        | done ↦ send_all qs s'
        | refused message ↦ (err (external_error message), s')
        | failed e ↦ (err e, s')
      ]

  -- `engine.begin()` commits at the end of the block, and rolls back where the block or the commit
  -- raises.
  pub execute : List String → Db → Result (Unit {0}) × Db
  execute statements d =
      let (r, s) = send_all statements (open_session d) in
      elim r [
        | err e ↦ (err e, rollback s)
        | ok _ ↦ elim (commit s) [ err e ↦ (err e, rollback s) | ok d' ↦ (ok tt, d') ]
      ]

  -- The end of `engine.connect()` rolls back.
  pub scalar : String → Db → Result (Option String) × Db
  unfolding first_value no_rows
  scalar statement d =
      let (o, s) = send statement (open_session d) in
      (
        elim o as (λ o. Result (Option String)) [
          | answered found ↦ ok (first_value found)
          | done ↦ err no_rows
          | refused message ↦ err (external_error message)
          | failed e ↦ err e
        ],
        rollback s,
      )

  pub select_rows : String → Db → Result (List (List String)) × Db
  unfolding no_rows
  select_rows statement d =
      let (o, s) = send statement (open_session d) in
      (
        elim o as (λ o. Result (List (List String))) [
          | answered found ↦ ok found
          | done ↦ err no_rows
          | refused message ↦ err (external_error message)
          | failed e ↦ err e
        ],
        rollback s,
      )

  -- Only a `DatabaseError` is a refusal.
  pub rejects : String → Db → Result Bool × Db
  rejects statement d =
      let (o, s) = send statement (open_session d) in
      (
        elim o as (λ o. Result Bool) [
          | answered _ ↦ ok false
          | done ↦ ok false
          | refused _ ↦ ok true
          | failed e ↦ err e
        ],
        rollback s,
      )

  pub assert_rejects : String → String → Db → Result (Unit {0}) × Db
  unfolding rejects not_enforced
  assert_rejects statement because d =
      let (r, d') = rejects statement d in
      (
        elim r as (λ r. Result (Unit {0})) [
          | err e ↦ err e
          | ok rejected ↦ if rejected then ok tt else err (not_enforced statement because)
        ],
        d',
      )
