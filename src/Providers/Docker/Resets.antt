-- ===== src/Providers/Docker/Resets.antt =====
-- The resets of postgres.py, mysql.py (which mariadb.py inherits) and clickhouse.py in
-- infrastructure/providers, statement by statement, and ClickHouse's own wait for a connection.
pub mod Refined
pub mod Attempts
use dbwarden_harness.Base.{
  ℕ, zero, suc, ◌+◌, String, ◌<>◌, Bool, true, false, Option, none, some, if◌then◌else◌, ltb,
}
use dbwarden_harness.Base.Result.{
  Result, ok, err, runtime_error, timeout_error, external_error, is_ok,
}
use dbwarden_harness.World.{Environment, World, call, sleep, cleared}
use dbwarden_harness.Cluster.{drop_tables}
use dbwarden_harness.Providers.Docker.{
  Engine, postgres, mysql, mariadb, clickhouse, Container, attempts, ready_timeout,
}

-- `n` calls, each only after the one before succeeded.
pub calls : Environment → ℕ → World → Bool × World
calls env zero w = (true, w)
calls env (suc n) w =
    let (up, w') = call env w in let later = calls env n w' in if up then later else (false, w')

answer : Bool × World → Result (Unit {0}) × World
answer (up, w) = (if up then ok tt else err (external_error "reset"), w)

-- Host, port and connection, then the transaction: PostgreSQL undoes it whole where a statement or
-- the commit fails. What goes is the schema public with its objects.
pub reset_postgres : Environment → ℕ → World → Result (Unit {0}) × World
unfolding answer
reset_postgres env c w =
    let (up, w') = calls env 6 w in answer (up, if up then cleared c w' else w')

-- Some calls, the drops, and some calls.
drop_between : Environment → ℕ → ℕ → ℕ → World → Result (Unit {0}) × World
unfolding answer
drop_between env before after c w =
    let (up, w₁) = calls env before w in
    let (r, w₂) = drop_tables env c (w₁.objects c) w₁ in
    let rest = answer (calls env after w₂) in
    if up then (if is_ok r then rest else (r, w₂)) else (err (external_error "reset"), w₁)

-- Host, port, connection, the list of the tables and the switch of the foreign keys; each drop is
-- final; then the switch back and the commit.
pub reset_mysql : Environment → ℕ → World → Result (Unit {0}) × World
unfolding drop_between
reset_mysql env c w = drop_between env 5 2 c w

-- Host, port, client and the list of the tables; the drops; the end of the client.
pub reset_clickhouse : Environment → ℕ → World → Result (Unit {0}) × World
unfolding drop_between
reset_clickhouse env c w = drop_between env 4 1 c w

pub reset_statements : Environment → Container → World → Result (Unit {0}) × World
unfolding reset_postgres reset_mysql reset_clickhouse
reset_statements env p w = elim p.container [
  | none ↦ (err (runtime_error "Provider is not started"), w)
  | some c ↦ elim p.engine [
    | postgres ↦ reset_postgres env c w
    | mysql ↦ reset_mysql env c w
    | mariadb ↦ reset_mysql env c w
    | clickhouse ↦ reset_clickhouse env c w
  ]
]

-- An attempt of ClickHouse looks up host and port, makes a client, asks it and closes it. The fuel
-- bounds the attempts as in `poll`.
pub poll_client : Environment → ℕ → ℕ → World → Bool × World
poll_client env zero deadline w = (false, w)
poll_client env (suc fuel) deadline w =
    let (up, w') = calls env 5 w in
    let later = poll_client env fuel deadline (sleep 500 w') in
    if ltb w.now deadline then (if up then (true, w') else later) else (false, w)

pub wait_for_client : Environment → Container → World → Result (Unit {0}) × World
wait_for_client env p w =
    let (up, w') = poll_client env attempts (w.now + ready_timeout) w in
    (if up then ok tt else err (timeout_error ("Database did not become ready: " <> p.image)), w')
