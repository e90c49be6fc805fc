-- ===== src/Providers/Docker.antt =====
-- infrastructure/providers/docker.py and the backends postgres.py, mysql.py, mariadb.py and
-- clickhouse.py: the life of a container and of the database in it.
pub mod Readiness
pub mod Resets
use mathlib.Core.Option.{get_or}
use dbwarden_harness.Base.{
  ℕ, zero, suc, ◌+◌, String, ◌<>◌, Bool, true, false, Option, none, some, if◌then◌else◌, ltb,
}
use dbwarden_harness.Base.Text.{after_last?}
use dbwarden_harness.Base.Result.{
  Result, ok, err, runtime_error, timeout_error, external_error, ◌>>=◌,
}
use dbwarden_harness.World.{Environment, World, call, sleep, launched, halted, cleared}

-- The subclasses of `DockerDatabaseProvider`.
pub data Engine : Type 0 where
  postgres mysql mariadb clickhouse : Engine

-- `DockerDatabaseProvider`: `container` is `_container`, by its number.
pub record Container : Type 0 where
  pub engine : Engine
  pub image : String
  pub database : String
  pub container : Option ℕ

-- `image.rsplit(":", 1)[-1]`
unfoldable pub version : Container → String
version p = get_or (after_last? 58 p.image) p.image

unfoldable pub new_container : Engine → String → Container
new_container e image = record { engine = e; image = image; database = "harness"; container = none }

module _ (address : ℕ → String) where
  -- `host_port`, as the text "host:port" that every URL holds.
  pub host_port : Container → Result String
  host_port p = elim p.container [
    | none ↦ err (runtime_error "Provider is not started")
    | some c ↦ ok (address c)
  ]

  scheme : Engine → String
  scheme postgres = "postgresql+psycopg2://harness:harness@"
  scheme mysql = "mysql+pymysql://harness:harness@"
  scheme mariadb = "mysql+pymysql://harness:harness@"
  scheme clickhouse = "http://clickhouse:clickhouse@"

  pub url : Container → Result String
  url p = do at ← host_port p; ok (scheme p.engine <> at <> "/" <> p.database)

abbrev pub ready_timeout : ℕ
ready_timeout = 60000

-- The loop of `wait_for_connection`: a failed attempt sleeps half a second. The fuel bounds the
-- attempts: with half a second of sleep after each, a deadline of a minute allows 120.
unfoldable pub poll : Environment → ℕ → ℕ → World → Bool × World
poll env zero deadline w = (false, w)
poll env (suc fuel) deadline w =
    let (up, w') = call env w in
    let later = poll env fuel deadline (sleep 500 w') in
    if ltb w.now deadline then (if up then (true, w') else later) else (false, w)

abbrev pub attempts : ℕ
attempts = 120

unfoldable pub wait_for_connection : Environment → Container → World → Result (Unit {0}) × World
wait_for_connection env p w =
    let (up, w') = poll env attempts (w.now + ready_timeout) w in
    (if up then ok tt else err (timeout_error ("Database did not become ready: " <> p.image)), w')

-- A method returns its result, the provider and the world.
unfoldable pub start : Environment → Container → World → Result (Unit {0}) × Container × World
start env p w = elim p.container [
  | some _ ↦ (ok tt, p, w)
  | none ↦
      let (created, w₁) = call env w in
      let p' : Container = record p { container = some w₁.next_container } in
      let (ready, w₂) = wait_for_connection env p' (launched w₁) in
      if created then (ready, p', w₂) else (err (external_error "container.start"), p, w₁)
]

unfoldable pub stop : Environment → Container → World → Result (Unit {0}) × Container × World
stop env p w = elim p.container [
  | none ↦ (ok tt, p, w)
  | some c ↦
      let (down, w') = call env w in
      if down
      then (ok tt, record p { container = none }, halted c w')
      else (err (external_error "container.stop"), p, w')
]

-- The statements of the backend's `reset` are one call, which fails as a whole, or drops what they look
-- at: the objects of PostgreSQL's schema public, or what MySQL and ClickHouse list as tables.
unfoldable pub reset : Environment → Container → World → Result (Unit {0}) × World
reset env p w = elim p.container [
  | none ↦ (err (runtime_error "Provider is not started"), w)
  | some c ↦
      let (done, w') = call env w in
      if done then (ok tt, cleared c w') else (err (external_error "reset"), w')
]
