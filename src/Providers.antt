-- ===== src/Providers.antt =====
-- infrastructure/providers/base.py and factory.py: the contract that every provider answers, and
-- the factory. A provider is one of its two families.
pub mod Factory
pub mod Docker
pub mod Sqlite
mod Tests
use dbwarden_harness.Base.{
  ℕ, String, ◌<>◌, Option, none, some, ◌==◌, Eq, string_eq, string_dec, ℕ_discrete, if◌then◌else◌,
}
use dbwarden_harness.Base.Text.{lower}
use dbwarden_harness.Base.Result.{Result, ok, err, value_error}
use dbwarden_harness.World.{Environment, World}
use Docker.{Container, Engine, postgres, mysql, mariadb, clickhouse, new_container}
use Sqlite.{SqliteProvider, sqlite_at}

pub data Provider : Type 0 where
  containerized : Container → Provider
  file_backed : SqliteProvider → Provider

-- The factory without `network`, which no caller in the harness passes.
unfoldable pub provider_for : String → String → Result Provider
provider_for backend tag =
    let b = lower backend in
    if b == "postgres"
    then ok (containerized (new_container postgres ("postgres:" <> tag)))
    else if b == "postgresql"
    then ok (containerized (new_container postgres ("postgres:" <> tag)))
    else if b == "mysql"
    then ok (containerized (new_container mysql ("mysql:" <> tag)))
    else if b == "mariadb"
    then ok (containerized (new_container mariadb ("mariadb:" <> tag)))
    else if b == "clickhouse"
    then ok (containerized (new_container clickhouse ("clickhouse/clickhouse-server:" <> tag)))
    else if b == "sqlite"
    then ok (file_backed (sqlite_at none))
    else err (value_error ("Unsupported backend " <> backend))

-- `sqlite_version` is `sqlite3.sqlite_version`.
module _ (sqlite_version : String) where
  unfoldable pub version : Provider → String
  version (containerized c) = Docker.version c
  version (file_backed f) = sqlite_version

unfoldable pub start : Environment → Provider → World → Result (Unit {0}) × Provider × World
start env (containerized c) w = let (r, c', w') = Docker.start env c w in (r, containerized c', w')
start env (file_backed f) w = let (f', w') = Sqlite.prepare env f w in (ok tt, file_backed f', w')

unfoldable pub stop : Environment → Provider → World → Result (Unit {0}) × Provider × World
stop env (containerized c) w = let (r, c', w') = Docker.stop env c w in (r, containerized c', w')
stop env (file_backed f) w = let (f', w') = Sqlite.stop f w in (ok tt, file_backed f', w')

unfoldable pub reset : Environment → Provider → World → Result (Unit {0}) × World
reset env (containerized c) w = Docker.reset env c w
reset env (file_backed f) w = (ok tt, Sqlite.forget f w)

-- `getattr(provider, "_container", None)`
unfoldable pub container_of : Provider → Option ℕ
container_of (containerized c) = c.container
container_of (file_backed f) = none

module _ (address : ℕ → String) where
  pub url : Provider → Result String
  url (containerized c) = Docker.url address c
  url (file_backed f) = Sqlite.url f

Provider-discrete : Discrete Provider
Provider-discrete = hlevel (string_dec, ℕ_discrete)

instance pub provider_eq : Eq Provider
provider_eq = record { dec = Provider-discrete }
