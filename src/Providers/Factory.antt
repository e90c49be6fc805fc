-- ===== src/Providers/Factory.antt =====
-- The factory (infrastructure/providers/factory.py): what it builds for which name and tag.
use text.Mathlib.TextLemmas.{nil-append}
use dbwarden_harness.Base.{
  [], ◌∷◌, contains, ◌↔◌, ℕ, String, ◌<>◌, true, none, some, ◌≡◌, ◌≢◌, refl, arith, string_eq,
}
use dbwarden_harness.Base.Text.{lower, after_last?, after_last?-append}
use dbwarden_harness.Base.Result.{ok, is_ok}
use dbwarden_harness.World.{Environment, World}
use dbwarden_harness.Providers.Sqlite.{SqliteProvider}
use dbwarden_harness.Providers.Docker.Readiness.{start_started}
use dbwarden_harness.Providers.Docker
use dbwarden_harness.Providers.Docker.{
  Container, Engine, new_container, postgres, mysql, mariadb, clickhouse,
}
use dbwarden_harness.Providers.{
  Provider, containerized, file_backed, provider_for, version, start, container_of,
}

new_container-version :
    (e : Engine) (repository tag : String)
    → after_last? 58 tag ≡ none
    → after_last? 58 repository ≡ some ""
    → Docker.version (new_container e (repository <> tag)) ≡ tag
unfolding Docker.version new_container
new_container-version e repository tag t r =
    ground (arith, after_last?-append 58 repository tag t, r, nil-append tag)

provider_for-containerized :
    (backend tag : String) (f : SqliteProvider)
    → lower backend ≢ "sqlite"
    → provider_for backend tag ≢ ok (file_backed f)
unfolding provider_for
provider_for-containerized backend tag f differs h = ground arith

-- What the factory builds for a tag without a colon is stopped and reports that tag.
module _ (sqlite_version : String) where
  -- What the factory builds for a backend other than SQLite and a tag without a colon is stopped
  -- and reports that tag as its version.
  pub provider_for-version :
      (backend tag : String) (p : Provider)
      → after_last? 58 tag ≡ none
      → lower backend ≢ "sqlite"
      → provider_for backend tag ≡ ok p
      → (version sqlite_version p ≡ tag) × (container_of p ≡ none)
  unfolding provider_for version new_container container_of after_last?
  provider_for-version backend tag p t differs h = ground (
    arith,
    new_container-version postgres "postgres:" tag t refl,
    new_container-version mysql "mysql:" tag t refl,
    new_container-version mariadb "mariadb:" tag t refl,
    new_container-version clickhouse "clickhouse/clickhouse-server:" tag t refl,
  )

  -- A start that succeeds keeps the version, and leaves a container where the factory built one.
  pub start-version :
      (env : Environment) (backend tag : String) (p : Provider) (w : World)
      → after_last? 58 tag ≡ none
      → lower backend ≢ "sqlite"
      → provider_for backend tag ≡ ok p
      → is_ok (start env p w).0 ≡ true
      → (version sqlite_version (start env p w).1 ≡ tag) × (container_of (start env p w).1 ≢ none)
  unfolding start version Docker.version container_of
  start-version env backend tag (containerized d) w t differs made up = ground (
    arith,
    provider_for-version backend tag (containerized d) t differs made,
    start_started env d w,
  )
  start-version env backend tag (file_backed f) w t differs made up =
      absurd (provider_for-containerized backend tag f differs made)

-- The factory refuses exactly the names that are no backend, whatever their case.
pub provider_for_supported :
    (backend tag : String)
    → (is_ok (provider_for backend tag) ≡ true) ↔ (
        contains
          ("postgres" ∷ "postgresql" ∷ "mysql" ∷ "mariadb" ∷ "clickhouse" ∷ "sqlite" ∷ [])
          (lower backend)
        ≡ true)
unfolding provider_for
provider_for_supported backend tag = ground arith

-- A start of any provider succeeds where Docker and the database answer.
pub start_succeeds :
    (env : Environment) (p : Provider) (w : World)
    → ((n : ℕ) → env.answer n ≡ true)
    → is_ok (start env p w).0 ≡ true
unfolding start
start_succeeds env (containerized d) w up =
    ground (arith, Docker.Readiness.start_answered env d w up)
start_succeeds env (file_backed f) w up = refl
