-- ===== src/Workspace.antt =====
-- mcp_server/workspace.py: isolated workspaces, created, looked up and destroyed.
pub mod Containment
pub mod Registry
mod Tests
use Prim.Native.Char.{code}
use dbwarden_harness.Base.{
  ℕ, suc, ◌-◌, ◌≤◌, ◌<◌, String, ◌<>◌, Bool, true, false, not, ◌&&◌, ◌||◌, Option, none, some, List,
  [], ◌∷◌, ◌++◌, ◌==◌, string_eq, nat_eq, if◌then◌else◌, length, leb, ltb, map, contains,
}
use dbwarden_harness.Base.Dict
use dbwarden_harness.Base.Dict.{Dict}
use dbwarden_harness.Base.Json.{Fields}
use dbwarden_harness.Base.Text.{lower}
use dbwarden_harness.Base.Result.{
  Result, ok, err, runtime_error, value_error, key_error, ◌>>=◌, ◌>>◌, guard,
}
use dbwarden_harness.World.{Environment, World}
use dbwarden_harness.Config.{HarnessMcpConfig}
use dbwarden_harness.Disk.{FilePath}
use dbwarden_harness.Network
use dbwarden_harness.Network.{WorkspaceNetwork}
use dbwarden_harness.Providers
use dbwarden_harness.Providers.{Provider, file_backed}
use dbwarden_harness.Providers.Sqlite.{sqlite_at}
use dbwarden_harness.Pool
use dbwarden_harness.Pool.{ContainerPool}

pub record Workspace : Type 0 where
  pub workspace_id : String
  pub backend : String
  pub db_version : Option String
  pub work_dir : String
  pub network : Option WorkspaceNetwork
  pub track_a_provider : Provider
  pub track_b_provider : Provider
  pub track_a_url : String
  pub track_b_url : String
  pub created_at : ℕ
  pub frozen : Bool
  pub mutations : List Fields
  pub base_models_source : Option String
  pub current_models_source : Option String

unfoldable pub freeze : Workspace → Workspace
freeze w = record w { frozen = true }

-- What `pathlib` answers. `resolve` gives the parts of the absolute path of a text, and `join` is
-- the operator `/` on a resolved root.
pub record Paths : Type 0 where
  pub resolve : String → FilePath
  pub resolve_under : FilePath → String → FilePath
  pub is_absolute : String → Bool
  pub has_drive : String → Bool

-- `path.is_relative_to(root)`: the parts of `root` come first.
pub is_relative_to : FilePath → FilePath → Bool
is_relative_to path [] = true
is_relative_to [] (r ∷ root) = false
is_relative_to (p ∷ path) (r ∷ root) = p == r && is_relative_to path root

pub resolve_path : Paths → Workspace → String → Result FilePath
unfolding is_relative_to
resolve_path paths w relative =
    let root = paths.resolve w.work_dir in
    let resolved = paths.resolve_under root relative in
    if (paths.is_absolute relative || paths.has_drive relative)
      || not (is_relative_to resolved root)
    then err (value_error "File path must stay inside the workspace")
    else ok resolved

-- `WorkspaceManager` with the pool that it uses.
pub record Manager : Type 0 where
  pub workspaces : Dict String Workspace
  pub pool : ContainerPool

-- A character of `[A-Za-z0-9_-]`.
abbrev is_word : ℕ → Bool
is_word c =
    (leb 65 c && leb c 90)
    || (leb 97 c && leb c 122)
    || (leb 48 c && leb c 57)
    || c == 95
    || c == 45

-- `re.fullmatch(r"[A-Za-z0-9_-]{n,m}", s)` with at most `room` characters.
word_of : ℕ → String → Bool
word_of room String.[] = true
word_of room (String.◌∷◌ c s) =
    let rest = word_of (room - 1) s in ltb 0 room && is_word (code c) && rest

pub valid_prefix : String → Bool
unfolding word_of
valid_prefix s = not (s == "") && word_of 64 s

-- A text that is missing or empty counts as false.
abbrev or_else : Option String → Option String → Option String
or_else none other = other
or_else (some s) other = if s == "" then other else some s

abbrev the : Option String → String → String
the none default = default
the (some s) default = s

pub canonical : String → String
canonical backend = let b = lower backend in if b == "postgres" then "postgresql" else b

pub record Tracks : Type 0 where
  pub network : Option WorkspaceNetwork
  pub provider_a : Provider
  pub provider_b : Provider
  pub url_a : String
  pub url_b : String

pub record InitializeResult : Type 0 where
  pub workspace_id : String
  pub backend : String
  pub db_version : Option String
  pub work_dir : String
  pub track_a_url : String
  pub track_b_url : String

pub record DestroyResult : Type 0 where
  pub workspace_id : String
  pub removed : Bool

pub record WorkspaceInfo : Type 0 where
  pub workspace_id : String
  pub backend : String
  pub db_version : Option String
  pub work_dir : String
  pub created_at : ℕ
  pub frozen : Bool

pub info : Workspace → WorkspaceInfo
info w = record {
  workspace_id = w.workspace_id;
  backend = w.backend;
  db_version = w.db_version;
  work_dir = w.work_dir;
  created_at = w.created_at;
  frozen = w.frozen;
}

pub list_workspaces : Manager → List WorkspaceInfo
unfolding info
list_workspaces m = map info (Dict.values m.workspaces)

unfoldable pub get : String → Manager → Result Workspace
get id m = elim (Dict.lookup id m.workspaces) [
  | none ↦ err (key_error ("Workspace " <> id <> " not found"))
  | some w ↦ ok w
]

module _ (env : Environment) (sqlite_version : String) (address : ℕ → String)
    (config : HarnessMcpConfig) where
  urls : Provider → Provider → Option WorkspaceNetwork → Result Tracks
  urls a b network = do
    url_a ← Providers.url address a
    url_b ← Providers.url address b
    ok (record { network = network; provider_a = a; provider_b = b; url_a = url_a; url_b = url_b })

  open_files : String → ContainerPool → Result Tracks × ContainerPool
  unfolding urls
  open_files work_dir pool =
      let (_, a, w₁) =
        Providers.start env (file_backed (sqlite_at (some (work_dir <> "/track_a.db"))))
          pool.world in
      let (_, b, w₂) =
        Providers.start env (file_backed (sqlite_at (some (work_dir <> "/track_b.db")))) w₁ in
      (urls a b none, record pool { world = w₂ })

  claim_pair : String → String → WorkspaceNetwork → ContainerPool → Result Tracks × ContainerPool
  unfolding urls
  claim_pair backend version net pool =
      let (claimed_a, p₁) = Pool.claim env sqlite_version config backend version net pool in
      let (claimed_b, p₂) = Pool.claim env sqlite_version config backend version net p₁ in
      elim claimed_a [
        | err e ↦ (err e, p₁)
        | ok a ↦ elim claimed_b [ err e ↦ (err e, p₂) | ok b ↦ (urls a b (some net), p₂) ]
      ]

  open_containers : String → String → ContainerPool → Result Tracks × ContainerPool
  unfolding claim_pair
  open_containers backend version pool =
      let (made, w) = Network.create env pool.world in
      let p = record pool { world = w } in
      elim made [ err e ↦ (err e, p) | ok net ↦ claim_pair backend version net p ]

  -- The two databases of a workspace.
  pub open_tracks : String → Option String → String → ContainerPool → Result Tracks × ContainerPool
  open_tracks backend version work_dir pool =
      if backend == "sqlite"
      then open_files work_dir pool
      else open_containers backend (the (or_else version (some "latest")) "latest") pool

  new_workspace : String → String → Option String → String → ℕ → Tracks → Workspace
  new_workspace id backend version work_dir now t = record {
    workspace_id = id;
    backend = backend;
    db_version = version;
    work_dir = work_dir;
    network = t.network;
    track_a_provider = t.provider_a;
    track_b_provider = t.provider_b;
    track_a_url = t.url_a;
    track_b_url = t.url_b;
    created_at = now;
    frozen = false;
    mutations = [];
    base_models_source = none;
    current_models_source = none;
  }

  pub report : Workspace → InitializeResult
  report w = record {
    workspace_id = w.workspace_id;
    backend = w.backend;
    db_version = w.db_version;
    work_dir = w.work_dir;
    track_a_url = w.track_a_url;
    track_b_url = w.track_b_url;
  }

  -- The checks before anything is made: the backend's name, or the error.
  pub admit : String → Option String → Manager → Result String
  admit name prefix m = do
    guard (ltb (length m.workspaces) config.max_workspaces)
        (runtime_error "Maximum number of workspaces reached")
    guard (contains (Dict.keys config.db_versions) (canonical name))
        (value_error ("Unsupported backend: " <> canonical name))
    guard (elim prefix [ none ↦ true | some p ↦ valid_prefix p ])
        (value_error "name_prefix must contain 1-64 letters, digits, underscores or hyphens")
    ok (canonical name)

  -- The end of `initialize`: with two open databases the workspace is registered.
  pub register :
      String
      → String
      → Option String
      → String
      → ℕ
      → Manager
      → Result Tracks × ContainerPool
      → Result InitializeResult × Manager
  unfolding new_workspace report
  register id backend version work_dir now m (err e, pool) = (err e, record m { pool = pool })
  register id backend version work_dir now m (ok t, pool) =
      let w = new_workspace id backend version work_dir now t in
      (ok (report w), record { workspaces = Dict.insert id w m.workspaces; pool = pool })

  -- `suffix` is the random part of the id, and `now` the time.
  pub initialize :
      String
      → Option String
      → Option String
      → String
      → ℕ
      → Manager
      → Result InitializeResult × Manager
  unfolding register
  initialize name version prefix suffix now m = elim (admit name prefix m) [
    | err e ↦ (err e, m)
    | ok backend ↦
        let resolved = or_else version (Dict.lookup backend config.db_versions) in
        let id = the (or_else prefix (some "ws")) "ws" <> "-" <> suffix in
        let work_dir = config.workspace_root <> "/" <> id in
        register id backend resolved work_dir now m (open_tracks backend resolved work_dir m.pool)
  ]

  -- The providers of a workspace that is gone.
  dispose : Workspace → ContainerPool → ContainerPool
  dispose w pool =
      let (_, _, v₁) = Providers.stop env w.track_a_provider pool.world in
      let (_, _, v₂) = Providers.stop env w.track_b_provider v₁ in
      let p₁ = Pool.release env sqlite_version config w.backend w.track_a_provider w.network pool in
      let p₂ = Pool.release env sqlite_version config w.backend w.track_b_provider w.network p₁ in
      if w.backend == "sqlite" then record pool { world = v₂ } else elim w.network [
        | none ↦ p₂
        | some net ↦ record p₂ { world = Network.remove env net p₂.world }
      ]

  pub destroy : String → Manager → DestroyResult × Manager
  destroy id m = elim (Dict.lookup id m.workspaces) [
    | none ↦ (record { workspace_id = id; removed = false }, m)
    | some w ↦ (
      record { workspace_id = id; removed = true },
      record { workspaces = Dict.erase id m.workspaces; pool = dispose w m.pool },
    )
  ]
