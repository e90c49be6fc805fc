-- ===== src/Server/Lifecycle.antt =====
-- The end of the server process in mcp_server/server.py: every workspace is destroyed and the pool
-- stopped.
use dbwarden_harness.Base.{
  ℕ, String, true, none, List, [], ◌∷◌, ◌==◌, ◌≡◌, if◌then◌else◌, refl, arith, string_eq, contains,
}
use dbwarden_harness.Base.Dict
use dbwarden_harness.Base.Dict.{Dict, lookup-erase}
use dbwarden_harness.World.{Environment}
use dbwarden_harness.Config.{HarnessMcpConfig}
use dbwarden_harness.Pool
use dbwarden_harness.Workspace.{Workspace, Manager, destroy}
use dbwarden_harness.Workspace.Registry.{destroy_lem}

module _ (env : Environment) (sqlite_version : String) (address : ℕ → String)
    (config : HarnessMcpConfig) where
  -- `for ws in list(...): WORKSPACES.destroy(ws.workspace_id)`
  pub destroy_each : List Workspace → Manager → Manager
  destroy_each [] m = m
  destroy_each (w ∷ ws) m =
      destroy_each ws (destroy env sqlite_version address config w.workspace_id m).1

  pub cleanup : Manager → Manager
  cleanup m =
      let gone = destroy_each (Dict.values m.workspaces) m in
      record gone { pool = Pool.stop env sqlite_version config gone.pool }

  -- `run_server`: the pool starts, the clients are served, and the clean-up runs whatever happened.
  pub run_server : (Manager → Manager) → Manager → Manager
  run_server serve m =
      cleanup (serve (record m { pool = (Pool.start env sqlite_version config m.pool).0 }))

-- Every workspace is registered under its id.
abbrev pub IsKeyed : Dict String Workspace → Type 0
IsKeyed [] = Unit
IsKeyed ((id, w) ∷ d) = (id ≡ w.workspace_id) × IsKeyed d

abbrev ids : List Workspace → List String
ids [] = []
ids (w ∷ ws) = w.workspace_id ∷ ids ws

keys-values : (d : Dict String Workspace) → IsKeyed d → Dict.keys d ≡ ids (Dict.values d)
keys-values [] h = refl
keys-values ((id, w) ∷ d) h = ground (arith, keys-values d h.1, h.0)

empty_if : (d : Dict String Workspace) → ((id : String) → Dict.lookup id d ≡ none) → d ≡ []
unfolding Dict.lookup
empty_if [] h = refl
empty_if ((id, w) ∷ d) h = ground (arith, h id)

module _ (env : Environment) (sqlite_version : String) (address : ℕ → String)
    (config : HarnessMcpConfig) where
  lookup-destroy :
      (t id : String) (m : Manager)
      → Dict.lookup t (destroy env sqlite_version address config id m).1.workspaces
        ≡ (if t == id then none else Dict.lookup t m.workspaces)
  lookup-destroy t id m = ground (arith, destroy_lem env sqlite_version address config id t m)

  lookup-destroy_each :
      (t : String) (ws : List Workspace) (m : Manager)
      → Dict.lookup t (destroy_each env sqlite_version address config ws m).workspaces
        ≡ (if contains (ids ws) t then none else Dict.lookup t m.workspaces)
  unfolding destroy_each
  lookup-destroy_each t [] m = refl
  lookup-destroy_each t (w ∷ ws) m = ground (
    arith,
    lookup-destroy t w.workspace_id m,
    lookup-destroy_each t ws (destroy env sqlite_version address config w.workspace_id m).1,
  )

  -- Where every workspace is registered under its id, the clean-up at the end of the server leaves
  -- no workspace and a stopped pool, whatever external calls fail.
  pub cleanup_empties :
      (m : Manager)
      → IsKeyed m.workspaces
      → ((cleanup env sqlite_version address config m).workspaces ≡ [])
        × ((cleanup env sqlite_version address config m).pool.stopped ≡ true)
  unfolding cleanup Pool.stop
  cleanup_empties m keyed =
      let gone = destroy_each env sqlite_version address config (Dict.values m.workspaces) m in
      (
        empty_if gone.workspaces λ t. ground (
          arith,
          lookup-destroy_each t (Dict.values m.workspaces) m,
          keys-values m.workspaces keyed,
          Dict.contains-keys m.workspaces t,
        ),
        refl,
      )
