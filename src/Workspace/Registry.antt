-- ===== src/Workspace/Registry.antt =====
-- The registry of workspaces: its bound, and what `initialize` and `destroy` do to it.
use dbwarden_harness.Base.{
  ℕ, suc, ◌≤◌, ◌<◌, String, true, false, Option, none, [], ◌∷◌, ◌==◌, string_eq, ◌≡◌, ◌≢◌, refl,
  ◌↔◌, ◌⊎◌, inl, inr, arith, if◌then◌else◌, length, contains,
}
use dbwarden_harness.Base.Dict
use dbwarden_harness.Base.Dict.{Dict, lookup, lookup-insert, lookup-erase, NodupKeys}
use dbwarden_harness.Base.Result.{Result, ok, err, is_ok}
use dbwarden_harness.World.{Environment}
use dbwarden_harness.Config.{HarnessMcpConfig}
use dbwarden_harness.Pool.{ContainerPool}
use dbwarden_harness.Workspace.{
  Workspace, Manager, Tracks, InitializeResult, admit, canonical, new_workspace, report, register,
  initialize, destroy,
}

module _ {ℓ} {V : Type ℓ} where
  length-insert :
      (k : String) (v : V) (d : Dict String V) → length (Dict.insert k v d) ≤ suc (length d)
  unfolding Dict.insert
  length-insert k v [] = omega arith
  length-insert k v ((j, w) ∷ d) = ground (arith, length-insert k v d)

  length-erase : (k : String) (d : Dict String V) → length (Dict.erase k d) ≤ length d
  unfolding Dict.erase
  length-erase k [] = omega arith
  length-erase k ((j, w) ∷ d) = ground (arith, length-erase k d)

module _ (env : Environment) (sqlite_version : String) (address : ℕ → String)
    (config : HarnessMcpConfig) where
  -- The registry never holds more workspaces than configured.
  abbrev pub IsBounded : Manager → Type 0
  IsBounded m = length m.workspaces ≤ config.max_workspaces

  -- A workspace as `initialize` makes it.
  pub record IsNew (backend : String) (w : Workspace) : Type 0 where
    pub named : w.backend ≡ backend
    pub open_for_writing : w.frozen ≡ false
    pub unmutated : w.mutations ≡ []
    pub no_base : w.base_models_source ≡ none
    pub no_current : w.current_models_source ≡ none

  -- What `initialize` may come to: an error with the registry as it was, or a new workspace in it.
  abbrev pub Registers : String → Manager → Result InitializeResult × Manager → Type 0
  Registers backend m r =
      ((is_ok r.0 ≡ false) × (r.1.workspaces ≡ m.workspaces))
      ⊎ ((w : Workspace) × (r.0 ≡ ok (report env sqlite_version address config w))
          × (r.1.workspaces ≡ Dict.insert w.workspace_id w m.workspaces)
          × IsNew backend w)

  register-Registers :
      (id backend : String) (version : Option String) (work_dir : String) (now : ℕ) (m : Manager)
      (opened : Result Tracks × ContainerPool) (name : String)
      → backend ≡ name
      → Registers name m
          (register env sqlite_version address config id backend version work_dir now m opened)
  unfolding register
  register-Registers id backend version work_dir now m (err e, pool) name same = inl (refl, refl)
  register-Registers id backend version work_dir now m (ok t, pool) name same = inr (
    new_workspace env sqlite_version address config id backend version work_dir now t,
    refl,
    refl,
    record {
      named = same;
      open_for_writing = refl;
      unmutated = refl;
      no_base = refl;
      no_current = refl;
    },
  )

  admit_lem :
      (name backend : String) (prefix : Option String) (m : Manager)
      → admit env sqlite_version address config name prefix m ≡ ok backend
      → (length m.workspaces < config.max_workspaces)
        × (backend ≡ canonical name)
        × (contains (Dict.keys config.db_versions) backend ≡ true)
  unfolding admit
  admit_lem name backend prefix m h = ground arith

  -- `initialize` either fails with the registry as it was or registers one new workspace of the
  -- canonical backend, and it succeeds only below the limit and for a configured backend.
  pub initialize_lem :
      (name : String) (version prefix : Option String) (suffix : String) (now : ℕ) (m : Manager)
      → let r = initialize env sqlite_version address config name version prefix suffix now m in
        Registers (canonical name) m r
        × (is_ok r.0 ≡ true
            → (length m.workspaces < config.max_workspaces)
              × (contains (Dict.keys config.db_versions) (canonical name) ≡ true))
  unfolding initialize
  initialize_lem name version prefix suffix now m =
      go (admit env sqlite_version address config name prefix m) refl
    where
      go :
          (a : Result String)
          → admit env sqlite_version address config name prefix m ≡ a
          → let r = initialize env sqlite_version address config name version prefix suffix now m in
            Registers (canonical name) m r
            × (is_ok r.0 ≡ true
                → (length m.workspaces < config.max_workspaces)
                  × (contains (Dict.keys config.db_versions) (canonical name) ≡ true))
      go (err e) a = rw (a, initialize) (inl (refl, refl), λ h. cc)
      go (ok backend) a =
          let (room, same, supported) = admit_lem name backend prefix m a in
          rw (a, initialize)
            (
              register-Registers _ backend _ _ now m _ (canonical name) same,
              λ _. (room, rw (← same) supported),
            )

  pub initialize-IsBounded :
      (name : String) (version prefix : Option String) (suffix : String) (now : ℕ) (m : Manager)
      → IsBounded m
      → IsBounded (initialize env sqlite_version address config name version prefix suffix now m).1
  initialize-IsBounded name version prefix suffix now m h =
      let (registers, allowed) = initialize_lem name version prefix suffix now m in
      elim registers [
        | inl (_, same) ↦ rw same h
        | inr (w, done, same, _) ↦
            let (room, _) = allowed (rw done) in
            rw same (omega (arith, length-insert w.workspace_id w m.workspaces))
      ]

  pub destroy-IsBounded :
      (id : String) (m : Manager)
      → IsBounded m
      → IsBounded (destroy env sqlite_version address config id m).1
  unfolding destroy
  destroy-IsBounded id m h = ground (arith, length-erase id m.workspaces)

  -- `destroy` answers `removed` exactly when the workspace was known; afterwards it is unknown and
  -- every other one is found as before.
  pub destroy_lem :
      (id other : String) (m : Manager)
      → let r = destroy env sqlite_version address config id m in
        ((r.0.removed ≡ true) ↔ (lookup id m.workspaces ≢ none))
        × (lookup other r.1.workspaces ≡ (if other == id then none else lookup other m.workspaces))
  unfolding destroy
  destroy_lem id other m = ground (arith, lookup-erase other id m.workspaces)
