-- ===== src/Server/Frozen.antt =====
-- What the tools keep of a workspace.
use dbwarden_harness.Base.{
  String, true, Option, some, List, [], ◌∷◌, string_eq, nat_eq, ◌≡◌, ◌≢◌, refl, arith, Option-cases,
  inl, inr,
}
use dbwarden_harness.Base.Dict
use dbwarden_harness.Base.Json.{Fields}
use dbwarden_harness.Base.Result.{ok, Result-cases}
use dbwarden_harness.Disk.{Disk}
use dbwarden_harness.Workspace.{Workspace, get}
use dbwarden_harness.Server.{
  Server, Host, update, write_model_file_internal, write_model_file, mutate, apply_mutation,
  testable, test_workspace, run_two_track_test,
}
use dbwarden_harness.Server.Tools.{Tool, write_tool, mutate_tool, test_tool, perform, perform_all}

-- The workspace that the server has under an id.
abbrev pub found : String → Server → Option Workspace
found id s = Dict.lookup id s.manager.workspaces

module _ {M : Type 0} (host : Host M) where
  frozen_write :
      (w : Workspace) (relative content : String) (d : Disk) (r : Workspace × Disk)
      → w.frozen ≡ true
      → write_model_file_internal host w relative content d ≢ ok r
  unfolding write_model_file_internal
  frozen_write w relative content d r f = ground (arith, f)

  frozen_mutate :
      (w : Workspace) (mutation : Fields) (d : Disk) (r : String × Workspace × Disk)
      → w.frozen ≡ true
      → mutate host w mutation d ≢ ok r
  unfolding mutate
  frozen_mutate w mutation d r f = ground (arith, f)

  frozen_testable :
      (w : Workspace) (mode : String) (r : String) → w.frozen ≡ true → testable host w mode ≢ ok r
  unfolding testable
  frozen_testable w mode r f = ground (arith, f)

  frozen_test :
      (w : Workspace) (mode : String) (d : Disk)
      → w.frozen ≡ true
      → (test_workspace host w mode d).1 ≡ w
  unfolding test_workspace
  frozen_test w mode d f = elim (Result-cases (testable host w mode)) [
    | inl (current, p) ↦ absurd (frozen_testable w mode current f p)
    | inr (e, p) ↦ rw (p, test_workspace) refl
  ]

  frozen_step :
      (t : Tool) (id : String) (w : Workspace) (s : Server)
      → found id s ≡ some w
      → w.frozen ≡ true
      → found id (perform host t s) ≡ some w
  unfolding perform write_model_file apply_mutation run_two_track_test get update
  frozen_step (write_tool i relative content) id w s h f =
      elim (Option-cases (Dict.lookup i s.manager.workspaces)) [
        | inl e ↦ ground (arith, e, h)
        | inr (v, e) ↦
            elim (Result-cases (write_model_file_internal host v relative content s.disk)) [
              | inr (x, p) ↦ ground (arith, e, h, p)
              | inl (r, p) ↦ ground (
                arith,
                e,
                h,
                f,
                p,
                frozen_write v relative content s.disk r,
                Dict.lookup-insert id i r.0 s.manager.workspaces,
              )
            ]
      ]
  frozen_step (mutate_tool i mutation) id w s h f =
      elim (Option-cases (Dict.lookup i s.manager.workspaces)) [
        | inl e ↦ ground (arith, e, h)
        | inr (v, e) ↦ elim (Result-cases (mutate host v mutation s.disk)) [
          | inr (x, p) ↦ ground (arith, e, h, p)
          | inl (r, p) ↦ ground (
            arith,
            e,
            h,
            f,
            p,
            frozen_mutate v mutation s.disk r,
            Dict.lookup-insert id i r.1 s.manager.workspaces,
          )
        ]
      ]
  frozen_step (test_tool i mode) id w s h f =
      elim (Option-cases (Dict.lookup i s.manager.workspaces)) [
        | inl e ↦ ground (arith, e, h)
        | inr (v, e) ↦ ground (
          arith,
          e,
          h,
          f,
          frozen_test v mode s.disk,
          Dict.lookup-insert id i (test_workspace host v mode s.disk).1 s.manager.workspaces,
        )
      ]

  -- A frozen workspace stays exactly as it is under any sequence of writes, mutations and tests,
  -- of it or of other workspaces.
  pub perform_all-frozen :
      (ts : List Tool) (id : String) (w : Workspace) (s : Server)
      → found id s ≡ some w
      → w.frozen ≡ true
      → found id (perform_all host ts s) ≡ some w
  unfolding perform_all
  perform_all-frozen [] id w s h f = h
  perform_all-frozen (t ∷ ts) id w s h f =
      perform_all-frozen ts id w (perform host t s) (frozen_step t id w s h f) f
