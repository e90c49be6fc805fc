-- ===== src/Server/Base.antt =====
-- The base source of a workspace, which a mutation is compared with.
use dbwarden_harness.Base.{
  String, not, Option, none, some, List, [], ◌∷◌, string_eq, nat_eq, ◌≡◌, refl, arith, Option-cases,
  Bool-cases, inl, inr,
}
use dbwarden_harness.Base.Dict
use dbwarden_harness.Base.Json.{Fields}
use dbwarden_harness.Base.Result.{Result, ok, err, guard, Result-cases, >>=-eq-ok}
use dbwarden_harness.Disk.{Disk}
use dbwarden_harness.Workspace.{Workspace, get, freeze, resolve_path}
use dbwarden_harness.Tracks.{TrackResult, run_track_a}
use dbwarden_harness.Bundle.{assemble_proof_bundle}
use dbwarden_harness.Server.{
  Server, Host, update, is_models, with_source, write_model_file_internal, write_model_file, mutate,
  apply_model_mutation, apply_mutation, testable, judge, run_reference, with_reference, or_current,
  two_tracks, test_workspace, run_two_track_test,
}
use dbwarden_harness.Server.Tools.{Tool, write_tool, mutate_tool, test_tool, perform, perform_all}
use dbwarden_harness.Server.Frozen.{found}

-- The source of the base, if the workspace is there and has one.
abbrev pub base_of : Option Workspace → Option String
base_of none = none
base_of (some w) = w.base_models_source

module _ {M : Type 0} (host : Host M) where
  base_write :
      (w : Workspace) (relative content base : String) (d : Disk) (r : Workspace × Disk)
      → w.base_models_source ≡ some base
      → write_model_file_internal host w relative content d ≡ ok r
      → r.0.base_models_source ≡ some base
  unfolding write_model_file_internal with_source
  base_write w relative content base d r b h = elim (Bool-cases (is_models relative)) [
    | inl m ↦ ground (arith, b, h, m)
    | inr m ↦ ground (arith, b, h, m)
  ]

  base_mutate :
      (w : Workspace) (mutation : Fields) (base : String) (d : Disk) (r : String × Workspace × Disk)
      → w.base_models_source ≡ some base
      → mutate host w mutation d ≡ ok r
      → r.1.base_models_source ≡ some base
  unfolding mutate
  base_mutate w mutation base d r b h =
      let (u, _, h₁) = >>=-eq-ok (guard (not w.frozen) _) _ h in
      let (path, _, h₂) = >>=-eq-ok (resolve_path host.paths w "app/models.py") _ h₁ in
      let (source, _, h₃) = >>=-eq-ok (apply_model_mutation host _ mutation) _ h₂ in
      let (v, p, h₄) = >>=-eq-ok (write_model_file_internal host w "app/models.py" source d) _ h₃ in
      ground (arith, h₄, base_write w "app/models.py" source base d v b p)

  base_judge :
      (w : Workspace) (mode base current : String) (a b : TrackResult) (d : Disk)
      → (judge host w mode base current a b d).1.base_models_source ≡ w.base_models_source
  unfolding judge assemble_proof_bundle freeze
  base_judge w mode base current a b d = ground arith

  base_reference :
      (w : Workspace) (mode base current : String) (a : TrackResult) (o : Result TrackResult × Disk)
      → (with_reference host w mode base current a o).1.base_models_source ≡ w.base_models_source
  unfolding with_reference
  base_reference w mode base current a (err e, d) = refl
  base_reference w mode base current a (ok b, d) =
      ground (arith, base_judge w mode base current a b d)

  base_two_tracks :
      (w : Workspace) (mode base current : String) (d : Disk)
      → (two_tracks host w mode base current d).1.base_models_source ≡ w.base_models_source
  unfolding two_tracks
  base_two_tracks w mode base current d =
      let (a, d₁) =
        run_track_a host.programs host.repr host.loads (host.paths.resolve w.work_dir) w.backend
          w.track_a_url base current d in
      ground
        (arith, base_reference w mode base current a (run_reference host w mode base current d₁))

  base_test :
      (w : Workspace) (mode : String) (d : Disk)
      → (test_workspace host w mode d).1.base_models_source ≡ w.base_models_source
  unfolding test_workspace
  base_test w mode d = elim (Result-cases (testable host w mode)) [
    | inr (e, p) ↦ ground (arith, p)
    | inl (current, p) ↦
        ground
          (arith, p, base_two_tracks w mode (or_current w.base_models_source current) current d)
  ]

  base_step :
      (t : Tool) (id base : String) (s : Server)
      → base_of (found id s) ≡ some base
      → base_of (found id (perform host t s)) ≡ some base
  unfolding perform write_model_file apply_mutation run_two_track_test get update
  base_step (write_tool i relative content) id base s h =
      elim (Option-cases (Dict.lookup i s.manager.workspaces)) [
        | inl e ↦ ground (arith, e, h)
        | inr (v, e) ↦
            elim (Result-cases (write_model_file_internal host v relative content s.disk)) [
              | inr (x, p) ↦ ground (arith, e, h, p)
              | inl (r, p) ↦ ground (
                arith,
                e,
                h,
                p,
                base_write v relative content base s.disk r,
                Dict.lookup-insert id i r.0 s.manager.workspaces,
              )
            ]
      ]
  base_step (mutate_tool i mutation) id base s h =
      elim (Option-cases (Dict.lookup i s.manager.workspaces)) [
        | inl e ↦ ground (arith, e, h)
        | inr (v, e) ↦ elim (Result-cases (mutate host v mutation s.disk)) [
          | inr (x, p) ↦ ground (arith, e, h, p)
          | inl (r, p) ↦ ground (
            arith,
            e,
            h,
            p,
            base_mutate v mutation base s.disk r,
            Dict.lookup-insert id i r.1 s.manager.workspaces,
          )
        ]
      ]
  base_step (test_tool i mode) id base s h =
      elim (Option-cases (Dict.lookup i s.manager.workspaces)) [
        | inl e ↦ ground (arith, e, h)
        | inr (v, e) ↦ ground (
          arith,
          e,
          h,
          base_test v mode s.disk,
          Dict.lookup-insert id i (test_workspace host v mode s.disk).1 s.manager.workspaces,
        )
      ]

  -- The base source of a workspace, once there, stays the same under any sequence of writes,
  -- mutations and tests.
  pub perform_all-base :
      (ts : List Tool) (id base : String) (s : Server)
      → base_of (found id s) ≡ some base
      → base_of (found id (perform_all host ts s)) ≡ some base
  unfolding perform_all
  perform_all-base [] id base s h = h
  perform_all-base (t ∷ ts) id base s h =
      perform_all-base ts id base (perform host t s) (base_step t id base s h)
