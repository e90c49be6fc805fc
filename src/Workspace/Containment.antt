-- ===== src/Workspace/Containment.antt =====
-- `resolve_path` in mcp_server/workspace.py: which paths it accepts.
use dbwarden_harness.Base.{String, true, false, [], ◌∷◌, ◌++◌, string_eq, ◌≡◌, refl, arith}
use dbwarden_harness.Base.Result.{ok}
use dbwarden_harness.Disk.{FilePath}
use dbwarden_harness.Workspace.{Workspace, Paths, is_relative_to, resolve_path}

is_relative_to-append :
    (path root : FilePath)
    → is_relative_to path root ≡ true
    → (rest : FilePath) × (path ≡ root ++ rest)
unfolding is_relative_to
is_relative_to-append path [] h = (path, refl)
is_relative_to-append [] (r ∷ root) h = cc
is_relative_to-append (p ∷ path) (r ∷ root) h =
    let (rest, e) = is_relative_to-append path root (ground arith) in (rest, ground (arith, e))

is_relative_to_of_append : (root rest : FilePath) → is_relative_to (root ++ rest) root ≡ true
unfolding is_relative_to
is_relative_to_of_append [] [] = refl
is_relative_to_of_append [] (x ∷ rest) = refl
is_relative_to_of_append (r ∷ root) rest = ground (arith, is_relative_to_of_append root rest)

module _ (paths : Paths) (w : Workspace) (relative : String) where
  -- A path that `resolve_path` accepts is the resolved one and lies below the workspace's
  -- directory, and its text was neither absolute nor on a drive.
  pub resolve_path-inside :
      (path : FilePath)
      → resolve_path paths w relative ≡ ok path
      → (path ≡ paths.resolve_under (paths.resolve w.work_dir) relative)
        × ((rest : FilePath) × (path ≡ paths.resolve w.work_dir ++ rest))
        × (paths.is_absolute relative ≡ false)
        × (paths.has_drive relative ≡ false)
  unfolding resolve_path
  resolve_path-inside path h =
      let inside : is_relative_to path (paths.resolve w.work_dir) ≡ true = ground arith in
      (
        ground arith,
        is_relative_to-append path (paths.resolve w.work_dir) inside,
        ground arith,
        ground arith,
      )

  -- Every relative path without a drive that resolves below the workspace's directory is accepted.
  pub resolve_path_accepts :
      (rest : FilePath)
      → paths.is_absolute relative ≡ false
      → paths.has_drive relative ≡ false
      → paths.resolve_under (paths.resolve w.work_dir) relative ≡ paths.resolve w.work_dir ++ rest
      → resolve_path paths w relative ≡ ok (paths.resolve w.work_dir ++ rest)
  unfolding resolve_path
  resolve_path_accepts rest a b e =
      ground (arith, is_relative_to_of_append (paths.resolve w.work_dir) rest)
