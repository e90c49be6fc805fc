-- ===== src/Disk/Files.antt =====
-- What a file holds after a write.
use mathlib.Core.List.{append_assoc}
use dbwarden_harness.Base.{
  String, some, [], ◌∷◌, ◌++◌, ◌==◌, if◌then◌else◌, string_eq, ◌≡◌, ◌≢◌, sym, ◌∙◌, arith, ◌⊎◌,
}
use dbwarden_harness.Base.Dict.{lookup-insert}
use dbwarden_harness.Disk.{FilePath, file_path_eq, Disk, read, write}

pub append_injective : (xs ys zs : FilePath) → (xs ++ ys ≡ xs ++ zs) → ys ≡ zs
append_injective [] ys zs h = h
append_injective (x ∷ xs) ys zs h = ground (arith, append_injective xs ys zs)

pub read-write :
    (path other : FilePath) (content : String) (d : Disk)
    → read path (write other content d) ≡ (if path == other then some content else read path d)
unfolding read write
read-write path other content d = lookup-insert path other content d.files

pub read-write_same :
    (path : FilePath) (content : String) (d : Disk)
    → read path (write path content d) ≡ some content
read-write_same path content d = ground (arith, read-write path path content d)

pub read-write_other :
    (path other : FilePath) (content : String) (d : Disk)
    → path ≢ other
    → read path (write other content d) ≡ read path d
read-write_other path other content d h = ground (arith, h, read-write path other content d)

-- `dir / folder / name`
abbrev pub file_in : FilePath → String → String → FilePath
file_in dir folder name = (dir ++ (folder ∷ [])) ++ (name ∷ [])

parts_ne : (f n g m : String) → ((f ≢ g) ⊎ (n ≢ m)) → f ∷ n ∷ [] ≢ g ∷ m ∷ []
parts_ne f n g m h e = ground (arith, h, e)

pub file_in-ne :
    (dir : FilePath) (f n g m : String) → ((f ≢ g) ⊎ (n ≢ m)) → file_in dir f n ≢ file_in dir g m
file_in-ne dir f n g m h e = parts_ne f n g m h (
    append_injective dir (f ∷ n ∷ []) (g ∷ m ∷ [])
      (sym (append_assoc dir (f ∷ []) (n ∷ [])) ∙ e ∙ append_assoc dir (g ∷ []) (m ∷ [])))

longer : (f n m : String) → f ∷ n ∷ [] ≢ m ∷ []
longer f n m e = cc

pub file_in-shallow : (dir : FilePath) (f n m : String) → file_in dir f n ≢ dir ++ (m ∷ [])
file_in-shallow dir f n m e =
    longer f n m
      (append_injective dir (f ∷ n ∷ []) (m ∷ []) (sym (append_assoc dir (f ∷ []) (n ∷ [])) ∙ e))
