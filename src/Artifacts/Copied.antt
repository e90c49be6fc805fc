-- ===== src/Artifacts/Copied.antt =====
-- What a capture of tools/artifacts.py keeps of a project.
use mathlib.Core.Path.{sym, subst, ◌∙◌}
use mathlib.Core.List.{map, append_assoc}
use dbwarden_harness.Base.{
  String, Bool, true, false, not, ◌&&◌, Option, none, some, List, [], ◌∷◌, ◌++◌, string_eq,
  if◌then◌else◌, contains, ◌≡◌, ◌≢◌, ◌⊎◌, inl, inr, refl, arith, Option-cases, Bool-cases, text_ne,
  ap,
}
use dbwarden_harness.Base.Dict
use dbwarden_harness.Base.Dict.{Dict, lookup-insert}
use dbwarden_harness.Base.Json.{Json, Fields}
use dbwarden_harness.Disk.Files.{append_injective, read-write}
use dbwarden_harness.Disk.{FilePath, file_path_eq, CommandResult, Disk, read, write}
use dbwarden_harness.Artifacts.{
  relative_to, is_below, exists, relative, copy_files, copy_sources, add_defaults, capture,
}

cons_eq : (x y : String) → (x ∷ []) ≡ y ∷ [] → x ≡ y
cons_eq x y h = cc

relative_to-append : (dir rest : FilePath) → relative_to dir (dir ++ rest) ≡ some rest
unfolding relative_to
relative_to-append [] rest = refl
relative_to-append (x ∷ dir) rest = ground (arith, relative_to-append dir rest)

relative_to-eq_some :
    (dir path rest : FilePath) → relative_to dir path ≡ some rest → path ≡ dir ++ rest
unfolding relative_to
relative_to-eq_some [] path rest h = ground (arith, h)
relative_to-eq_some (x ∷ dir) [] rest h = cc
relative_to-eq_some (x ∷ dir) (p ∷ path) rest h =
    ground (arith, h, relative_to-eq_some dir path rest)

relative-append : (dir rest : FilePath) → relative dir (dir ++ rest) ≡ rest
unfolding relative
relative-append dir rest = ground (arith, relative_to-append dir rest)

abbrev or_else : Option String → Option String → Option String
or_else none later = later
or_else (some content) later = some content

-- A copied file has its content, any other is as it was.
read-copy_files :
    (source target rest : FilePath) (files : Dict FilePath String) (d : Disk)
    → read (target ++ rest) (copy_files source target files d)
      ≡ or_else (Dict.lookup (source ++ rest) files) (read (target ++ rest) d)
unfolding copy_files Dict.lookup
read-copy_files source target rest [] d = refl
read-copy_files source target rest ((path, content) ∷ files) d =
    elim (Option-cases (relative_to source path)) [
      | inl e ↦
          ground
            (arith, e, relative_to-append source rest, read-copy_files source target rest files d)
      | inr (r, e) ↦ ground (
        arith,
        e,
        relative_to-eq_some source path r e,
        append_injective source rest r,
        append_injective target rest r,
        read-write (target ++ rest) (target ++ r) content (copy_files source target files d),
        read-copy_files source target rest files d,
      )
    ]

read-copy_files_other :
    (source target path : FilePath) (files : Dict FilePath String) (d : Disk)
    → ((r : FilePath) → path ≢ target ++ r)
    → read path (copy_files source target files d) ≡ read path d
unfolding copy_files
read-copy_files_other source target path [] d h = refl
read-copy_files_other source target path ((p, content) ∷ files) d h =
    elim (Option-cases (relative_to source p)) [
      | inl e ↦ ground (arith, e, read-copy_files_other source target path files d h)
      | inr (r, e) ↦ ground (
        arith,
        e,
        h r,
        read-write path (target ++ r) content (copy_files source target files d),
        read-copy_files_other source target path files d h,
      )
    ]

lookup-exists :
    (files : Dict FilePath String) (source rest : FilePath) (content : String)
    → Dict.lookup (source ++ rest) files ≡ some content
    → exists files source ≡ true
unfolding exists Dict.lookup is_below
lookup-exists [] source rest content h = cc
lookup-exists ((path, text) ∷ files) source rest content h =
    ground (arith, h, relative_to-append source rest, lookup-exists files source rest content)

-- No file stands both below the one and below the other directory.
abbrev pub Apart : FilePath → FilePath → Type 0
Apart a b = (q r : FilePath) → a ++ q ≢ b ++ r

-- A directory that a capture looks for by itself.
abbrev pub IsDefault : String → Type 0
IsDefault name = (name ≡ "migrations") ⊎ (name ≡ ".dbwarden")

-- `dir / name`
abbrev child : FilePath → String → FilePath
child dir name = dir ++ (name ∷ [])

module _ (work_dir destination : FilePath) (apart : Apart destination work_dir) where
  below :
      (dir : FilePath) (name : String) (rest : FilePath)
      → (dir ++ (name ∷ [])) ++ rest ≡ dir ++ (name ∷ rest)
  below dir name rest = append_assoc dir (name ∷ []) rest

  -- The disk after one source.
  abbrev step : String → Disk → Disk
  step n d =
      if exists d.files (child work_dir n)
      then copy_files (child work_dir n) (child destination n) d.files d
      else d

  module _ (name : String) (rest : FilePath) (content : String) where
    abbrev IsSource : Disk → Type 0
    IsSource d = read (work_dir ++ (name ∷ rest)) d ≡ some content

    abbrev IsKept : Disk → Type 0
    IsKept d = read (destination ++ (name ∷ rest)) d ≡ some content

    step-IsSource : (n : String) (d : Disk) → IsSource d → IsSource (step n d)
    step-IsSource n d h =
        let path = work_dir ++ (name ∷ rest) in
        ground (
          arith,
          h,
          read-copy_files_other (child work_dir n) (child destination n) path d.files d
              λ r e. apart (n ∷ r) (name ∷ rest) (sym (below destination n r) ∙ sym e),
        )

    step-IsKept : (n : String) (d : Disk) → IsSource d → (IsKept d ⊎ (n ≡ name)) → IsKept (step n d)
    unfolding read
    step-IsKept n d h k =
        let source : Dict.lookup (child work_dir n ++ rest) d.files
            ≡ Dict.lookup (work_dir ++ (n ∷ rest)) d.files =
          ap (λ path. Dict.lookup path d.files) (below work_dir n rest) in
        elim (string_eq.dec n name) [
          | yes same ↦ ground (
            arith,
            h,
            same,
            source,
            below destination n rest,
            lookup-exists d.files (child work_dir n) rest content,
            read-copy_files (child work_dir n) (child destination n) rest d.files d,
          )
          | no differ ↦
              let kept : IsKept d = ground (arith, k, differ) in
              ground (
                arith,
                kept,
                read-copy_files_other (child work_dir n) (child destination n)
                    (destination ++ (name ∷ rest)) d.files d
                    λ r e. differ (
                      ground (
                        arith,
                        append_injective destination (name ∷ rest) (n ∷ r)
                            (e ∙ below destination n r),
                      )),
              )
        ]

    copy_sources-IsKept :
        (names : List String) (d : Disk)
        → IsSource d
        → (IsKept d ⊎ (contains names name ≡ true))
        → IsKept (copy_sources work_dir destination (map (child work_dir) names) d).1
    unfolding copy_sources
    copy_sources-IsKept [] d h k = elim k [ inl kept ↦ kept | inr f ↦ cc ]
    copy_sources-IsKept (n ∷ names) d h k =
        let later : IsKept (step n d) ⊎ (contains names name ≡ true) = elim (string_eq.dec n name) [
          | yes same ↦ inl (step-IsKept n d h (inr same))
          | no differ ↦ elim k [
            | inl kept ↦ inl (step-IsKept n d h (inl kept))
            | inr c ↦ inr (ground (arith, c, differ))
          ]
        ] in
        subst
          (λ r.
            IsKept
              (copy_sources work_dir destination (map (child work_dir) names) (
                if exists d.files (child work_dir n)
                then copy_files (child work_dir n) (destination ++ r) d.files d
                else d)).1)
          (sym (relative-append work_dir (n ∷ [])))
          (copy_sources-IsKept names (step n d) (step-IsSource n d h) later)

    -- A file written into the destination leaves the project's as they are.
    write-IsSource :
        (n written : String) (d : Disk)
        → IsSource d
        → IsSource (write (child destination n) written d)
    write-IsSource n written d h =
        let differ : work_dir ++ (name ∷ rest) ≢ child destination n =
          λ e. apart (n ∷ []) (name ∷ rest) (sym e) in
        ground
          (arith, h, differ, read-write (work_dir ++ (name ∷ rest)) (child destination n) written d)

    -- The two files that stand after the choice of the sources change nothing of this.
    copies-IsKept :
        (sources : List FilePath) (names : List String) (about origin : String) (d : Disk)
        → sources ≡ map (child work_dir) names
        → contains names name ≡ true
        → IsSource d
        → IsKept
            (copy_sources work_dir destination sources (
              write
                (child destination "provenance.json")
                origin
                (write (child destination "command.json") about d))).1
    copies-IsKept sources names about origin d same named h =
        let d₂ = write (child destination "command.json") about d in
        let d₃ = write (child destination "provenance.json") origin d₂ in
        subst (λ list. IsKept (copy_sources work_dir destination list d₃).1) (sym same)
          (copy_sources-IsKept names d₃
            (write-IsSource "provenance.json" origin d₂ (write-IsSource "command.json" about d h))
            (inr named))

-- The names of the default directories that exist.
abbrev default_names : Bool → Bool → List String
default_names false false = []
default_names false true = ".dbwarden" ∷ []
default_names true false = "migrations" ∷ []
default_names true true = "migrations" ∷ ".dbwarden" ∷ []

default_names-chosen :
    (work_dir : FilePath) (m b : Bool)
    → (let sources = if m && true then child work_dir "migrations" ∷ [] else [] in
        let path = child work_dir ".dbwarden" in
        if b && not (contains sources path) then sources ++ (path ∷ []) else sources)
      ≡ map (child work_dir) (default_names m b)
default_names-chosen work_dir false false = refl
default_names-chosen work_dir false true = refl
default_names-chosen work_dir true false = refl
default_names-chosen work_dir true true =
    let differ : child work_dir ".dbwarden" ≢ child work_dir "migrations" = λ e.
      text_ne ".dbwarden" "migrations" refl (
        cons_eq ".dbwarden" "migrations"
          (append_injective work_dir (".dbwarden" ∷ []) ("migrations" ∷ []) e)) in
    ground (arith, differ)

module _ (work_dir : FilePath) (files : Dict FilePath String) where
  abbrev there : String → Bool
  there name = exists files (child work_dir name)

  -- Without further paths, the sources are the default directories that exist.
  add_defaults-names :
      add_defaults files [] (child work_dir "migrations" ∷ child work_dir ".dbwarden" ∷ [])
      ≡ map (child work_dir) (default_names (there "migrations") (there ".dbwarden"))
  unfolding add_defaults
  add_defaults-names = default_names-chosen work_dir (there "migrations") (there ".dbwarden")

  contains-default_names :
      (name : String)
      → IsDefault name
      → there name ≡ true
      → contains (default_names (there "migrations") (there ".dbwarden")) name ≡ true
  contains-default_names name which h = elim which [
    | inl e ↦ elim (Bool-cases (there ".dbwarden")) [
      | inl b ↦ ground (arith, e, h, b)
      | inr b ↦ ground (arith, e, h, b)
    ]
    | inr e ↦ elim (Bool-cases (there "migrations")) [
      | inl b ↦ ground (arith, e, h, b)
      | inr b ↦ ground (arith, e, h, b)
    ]
  ]

module _ (dumps : Json → String) (runtime : Fields) (environ : Dict String String)
    (provenance : Json) (result : CommandResult) (work_dir destination : FilePath)
    (apart : Apart destination work_dir) where
  -- A capture without further paths keeps each file below the migrations and the .dbwarden of the
  -- project, with its content and under its place in the project, where no file stands below both
  -- the project and the destination.
  pub capture-read :
      (extra : Fields) (d : Disk) (name : String) (rest : FilePath) (content : String)
      → IsDefault name
      → read (work_dir ++ (name ∷ rest)) d ≡ some content
      → read
          (destination ++ (name ∷ rest))
          (capture dumps runtime environ provenance result work_dir destination [] extra d).1
        ≡ some content
  unfolding capture read
  capture-read extra d name rest content which h =
      let d₁ =
        write (child destination "stderr.txt") result.stderr
          (write (child destination "stdout.txt") result.stdout d) in
      let kept =
        write-IsSource work_dir destination apart name rest content "stderr.txt" result.stderr _ (
          write-IsSource work_dir destination apart name rest content "stdout.txt" result.stdout d
            h) in
      let named = contains-default_names work_dir d₁.files name which (
        lookup-exists d₁.files (child work_dir name) rest content (
          subst (λ path. Dict.lookup path d₁.files ≡ some content)
            (sym (below work_dir destination apart work_dir name rest)) kept)) in
      copies-IsKept work_dir destination apart name rest content _ _ _ _ d₁
        (add_defaults-names work_dir d₁.files) named kept
