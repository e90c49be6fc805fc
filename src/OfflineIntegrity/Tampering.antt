-- ===== src/OfflineIntegrity/Tampering.antt =====
-- What a verified manifest says of the state files.
use mathlib.Core.Path.{subst}
use mathlib.Core.List.{append_assoc}
use dbwarden_harness.Base.{
  String, ◌<>◌, true, some, List, [], ◌∷◌, ◌++◌, map, string_eq, nat_eq, option_eq, length,
  contains, is_empty, All, ◌≡◌, refl, sym, ap, ◌∙◌, arith, Bool-cases, Option-cases, inl, inr,
  length-map,
}
use dbwarden_harness.Base.Dict
use dbwarden_harness.Base.Dict.{Dict}
use dbwarden_harness.Base.Result.{Result, ok, Result-cases}
use dbwarden_harness.Base.Text.{contains-sorted}
use dbwarden_harness.Disk.{FilePath, file_path_eq, Disk, read}
use dbwarden_harness.Tracks.{child_of}
use dbwarden_harness.OfflineIntegrity.{
  agrees, same_dict, is_state, state_names, state_files, digest, build_state_manifest,
  verify_state_manifest,
}

-- The entry stands in the manifest.
abbrev pub IsListed : Dict String String → String × String → Type 0
IsListed expected entry = Dict.lookup entry.0 expected ≡ some entry.1

agrees-IsListed :
    (expected actual : Dict String String)
    → agrees expected actual ≡ true
    → All (IsListed expected) actual
unfolding agrees
agrees-IsListed expected [] h = tt
agrees-IsListed expected ((k, v) ∷ rest) h = ground (arith, h, agrees-IsListed expected rest)

child_of-append : (dir : FilePath) (name : String) → child_of dir (dir ++ (name ∷ [])) ≡ some name
unfolding child_of
child_of-append [] name = refl
child_of-append (d ∷ dir) name = ground (arith, child_of-append dir name)

contains-state_names :
    (dir : FilePath) (files : Dict FilePath String) (name content : String)
    → is_state name ≡ true
    → Dict.lookup (dir ++ (name ∷ [])) files ≡ some content
    → contains (state_names dir files) name ≡ true
unfolding state_names Dict.lookup
contains-state_names dir [] name content k h = ground (arith, h)
contains-state_names dir ((path, other) ∷ files) name content k h =
    elim (Option-cases (child_of dir path)) [
      | inl e ↦
          ground
            (arith, h, e, child_of-append dir name, contains-state_names dir files name content k)
      | inr (n, e) ↦ elim (Bool-cases (is_state n)) [
        | inl f ↦ ground (
          arith,
          h,
          k,
          e,
          f,
          child_of-append dir name,
          contains-state_names dir files name content k,
        )
        | inr f ↦ ground (
          arith,
          h,
          k,
          e,
          f,
          child_of-append dir name,
          contains-state_names dir files name content k,
        )
      ]
    ]

All-map :
    (P : String × String → Type 0) (f : String → String × String) (names : List String)
    (name : String)
    → All P (map f names)
    → contains names name ≡ true
    → P (f name)
All-map P f [] name h k = ground (arith, k)
All-map P f (n ∷ names) name h k = elim (string_eq.dec name n) [
  | yes same ↦ subst (λ m. P (f m)) (sym same) h.0
  | no differ ↦ All-map P f names name h.1 (ground (arith, k, differ))
]

module _ (sha256 : String → String) (dumps : Dict String String → String)
    (loads : String → Result (Dict String String)) where
  digest-read :
      (root : FilePath) (d : Disk) (name content : String)
      → read (root ++ (".dbwarden" ∷ name ∷ [])) d ≡ some content
      → digest sha256 dumps loads root d name ≡ (".dbwarden/" <> name, sha256 content)
  unfolding digest
  digest-read root d name content h = ground (arith, h)

  built :
      (root : FilePath) (d : Disk) (actual : Dict String String)
      → build_state_manifest sha256 dumps loads root d ≡ ok actual
      → actual ≡ map (digest sha256 dumps loads root d) (state_files root d)
  unfolding build_state_manifest
  built root d actual h = elim (Bool-cases (is_empty (state_files root d))) [
    | inl e ↦ ground (arith, h, e)
    | inr e ↦ ground (arith, h, e)
  ]

  verified :
      (root : FilePath) (manifest : String) (d : Disk) (expected : Dict String String)
      → loads manifest ≡ ok expected
      → verify_state_manifest sha256 dumps loads root manifest d ≡ ok tt
      → let entries = map (digest sha256 dumps loads root d) (state_files root d) in
        (length expected ≡ length entries) × (agrees expected entries ≡ true)
  unfolding verify_state_manifest same_dict
  verified root manifest d expected l h =
      elim (Result-cases (build_state_manifest sha256 dumps loads root d)) [
        | inr (e, b) ↦ ground (arith, l, b, h)
        | inl (actual, b) ↦
            subst (λ entries. (length expected ≡ length entries) × (agrees expected entries ≡ true))
              (built root d actual b)
              (elim (Bool-cases (agrees expected actual)) [
                | inl a ↦ (ground (arith, l, b, h, a), a)
                | inr a ↦ ground (arith, l, b, h, a)
              ])
      ]

  -- When the check of a manifest that can be read passes, the manifest has as many entries as
  -- there are state files, and it lists every state file that can be read with the digest of its
  -- content.
  pub verify_state_manifest_lem :
      (root : FilePath) (manifest : String) (d : Disk) (expected : Dict String String)
      (name content : String)
      → loads manifest ≡ ok expected
      → verify_state_manifest sha256 dumps loads root manifest d ≡ ok tt
      → is_state name ≡ true
      → read (root ++ (".dbwarden" ∷ name ∷ [])) d ≡ some content
      → (length expected ≡ length (state_files root d))
        × (Dict.lookup (".dbwarden/" <> name) expected ≡ some (sha256 content))
  unfolding read state_files
  verify_state_manifest_lem root manifest d expected name content l h k r =
      let (long, listed) = verified root manifest d expected l h in
      let one = digest sha256 dumps loads root d in
      let there : Dict.lookup ((root ++ (".dbwarden" ∷ [])) ++ (name ∷ [])) d.files ≡ some content =
        ap (λ path. Dict.lookup path d.files) (append_assoc root (".dbwarden" ∷ []) (name ∷ []))
        ∙ r in
      let found = contains-state_names (root ++ (".dbwarden" ∷ [])) d.files name content k there in
      let member : contains (state_files root d) name ≡ true =
        contains-sorted (state_names (root ++ (".dbwarden" ∷ [])) d.files) name ∙ found in
      (
        long ∙ length-map one (state_files root d),
        subst (IsListed expected) (digest-read root d name content r) (
            All-map (IsListed expected) one (state_files root d) name
              (agrees-IsListed expected (map one (state_files root d)) listed) member),
      )
