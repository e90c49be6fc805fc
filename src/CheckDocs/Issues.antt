-- ===== src/CheckDocs/Issues.antt =====
-- What a documentation without issues is, for tools/check_docs.py.
use dbwarden_harness.Base.{
  zero, suc, String, ◌<>◌, Bool, true, List, [], ◌∷◌, ◌++◌, string_eq, contains, select, is_empty,
  if◌then◌else◌, All, ◌≡◌, ◌↔◌, ◌⊎◌, inl, inr, refl, arith, Bool-cases,
}
use dbwarden_harness.Base.Dict.{Dict}
use dbwarden_harness.Base.Json.{Json}
use dbwarden_harness.Base.Result.{Result, ok}
use dbwarden_harness.Base.Text.{occurs}
use dbwarden_harness.Disk.{FilePath}
use dbwarden_harness.CheckDocs.Reference.{Node, Parsed, syntax_error, parsed, gather}
use dbwarden_harness.CheckDocs.Documents.{
  flag, page_name, pages, is_page, documents, is_python, Reading, Inventory, reference_issues,
  target_issues, page_issues, setting_issues, tool_issues,
}
use dbwarden_harness.CheckDocs.{
  is_valid, is_reachable, document_issues, read_all, all_issues, check, inventory, exit_code,
}

Parsed-cases :
    (p : Parsed)
    → ((body : List Node) × (p ≡ parsed body)) ⊎ ((message : String) × (p ≡ syntax_error message))
Parsed-cases (parsed body) = inl (body, refl)
Parsed-cases (syntax_error message) = inr (message, refl)

empty-nil : (xs : List String) → (if is_empty xs then zero else suc zero) ≡ zero → xs ≡ []
empty-nil [] h = refl
empty-nil (x ∷ xs) h = cc

append_iff {ℓ} :
    {P Q A : Type ℓ} (xs ys : List A) → (xs ≡ []) ↔ P → (ys ≡ []) ↔ Q → (xs ++ ys ≡ []) ↔ (P × Q)
append_iff [] ys p q = (λ h. (p.0 refl, q.0 h), λ h. q.1 h.1)
append_iff (x ∷ xs) ys p q = (λ h. cc, λ h. ground (arith, p.1 h.0))

module _ {ℓ} {A : Type ℓ} {P : A → Type 0} where
  flag_iff :
      (passes : A → Bool) (issue : A → String) (xs : List A)
      → ((x : A) → (passes x ≡ true) ↔ P x)
      → (flag passes issue xs ≡ []) ↔ All P xs
  unfolding flag
  flag_iff passes issue [] h = (λ e. tt, λ e. refl)
  flag_iff passes issue (x ∷ xs) h =
      let (to, from) = flag_iff passes issue xs h in
      elim (Bool-cases (passes x)) [
        | inl e ↦ (λ k. ((h x).0 e, to (ground (arith, e, k))), λ k. ground (arith, e, from k.1))
        | inr e ↦ (λ k. ground (arith, e, k), λ k. ground (arith, e, (h x).1 k.0))
      ]

  gather_iff :
      (f : A → List String) (xs : List A)
      → ((x : A) → (f x ≡ []) ↔ P x)
      → (gather f xs ≡ []) ↔ All P xs
  gather_iff f [] h = (λ e. tt, λ e. refl)
  gather_iff f (x ∷ xs) h = append_iff (f x) (gather f xs) (h x) (gather_iff f xs h)

reference_iff : (r : Reading) → (reference_issues r ≡ []) ↔ (r.is_current ≡ true)
unfolding reference_issues
reference_iff r = elim (Bool-cases r.is_current) [
  | inl e ↦ (λ h. e, λ h. ground (arith, e))
  | inr e ↦ (λ h. ground (arith, h, e), λ h. ground (arith, h, e))
]

target_iff :
    (files : Dict FilePath String) (r : Reading)
    → (target_issues files r ≡ []) ↔ All (λ name. is_page files name ≡ true) r.nav
unfolding target_issues
target_iff files r = flag_iff _ _ r.nav λ name. (λ h. h, λ h. h)

-- The page stands in the navigation, or is a README.md.
abbrev pub IsListed : List String → FilePath × String → Type 0
IsListed nav page = (contains nav (page_name page.0) ≡ true) ⊎ (page_name page.0 ≡ "README.md")

page_iff :
    (files : Dict FilePath String) (r : Reading)
    → (page_issues files r ≡ []) ↔ All (IsListed r.nav) (pages files)
unfolding page_issues
page_iff files r = flag_iff _ _ (pages files) λ f. (
  λ h. elim (Bool-cases (contains r.nav (page_name f.0))) [
    | inl e ↦ inl e
    | inr e ↦ inr (ground (arith, h, e))
  ],
  λ h. ground (arith, h),
)

setting_iff :
    (r : Reading)
    → (setting_issues r ≡ [])
      ↔ All (λ name. occurs ("`" <> name <> "`") r.environment ≡ true) r.settings
unfolding setting_issues
setting_iff r = flag_iff _ _ r.settings λ name. (λ h. h, λ h. h)

tool_iff :
    (r : Reading)
    → (tool_issues r ≡ []) ↔ All (λ name. occurs ("`" <> name) r.guide ≡ true) r.remote
unfolding tool_issues
tool_iff r = flag_iff _ _ r.remote λ name. (λ h. h, λ h. h)

module _ (parse : String → Parsed) (loads : String → Result Json) (dedent : String → String)
    (find_snippets : String → List (String × String))
    (find_links find_settings : String → List String) (urlsplit : String → String × String)
    (resolve : FilePath → String → FilePath) (files : Dict FilePath String) where
  -- Every Python snippet of the page parses, and every link leads somewhere.
  abbrev pub IsSound : FilePath × String → Type 0
  IsSound (path, content) =
      All (λ snippet. (body : List Node) × (parse (dedent snippet.1) ≡ parsed body))
        (select is_python (find_snippets content))
      × All
          (λ link.
            is_reachable parse loads dedent find_snippets find_links find_settings urlsplit resolve
              files path link
            ≡ true)
          (find_links content)

  -- The reference is current, the navigation names every page but README.md and only files, every
  -- document is sound, every variable stands in the reference and every tool in the guide.
  abbrev pub IsDocumented : Reading → Type 0
  IsDocumented r =
      (r.is_current ≡ true)
      × (All (λ name. is_page files name ≡ true) r.nav
          × (All (IsListed r.nav) (pages files)
              × (All IsSound (documents files)
                  × (All (λ name. occurs ("`" <> name <> "`") r.environment ≡ true) r.settings
                      × All (λ name. occurs ("`" <> name) r.guide ≡ true) r.remote))))

  valid_iff :
      (snippet : String × String)
      → (is_valid parse loads dedent find_snippets find_links find_settings urlsplit resolve snippet
          ≡ true)
        ↔ ((body : List Node) × (parse (dedent snippet.1) ≡ parsed body))
  unfolding is_valid
  valid_iff snippet = elim (Parsed-cases (parse (dedent snippet.1))) [
    | inl (body, e) ↦ (λ h. (body, e), λ h. ground (arith, e))
    | inr (message, e) ↦ (λ h. ground (arith, h, e), λ h. ground (arith, h.1, e))
  ]

  document_iff :
      (f : FilePath × String)
      → (document_issues parse loads dedent find_snippets find_links find_settings urlsplit resolve
            files f
          ≡ [])
        ↔ IsSound f
  unfolding document_issues
  document_iff (path, content) =
      append_iff _ _ (flag_iff _ _ (select is_python (find_snippets content)) valid_iff)
        (flag_iff _ _ (find_links content) λ link. (λ h. h, λ h. h))

  issues_iff :
      (r : Reading)
      → (all_issues parse loads dedent find_snippets find_links find_settings urlsplit resolve files
            r
          ≡ [])
        ↔ IsDocumented r
  unfolding all_issues
  issues_iff r = append_iff (reference_issues r) _ (reference_iff r) (
      append_iff (target_issues files r) _ (target_iff files r) (
        append_iff (page_issues files r) _ (page_iff files r) (
          append_iff
            (gather
              (document_issues parse loads dedent find_snippets find_links find_settings urlsplit
                resolve files)
              (documents files))
            _
            (gather_iff
              (document_issues parse loads dedent find_snippets find_links find_settings urlsplit
                resolve files)
              (documents files) document_iff)
            (append_iff (setting_issues r) _ (setting_iff r) (tool_iff r)))))

  -- A check that can read its parts ends with 0 exactly when the reference is current, the
  -- navigation names only files and every page but README.md, every Python snippet of a document
  -- parses and every link leads somewhere, and every variable and tool is documented.
  pub check_iff :
      (r : Reading)
      → read_all parse loads dedent find_snippets find_links find_settings urlsplit resolve files
        ≡ ok r
      → (report : Inventory) × (check parse loads dedent find_snippets find_links find_settings
            urlsplit resolve files
          ≡ ok report)
        × ((exit_code report ≡ 0) ↔ IsDocumented r)
  unfolding check inventory exit_code
  check_iff r h =
      let (to, from) = issues_iff r in
      (
        inventory parse loads dedent find_snippets find_links find_settings urlsplit resolve files
            r,
        ground (arith, h),
        (
          λ e. to (
              empty-nil
                (all_issues parse loads dedent find_snippets find_links find_settings urlsplit
                  resolve files r)
                e),
          λ k. ground (arith, from k),
        ),
      )
