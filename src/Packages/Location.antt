-- ===== src/Packages/Location.antt =====
-- Where the check of harness/provenance.py lets the installed package be.
use dbwarden_harness.Base.{
  String, Bool, true, ◌&&◌, ◌||◌, Option, some, List, [], ◌∷◌, ◌++◌, ◌≡◌, ◌↔◌, inl, inr, refl,
  arith, ◌==◌, string_eq, contains, map, ◌≢◌, Option-cases, Bool-cases,
}
use dbwarden_harness.Base.Dict
use dbwarden_harness.Base.Dict.{Dict}
use dbwarden_harness.Base.Result.{ok}
use dbwarden_harness.Disk.{FilePath, file_path_eq}
use dbwarden_harness.Packages.{DistributionReport, parents, assert_installed_distribution}

is_above : FilePath → FilePath → Bool
is_above path checkout = path == checkout || contains (parents checkout) path

contains-map-cons :
    (x y : String) (path : FilePath) (paths : List FilePath)
    → contains (map (λ p. x ∷ p) paths) (y ∷ path) ≡ (y == x && contains paths path)
contains-map-cons x y path [] = ground arith
contains-map-cons x y path (p ∷ paths) = ground (arith, contains-map-cons x y path paths)

is_above-cons :
    (x y : String) (path checkout : FilePath)
    → is_above (y ∷ path) (x ∷ checkout) ≡ (y == x && is_above path checkout)
unfolding is_above parents
is_above-cons x y path checkout = ground (arith, contains-map-cons x y path (parents checkout))

is_above_iff :
    (path checkout : FilePath)
    → (is_above path checkout ≡ true) ↔ ((rest : FilePath) × (path ++ rest ≡ checkout))
unfolding is_above parents
is_above_iff [] [] = (λ h. ([], refl), λ h. ground arith)
is_above_iff [] (x ∷ checkout) = (λ h. (x ∷ checkout, refl), λ h. ground arith)
is_above_iff (y ∷ path) [] = (λ h. ground (arith, h), λ h. let (rest, e) = h in ground (arith, e))
is_above_iff (y ∷ path) (x ∷ checkout) =
    let step = is_above-cons x y path checkout in
    let above = is_above_iff path checkout in
    (
      λ h.
          let both : (y ≡ x) × (is_above path checkout ≡ true) = ground (arith, h, step) in
          let (rest, e) = above.0 both.1 in (rest, cc (both.0, e)),
      λ h.
          let (rest, e) = h in
          let heads : (y ≡ x) × (path ++ rest ≡ checkout) = ground (arith, e) in
          ground (arith, step, heads.0, above.1 (rest, heads.1)),
    )

-- The check passes with a checkout exactly when dbwarden is installed and no path below its
-- location, nor the location itself, is the checkout.
pub assert_installed_distribution_iff :
    (distributions : Dict String (Option DistributionReport)) (checkout : FilePath)
    → (assert_installed_distribution distributions (some checkout) ≡ ok tt) ↔ (
        (report : DistributionReport) × (Dict.lookup "dbwarden" distributions ≡ some (some report))
        × ((rest : FilePath) → report.location ++ rest ≢ checkout))
unfolding assert_installed_distribution is_above
assert_installed_distribution_iff distributions checkout = (
  λ h. elim (Option-cases (Dict.lookup "dbwarden" distributions)) [
    | inl e ↦ ground (arith, h, e)
    | inr (found, e) ↦ elim (Option-cases found) [
      | inl f ↦ ground (arith, h, e, f)
      | inr (report, f) ↦ (
        report,
        cc (e, f),
        λ rest same.
            let above = (is_above_iff report.location checkout).1 (rest, same) in
            ground (arith, h, e, f, above),
      )
    ]
  ],
  λ h.
      let (report, e, apart) = h in
      elim (Bool-cases (is_above report.location checkout)) [
        | inl above ↦
            let (rest, same) = (is_above_iff report.location checkout).0 above in
            absurd (apart rest same)
        | inr clear ↦ ground (arith, e, clear)
      ],
)
