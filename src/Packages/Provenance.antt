-- ===== src/Packages/Provenance.antt =====
-- harness/provenance.py: the report of what is installed. `inspect` reads a distribution, none where
-- the package is not found, and `digest` is SHA-256; of a distribution the report in the source keeps
-- version, location and entry points.
use dbwarden_harness.Base.{
  String, true, Option, none, some, List, [], ◌∷◌, string_eq, if◌then◌else◌, contains, ◌≡◌, ◌≢◌,
  ◌↔◌, refl, arith, ◌++◌,
}
use dbwarden_harness.Base.Dict
use dbwarden_harness.Base.Dict.{Dict, lookup-insert}
use dbwarden_harness.Base.Result.{ok}
use dbwarden_harness.Disk.{FilePath, file_path_eq}
use dbwarden_harness.Packages.{DistributionReport, assert_installed_distribution}
use dbwarden_harness.Packages.Location.{assert_installed_distribution_iff}

-- `python` are the version and the implementation of Python, and the platform.
record Provenance : Type 0 where
  python : String × String × String
  distributions : Dict String (Option DistributionReport)
  lockfile : Option FilePath
  lockfile_sha256 : Option String

module _ (inspect : String → Option DistributionReport) (digest : String → String)
    (python : String × String × String) where
  file_sha256 : Dict FilePath String → FilePath → Option String
  file_sha256 files path = elim (Dict.lookup path files) [
    | none ↦ none
    | some content ↦ some (digest content)
  ]

  collect :
      List String
      → Dict String (Option DistributionReport)
      → Dict String (Option DistributionReport)
  collect [] reports = reports
  collect (name ∷ names) reports = collect names (Dict.insert name (inspect name) reports)

  collect_provenance : Dict FilePath String → Option FilePath → List String → Provenance
  unfolding file_sha256 collect
  collect_provenance files lockfile names = record {
    python = python;
    distributions = collect names [];
    lockfile = lockfile;
    lockfile_sha256 = elim lockfile [ none ↦ none | some path ↦ file_sha256 files path ];
  }

  lookup-collect :
      (name : String) (names : List String) (reports : Dict String (Option DistributionReport))
      → Dict.lookup name (collect names reports)
        ≡ (if contains names name then some (inspect name) else Dict.lookup name reports)
  unfolding collect
  lookup-collect name [] reports = refl
  lookup-collect name (n ∷ names) reports = ground (
    arith,
    lookup-collect name names (Dict.insert n (inspect n) reports),
    lookup-insert name n (inspect n) reports,
  )

  -- The check of a report that asks for dbwarden passes with a checkout exactly when dbwarden is
  -- installed and no path below its location, nor the location itself, is the checkout.
  assert_installed_distribution-collect_provenance :
      (files : Dict FilePath String) (lockfile : Option FilePath) (names : List String)
      (checkout : FilePath)
      → contains names "dbwarden" ≡ true
      → (assert_installed_distribution
            (collect_provenance files lockfile names).distributions
            (some checkout)
          ≡ ok tt)
        ↔ ((report : DistributionReport) × (inspect "dbwarden" ≡ some report)
            × ((rest : FilePath) → report.location ++ rest ≢ checkout))
  unfolding collect_provenance
  assert_installed_distribution-collect_provenance files lockfile names checkout h =
      let reports = collect names [] in
      let found : Dict.lookup "dbwarden" reports ≡ some (inspect "dbwarden") =
        ground (arith, h, lookup-collect "dbwarden" names []) in
      let (to, from) = assert_installed_distribution_iff reports checkout in
      (
        λ e. let (report, l, outside) = to e in (report, ground (arith, l, found), outside),
        λ k. let (report, l, outside) = k in from (report, ground (arith, l, found), outside),
      )
