-- ===== src/Reports.antt =====
-- tools/report_generator.py: the counts of a JUnit report. `int` reads a number, and raises where
-- a text is none.
pub mod Totals
use dbwarden_harness.Base.{
  ℕ, ◌+◌, String, ◌<>◌, Bool, true, false, Option, none, some, List, [], ◌∷◌, ◌++◌, map, ◌==◌,
  string_eq, if◌then◌else◌, any, not, select,
}
use dbwarden_harness.Base.Dict
use dbwarden_harness.Base.Dict.{Dict}
use dbwarden_harness.Base.Result.{Result, ok, err, ◌>>=◌}
use dbwarden_harness.Base.Text.{join}
use dbwarden_harness.Disk.{FilePath, Disk, write}

mutual
  pub data Element : Type 0 where
    element : String → Dict String String → Elements → Element

  pub data Elements : Type 0 where
    nil : Elements
    cons : Element → Elements → Elements

abbrev pub tag : Element → String
tag (element t attribs children) = t

abbrev pub attributes : Element → Dict String String
attributes (element t attribs children) = attribs

listed : Elements → List Element
listed nil = []
listed (cons e rest) = e ∷ listed rest

children_of : Element → List Element
unfolding listed
children_of (element t attribs children) = listed children

-- `root.findall(".//testsuite")`
mutual
  find_in : Element → List Element
  find_in (element t attribs children) = find_all children

  find_all : Elements → List Element
  find_all nil = []
  find_all (cons e rest) =
      let below = find_in e ++ find_all rest in if tag e == "testsuite" then e ∷ below else below

is_leaf : Element → Bool
unfolding children_of
is_leaf suite = not (any (λ child. tag child == "testsuite") (children_of suite))

pub leaves_of : Element → List Element
unfolding find_in is_leaf
leaves_of root = select is_leaf (if tag root == "testsuite" then root ∷ [] else find_in root)

pub record Suite : Type 0 where
  pub name : String
  pub tests : ℕ
  pub failures : ℕ

pub record Report : Type 0 where
  pub tests : ℕ
  pub failures : ℕ
  pub errors : ℕ
  pub skipped : ℕ
  pub suites : List Suite

-- `attrib.get(key, default)`
pub get_or : String → String → Element → String
get_or default key e = elim (Dict.lookup key (attributes e)) [ none ↦ default | some value ↦ value ]

module _ (int : String → Result ℕ) where
  -- `int(attrib.get(key, 0))`
  pub number_of : String → Element → Result ℕ
  number_of key e = elim (Dict.lookup key (attributes e)) [ none ↦ ok 0 | some value ↦ int value ]

  pub total : String → List Element → Result ℕ
  unfolding number_of
  total key [] = ok 0
  total key (suite ∷ suites) = do
    count ← number_of key suite
    others ← total key suites
    ok (count + others)

  pub count_of : String → Element → Result ℕ
  unfolding total leaves_of
  count_of key root = elim (Dict.lookup key (attributes root)) [
    | none ↦ total key (leaves_of root)
    | some value ↦ int value
  ]

  pub suites_of : List Element → Result (List Suite)
  unfolding number_of get_or
  suites_of [] = ok []
  suites_of (suite ∷ suites) = do
    tests ← number_of "tests" suite
    failures ← number_of "failures" suite
    others ← suites_of suites
    ok (record { name = get_or "" "name" suite; tests = tests; failures = failures } ∷ others)

  -- The report of the file whose root is the element.
  pub load_junit_report : Element → Result Report
  unfolding count_of suites_of
  load_junit_report root = do
    tests ← count_of "tests" root
    failures ← count_of "failures" root
    errors ← count_of "errors" root
    skipped ← count_of "skipped" root
    suites ← suites_of (leaves_of root)
    ok (record {
      tests = tests;
      failures = failures;
      errors = errors;
      skipped = skipped;
      suites = suites;
    })

-- `str` writes a number.
module _ (str : ℕ → String) where
  suite_line : Suite → String
  suite_line s =
      "- `" <> s.name <> "`: " <> str s.tests <> " tests, " <> str s.failures <> " failures"

  pub write_markdown_report : Report → FilePath → Disk → Disk
  unfolding suite_line
  write_markdown_report r destination d =
      let lines =
        "# dbwarden Harness Report"
        ∷ ""
        ∷ ("- Tests: " <> str r.tests)
        ∷ ("- Failures: " <> str r.failures)
        ∷ ("- Errors: " <> str r.errors)
        ∷ ("- Skipped: " <> str r.skipped)
        ∷ ""
        ∷ "## Suites"
        ∷ ""
        ∷ map suite_line r.suites in
      write destination (join "\n" lines <> "\n") d
