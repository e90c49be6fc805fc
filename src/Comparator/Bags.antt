-- ===== src/Comparator/Bags.antt =====
-- The statements of a dump in mcp_server/comparator.py, up to their order.
use mathlib.Core.HLevel.{hedberg}
use mathlib.Core.Quot
use mathlib.Core.Quot.{Quot}
use dbwarden_harness.Base.{
  String, ◌<>◌, true, List, ◌≡◌, refl, ap, arith, string_eq, string_dec, inl, inr, if◌then◌else◌,
  is_empty,
}
use dbwarden_harness.Base.Text.{join, sorted}
use dbwarden_harness.Base.Order.{Swap, here, there, sorted-Swap}
use dbwarden_harness.Base.Result.{Result, ok, ◌>>=◌, Result-cases}
use dbwarden_harness.Comparator.{
  Sqlglot, empty_summary, dialect, normal_statements, normalize_schema_dump, compare_schemas,
}

-- Statements, whatever their order.
abbrev pub Bag : Type 0
Bag = Quot Swap

abbrev pub of_list : List String → Bag
of_list = Quot.mk

-- The text of a list of normal statements.
pub text_of : List String → String
text_of sqls = join ";\n" (sorted sqls) <> (if is_empty sqls then "" else ";\n")

is_empty-Swap : (xs ys : List String) → Swap xs ys → is_empty xs ≡ is_empty ys
is_empty-Swap _ _ (here x y zs) = refl
is_empty-Swap _ _ (there z xs ys s) = refl

text_of-Swap : (xs ys : List String) → Swap xs ys → text_of xs ≡ text_of ys
unfolding text_of
text_of-Swap xs ys s = simp (sorted-Swap xs ys s, is_empty-Swap xs ys s)

-- The abstract normalisation: a function of the bag.
pub bag_text : Bag → String
bag_text = Quot.lift (hedberg string_dec) text_of text_of-Swap

module _ (sqlglot : Sqlglot) (upper : String → String) where
  -- The normal statements of a dump.
  unfoldable pub statements : String → String → Result (List String)
  statements dump backend = do
    parsed ← sqlglot.parse (dialect backend) dump
    normal_statements sqlglot upper backend parsed

  -- The normalised text of a dump is that of the bag of its statements.
  normalize-Bag :
      (dump backend : String) (sqls : List String)
      → statements dump backend ≡ ok sqls
      → normalize_schema_dump sqlglot upper dump backend ≡ ok (bag_text (of_list sqls))
  unfolding normalize_schema_dump statements bag_text text_of
  normalize-Bag dump backend sqls h = elim (Result-cases (sqlglot.parse (dialect backend) dump)) [
    | inl (parsed, e) ↦
        ground (arith, e, h, Result-cases (normal_statements sqlglot upper backend parsed))
    | inr (raised, e) ↦ ground (arith, e, h)
  ]

module _ (sqlglot : Sqlglot) (upper : String → String) (unified : String → String → String) where
  -- Two dumps whose normal statements are the same bag, in whatever order, compare as identical,
  -- with no difference and an empty summary.
  pub compare_schemas-Bag :
      (dump_a dump_b backend : String) (xs ys : List String)
      → statements sqlglot upper dump_a backend ≡ ok xs
      → statements sqlglot upper dump_b backend ≡ ok ys
      → of_list xs ≡ of_list ys
      → compare_schemas sqlglot upper unified dump_a dump_b backend
        ≡ ok (record { identical = true; diff = ""; summary = empty_summary })
  unfolding compare_schemas
  compare_schemas-Bag dump_a dump_b backend xs ys a b same = ground (
    arith,
    normalize-Bag sqlglot upper dump_a backend xs a,
    normalize-Bag sqlglot upper dump_b backend ys b,
    ap bag_text same,
  )
