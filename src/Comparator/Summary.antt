-- ===== src/Comparator/Summary.antt =====
-- What the summary of a comparison reports, and what it leaves out.
use dbwarden_harness.Base.{
  String, none, [], ◌∷◌, string_eq, ◌≡◌, ◌≢◌, ◌↔◌, inl, inr, refl, arith, Option-cases, Any,
}
use dbwarden_harness.Base.Dict
use dbwarden_harness.Base.Dict.{Dict}
use dbwarden_harness.Comparator.{missing_columns, type_mismatches}

-- For one table, a column is reported missing exactly when it is expected and not there.
pub missing_columns_iff :
    (t c : String) (actual expected : Dict String String)
    → Any (λ m. m ≡ (t, c)) (missing_columns t actual expected)
      ↔ ((Dict.lookup c expected ≢ none) × (Dict.lookup c actual ≡ none))
unfolding missing_columns Dict.lookup
missing_columns_iff t c actual [] = ground arith
missing_columns_iff t c actual ((k, type) ∷ expected) = elim (Option-cases (Dict.lookup k actual)) [
  | inl e ↦ ground (arith, e, missing_columns_iff t c actual expected)
  | inr (v, e) ↦ ground (arith, e, missing_columns_iff t c actual expected)
]

-- A column that nobody expects, added to the actual table, changes neither the missing columns nor
-- the type mismatches that are reported.
pub summary_blind :
    (t c type : String) (actual expected : Dict String String)
    → Dict.lookup c expected ≡ none
    → (missing_columns t (Dict.insert c type actual) expected ≡ missing_columns t actual expected)
      × (type_mismatches t (Dict.insert c type actual) expected ≡ type_mismatches t actual expected)
unfolding missing_columns type_mismatches Dict.lookup
summary_blind t c type actual [] h = (refl, refl)
summary_blind t c type actual ((k, v) ∷ expected) h = elim (Option-cases (Dict.lookup k actual)) [
  | inl e ↦
      ground (arith, e, Dict.lookup-insert k c type actual, summary_blind t c type actual expected)
  | inr (w, e) ↦
      ground (arith, e, Dict.lookup-insert k c type actual, summary_blind t c type actual expected)
]
