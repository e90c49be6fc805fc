-- ===== src/Classifier/Tests.antt =====
-- A witness for the classifier: a known operation before an unknown one.
use dbwarden_harness.Base.{String, List, [], ◌∷◌, ◌≡◌, ◌≢◌, ◌↔◌, All}
use dbwarden_harness.Base.Json.{Json, end, field, text, object}
use dbwarden_harness.Base.Result.{ok}
use dbwarden_harness.Classifier.{classify_operations}
use dbwarden_harness.Classifier.Plans.{IsStandard, classify_operations_iff}

abbrev operation : String → Json
operation kind = object (field "type" (text kind) end)

abbrev operations : List Json
operations = operation "add_column" ∷ operation "rename_table" ∷ []

classify_operations_iff_example :
    (classify_operations (λ j. "dict") operations ≡ ok "95")
    ↔ ((operations ≢ []) × All (IsStandard (λ j. "dict")) operations)
classify_operations_iff_example = classify_operations_iff (λ j. "dict") operations
