-- ===== src/Classifier/Plans.antt =====
-- Which plans are of the class "95".
use dbwarden_harness.Base.{
  String, true, Option, none, some, List, [], ◌∷◌, contains, All, string_eq, nat_eq, ◌≡◌, ◌↔◌, ◌≢◌,
  ◌⊎◌, refl, arith, ap, ◌∙◌, Bool, Bool-cases, text_ne, inl, inr,
}
use dbwarden_harness.Base.Json.{Json, null, boolean, number, text, array, object, Fields, member}
use dbwarden_harness.Base.Text.{lower}
use dbwarden_harness.Base.Result.{ok, Result-cases}
use dbwarden_harness.Classifier.{
  standard_ops, standard_types, first_word, all_known, types_of, all_standard_ops,
  all_standard_types, classify_operations, is_standard_name, or_member,
}

-- The name that an operation has: its type, or its kind if it has no type.
abbrev pub IsNamed : Fields → Json → Type 0
IsNamed op j =
    (member "type" op ≡ some j) ⊎ ((member "type" op ≡ none) × (member "kind" op ≡ some j))

or_member_iff :
    (a b : Option Json) (j : Json)
    → (or_member a b ≡ some j) ↔ ((a ≡ some j) ⊎ ((a ≡ none) × (b ≡ some j)))
or_member_iff none b j = (λ h. inr (refl, h), λ h. elim h [ inl e ↦ cc | inr k ↦ k.1 ])
or_member_iff (some i) b j = (λ h. inl h, λ h. elim h [ inl e ↦ e | inr k ↦ cc ])

ok_injective : (a b : Bool) → ok a ≡ ok b → a ≡ b
ok_injective a b h = cc

text_standard :
    (s name : String)
    → some (text s) ≡ some (text name)
    → contains standard_ops name ≡ true
    → is_standard_name (some (text s)) ≡ ok true
text_standard s name e k = let same : s ≡ name = cc in ap ok (ap (contains standard_ops) same ∙ k)

standard_name_iff :
    (found : Option Json)
    → (is_standard_name found ≡ ok true)
      ↔ ((name : String) × (found ≡ some (text name)) × (contains standard_ops name ≡ true))
standard_name_iff none = (λ h. cc, λ h. let (name, e, k) = h in cc)
standard_name_iff (some (text s)) =
    (λ h. (s, refl, ok_injective _ _ h), λ h. let (name, e, k) = h in text_standard s name e k)
standard_name_iff (some null) = (λ h. cc, λ h. let (name, e, k) = h in cc)
standard_name_iff (some (boolean b)) = (λ h. cc, λ h. let (name, e, k) = h in cc)
standard_name_iff (some (number n)) = (λ h. cc, λ h. let (name, e, k) = h in cc)
standard_name_iff (some (array js)) = (λ h. cc, λ h. let (name, e, k) = h in cc)
standard_name_iff (some (object fs)) = (λ h. cc, λ h. let (name, e, k) = h in cc)

module _ (str : Json → String) where
  -- An operation with a standard name, whose types all begin with the word of a standard type.
  abbrev pub IsStandard : Json → Type 0
  IsStandard (object op) =
      ((name : String) × IsNamed op (text name) × (contains standard_ops name ≡ true))
      × ((types : List String) × (types_of str op ≡ ok types)
          × All (λ t. contains standard_types (first_word (lower t)) ≡ true) types)
  IsStandard _ = ⊥

  all_known_iff :
      (types : List String)
      → (all_known str types ≡ true)
        ↔ All (λ t. contains standard_types (first_word (lower t)) ≡ true) types
  unfolding all_known
  all_known_iff [] = (λ h. tt, λ h. refl)
  all_known_iff (t ∷ types) =
      let (to, from) = all_known_iff types in
      (λ h. (ground (arith, h), to (ground (arith, h))), λ h. ground (arith, h.0, from h.1))

  name_iff :
      (op : Fields)
      → (is_standard_name (or_member (member "type" op) (member "kind" op)) ≡ ok true)
        ↔ ((name : String) × IsNamed op (text name) × (contains standard_ops name ≡ true))
  name_iff op =
      let a = member "type" op in
      let b = member "kind" op in
      let (to, from) = standard_name_iff (or_member a b) in
      (
        λ h. let (name, e, k) = to h in (name, (or_member_iff a b (text name)).0 e, k),
        λ h. let (name, n, k) = h in from (name, (or_member_iff a b (text name)).1 n, k),
      )

  types_iff :
      (op : Fields) (ops : List Json)
      → (all_standard_types str (object op ∷ ops) ≡ ok true) ↔ (
          ((types : List String) × (types_of str op ≡ ok types)
            × All (λ t. contains standard_types (first_word (lower t)) ≡ true) types)
          × (all_standard_types str ops ≡ ok true))
  unfolding all_standard_types
  types_iff op ops = elim (Result-cases (types_of str op)) [
    | inr (e, p) ↦
        (λ h. ground (arith, h, p), λ h. let ((types, t, all), _) = h in ground (arith, t, p))
    | inl (types, p) ↦ elim (Bool-cases (all_known str types)) [
      | inl k ↦ (
        λ h. ((types, p, (all_known_iff types).0 k), ground (arith, h, p, k)),
        λ h. ground (arith, h.1, p, k),
      )
      | inr k ↦ (
        λ h. ground (arith, h, p, k),
        λ h.
            let ((types', t, all), later) = h in
            let known : all_known str types' ≡ true = (all_known_iff types').1 all in
            ground (arith, t, p, k, known),
      )
    ]
  ]

  ops_iff :
      (op : Fields) (ops : List Json)
      → (all_standard_ops str (object op ∷ ops) ≡ ok true) ↔ (
          (is_standard_name (or_member (member "type" op) (member "kind" op)) ≡ ok true)
          × (all_standard_ops str ops ≡ ok true))
  unfolding all_standard_ops
  ops_iff op ops =
      elim (Result-cases (is_standard_name (or_member (member "type" op) (member "kind" op)))) [
        | inr (e, p) ↦ ground (arith, p)
        | inl (b, p) ↦ elim (Bool-cases b) [
          | inl q ↦ ground (arith, p, q)
          | inr q ↦ ground (arith, p, q)
        ]
      ]

  plan_iff :
      (ops : List Json)
      → ((all_standard_ops str ops ≡ ok true) × (all_standard_types str ops ≡ ok true))
        ↔ All IsStandard ops
  unfolding all_standard_ops all_standard_types
  plan_iff [] = (λ h. tt, λ h. (refl, refl))
  plan_iff (object op ∷ ops) =
      let (to, from) = plan_iff ops in
      let (name_to, name_from) = name_iff op in
      let (ops_to, ops_from) = ops_iff op ops in
      let (types_to, types_from) = types_iff op ops in
      (
        λ h.
            let (n, o) = ops_to h.0 in
            let (t, later) = types_to h.1 in ((name_to n, t), to (o, later)),
        λ h.
            let (o, later) = from h.1 in (ops_from (name_from h.0.0, o), types_from (h.0.1, later)),
      )
  plan_iff (null ∷ ops) = (λ h. ground (arith, h.0), λ h. absurd h.0)
  plan_iff (boolean b ∷ ops) = (λ h. ground (arith, h.0), λ h. absurd h.0)
  plan_iff (number n ∷ ops) = (λ h. ground (arith, h.0), λ h. absurd h.0)
  plan_iff (text s ∷ ops) = (λ h. ground (arith, h.0), λ h. absurd h.0)
  plan_iff (array js ∷ ops) = (λ h. ground (arith, h.0), λ h. absurd h.0)

  -- A plan is of the class "95" exactly when it has an operation, and each of its operations has a
  -- standard name as its type, or as its kind where it has no type, and types that all begin with
  -- the word of a standard type.
  pub classify_operations_iff :
      (ops : List Json)
      → (classify_operations str ops ≡ ok "95") ↔ ((ops ≢ []) × All IsStandard ops)
  unfolding classify_operations
  classify_operations_iff [] =
      (λ h. ground (arith, h, text_ne "5" "95" refl), λ h. absurd (h.0 refl))
  classify_operations_iff (x ∷ ops) =
      let (to, from) = plan_iff (x ∷ ops) in
      (
        λ h. (λ e. cc, to (ground (arith, h, text_ne "5" "95" refl))),
        λ h. let both = from h.1 in ground (arith, both),
      )
