-- ===== src/Base/Text/Parts.antt =====
-- What a prefix and the parts of a text spell.
use Prim.Native.Nat.{ℕ, zero, suc}
use Prim.Native.Char.{Char, code}
use Prim.Native.String.{String, ◌++◌}
use mathlib.Core.Path.{◌≡◌, refl}
use mathlib.Core.Option.{none, some}
use native.Mathlib.Omega.{arith}
use text.Mathlib.TextEquality.{Char-path}
use mathlib.Core.Logic.{inl, inr}
use text.Mathlib.TextLemmas.{nil-append, cons-append}
use dbwarden_harness.Base.Equality.{◌==◌, nat_eq, Option-cases, Bool-cases}
use dbwarden_harness.Base.Text.{after_prefix?, cut}

abbrev pub size : String → ℕ
size String.[] = 0
size (String.◌∷◌ c s) = suc (size s)

abbrev pub drop_text : ℕ → String → String
drop_text zero s = s
drop_text (suc n) String.[] = ""
drop_text (suc n) (String.◌∷◌ c s) = drop_text n s

pub after_prefix?-append :
    (p s rest : String)
    → after_prefix? p s ≡ some rest
    → (s ≡ p ++ rest) × (drop_text (size p) s ≡ rest)
unfolding after_prefix?
after_prefix?-append String.[] s rest h = (ground (arith, h, nil-append rest), ground (arith, h))
after_prefix?-append (String.◌∷◌ p ps) String.[] rest h = cc
after_prefix?-append (String.◌∷◌ p ps) (String.◌∷◌ c s) rest h =
    elim (Bool-cases (code p == code c)) [
      | inl e ↦
          let char : p ≡ c = Char-path p c (ground (arith, e)) in
          let (spelled, dropped) = after_prefix?-append ps s rest (ground (arith, h, e)) in
          (cc (char, spelled, cons-append p ps rest), dropped)
      | inr e ↦ ground (arith, h, e)
    ]

-- The text before the first separator, the separator and what follows spell the text.
pub cut-append :
    (sep s before rest : String) → cut sep s ≡ some (before, rest) → s ≡ before ++ (sep ++ rest)
unfolding cut
cut-append sep String.[] before rest h = elim (Option-cases (after_prefix? sep "")) [
  | inl e ↦ ground (arith, h, e)
  | inr (r, e) ↦
      let (spelled, _) = after_prefix?-append sep "" r e in
      let same : (before ≡ "") × (rest ≡ r) = ground (arith, h, e) in
      cc (spelled, same.0, same.1, nil-append (sep ++ r))
]
cut-append sep (String.◌∷◌ c s) before rest h =
    elim (Option-cases (after_prefix? sep (String.◌∷◌ c s))) [
      | inr (r, e) ↦
          let (spelled, _) = after_prefix?-append sep (String.◌∷◌ c s) r e in
          let same : (before ≡ "") × (rest ≡ r) = ground (arith, h, e) in
          cc (spelled, same.0, same.1, nil-append (sep ++ r))
      | inl e ↦ elim (Option-cases (cut sep s)) [
        | inl f ↦ ground (arith, h, e, f)
        | inr ((b, r), f) ↦
            let same : (before ≡ String.◌∷◌ c b) × (rest ≡ r) = ground (arith, h, e, f) in
            let tail = cut-append sep s b r f in
            cc (same.0, same.1, tail, cons-append c b (sep ++ r))
      ]
    ]

-- A prefix of a text is one of every longer text.
pub after_prefix?-longer :
    (p s t rest : String)
    → after_prefix? p s ≡ some rest
    → after_prefix? p (s ++ t) ≡ some (rest ++ t)
unfolding after_prefix?
after_prefix?-longer String.[] s t rest h = ground (arith, h)
after_prefix?-longer (String.◌∷◌ p ps) String.[] t rest h = cc
after_prefix?-longer (String.◌∷◌ p ps) (String.◌∷◌ c s) t rest h =
    rw cons-append (ground (arith, h, after_prefix?-longer ps s t rest))

-- The text holds no separator.
abbrev pub Lacks : String → String → Type 0
Lacks sep s = cut sep s ≡ none

pub Lacks-empty : (n : ℕ) (sep : String) → size sep ≡ suc n → Lacks sep ""
unfolding cut after_prefix?
Lacks-empty n String.[] h = absurd (omega (arith, h))
Lacks-empty n (String.◌∷◌ c sep) h = refl

-- A text that stands before others, where no separator begins, and whose rest holds none.
pub Lacks-cons :
    (sep : String) (c : Char) (s t : String)
    → after_prefix? sep (String.◌∷◌ c s ++ t) ≡ none
    → Lacks sep s
    → Lacks sep (String.◌∷◌ c s)
unfolding cut
Lacks-cons sep c s t h lacks = elim (Option-cases (after_prefix? sep (String.◌∷◌ c s))) [
  | inl e ↦ ground (arith, e, lacks)
  | inr (rest, e) ↦ ground (arith, h, after_prefix?-longer sep (String.◌∷◌ c s) t rest e)
]
