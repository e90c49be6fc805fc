-- ===== src/CaseRunner/Matrix/Databases.antt =====
-- The names of the databases that tools/case_runner.py gives to the cases of a matrix.
use Prim.Native.Char.{Char, code}
use text.Mathlib.TextLemmas.{nil-append, cons-append}
use dbwarden_harness.Base.{
  ℕ, zero, suc, ◌≤◌, String, ◌<>◌, Bool, true, false, ◌&&◌, ◌≡◌, refl, arith, nat_eq, ◌∙◌, sym, ap,
}
use dbwarden_harness.CaseRunner.{slug_from, is_slug}
use dbwarden_harness.CaseRunner.Report.{take_text}
use dbwarden_harness.CaseRunner.Matrix.{slug, database_of}

-- A text that is its own slug.
abbrev pub has_slug_only : String → Bool
has_slug_only String.[] = true
has_slug_only (String.◌∷◌ c s) = is_slug (code c) && has_slug_only s

abbrev pub IsSlug : String → Type 0
IsSlug s = has_slug_only s ≡ true

IsSlug-cons :
    (c : Char) (s : String) → IsSlug (String.◌∷◌ c s) → (is_slug (code c) ≡ true) × IsSlug s
IsSlug-cons c s h = ground (arith, h)

abbrev pub size : String → ℕ
size String.[] = 0
size (String.◌∷◌ c s) = suc (size s)

slug_from-append : (s t : String) → IsSlug s → slug_from false (s <> t) ≡ s <> slug_from false t
unfolding slug_from
slug_from-append String.[] t h = cc (nil-append t, nil-append (slug_from false t))
slug_from-append (String.◌∷◌ c s) t h =
    let (head, tail) = IsSlug-cons c s h in
    cc (cons-append c s t, cons-append c s (slug_from false t), head, slug_from-append s t tail)

slug_from-slug : (s : String) → IsSlug s → slug_from false s ≡ s
unfolding slug_from
slug_from-slug String.[] h = refl
slug_from-slug (String.◌∷◌ c s) h =
    let (head, tail) = IsSlug-cons c s h in cc (head, slug_from-slug s tail)

take_text-zero : (s : String) → take_text 0 s ≡ ""
unfolding take_text
take_text-zero String.[] = refl
take_text-zero (String.◌∷◌ c s) = refl

take_text-append : (n : ℕ) (s t : String) → n ≤ size s → take_text n (s <> t) ≡ take_text n s
unfolding take_text
take_text-append zero String.[] t h = take_text-zero ("" <> t)
take_text-append (suc n) String.[] t h = absurd (omega arith)
take_text-append zero (String.◌∷◌ c s) t h = take_text-zero (String.◌∷◌ c s <> t)
take_text-append (suc n) (String.◌∷◌ c s) t h =
    rw cons-append (ap (String.◌∷◌ c) (take_text-append n s t (omega arith)))

table_prefix : (s : String) → "t_" <> s ≡ String.◌∷◌ "t" (String.◌∷◌ "_" s)
table_prefix s =
    cons-append "t" "_" s
    ∙ ap (String.◌∷◌ "t") (cons-append "_" "" s ∙ ap (String.◌∷◌ "_") (nil-append s))

-- An id of at least 58 characters that is its own slug has the same database as every id that
-- begins with it.
pub database_of-append :
    (s t : String) → IsSlug s → 58 ≤ size s → database_of (s <> t) ≡ database_of s
unfolding database_of slug take_text
database_of-append s t h long = rw (table_prefix (slug_from false (s <> t))) (
    rw (table_prefix (slug_from false s)) (
      ap (λ u. String.◌∷◌ "t" (String.◌∷◌ "_" u))
        (ap (take_text 58) (slug_from-append s t h)
          ∙ take_text-append 58 s (slug_from false t) long
          ∙ ap (take_text 58) (sym (slug_from-slug s h)))))
