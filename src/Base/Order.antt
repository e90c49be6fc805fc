-- ===== src/Base/Order.antt =====
-- The order of texts, and sorting: what is sorted does not depend on the order of the list.
use Prim.Native.Nat.{Ordering, compare as compare_numbers}
use Prim.Native.Char.{Char, code}
use Prim.Native.String.compare
use Prim.Native.String.{String, compare, then}
use mathlib.Core.Path.{◌≡◌, refl, ap, ◌∙◌}
use mathlib.Core.Bool.{Bool, true, false}
use mathlib.Core.List.{List, [], ◌∷◌}
use native.Mathlib.Omega.{arith}
use text.Mathlib.TextEquality.{codes_equal}
use dbwarden_harness.Base.Equality.{if◌then◌else◌, string_eq}
use dbwarden_harness.Base.Text.{insert_sorted, sorted}

abbrev is_above : Ordering → Bool
is_above Ordering.gt = true
is_above _ = false

-- `t < s`
abbrev above : String → String → Bool
above s t = is_above (compare s t)

by_order : Ordering → Bool → Bool
by_order Ordering.lt rest = false
by_order Ordering.eq rest = rest
by_order Ordering.gt rest = true

above-then :
    (o : Ordering) (s t : String) → is_above ((then) o (compare s t)) ≡ by_order o (above s t)
unfolding by_order
above-then Ordering.lt s t = refl
above-then Ordering.eq s t = refl
above-then Ordering.gt s t = refl

above-cons :
    (c d : Char) (s t : String)
    → above (String.◌∷◌ c s) (String.◌∷◌ d t)
      ≡ by_order (compare_numbers (code c) (code d)) (above s t)
above-cons c d s t =
    ap is_above (compare.cons-cons c d s t) ∙ above-then (compare_numbers (code c) (code d)) s t

above-nil : (t : String) → above "" t ≡ false
above-nil String.[] = ap is_above compare.nil-nil
above-nil (String.◌∷◌ d t) = ap is_above (compare.nil-cons d t)

above_nil : (c : Char) (s : String) → above (String.◌∷◌ c s) "" ≡ true
above_nil c s = ap is_above (compare.cons-nil c s)

above_asym : (s t : String) → above s t ≡ true → above t s ≡ false
unfolding by_order
above_asym String.[] t h = ground (arith, above-nil t)
above_asym (String.◌∷◌ c s) String.[] h = above-nil (String.◌∷◌ c s)
above_asym (String.◌∷◌ c s) (String.◌∷◌ d t) h =
    ground (arith, above_asym s t, above-cons c d s t, above-cons d c t s)

above_trans : (s t u : String) → above s t ≡ false → above t u ≡ false → above s u ≡ false
unfolding by_order
above_trans String.[] t u h k = above-nil u
above_trans (String.◌∷◌ c s) String.[] u h k = ground (arith, above_nil c s)
above_trans (String.◌∷◌ c s) (String.◌∷◌ d t) String.[] h k = ground (arith, above_nil d t)
above_trans (String.◌∷◌ c s) (String.◌∷◌ d t) (String.◌∷◌ e u) h k =
    ground (arith, above_trans s t u, above-cons c d s t, above-cons d e t u, above-cons c e s u)

above_equal : (s t : String) → above s t ≡ false → above t s ≡ false → s ≡ t
unfolding by_order
above_equal String.[] String.[] h k = refl
above_equal String.[] (String.◌∷◌ d t) h k = ground (arith, above_nil d t)
above_equal (String.◌∷◌ c s) String.[] h k = ground (arith, above_nil c s)
above_equal (String.◌∷◌ c s) (String.◌∷◌ d t) h k =
    ground (arith, above_equal s t, above-cons c d s t, above-cons d c t s, codes_equal c d)

insert_sorted-above :
    (x y : String) (ys : List String)
    → insert_sorted x (y ∷ ys) ≡ (if above y x then x ∷ y ∷ ys else y ∷ insert_sorted x ys)
unfolding insert_sorted
insert_sorted-above x y ys = ground arith

insert_sorted_comm :
    (x y : String) (l : List String)
    → insert_sorted x (insert_sorted y l) ≡ insert_sorted y (insert_sorted x l)
unfolding insert_sorted
insert_sorted_comm x y [] = ground (arith, above_asym x y, above_asym y x, above_equal x y)
insert_sorted_comm x y (z ∷ l) = ground (
  arith,
  insert_sorted_comm x y l,
  above_asym x y,
  above_asym y x,
  above_equal x y,
  above_trans z y x,
  above_trans z x y,
  above_asym x z,
  above_asym y z,
)

-- An adjacent pair may be swapped.
pub data Swap : List String → List String → Type 0 where
  here : (x y : String) (zs : List String) → Swap (x ∷ y ∷ zs) (y ∷ x ∷ zs)
  there : (z : String) (xs ys : List String) → Swap xs ys → Swap (z ∷ xs) (z ∷ ys)

pub sorted-Swap : (xs ys : List String) → Swap xs ys → sorted xs ≡ sorted ys
unfolding sorted
sorted-Swap _ _ (here x y zs) = insert_sorted_comm x y (sorted zs)
sorted-Swap _ _ (there z xs ys s) = ap (insert_sorted z) (sorted-Swap xs ys s)
