-- ===== src/Base/Text.antt =====
-- The methods of `str` that the harness calls, by recursion on the characters.
pub mod Parts
use Prim.Native.Nat.{Ordering, ℕ, zero, suc, ◌-◌, ◌<◌}
use Prim.Native.Char.{Char, code}
use Prim.Native.String.{String, char_at, compare, ◌++◌}
use mathlib.Core.Path.{◌≡◌, refl}
use mathlib.Core.Bool.{Bool, true, false, not, ◌&&◌, ◌||◌}
use mathlib.Core.Option.{Option, none, some}
use mathlib.Core.List.{List, [], ◌∷◌}
use native.Mathlib.Omega.{arith}
use text.Mathlib.TextLemmas.{nil-append, cons-append}
use dbwarden_harness.Base.Equality.{◌==◌, contains, string_eq, nat_eq, leb, if◌then◌else◌}

-- `str.lower` on ASCII letters; other characters stay.
pub lower_char : Char → Char
lower_char c =
    if leb 65 (code c) && leb (code c) 90
    then char_at "abcdefghijklmnopqrstuvwxyz" (code c - 65)
    else c

upper_range : Char → Bool
upper_range c = leb 65 (code c) && leb (code c) 90

lowered_letters : ℕ → Bool
unfolding lower_char upper_range
lowered_letters zero = true
lowered_letters (suc n) =
    not (upper_range (char_at "abcdefghijklmnopqrstuvwxyz" n)) && lowered_letters n

lowered_letter :
    (k n : ℕ)
    → lowered_letters k ≡ true
    → n < k
    → upper_range (char_at "abcdefghijklmnopqrstuvwxyz" n) ≡ false
unfolding lowered_letters
lowered_letter zero n h l = elim l [ ]
lowered_letter (suc k) n h l = ground (arith, lowered_letter k n)

-- The alphabet, letter by letter.
all_lowered : lowered_letters 26 ≡ true
unfolding lowered_letters
all_lowered = refl

lower_char_idem : (c : Char) → lower_char (lower_char c) ≡ lower_char c
unfolding lower_char upper_range
lower_char_idem c = ground (arith, lowered_letter 26 (code c - 65) all_lowered)

unfoldable pub lower : String → String
unfolding lower_char
lower String.[] = ""
lower (String.◌∷◌ c s) = String.◌∷◌ (lower_char c) (lower s)

pub lower_idem : (s : String) → lower (lower s) ≡ lower s
unfolding lower
lower_idem String.[] = refl
lower_idem (String.◌∷◌ c s) = cc (lower_char_idem c, lower_idem s)

-- What follows `prefix` in `s`, if `s` begins with it.
pub after_prefix? : String → String → Option String
unfolding nat_eq
after_prefix? String.[] s = some s
after_prefix? (String.◌∷◌ p ps) String.[] = none
after_prefix? (String.◌∷◌ p ps) (String.◌∷◌ c s) =
    let rest = after_prefix? ps s in if code p == code c then rest else none

abbrev pub is_some : Option String → Bool
is_some none = false
is_some (some _) = true

unfoldable pub starts_with : String → String → Bool
unfolding after_prefix?
starts_with s prefix = is_some (after_prefix? prefix s)

-- `s.partition(sep)`: the text before the first `sep` and the text after it.
pub cut : String → String → Option (String × String)
unfolding after_prefix?
cut sep String.[] = elim (after_prefix? sep "") [ none ↦ none | some rest ↦ some ("", rest) ]
cut sep (String.◌∷◌ c s) =
    let later : Option (String × String) = elim (cut sep s) [
      | none ↦ none
      | some (before, after) ↦ some (String.◌∷◌ c before, after)
    ] in
    elim (after_prefix? sep (String.◌∷◌ c s)) [ none ↦ later | some rest ↦ some ("", rest) ]

-- `part in s`
pub occurs : String → String → Bool
unfolding cut
occurs part s = elim (cut part s) [ none ↦ false | some _ ↦ true ]

unfoldable pub ends_with : String → String → Bool
unfolding starts_with
ends_with String.[] suffix = starts_with suffix "" && starts_with "" suffix
ends_with (String.◌∷◌ c s) suffix =
    ends_with s suffix
    || (starts_with (String.◌∷◌ c s) suffix && starts_with suffix (String.◌∷◌ c s))

-- What follows the last character with the code `k`: `s.rsplit(chr(k), 1)[1]`, if there is one.
unfoldable pub after_last? : ℕ → String → Option String
unfolding nat_eq
after_last? k String.[] = none
after_last? k (String.◌∷◌ c s) =
    let here : Option String = if code c == k then some s else none in
    elim (after_last? k s) [ none ↦ here | some rest ↦ some rest ]

abbrev pub followed_by : String → Option String → Option String
followed_by t none = none
followed_by t (some u) = some (u ++ t)

-- A text with no such character follows the last one of a longer text whole.
pub after_last?-append :
    (k : ℕ) (s t : String)
    → after_last? k t ≡ none
    → after_last? k (s ++ t) ≡ followed_by t (after_last? k s)
unfolding after_last?
after_last?-append k String.[] t h = rw nil-append h
after_last?-append k (String.◌∷◌ c s) t h =
    rw cons-append (ground (arith, after_last?-append k s t h))

-- `sep.join(parts)`
unfoldable pub join : String → List String → String
join sep [] = ""
join sep (x ∷ []) = x
join sep (x ∷ y ∷ rest) = x ++ sep ++ join sep (y ∷ rest)

-- Python's `sorted` of texts.
unfoldable pub insert_sorted : String → List String → List String
insert_sorted x [] = x ∷ []
insert_sorted x (y ∷ ys) =
    let rest = insert_sorted x ys in elim (compare y x) [ Ordering.gt ↦ x ∷ y ∷ ys | _ ↦ y ∷ rest ]

unfoldable pub sorted : List String → List String
unfolding insert_sorted
sorted [] = []
sorted (x ∷ xs) = insert_sorted x (sorted xs)

contains-insert_sorted :
    (x : String) (ys : List String) (t : String)
    → contains (insert_sorted x ys) t ≡ (t == x || contains ys t)
unfolding insert_sorted
contains-insert_sorted x [] t = refl
contains-insert_sorted x (y ∷ ys) t = ground (arith, contains-insert_sorted x ys t)

pub contains-sorted : (xs : List String) (t : String) → contains (sorted xs) t ≡ contains xs t
unfolding sorted
contains-sorted [] t = refl
contains-sorted (x ∷ xs) t =
    ground (arith, contains-insert_sorted x (sorted xs) t, contains-sorted xs t)
