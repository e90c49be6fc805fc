-- ===== src/Cli/Ansi.antt =====
-- The removal of ANSI control sequences, `ESC [ [0-?]* [ -/]* [@-~]`, in harness/cli.py and
-- tools/case_runner.py.
use Prim.Native.Char.{Char, code}
use text.Mathlib.TextLemmas.{nil-append, cons-append}
use dbwarden_harness.Base.{
  ℕ, zero, suc, String, ◌<>◌, Bool, true, false, ◌&&◌, Option, none, some, ◌==◌, nat_eq, ◌≡◌, ◌≢◌,
  refl, arith, if◌then◌else◌, leb,
}

abbrev plus_one : Option ℕ → Option ℕ
plus_one none = none
plus_one (some n) = some (suc n)

-- How many characters the rest of a sequence has: parameters while the flag is set, then
-- intermediates, then the final one.
tail_length : Bool → String → Option ℕ
tail_length parameters String.[] = none
tail_length parameters (String.◌∷◌ c s) =
    let more = plus_one (tail_length parameters s) in
    let intermediate = plus_one (tail_length false s) in
    if parameters && leb 0x30 (code c) && leb (code c) 0x3f
    then more
    else if leb 0x20 (code c) && leb (code c) 0x2f
    then intermediate
    else if leb 0x40 (code c) && leb (code c) 0x7e
    then some 1
    else none

-- The number of characters after the escape character `c` that belong to its sequence.
sequence_length : Char → String → Option ℕ
unfolding tail_length
sequence_length c String.[] = none
sequence_length c (String.◌∷◌ bracket s) =
    if code c == 0x1b && code bracket == 0x5b then plus_one (tail_length true s) else none

-- `skip` characters of a matched sequence are still to be dropped.
strip_from : ℕ → String → String
unfolding sequence_length nat_eq
strip_from skip String.[] = ""
strip_from (suc skip) (String.◌∷◌ c s) = strip_from skip s
strip_from zero (String.◌∷◌ c s) = elim (sequence_length c s) [
  | none ↦ String.◌∷◌ c (strip_from zero s)
  | some n ↦ strip_from n s
]

pub strip_ansi : String → String
unfolding strip_from
strip_ansi s = strip_from zero s

-- A text without the escape character.
abbrev pub IsPlainText : String → Type 0
IsPlainText String.[] = Unit {0}
IsPlainText (String.◌∷◌ c s) = (code c ≢ 0x1b) × IsPlainText s

sequence_length_plain : (c : Char) (s : String) → code c ≢ 0x1b → sequence_length c s ≡ none
unfolding sequence_length
sequence_length_plain c String.[] h = refl
sequence_length_plain c (String.◌∷◌ b s) h = ground arith

-- Text without escape characters stays as it is, whatever follows it, when the control sequences
-- are removed.
pub strip_ansi-append : (s t : String) → IsPlainText s → strip_ansi (s <> t) ≡ s <> strip_ansi t
unfolding strip_ansi
strip_ansi-append String.[] t h = rw (nil-append, nil-append)
strip_ansi-append (String.◌∷◌ c s) t (h, hs) =
    rw (cons-append, cons-append)
      (ground (arith, sequence_length_plain c (s <> t) h, strip_ansi-append s t hs))
