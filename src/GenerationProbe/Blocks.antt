-- ===== src/GenerationProbe/Blocks.antt =====
-- Nothing of what a probe prints is lost by the parser of tools/generation_probe.py.
use mathlib.Core.Path.{subst}
use text.Mathlib.TextLemmas.{nil-append, cons-append, append-nil, append_assoc}
use dbwarden_harness.Base.{
  ℕ, zero, suc, String, ◌<>◌, none, some, List, [], ◌∷◌, All, ◌≡◌, ◌⊎◌, inl, inr, refl, sym, ap,
  ◌∙◌, arith, Option-cases, map, nat_eq,
}
use dbwarden_harness.Base.Text.{after_prefix?, cut}
use dbwarden_harness.Base.Text.Parts.{
  size, drop_text, after_prefix?-append, cut-append, Lacks, Lacks-empty, Lacks-cons,
}
use dbwarden_harness.CaseRunner.{strip}
use dbwarden_harness.GenerationProbe.{
  marker, SwallowedError, split_from, split_marker, partition, swallowed, parse_swallowed,
}

-- Each block behind the separator.
abbrev separated : String → List String → String
separated sep [] = ""
separated sep (block ∷ blocks) = sep <> (block <> separated sep blocks)

split_from-separated :
    (skip more : ℕ) (sep s : String)
    → size sep ≡ suc more
    → (split_from skip more sep s).0 <> separated sep (split_from skip more sep s).1
      ≡ drop_text skip s
unfolding split_from
split_from-separated zero more sep String.[] h = nil-append ""
split_from-separated (suc skip) more sep String.[] h = nil-append ""
split_from-separated zero more sep (String.◌∷◌ c s) h =
    elim (Option-cases (after_prefix? sep (String.◌∷◌ c s))) [
      | inl e ↦
          let (part, parts) = split_from zero more sep s in
          let step : split_from zero more sep (String.◌∷◌ c s) ≡ (String.◌∷◌ c part, parts) =
            ground (arith, e) in
          subst (λ p. p.0 <> separated sep p.1 ≡ String.◌∷◌ c s) (sym step)
            (cons-append c part (separated sep parts)
              ∙ ap (String.◌∷◌ c) (split_from-separated zero more sep s h))
      | inr (rest, e) ↦
          let (spelled, dropped) = after_prefix?-append sep (String.◌∷◌ c s) rest e in
          let left : drop_text more s ≡ rest =
            subst (λ n. drop_text n (String.◌∷◌ c s) ≡ rest) h dropped in
          let (next, others) = split_from more more sep s in
          let step : split_from zero more sep (String.◌∷◌ c s) ≡ ("", next ∷ others) =
            ground (arith, e) in
          subst (λ p. p.0 <> separated sep p.1 ≡ String.◌∷◌ c s) (sym step)
            (nil-append _
              ∙ ap (λ t. sep <> t) (split_from-separated more more sep s h ∙ left)
              ∙ sym spelled)
    ]
split_from-separated (suc skip) more sep (String.◌∷◌ c s) h = split_from-separated skip more sep s h

-- No part holds the separator.
split_from-Lacks :
    (skip more : ℕ) (sep s : String)
    → size sep ≡ suc more
    → Lacks sep (split_from skip more sep s).0 × All (Lacks sep) (split_from skip more sep s).1
unfolding split_from
split_from-Lacks zero more sep String.[] h = (Lacks-empty more sep h, tt)
split_from-Lacks (suc skip) more sep String.[] h = (Lacks-empty more sep h, tt)
split_from-Lacks zero more sep (String.◌∷◌ c s) h =
    elim (Option-cases (after_prefix? sep (String.◌∷◌ c s))) [
      | inl e ↦
          let (part, parts) = split_from zero more sep s in
          let step : split_from zero more sep (String.◌∷◌ c s) ≡ (String.◌∷◌ c part, parts) =
            ground (arith, e) in
          let (free, rest) = split_from-Lacks zero more sep s h in
          let whole : String.◌∷◌ c part <> separated sep parts ≡ String.◌∷◌ c s =
            cons-append c part (separated sep parts)
            ∙ ap (String.◌∷◌ c) (split_from-separated zero more sep s h) in
          let top =
            Lacks-cons sep c part (separated sep parts) (ap (after_prefix? sep) whole ∙ e) free in
          subst (λ p. Lacks sep p.0 × All (Lacks sep) p.1) (sym step) (top, rest)
      | inr (r, e) ↦
          let (next, others) = split_from more more sep s in
          let step : split_from zero more sep (String.◌∷◌ c s) ≡ ("", next ∷ others) =
            ground (arith, e) in
          subst (λ p. Lacks sep p.0 × All (Lacks sep) p.1) (sym step)
            (Lacks-empty more sep h, split_from-Lacks more more sep s h)
    ]
split_from-Lacks (suc skip) more sep (String.◌∷◌ c s) h = split_from-Lacks skip more sep s h

-- The text of the errors behind their markers. A header stands with the line feed that ends it, or
-- with nothing where the block ends.
abbrev pub printed : List (String × String) → List SwallowedError → String
printed ((header, end) ∷ headers) (e ∷ errors) =
    marker <> (header <> (end <> (e.traceback <> printed headers errors)))
printed _ _ = ""

-- The headers give the locations, and no marker stands in the text of an error.
abbrev pub AreHeaders : List (String × String) → List SwallowedError → Type 0
AreHeaders [] [] = Unit {0}
AreHeaders ((header, end) ∷ headers) (e ∷ errors) =
    (strip header ≡ e.location)
    × ((end ≡ "\n") ⊎ ((end ≡ "") × (e.traceback ≡ "")))
    × Lacks marker (header <> (end <> e.traceback))
    × AreHeaders headers errors
AreHeaders _ _ = ⊥

header_of : String → String × String
header_of block = elim (cut "\n" block) [
  | none ↦ (block, "")
  | some (header, body) ↦ (header, "\n")
]

swallowed-block :
    (block : String)
    → (block ≡ (header_of block).0 <> ((header_of block).1 <> (swallowed block).traceback))
      × (strip (header_of block).0 ≡ (swallowed block).location)
      × (((header_of block).1 ≡ "\n")
          ⊎ (((header_of block).1 ≡ "") × ((swallowed block).traceback ≡ "")))
unfolding swallowed header_of partition
swallowed-block block = elim (Option-cases (cut "\n" block)) [
  | inl e ↦
      let top : header_of block ≡ (block, "") = ground (arith, e) in
      let rest : (swallowed block).traceback ≡ "" = ground (arith, e) in
      let place : (swallowed block).location ≡ strip block = ground (arith, e) in
      (
        cc (top, rest, append-nil block, nil-append ""),
        cc (top, place),
        inr (ap (λ p. p.1) top, rest),
      )
  | inr ((header, body), e) ↦
      let top : header_of block ≡ (header, "\n") = ground (arith, e) in
      let rest : (swallowed block).traceback ≡ body = ground (arith, e) in
      let place : (swallowed block).location ≡ strip header = ground (arith, e) in
      (
        cc (top, rest, cut-append "\n" block header body e),
        cc (top, place),
        inl (ap (λ p. p.1) top),
      )
]

printed-separated :
    (blocks : List String)
    → All (Lacks marker) blocks
    → (separated marker blocks ≡ printed (map header_of blocks) (map swallowed blocks))
      × AreHeaders (map header_of blocks) (map swallowed blocks)
printed-separated [] h = (refl, tt)
printed-separated (block ∷ blocks) h =
    let (spelled, located, ended) = swallowed-block block in
    let (rest, headers) = printed-separated blocks h.1 in
    let (header, end) = header_of block in
    let body = (swallowed block).traceback in
    let more = printed (map header_of blocks) (map swallowed blocks) in
    (
      cc (spelled, rest, append_assoc header (end <> body) more, append_assoc end body more),
      (located, ended, subst (Lacks marker) spelled h.0, headers),
    )

-- What a probe prints is a text without a marker, and then the marker, the header and the
-- traceback of each error in order, with no other marker in them; each location is the header
-- without the white space around it.
pub parse_swallowed-printed :
    (stderr : String)
    → (before : String) × (headers : List (String × String)) × (stderr
        ≡ before <> printed headers (parse_swallowed stderr))
      × Lacks marker before
      × AreHeaders headers (parse_swallowed stderr)
unfolding parse_swallowed split_marker
parse_swallowed-printed stderr =
    let (before, blocks) = split_marker stderr in
    let (free, parts) = split_from-Lacks 0 29 marker stderr refl in
    let (rest, headers) = printed-separated blocks parts in
    (
      before,
      map header_of blocks,
      sym (split_from-separated 0 29 marker stderr refl) ∙ ap (λ t. before <> t) rest,
      free,
      headers,
    )
