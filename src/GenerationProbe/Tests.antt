-- ===== src/GenerationProbe/Tests.antt =====
-- Witnesses for the generation probe: two swallowed exceptions after a line of the log.
use dbwarden_harness.Base.{String, ◌<>◌, List, ◌≡◌}
use dbwarden_harness.Base.Text.Parts.{Lacks}
use dbwarden_harness.GenerationProbe.{marker, parse_swallowed}
use dbwarden_harness.GenerationProbe.Blocks.{printed, AreHeaders, parse_swallowed-printed}

abbrev stderr : String
stderr =
    "starting\n" <> marker <> " a.py:3\nTraceback\nValueError: no type\n" <> marker <> " b.py:7"

parse_swallowed-printed_example :
    (before : String) × (headers : List (String × String)) × (stderr
      ≡ before <> printed headers (parse_swallowed stderr))
    × Lacks marker before
    × AreHeaders headers (parse_swallowed stderr)
parse_swallowed-printed_example = parse_swallowed-printed stderr
