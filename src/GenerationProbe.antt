-- ===== src/GenerationProbe.antt =====
-- tools/generation_probe.py: the exceptions that model discovery swallows, read from what the probe
-- prints. Word characters and white space are those of ASCII.
pub mod Blocks
mod Tests
use Prim.Native.Char.{code}
use dbwarden_harness.Base.{
  ℕ, zero, suc, String, ◌<>◌, Bool, true, false, not, ◌&&◌, ◌||◌, Option, none, some, List, [], ◌∷◌,
  ◌++◌, map, ◌==◌, string_eq, nat_eq, if◌then◌else◌, select, any,
}
use dbwarden_harness.Base.Text.{after_prefix?, cut, starts_with, join}
use dbwarden_harness.Disk.{FilePath, CommandResult, Disk, Programs, launch, write}
use dbwarden_harness.CaseRunner.{strip}
use dbwarden_harness.CaseRunner.Report.{is_word}
use dbwarden_harness.RoundTrip.{split_lines, remove_tree}

abbrev pub marker : String
marker = "### dbwarden-harness swallowed"

pub record SwallowedError : Type 0 where
  pub location : String
  pub exception : String
  pub traceback : String

-- `str(error)`
pub text_of : SwallowedError → String
text_of e = e.exception <> "  (swallowed at " <> e.location <> ")"

-- `text.split(sep)`: `skip` characters of an occurrence are still to be dropped, and `more` is the
-- length of `sep` less one.
pub split_from : ℕ → ℕ → String → String → String × List String
split_from skip more sep String.[] = ("", [])
split_from zero more sep (String.◌∷◌ c s) =
    let (part, parts) = split_from zero more sep s in
    let (next, others) = split_from more more sep s in
    elim (after_prefix? sep (String.◌∷◌ c s)) [
      | none ↦ (String.◌∷◌ c part, parts)
      | some _ ↦ ("", next ∷ others)
    ]
split_from (suc skip) more sep (String.◌∷◌ c s) = split_from skip more sep s

-- The text before the first marker, and the blocks after the markers.
pub split_marker : String → String × List String
unfolding split_from
split_marker s = split_from 0 29 marker s

-- The boundary `\b` after a word character.
at_boundary : String → Bool
at_boundary String.[] = true
at_boundary (String.◌∷◌ c s) = not (is_word (code c))

ends_name : String → Bool
unfolding at_boundary
ends_name s =
    any (λ word. elim (after_prefix? word s) [ none ↦ false | some rest ↦ at_boundary rest ])
      ("Error" ∷ "Exception" ∷ "Warning" ∷ [])

name_goes_on : String → Bool
unfolding ends_name
name_goes_on String.[] = false
name_goes_on (String.◌∷◌ c s) =
    let later = name_goes_on s in
    ends_name (String.◌∷◌ c s) || ((is_word (code c) || code c == 46) && later)

-- `re.match(r"^\w[\w.]*(Error|Exception|Warning)\b", line)`
pub names_exception : String → Bool
unfolding name_goes_on
names_exception String.[] = false
names_exception (String.◌∷◌ c s) = is_word (code c) && name_goes_on s

-- The last line that names an exception, stripped.
pub last_exception : List String → Option String
unfolding names_exception
last_exception [] = none
last_exception (line ∷ rest) =
    let here : Option String = if names_exception (strip line) then some (strip line) else none in
    elim (last_exception rest) [ none ↦ here | some found ↦ some found ]

last_line : String → List String → String
last_line line [] = line
last_line line (next ∷ rest) = last_line next rest

-- `exception or lines[-1] if lines else ""`
pub exception_of : List String → String
unfolding last_exception last_line
exception_of [] = ""
exception_of (line ∷ rest) = elim (last_exception (line ∷ rest)) [
  | none ↦ last_line line rest
  | some found ↦ if found == "" then last_line line rest else found
]

-- `block.partition("\n")`
pub partition : String → String × String
partition block = elim (cut "\n" block) [
  | none ↦ (block, "")
  | some (header, body) ↦ (header, body)
]

pub swallowed : String → SwallowedError
unfolding exception_of partition
swallowed block =
    let (header, body) = partition block in
    record {
      location = strip header;
      exception = exception_of (select (λ line. not (strip line == "")) (split_lines body));
      traceback = body;
    }

pub parse_swallowed : String → List SwallowedError
unfolding split_marker swallowed
parse_swallowed stderr = map swallowed (split_marker stderr).1

abbrev pub probe_source : String
probe_source = join "\n" (
    "" ∷ "import sys, traceback" ∷ "import dbwarden.engine.model_discovery.extraction as extraction"
    ∷ "" ∷ "_original = extraction.extract_table_from_model" ∷ "" ∷ ""
    ∷ "def _instrumented(model_class, db_name=None):"
    ∷ "    result = _original(model_class, db_name)" ∷ "    if result is not None:"
    ∷ "        return result" ∷ "    captured = []" ∷ "" ∷ "    def tracer(frame, event, arg):"
    ∷ "        if event == \"exception\" and \"dbwarden\" in frame.f_code.co_filename:"
    ∷ "            captured.append((arg, frame.f_code.co_filename, frame.f_lineno))"
    ∷ "        return tracer" ∷ "" ∷ "    sys.settrace(tracer)" ∷ "    try:"
    ∷ "        _original(model_class, db_name)" ∷ "    finally:" ∷ "        sys.settrace(None)"
    ∷ "    for (exc_info, filename, lineno) in captured:"
    ∷ "        if exc_info[0] is GeneratorExit:" ∷ "            continue"
    ∷ "        print(f\"### dbwarden-harness swallowed {filename}:{lineno}\", file=sys.stderr)"
    ∷ "        traceback.print_exception(*exc_info, limit=6, file=sys.stderr)" ∷ "    return result"
    ∷ "" ∷ "" ∷ "extraction.extract_table_from_model = _instrumented"
    ∷ "for module in list(sys.modules.values()):" ∷ "    if module is None:" ∷ "        continue"
    ∷ "    if getattr(module, \"__name__\", \"\").startswith(\"dbwarden\"):"
    ∷ "        if getattr(module, \"extract_table_from_model\", None) is _original:"
    ∷ "            module.extract_table_from_model = _instrumented" ∷ ""
    ∷ "from dbwarden.cli.main import main" ∷ "" ∷ "sys.argv = [\"dbwarden\"] + sys.argv[1:]"
    ∷ "sys.exit(main())" ∷ "" ∷ [])

-- `python` runs the probe, whose script stands in the directory `scratch`.
module _ (programs : Programs) (python : String) (scratch : FilePath) where
  pub run : List String → Disk → CommandResult × Disk
  run args d =
      let probe = scratch ++ ("run_probe.py" ∷ []) in
      let (r, d') = launch programs (python ∷ join "/" probe ∷ args) (write probe probe_source d) in
      (r, remove_tree scratch d')

  pub swallowed_errors : List String → Disk → List SwallowedError × Disk
  unfolding run parse_swallowed
  swallowed_errors args d = let (r, d') = run args d in (parse_swallowed r.stderr, d')
