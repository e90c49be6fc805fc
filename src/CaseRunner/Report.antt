-- ===== src/CaseRunner/Report.antt =====
-- The errors of a server and the report of tools/case_runner.py. Digits, word characters and white
-- space are those of ASCII.
pub mod OneLine
use Prim.Native.Char.{code}
use dbwarden_harness.Base.{
  ℕ, zero, suc, String, ◌<>◌, Bool, true, false, not, ◌&&◌, ◌||◌, Option, none, some, List, [], ◌∷◌,
  map, ◌==◌, string_eq, nat_eq, if◌then◌else◌, leb,
}
use dbwarden_harness.Base.Text.{after_prefix?, starts_with, ends_with, join}
use dbwarden_harness.CaseRunner.{StepResult, CaseResult, strip, verdict}

abbrev is_digit : ℕ → Bool
is_digit c = leb 48 c && leb c 57

abbrev pub is_word : ℕ → Bool
is_word c = (leb 65 c && leb c 90) || (leb 97 c && leb c 122) || is_digit c || c == 95

-- The longest first part of the characters that pass the test, and the rest.
pub span : (ℕ → Bool) → String → String × String
span test String.[] = ("", "")
span test (String.◌∷◌ c s) =
    let (taken, rest) = span test s in
    if test (code c) then (String.◌∷◌ c taken, rest) else ("", String.◌∷◌ c s)

-- `.*?` up to the first place at which `stop` holds.
until : (String → Bool) → String → Option String
until stop String.[] = none
until stop (String.◌∷◌ c s) =
    let later = until stop s in
    if stop (String.◌∷◌ c s)
    then some ""
    else elim later [ none ↦ none | some text ↦ some (String.◌∷◌ c text) ]

-- `pattern.search(text)` of a pattern that matches no empty text.
search_first : (String → Option String) → String → Option String
search_first match String.[] = none
search_first match (String.◌∷◌ c s) =
    let later = search_first match s in
    elim (match (String.◌∷◌ c s)) [ none ↦ later | some found ↦ some found ]

abbrev after : {A : Type 0} → Option A → (A → Option String) → Option String
after none next = none
after (some a) next = next a

ends_clickhouse : String → Bool
ends_clickhouse s = starts_with s " (version" || starts_with s "\n"

clickhouse_error : String → Option String
unfolding span until ends_clickhouse
clickhouse_error s = after (after_prefix? "Code: " s) λ coded.
    let (number, rest) = span is_digit coded in
    if number == ""
    then none
    else after (after_prefix? ". DB::Exception: " rest) λ body.
      after (until ends_clickhouse body)
        λ message. some ("Code: " <> number <> ". DB::Exception: " <> message)

-- The class of an error is a word that `Error` ends, with a character before it.
sqlite_error : String → Option String
unfolding span until
sqlite_error s = after (after_prefix? "sqlite3." s) λ named.
    let (name, rest) = span is_word named in
    if name == "Error" || not (ends_with name "Error")
    then none
    else after (after_prefix? ": " rest) λ body.
      after (until (λ t. starts_with t "\n") body)
        λ message. some ("sqlite3." <> name <> ": " <> message)

-- `text.replace("\n", " ")`
pub on_one_line : String → String
on_one_line String.[] = ""
on_one_line (String.◌∷◌ c s) =
    let rest = on_one_line s in if code c == 10 then " " <> rest else String.◌∷◌ c rest

-- The error of ClickHouse, or else that of SQLite.
unfoldable pub error_of : StepResult → Option String
unfolding search_first clickhouse_error sqlite_error
error_of r = elim (search_first clickhouse_error r.migrate_output) [
  | none ↦ search_first sqlite_error r.migrate_output
  | some error ↦ some error
]

pub server_error : StepResult → String
unfolding on_one_line
server_error r = elim (error_of r) [ none ↦ "" | some error ↦ strip (on_one_line error) ]

-- `text[:count]`
unfoldable pub take_text : ℕ → String → String
take_text count String.[] = ""
take_text zero (String.◌∷◌ c s) = ""
take_text (suc count) (String.◌∷◌ c s) = String.◌∷◌ c (take_text count s)

-- The part of a summary that the last step gives.
pub last_error : List StepResult → List String
unfolding server_error take_text
last_error [] = []
last_error (r ∷ []) = if server_error r == "" then [] else take_text 160 (server_error r) ∷ []
last_error (r ∷ q ∷ rs) = last_error (q ∷ rs)

pub details : CaseResult → List String
unfolding last_error
details c = elim c.harness_error [
  | none ↦ last_error c.steps
  | some error ↦ if error == "" then last_error c.steps else error ∷ []
]

unfoldable pub summary : CaseResult → String
unfolding details
summary c = join " :: " ((c.case_id <> " [" <> c.backend <> "] " <> verdict c) ∷ details c)

unfoldable pub report : List CaseResult → String
report results = join "\n" (map summary results)
