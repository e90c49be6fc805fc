-- ===== src/Cli.antt =====
-- harness/cli.py: the commands of dbwarden, and what is demanded of their results.
pub mod Ansi
pub mod Demands
use Prim.Native.Char.{code}
use dbwarden_harness.Base.{
  ℕ, zero, suc, String, ◌<>◌, Bool, true, false, not, ◌&&◌, ◌||◌, List, [], ◌∷◌, ◌==◌, string_eq,
  nat_eq, if◌then◌else◌, leb, select, is_empty,
}
use dbwarden_harness.Base.Text.{lower, occurs, join}
use dbwarden_harness.Base.Result.{
  Result, ok, err, runtime_error, assertion_error, ◌>>=◌, ◌>>◌, guard,
}
use dbwarden_harness.Disk.{CommandResult, Disk, Programs, launch}
use Ansi.{strip_ansi}

-- White space of ASCII, which `str.strip` removes.
abbrev is_space : ℕ → Bool
is_space c = c == 32 || (leb 9 c && leb c 13) || (leb 28 c && leb c 31)

-- `not text.strip()`
unfoldable pub is_blank : String → Bool
is_blank String.[] = true
is_blank (String.◌∷◌ c s) = is_space (code c) && is_blank s

unfoldable pub require_success : CommandResult → Result CommandResult
require_success r =
    if r.returncode == 0 then ok r else err (runtime_error ("Command failed: " <> join " " r.args))

unfoldable pub require_clean : CommandResult → Result CommandResult
unfolding require_success
require_clean r = do
  _ ← require_success r
  guard (is_blank r.stderr) (runtime_error ("Command emitted stderr: " <> join " " r.args))
  ok r

pub output : CommandResult → String
output r = r.stdout <> "\n" <> r.stderr

pub plain_output : CommandResult → String
plain_output r = strip_ansi (output r)

-- The fragments that the lowered output lacks.
abbrev missing : List String → String → List String
missing fragments text = select (λ f. not (occurs (lower f) text)) fragments

pub require_failure : List String → CommandResult → Result CommandResult
require_failure fragments r = do
  guard (not (r.returncode == 0))
      (assertion_error ("Expected command to fail: " <> join " " r.args))
  guard (is_empty (missing fragments (lower (output r))))
      (assertion_error "Missing failure details")
  ok r

-- `DbwardenCli.run` with its flags `check` and `clean`.
module _ (programs : Programs) (executable : String) where
  unfoldable pub run_command : List String → Disk → CommandResult × Disk
  run_command args d = launch programs (executable ∷ args) d

  unfoldable pub run : List String → Bool → Bool → Disk → Result CommandResult × Disk
  unfolding run_command
  run args check clean d =
      let (r, d') = run_command args d in
      (if clean then require_clean r else if check then require_success r else ok r, d')
