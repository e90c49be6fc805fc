-- ===== src/Dumper.antt =====
-- mcp_server/dumper.py: the dump of a live schema by the tools of its backend. The time limit of a
-- command is an error of the program that runs it.
pub mod Sessions
mod Tests
use Prim.Native.Char.{code}
use dbwarden_harness.Base.{
  ℕ, String, ◌<>◌, Bool, true, false, ◌&&◌, ◌||◌, Option, none, some, List, [], ◌∷◌, ◌++◌, ◌==◌,
  nat_eq, string_eq, if◌then◌else◌, map,
}
use dbwarden_harness.Base.Dict
use dbwarden_harness.Base.Dict.{Dict}
use dbwarden_harness.Base.Text.{join, lower}
use dbwarden_harness.Base.Result.{Result, ok, err, runtime_error, ◌>>=◌}
use dbwarden_harness.Disk.{Event, CommandResult}

-- What `urlparse` finds. Reading a port that is no number raises.
pub record Url : Type 0 where
  pub scheme : String
  pub netloc : String
  pub path : String
  pub params : String
  pub query : String
  pub fragment : String
  pub hostname : Option String
  pub port : Result (Option ℕ)
  pub username : Option String
  pub password : Option String

-- `s.lstrip("/")`
lstrip_slash : String → String
lstrip_slash String.[] = ""
lstrip_slash (String.◌∷◌ c s) =
    let rest = lstrip_slash s in if code c == 47 then rest else String.◌∷◌ c s

-- `s.rstrip(";")`
rstrip_semicolon : String → String
rstrip_semicolon String.[] = ""
rstrip_semicolon (String.◌∷◌ c s) =
    let rest = rstrip_semicolon s in if rest == "" && code c == 59 then "" else String.◌∷◌ c rest

-- `value or default`
or_text : Option String → String → String
or_text none default = default
or_text (some value) default = if value == "" then default else value

or_port : Option ℕ → ℕ → ℕ
or_port none default = default
or_port (some value) default = if value == 0 then default else value

option_flag : String → Option String → List String
option_flag flag none = []
option_flag flag (some value) = if value == "" then [] else flag ∷ value ∷ []

-- What `get_client` is given. An option that names another argument is an error of the client.
pub record Settings : Type 0 where
  pub host : String
  pub port : ℕ
  pub username : String
  pub password : String
  pub database : String
  pub secure : Bool
  pub options : Dict String String

-- What a ClickHouse client is asked.
pub data Call : Type 0 where
  connected : Settings → Call
  queried : String → Call
  closed : Call

pub last : String → List String → String
last x [] = x
last x (y ∷ ys) = last y ys

-- `values[-1]` of each key. `parse_qs` answers no empty list.
last_values : Dict String (List String) → Dict String String
unfolding last
last_values [] = []
last_values ((key, []) ∷ rest) = last_values rest
last_values ((key, v ∷ vs) ∷ rest) = (key, last v vs) ∷ last_values rest

pub create_query : String → String → String
create_query database table = "SHOW CREATE TABLE " <> database <> ".`" <> table <> "`"

-- The first row's definition, if there is a row.
first_row : List String → List String
first_row [] = []
first_row (definition ∷ _) = definition ∷ []

abbrev pub list_query : String
list_query =
    "SELECT name FROM system.tables WHERE database = %(database)s AND is_temporary = 0 ORDER BY name"

-- urllib.parse's functions, `str` of a port, and `parse_qs`.
pub record Urls : Type 0 where
  pub urlparse : String → Result Url
  pub urlunparse : String → String → String → String → String → String → String
  pub unquote : String → String
  pub show : ℕ → String
  pub parse_qs : String → Dict String (List String)

-- `which` finds a program, and `run` gives it a command and what is added to the environment.
-- `database` is the file of an SQLite URL, `exists` tells whether it is there, and `master` answers
-- the query of its `sqlite_master`. `connect` and `answer` are the ClickHouse client; an answer
-- depends on all calls before it, the newest first.
pub record Tools : Type 0 where
  pub which : String → Option String
  pub run : List String → Dict String String → Result CommandResult
  pub database : String → Result (Option String)
  pub exists : String → Bool
  pub master : String → Result (List String)
  pub connect : Settings → Result (Unit {0})
  pub answer : List Call → Result (List String)

module _ (urls : Urls) (tools : Tools) where
  normalize_for_cli : String → String → Result String
  normalize_for_cli url scheme = do
    u ← urls.urlparse url
    ok (urls.urlunparse scheme u.netloc u.path u.params u.query u.fragment)

  port_flag : String → Option ℕ → List String
  port_flag flag none = []
  port_flag flag (some n) = if n == 0 then [] else flag ∷ urls.show n ∷ []

  name_flag : String → Option String → List String
  name_flag flag none = []
  name_flag flag (some s) = if s == "" then [] else flag ∷ urls.unquote s ∷ []

  password_variable : String → Option String → Dict String String
  password_variable variable none = []
  password_variable variable (some s) = if s == "" then [] else (variable, urls.unquote s) ∷ []

  database_name : Url → String
  unfolding lstrip_slash or_text
  database_name u = or_text (some (urls.unquote (lstrip_slash u.path))) "harness"

  run_dump : String → List String → Dict String String → Result String
  run_dump name args environment = do
    r ← tools.run args environment
    if r.returncode == 0 then ok r.stdout else err (runtime_error (name <> " failed: " <> r.stderr))

  -- The command line of a dump: the program and its options, the server, the user, the database.
  command_line : List String → String → String → Url → Option ℕ → List String
  unfolding option_flag port_flag name_flag database_name
  command_line options port user u n =
      options
      ++ (option_flag "-h" u.hostname
          ++ (port_flag port n ++ (name_flag user u.username ++ (database_name u ∷ []))))

  dump_postgresql : String → Result String
  unfolding normalize_for_cli command_line password_variable run_dump
  dump_postgresql database_url = elim (tools.which "pg_dump") [
    | none ↦ err (runtime_error "pg_dump not found on PATH")
    | some pg_dump ↦ do
      url ← normalize_for_cli database_url "postgresql"
      u ← urls.urlparse url
      n ← u.port
      run_dump "pg_dump"
          (command_line
            (pg_dump ∷ "--schema-only" ∷ "--no-owner" ∷ "--no-privileges" ∷ "--no-comments" ∷ [])
            "-p" "-U" u n)
          (password_variable "PGPASSWORD" u.password)
  ]

  dump_mysql : String → Result String
  unfolding normalize_for_cli command_line password_variable run_dump
  dump_mysql database_url = elim (tools.which "mysqldump") [
    | none ↦ err (runtime_error "mysqldump not found on PATH")
    | some mysqldump ↦ do
      url ← normalize_for_cli database_url "mysql"
      u ← urls.urlparse url
      n ← u.port
      run_dump "mysqldump"
          (command_line (mysqldump ∷ "--no-data" ∷ "--skip-comments" ∷ []) "-P" "-u" u n)
          (password_variable "MYSQL_PWD" u.password)
  ]

  statements_of : String → Result String
  unfolding rstrip_semicolon
  statements_of path = do
    rows ← tools.master path
    ok (join "\n" (map (λ sql. rstrip_semicolon sql <> ";") rows))

  dump_sqlite : String → Result String
  unfolding or_text statements_of
  dump_sqlite database_url = do
    name ← tools.database database_url
    if tools.exists (or_text name "") then statements_of (or_text name "") else ok ""

  -- The definitions of the tables, and the calls.
  unfoldable pub statements : String → List String → List Call → Result (List String) × List Call
  unfolding create_query first_row
  statements database [] calls = (ok [], calls)
  statements database (table ∷ rest) calls =
      let asked = queried (create_query database table) ∷ calls in
      let (later, calls') = statements database rest asked in
      elim (tools.answer asked) [
        | err e ↦ (err e, asked)
        | ok rows ↦ (do s ← later; ok (first_row rows ++ s), calls')
      ]

  settings : Url → Option ℕ → Settings
  unfolding or_text or_port lstrip_slash last_values
  settings u n = record {
    host = or_text u.hostname "localhost";
    port = or_port n 8123;
    username = or_text u.username "clickhouse";
    password = or_text u.password "clickhouse";
    database = or_text (some (lstrip_slash u.path)) "harness";
    secure = u.scheme == "https";
    options = last_values (urls.parse_qs u.query);
  }

  -- The queries of a client that is connected; `finally` closes it.
  pub session : Settings → Result String × List Call
  session s =
      let asked = queried list_query ∷ connected s ∷ [] in
      elim (tools.answer asked) [
        | err e ↦ (err e, closed ∷ asked)
        | ok tables ↦
            let (found, calls) = statements s.database tables asked in
            (do definitions ← found; ok (join "\n\n" definitions <> "\n"), closed ∷ calls)
      ]

  pub open_session : Settings → Result String × List Call
  open_session s = elim (tools.connect s) [ err e ↦ (err e, []) | ok _ ↦ session s ]

  pub server_settings : String → Result Settings
  unfolding settings
  server_settings database_url = do u ← urls.urlparse database_url; n ← u.port; ok (settings u n)

  pub dump_clickhouse : String → Result String × List Call
  dump_clickhouse database_url = elim (server_settings database_url) [
    | err e ↦ (err e, [])
    | ok s ↦ open_session s
  ]

  -- The dump, with the calls of a ClickHouse client.
  pub dump_database_schema : String → String → Result String × List Call
  unfolding dump_postgresql dump_mysql dump_sqlite
  dump_database_schema database_url name =
      let backend = lower name in
      if backend == "postgresql"
      then (dump_postgresql database_url, [])
      else if backend == "mysql" || backend == "mariadb"
      then (dump_mysql database_url, [])
      else if backend == "sqlite"
      then (dump_sqlite database_url, [])
      else if backend == "clickhouse"
      then dump_clickhouse database_url
      else (err (runtime_error ("Unsupported backend for schema dump: " <> backend)), [])

-- The dump of a track, which keeps no error: the `dump` of the programs that Tracks runs.
pub track_dump : Urls → (List Event → Tools) → List Event → String → String → Option String
track_dump urls tools log url backend = elim (dump_database_schema urls (tools log) url backend).0 [
  | err e ↦ none
  | ok text ↦ some text
]
