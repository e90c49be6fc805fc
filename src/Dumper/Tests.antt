-- ===== src/Dumper/Tests.antt =====
-- Witnesses for the schema dumps: a ClickHouse server with one table, whose definition it refuses.
use dbwarden_harness.Base.{String, false, none, some, List, [], ◌∷◌}
use dbwarden_harness.Base.Result.{Result, ok, err, external_error}
use dbwarden_harness.Dumper.{Urls, Tools, Call, connected, queried, dump_database_schema}
use dbwarden_harness.Dumper.Sessions.{IsClosed, dump_database_schema-IsClosed}

abbrev urls : Urls
urls = record {
  urlparse = λ url. ok (record {
    scheme = "https";
    netloc = "db:8443";
    path = "/app";
    params = "";
    query = "";
    fragment = "";
    hostname = some "db";
    port = ok (some 8443);
    username = some "u";
    password = some "p";
  });
  urlunparse = λ scheme netloc path params query fragment. scheme;
  unquote = λ s. s;
  show = λ n. "8443";
  parse_qs = λ query. [];
}

abbrev answer : List Call → Result (List String)
answer (queried q ∷ connected s ∷ []) = ok ("users" ∷ [])
answer _ = err (external_error "timed out")

abbrev tools : Tools
tools = record {
  which = λ name. none;
  run = λ args environment. err (external_error "no program");
  database = λ url. ok none;
  exists = λ path. false;
  master = λ path. ok [];
  connect = λ s. ok tt;
  answer = answer;
}

dump_database_schema-IsClosed_example :
    IsClosed (dump_database_schema urls tools "https://u:p@db:8443/app" "ClickHouse").1
dump_database_schema-IsClosed_example =
    dump_database_schema-IsClosed urls tools "https://u:p@db:8443/app" "ClickHouse"
