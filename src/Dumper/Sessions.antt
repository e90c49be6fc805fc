-- ===== src/Dumper/Sessions.antt =====
-- The ClickHouse client of a schema dump of mcp_server/dumper.py.
use dbwarden_harness.Base.{String, List, [], ◌∷◌, inl, inr, arith, string_eq}
use dbwarden_harness.Base.Result.{Result-cases}
use dbwarden_harness.Dumper.{
  Settings, Call, connected, queried, closed, Urls, Tools, create_query, list_query, statements,
  session, open_session, server_settings, dump_clickhouse, dump_database_schema,
}

-- No client is closed yet.
abbrev pub IsOpen : List Call → Type 0
IsOpen [] = Unit
IsOpen (connected s ∷ calls) = IsOpen calls
IsOpen (queried q ∷ calls) = IsOpen calls
IsOpen (closed ∷ calls) = ⊥

-- The calls of a client that is gone: none at all, or a single close at the end.
abbrev pub IsClosed : List Call → Type 0
IsClosed [] = Unit
IsClosed (connected s ∷ calls) = ⊥
IsClosed (queried q ∷ calls) = ⊥
IsClosed (closed ∷ calls) = IsOpen calls

module _ (urls : Urls) (tools : Tools) where
  statements-IsOpen :
      (database : String) (tables : List String) (calls : List Call)
      → IsOpen calls
      → IsOpen (statements urls tools database tables calls).1
  unfolding statements
  statements-IsOpen database [] calls h = h
  statements-IsOpen database (table ∷ rest) calls h =
      let asked = queried (create_query database table) ∷ calls in
      let later = statements-IsOpen database rest asked h in
      elim (Result-cases (tools.answer asked)) [
        | inl (rows, e) ↦ ground (arith, e, later)
        | inr (x, e) ↦ ground (arith, e, h)
      ]

  session-IsClosed : (s : Settings) → IsClosed (session urls tools s).1
  unfolding session
  session-IsClosed s =
      let asked : List Call = queried list_query ∷ connected s ∷ [] in
      elim (Result-cases (tools.answer asked)) [
        | inl (tables, e) ↦ ground (arith, e, statements-IsOpen s.database tables asked tt)
        | inr (x, e) ↦ ground (arith, e)
      ]

  dump_clickhouse-IsClosed :
      (database_url : String) → IsClosed (dump_clickhouse urls tools database_url).1
  unfolding dump_clickhouse open_session
  dump_clickhouse-IsClosed database_url =
      elim (Result-cases (server_settings urls tools database_url)) [
        | inr (x, e) ↦ ground (arith, e)
        | inl (s, e) ↦ elim (Result-cases (tools.connect s)) [
          | inl (done, f) ↦ ground (arith, e, f, session-IsClosed s)
          | inr (x, f) ↦ ground (arith, e, f)
        ]
      ]

  -- However a schema dump ends, with a text or an error at any point, a ClickHouse client that it
  -- opened is closed, once and after its last query.
  pub dump_database_schema-IsClosed :
      (database_url backend : String)
      → IsClosed (dump_database_schema urls tools database_url backend).1
  unfolding dump_database_schema
  dump_database_schema-IsClosed database_url backend =
      ground (arith, dump_clickhouse-IsClosed database_url)
