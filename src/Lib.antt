-- ===== src/Lib.antt =====
-- A verification library of dbwarden-harness, the test harness of the migration tool dbwarden.
--
-- The program: an MCP server gives a client isolated workspaces. Each has two databases, which a pool
-- of warm containers hands out, and a directory. The client writes model sources; a test runs
-- dbwarden's public commands on one database (Track A), builds the same models with SQLAlchemy on the
-- other (Track B), dumps both schemas and compares them. A divergence freezes the workspace and leaves
-- a bundle of evidence, with a class that tells how ordinary dbwarden's own plan was. The suites use
-- the drift checker for the same question on inspected schemas, and drive their
-- projects by the case runner and the migration player.
--
-- The files:
-- - Base and its children: Python's tests, dicts, texts, exceptions and JSON values.
-- - World: Docker, time and the databases in containers. Each external call asks an environment
--   whether it succeeds, so that a theorem covers every pattern of failures.
-- - Disk: the files of a project, the log of what happened, and the programs that run.
-- - Providers (infrastructure/providers): Docker for docker.py and the container backends, Sqlite for
--   sqlite.py, `provider_for` for factory.py.
-- - Network and Config: mcp_server/network.py and config.py.
-- - Pool (mcp_server/pool.py): `ContainerPool` with the world; `claim`, `release`, `top_up` and `stop`
--   are the methods, and `take`, `obtain`, `fresh` and `hand_out` the parts of `claim`.
-- - Workspace (mcp_server/workspace.py): the manager with the pool; `initialize`, `destroy`, `get`,
--   `list_workspaces` and `resolve_path`.
-- - Cli (harness/cli.py), Tracks (mcp_server/track_a.py), Reference (track_b.py), Comparator
--   (comparator.py), Classifier (classifier.py), Bundle (bundle.py), Inspector (inspector.py).
-- - Server (mcp_server/server.py): the tools, on the manager and the disk. Server.Tools makes a tool
--   call a step, and the invariants range over lists of steps; Server.Answers has the dicts that the
--   tools answer, Server.Lifecycle the clean-up at the end.
-- - CaseRunner (tools/case_runner.py) and MigrationPlayer (tools/migration_player.py): the drivers of
--   small projects, with their verdicts and assertions.
--   CaseRunner.Matrix has the matrix of cases, CaseRunner.Report its report.
-- - SqlProbe (tools/sql_probe.py): questions to an engine, which is a parameter;
--   GenerationProbe (tools/generation_probe.py): the exceptions read from what a probe prints;
--   Artifacts (tools/artifacts.py): what is kept of a command that failed;
--   CheckDocs (tools/check_docs.py): the inventory of the API and the check of the documentation;
--   Reports (tools/report_generator.py): the counts of a JUnit report.
-- - RoundTrip (tools/round_trip_driver.py): models to a database and back, with the report; Snapshots
--   (tools/snapshot_manager.py): approved SQL files and their manifest; ModelSource
--   (tools/model_source.py): the builders of model modules, line by line.
-- - SchemaRunner (tools/schema_runner.py, schemas/base.py): a reference schema in a project of its own;
--   Benchmark (tools/convergence_benchmark.py, tools/performance_baseline.py): a long history, its times
--   in whole milliseconds, and their limits.
-- - DriftChecker (tools/drift_checker.py): `diff` and `assert_equal` on snapshots; its Capture makes the
--   snapshots of what an inspector or ClickHouse's system tables answer.
-- - Dumper (mcp_server/dumper.py): the dump of each backend with the calls of a ClickHouse client. The
--   tracks take their dump from the programs of Disk, and `track_dump` is one.
-- - Mutations (mcp_server/mutations.py): `apply_mutation` on the part of a syntax tree that it looks at.
-- - Cluster (infrastructure/providers/clickhouse_cluster.py): a Keeper and two nodes. A method is a
--   function of the provider and the world, and `then_do` chains two until one raises.
-- - Packages (harness/distribution.py, plugins.py, matrix.py, provenance.py): checks of the installed
--   packages, the plugin commands and the version matrix.
-- - OfflineIntegrity (tools/offline_integrity.py): the digests of exported model states.
-- - Samples and the Tests modules: concrete data, and each theorem at a concrete input.
--
-- State is passed explicitly, in the order of the source's statements; an exception is a value of
-- `Result`. Threads are sequences of calls: a claim, a
-- release or a refill round is one step, although the pool's lock covers only the parts of a round. A
-- command is found and ends in time; only the matrix of CaseRunner has an exception of a call.
--
-- Bounds and fuel: the readiness loops have fuel for 120 attempts where a failed attempt sleeps half a
-- second, and for 300 where it sleeps a fifth. Their deadline is 60 seconds away, so the fuel is never
-- what ends them. The digits of a number of the benchmark have fuel for more than the number. All other
-- loops run over lists and counts.
--
-- Parameters: dbwarden and other programs, SQLAlchemy, sqlglot, difflib, pathlib, Python's `ast`, `json`,
-- `hashlib`, `urllib` and `repr`, and the drivers. Not modelled: file permissions, log messages, the
-- text that `json` makes of an answer, and the tools of the suites that are not named above.
pub mod Base
pub mod World
pub mod Providers
pub mod Network
pub mod Config
pub mod Packages
pub mod Artifacts
pub mod CheckDocs
pub mod Reports
pub mod Pool
pub mod Disk
pub mod Cli
pub mod Workspace
pub mod Cluster
pub mod ModelSource
pub mod RoundTrip
pub mod Mutations
pub mod Snapshots
pub mod SqlProbe
pub mod SchemaRunner
pub mod Benchmark
pub mod Tracks
pub mod OfflineIntegrity
pub mod MigrationPlayer
pub mod GenerationProbe
pub mod CaseRunner
mod Samples
pub mod DriftChecker
pub mod Dumper
pub mod Server
pub mod Inspector
pub mod Bundle
pub mod Reference
pub mod Comparator
pub mod Classifier
