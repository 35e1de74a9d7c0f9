-- ===== src/Lib.antt =====
-- Verification of the AMOS platform: the token economy of amos-core, the task queue, the schema
-- engine, the automations and the revisions of amos-harness, the permission policy and tool hooks,
-- and the swarms and Darwinian experiments of amos-autoresearch.
--
-- How the parts interact. The harness serves requests by operations on tables of PostgreSQL. Tasks
-- and bounties live in the task queue: agents create, claim and finish them and exchange messages
-- about them. Records of the collections that users define live in the schema engine, which sends an
-- event for each change through a bounded channel. Automations react to these events, among others
-- by calling webhooks, whose failures a worker retries from a queue. Revisions keep the history of
-- every entity as snapshots, and templates that entities subscribe to. The token economy says what a
-- finished bounty earns, what a stake loses by decay, what a fee pays to holders, and what an agent
-- is trusted with. Swarms group agents, and a router sends a task to one of them; the experiments try
-- changed prompts on agents and keep those that do no harm. The permission policy and the hooks say
-- which tools an agent may call. All parts answer errors of one type.
--
-- Files, and the code that they model:
--   Prelude: shared names. Values is `serde_json::Value` with its `==`, which Equality decides;
--     Entries is its objects, with `||` and `@>` of PostgreSQL; Lists has what holds of all or of any
--     of a list; U64 has the checked, saturating and
--     panicking operations on `u64`; Int is `i128` and `i64`; Floats is `f64` as an interface;
--     Sort and Queries are the stages of an SQL query; Sums counts rows; Text is formatted text.
--   Error: amos-core/src/error.rs, `AmosError` with `display`, `client_message`, `status_code`, and
--     `Result`.
--   Database: what the operations of the services run in, an `Action` on a `Session`: the tables,
--     the clock, the supply of ids, and for each statement to come whether the database refuses it.
--   Token.Economics, Decay, Emission, Points, Revenue, Trust: the files of the same names in
--     amos-core/src/token. `calculate_dynamic_decay_rate`, `apply_daily_decay`,
--     `calculate_bounty_award`, `calculate_daily_rewards`, `split_protocol_fee`,
--     `calculate_holder_claim`, `record_completion` and `try_upgrade` have the names of the code; a
--     method that changes its object answers the changed record.
--   Permissions: amos-core/src/permissions.rs.
--   Hooks: amos-core/src/hooks.rs, under its names; `run_each` is the loop of `run_hooks`, Globs is
--     about `matches_tool`.
--   TaskQueue: amos-harness/src/task_queue/mod.rs. Types and Rows are its types and table rows;
--     Queue and Messages are its operations, under their names; `from_str` and `as_str` of a type
--     are `parse_status` and `status_str`, and so on.
--   Schema: amos-harness/src/schema.rs. Types is its types and rows; Validation has
--     `validate_field` and what it calls; Collections, Records and Queries are the operations, under
--     their names, and `query_text` is the SQL text that `query_records` builds; Contained says what
--     `@>` means.
--   Automation: amos-harness/src/automations. Matching has `find_matching_automations` and
--     `evaluate_condition`; Webhook has `action_call_webhook`; Retry has `enqueue_retry`,
--     `get_automation`, `log_run` and `process_retry_queue`, whose loop body is `process_entry`;
--     Template has the text case of `substitute_template`.
--   Revisions: amos-harness/src/revisions.rs. Diff has `compute_diff`; Service is `RevisionService`
--     and Templates is `TemplateRegistryService`, each under its names.
--   Swarm: amos-packages/amos-autoresearch/src/swarm. Manager is `SwarmManager` of mod.rs; Router is
--     `SwarmRouter` of router.rs, with `route_task_inner` as `route_task`; Types is the swarms' part
--     of src/types.rs.
--   Darwin: amos-packages/amos-autoresearch/src/darwinian/evaluator.rs, under its names. The flag
--     `has_experiments` of its tables says whether the database has `darwinian_experiments`, which no
--     migration creates.
-- In each, the other files state and prove properties, and Tests has runs on concrete input.
--
-- Conventions. An id, a time or a version is a number, since the code compares them and no more. In
-- the task queue a time counts nanoseconds, since 2000, of which a TIMESTAMPTZ column keeps the
-- microseconds (`stored_time`); in the other parts the clock shows whole microseconds, so that a
-- column keeps what it shows. An SQL statement is the function on rows that its text says, in one
-- step; rows of equal order keep the order of the table, and an `UPDATE … RETURNING` answers in
-- that order. A value that is read back from a jsonb column is the one that was stored. The clock
-- stands still during an operation. A refused statement changes nothing; a broken foreign key or
-- unique constraint is a refusal. Concurrent claims are sequences, in the order in which the
-- database takes the statements. Other operations run one at a time: that two calls of `add_member`
-- can both count before either inserts is not modelled. An overflow of unchecked arithmetic is a
-- panic, since the workspace builds with overflow checks, and a panic is `none`.
--
-- Bounds. `u64` values are natural numbers, with the bound 2^64 - 1 in the checked operations.
-- `bps_safe` is the largest number whose product with 10000 fits. The channel of events holds as
-- many as its `room`. Loops are structural recursion on the lists that the code walks, save two
-- that are on fuel: the loop that substitutes bindings in a text, of which the text's opening
-- braces are a measure (Automation.Substitution), and the routing of a task through the children of
-- a swarm, of which a rank below the parent's is one (Swarm.Family; Swarm.Acyclic has such ranks).
--
-- Parameters: `f64` (the interfaces Float, Score and Chance, with nothing assumed of them), what is
-- drawn at random (Chance), the HTTP client with HMAC-SHA256 and the text of an id (Http), SHA-256
-- (Digest), the text of a JSON value (JsonText, and print in Template), the equality of jsonb
-- numbers (`same_number` of JsonText and Chance), the reading of a UUID (UuidReader), the order of
-- texts (Collation), the shell that runs a hook (Shell), the refusals of the database
-- (Session.faults). What serde reads in the stored fields of a collection is part of its row.
--
-- Not modelled: HTTP routes, tools, agent loop, canvas, documents, configuration and command line,
-- which are I/O or glue; of the automations the execution of the other actions, cron expressions
-- and the walk of a template through objects and arrays; fleet, fitness functions and integrations.
pub mod Prelude
pub mod Error
pub mod Token
pub mod Database
pub mod TaskQueue
pub mod Automation
pub mod Darwin
pub mod Permissions
pub mod Revisions
pub mod Schema
pub mod Swarm
pub mod Hooks
