-- ===== src/Lib.antt =====
-- jobworkerp-conductor: what its configuration store, its managers of running jobs, its Slack
-- matching and its execution ledger do, as definitions that run, and theorems about them.
--
-- The program keeps a configuration of cron schedulers, result handlers, jobworkerp servers and
-- Slack event handlers. Admin calls publish change events; the conductor applies each event to the
-- shared store and then tells the manager concerned. Cron jobs, results and Slack events run a
-- workflow or a worker on a jobworkerp server, and each run leaves a row in the table
-- execution_ref, from which its status is resolved later.
--
-- Files and what they model:
-- - Prelude, HashMap: Boolean tests, results, lists, and `std::collections::HashMap` as an
--   association list; its order stands for the unspecified order of iteration.
-- - Proto: the messages of proto/protobuf/jobworkerp_conductor/data, with the fields that the
--   program reads. An i64 id is a natural number.
-- - Registry, Store: shared/src/local_config_store.rs and its loading in
--   jobworkerp-conductor/src/dynamic/local_config.rs. A `Registry` is one id map with its name
--   index; `LocalConfigStore` has four, a version, and its snapshots (Store/Snapshots). The checks of
--   the references are in Store/References, those of the indices in Store/Indices; the proofs in
--   Store/Proofs.
-- - Events: shared/src/config_events_proto.rs: the constructors of change events, and in
--   Events/Accessors what a receiver reads.
-- - Conductor/Scheduler and Conductor/Listener: jobworkerp-conductor/src/dynamic/
--   scheduler_manager.rs and listener_manager.rs. A method returns its result beside the state that
--   it leaves, so what happened before an error stays.
-- - Conductor/Changes: the handling of change events in
--   jobworkerp-conductor/src/initialization/layer.rs, over the store and the managers together.
--   What the `JobScheduler` of the crate holds is a view of its jobs, `holds` or `held`, and a theorem
--   about its jobs says what it asks of additions and removals.
--   Conductor/Server: start, stop and restart of the server with its reception of events, of the
--   same file, as a step relation.
-- - Slack: slack-event-handler/src/config_cache.rs, event_matcher.rs, manager.rs (Slack/Manager), and
--   the retries of handler_executor.rs.
-- - Admin/Rows: the rows of the four tables and their reading (cron_scheduler, worker_result_handler,
--   jobworkerp_server and slack_event_handler under api/infra/src/infra, rows.rs and rdb.rs).
--   Admin/Table: the statements of those rdb.rs, written once over a `Kind`. Admin/Service: the services
--   of api/app/src/app over them, once over a `ServiceKind`; Admin/Service/Conducted and Mirror join
--   them with the conductor. Admin/Slack: the service of the Slack handlers, which validates more
--   (api/app/src/app/slack_event_handler.rs).
-- - Admin/Transfer: import, validation, clearing and export of a configuration file
--   (api/infra/src/infra/config_management/rdb.rs).
-- - Execution/Target: what is run (shared/src/validation.rs, shared/src/triggered_execution.rs,
--   slack-event-handler/src/handler_executor.rs). Execution/Ledger: the statements of
--   api/infra/src/infra/execution_ref/rdb.rs that write the table. Execution/Status: the status, the
--   cancellation and the deletion of api/app/src/app/execution_status.rs. Execution/Recorder: the
--   recording of a run as it goes, of shared/src/execution_ref_recorder.rs and
--   shared/src/triggered_execution.rs. Execution/Trigger: the manual trigger of
--   api/app/src/app/source_resolver.rs and execution_status.rs, with the second execution.
--
-- External code is an argument: `CronRuntime` is the crate tokio_cron_scheduler with the hasher, the
-- time zones and the environment; `Patterns` is the crate regex, `Syntax` regex and the character
-- classes, `Urls` the crate url; `MemoryCache` is the cache of the services; `Remote` is jobworkerp
-- with the repository of its servers; `connects` says whether a client can be made. Readings of the
-- clock are arguments named `now`, `seen_at` or `created_at`. A theorem holds for every such argument
-- unless it names what it asks of it.
--
-- Locks are taken for granted: an operation that holds one runs whole, and the handling of a change
-- event runs whole. The writers of the ledger are single statements in any order. The version of the
-- store is a u64 and wraps. The loop that deletes in chunks has one unit of fuel for each id, and a
-- chunk takes at least one id. An execution of a Slack handler is attempted at most three times.
--
-- The tables are association lists by their primary key with a unique name, as the schema says, and
-- ids, limits and offsets are not negative. A transaction is the database passed along. A statement
-- that fails for another reason is not written out, except where an argument says which fail.
--
-- Not modelled: gRPC services, schema migrations, notifications over channels and Redis, process
-- start, the socket of Slack, logging, statistics; the parsing and printing of TOML; the calls that
-- enqueue a job and the arguments of a run; the registration of workers; the loop that listens for
-- results.
pub mod Prelude
pub mod HashMap
pub mod Proto
pub mod Registry
pub mod Store
pub mod Events
pub mod Execution
pub mod Slack
pub mod Conductor
pub mod Admin
