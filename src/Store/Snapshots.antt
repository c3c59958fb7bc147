-- ===== src/Store/Snapshots.antt =====
-- Snapshots, rollback, export, import and diff of `LocalConfigStore`
-- (shared/src/local_config_store.rs).
use jobworkerp_conductor.Prelude.{
  ℕ, String, Option, none, some, List, [], ◌∷◌, ◌++◌, Result, ok, ◌>>=◌, ltb, if◌then◌else◌, length,
  ℕ-HasEq, String-HasEq, ok_or, ◌==◌,
}
use jobworkerp_conductor.HashMap.{HashMap, contains_key}
use jobworkerp_conductor.Proto.{
  CronScheduler, WorkerResultHandler, JobworkerpServer, SlackEventHandler, CronSchedulerId,
  WorkerResultHandlerId, JobworkerpServerId, SlackEventHandlerId,
}
use jobworkerp_conductor.Registry
use jobworkerp_conductor.Store.{
  LocalConfigStore, ConfigSnapshot, StoreError, StoreResult, snapshot_not_found, cron_name,
  handler_name, server_name, slack_name,
}

pub record ConfigExport : Type 0 where
  pub version : ℕ
  pub timestamp : ℕ
  pub cron_schedulers : HashMap CronSchedulerId CronScheduler
  pub worker_result_handlers : HashMap WorkerResultHandlerId WorkerResultHandler
  pub jobworkerp_servers : HashMap JobworkerpServerId JobworkerpServer
  pub slack_event_handlers : HashMap SlackEventHandlerId SlackEventHandler

unfoldable pub snapshot_of : ℕ → String → LocalConfigStore → ConfigSnapshot
snapshot_of now description s = record {
  version = s.version;
  timestamp = now;
  cron_schedulers = s.cron_schedulers.entities;
  worker_result_handlers = s.worker_result_handlers.entities;
  jobworkerp_servers = s.jobworkerp_servers.entities;
  slack_event_handlers = s.slack_event_handlers.entities;
  description = description;
}

-- `snapshots.remove(0)`
unfoldable pub remove_first : List ConfigSnapshot → List ConfigSnapshot
remove_first [] = []
remove_first (x ∷ xs) = xs

-- `push`, then keep only the last ten.
unfoldable pub push_snapshot : ConfigSnapshot → List ConfigSnapshot → List ConfigSnapshot
unfolding remove_first
push_snapshot snapshot snapshots =
    let pushed = snapshots ++ snapshot ∷ [] in
    if ltb 10 (length pushed) then remove_first pushed else pushed

unfoldable pub create_snapshot : ℕ → String → LocalConfigStore → LocalConfigStore
unfolding push_snapshot snapshot_of
create_snapshot now description s = record s {
  snapshots = push_snapshot (snapshot_of now description s) s.snapshots;
}

-- `snapshots.iter().find(|s| s.version == snapshot_version)`
unfoldable pub find_snapshot : ℕ → List ConfigSnapshot → Option ConfigSnapshot
find_snapshot version [] = none
find_snapshot version (x ∷ xs) = if x.version == version then some x else find_snapshot version xs

-- The four maps are replaced and their indices rebuilt.
unfoldable pub replace_entities :
    HashMap CronSchedulerId CronScheduler
    → HashMap WorkerResultHandlerId WorkerResultHandler
    → HashMap JobworkerpServerId JobworkerpServer
    → HashMap SlackEventHandlerId SlackEventHandler
    → LocalConfigStore
    → LocalConfigStore
replace_entities cron worker server slack s = record s {
  cron_schedulers = Registry.rebuild cron_name cron;
  worker_result_handlers = Registry.rebuild handler_name worker;
  jobworkerp_servers = Registry.rebuild server_name server;
  slack_event_handlers = Registry.rebuild slack_name slack;
}

unfoldable pub restore : ℕ → LocalConfigStore → ConfigSnapshot → LocalConfigStore
unfolding replace_entities
restore now s snapshot =
    record (replace_entities snapshot.cron_schedulers snapshot.worker_result_handlers
      snapshot.jobworkerp_servers snapshot.slack_event_handlers s) {
        version = snapshot.version;
        last_sync = now;
      }

unfoldable pub restore_from_snapshot : ℕ → ℕ → LocalConfigStore → StoreResult
unfolding find_snapshot restore
restore_from_snapshot now snapshot_version s = do
  snapshot ←
      ok_or (snapshot_not_found snapshot_version) (find_snapshot snapshot_version s.snapshots)
  ok (restore now s snapshot)

unfoldable pub export_config : LocalConfigStore → ConfigExport
export_config s = record {
  version = s.version;
  timestamp = s.last_sync;
  cron_schedulers = s.cron_schedulers.entities;
  worker_result_handlers = s.worker_result_handlers.entities;
  jobworkerp_servers = s.jobworkerp_servers.entities;
  slack_event_handlers = s.slack_event_handlers.entities;
}

unfoldable pub import_config : ℕ → ConfigExport → LocalConfigStore → LocalConfigStore
unfolding create_snapshot replace_entities
import_config now export s =
    record (replace_entities export.cron_schedulers export.worker_result_handlers
      export.jobworkerp_servers export.slack_event_handlers
      (create_snapshot now "Before import" s)) { version = export.version; last_sync = now }

-- `ConfigDiff`, with the entity kind beside the change: the source has one variant for each pair.
pub data EntityKind : Type 0 where
  cron_scheduler worker_result_handler jobworkerp_server slack_event_handler : EntityKind

pub data ConfigDiff : Type 0 where
  added updated removed : EntityKind → ℕ → ConfigDiff

-- The loop over the keys that the store has now.
unfoldable pub current_diffs :
    {V W : Type 0} → EntityKind → HashMap ℕ W → HashMap ℕ V → List ConfigDiff
current_diffs kind before [] = []
current_diffs kind before ((id, v) ∷ m) =
    (if contains_key before id then updated kind id else added kind id)
    ∷ current_diffs kind before m

-- The loop over the keys of the snapshot.
unfoldable pub removed_diffs :
    {V W : Type 0} → EntityKind → HashMap ℕ W → HashMap ℕ V → List ConfigDiff
removed_diffs kind now [] = []
removed_diffs kind now ((id, v) ∷ m) =
    let rest = removed_diffs kind now m in
    if contains_key now id then rest else removed kind id ∷ rest

unfoldable pub diffs : {V : Type 0} → EntityKind → HashMap ℕ V → HashMap ℕ V → List ConfigDiff
unfolding current_diffs removed_diffs
diffs kind now before = current_diffs kind before now ++ removed_diffs kind now before

unfoldable pub diff_with_snapshot : ℕ → LocalConfigStore → Result StoreError (List ConfigDiff)
unfolding find_snapshot diffs
diff_with_snapshot snapshot_version s = do
  snapshot ←
      ok_or (snapshot_not_found snapshot_version) (find_snapshot snapshot_version s.snapshots)
  ok (
      diffs cron_scheduler s.cron_schedulers.entities snapshot.cron_schedulers
      ++ (diffs worker_result_handler s.worker_result_handlers.entities
            snapshot.worker_result_handlers
          ++ (diffs jobworkerp_server s.jobworkerp_servers.entities snapshot.jobworkerp_servers
              ++ diffs slack_event_handler s.slack_event_handlers.entities
                  snapshot.slack_event_handlers)))
