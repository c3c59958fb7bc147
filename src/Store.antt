-- ===== src/Store.antt =====
-- `LocalConfigStore` (shared/src/local_config_store.rs): the configuration that every handler
-- shares. Each entity kind is a `Registry`; a clock reading `now` is an argument of the operations
-- that read the system time; `version` is a u64 and wraps.
pub mod Snapshots
pub mod References
pub mod Indices
pub mod Load
pub mod Proofs
mod Tests
use jobworkerp_conductor.Prelude.{
  ℕ, String, Bool, true, false, Option, none, some, List, [], ◌∷◌, Result, ok, err, ◌>>=◌, ◌+◌, ◌%◌,
  ◌^◌, if◌then◌else◌, length, ℕ-HasEq, String-HasEq,
}
use jobworkerp_conductor.HashMap.{HashMap, get}
use jobworkerp_conductor.Proto.{
  Entity, CronSchedulerData, WorkerResultHandlerData, JobworkerpServerData, SlackEventHandlerData,
  CronScheduler, WorkerResultHandler, JobworkerpServer, SlackEventHandler, CronSchedulerId,
  WorkerResultHandlerId, JobworkerpServerId, SlackEventHandlerId,
}
use jobworkerp_conductor.Registry
use jobworkerp_conductor.Registry.{Registry, RegistryError}

pub data StoreError : Type 0 where
  missing_id_or_data : RegistryError → StoreError
  snapshot_not_found : ℕ → StoreError
  missing_server_id : String → StoreError
  unknown_server : String → JobworkerpServerId → StoreError

pub record ConfigSnapshot : Type 0 where
  pub version : ℕ
  pub timestamp : ℕ
  pub cron_schedulers : HashMap CronSchedulerId CronScheduler
  pub worker_result_handlers : HashMap WorkerResultHandlerId WorkerResultHandler
  pub jobworkerp_servers : HashMap JobworkerpServerId JobworkerpServer
  pub slack_event_handlers : HashMap SlackEventHandlerId SlackEventHandler
  pub description : String

-- Each registry is a map of the source with its `*_name_index`.
pub record LocalConfigStore : Type 0 where
  pub cron_schedulers : Registry CronSchedulerData
  pub worker_result_handlers : Registry WorkerResultHandlerData
  pub jobworkerp_servers : Registry JobworkerpServerData
  pub slack_event_handlers : Registry SlackEventHandlerData
  pub last_sync : ℕ
  pub version : ℕ
  pub snapshots : List ConfigSnapshot

abbrev pub cron_name : CronSchedulerData → String
cron_name d = d.name

abbrev pub handler_name : WorkerResultHandlerData → String
handler_name d = d.name

abbrev pub server_name : JobworkerpServerData → String
server_name d = d.name

abbrev pub slack_name : SlackEventHandlerData → String
slack_name d = d.name

abbrev pub StoreResult : Type 0
StoreResult = Result StoreError LocalConfigStore

-- The error of a registry is the error of the whole operation.
abbrev pub lift {ℓ} : {A : Type ℓ} → Result RegistryError A → Result StoreError A
lift (ok a) = ok a
lift (err e) = err (missing_id_or_data e)

unfoldable pub new : ℕ → LocalConfigStore
new now = record {
  cron_schedulers = Registry.new;
  worker_result_handlers = Registry.new;
  jobworkerp_servers = Registry.new;
  slack_event_handlers = Registry.new;
  last_sync = now;
  version = 1;
  snapshots = [];
}

unfoldable pub update_sync_time : ℕ → LocalConfigStore → LocalConfigStore
update_sync_time now s = record s { last_sync = now; version = (s.version + 1) % 2 ^ 64 }

-- `if removed.is_some() { self.update_sync_time() }`
unfoldable pub sync_if_removed {ℓ} :
    {A : Type ℓ} → ℕ → Option A → LocalConfigStore → LocalConfigStore
unfolding update_sync_time
sync_if_removed now none s = s
sync_if_removed now (some a) s = update_sync_time now s

unfoldable pub upsert_cron_scheduler : ℕ → CronScheduler → LocalConfigStore → StoreResult
unfolding update_sync_time
upsert_cron_scheduler now scheduler s = do
  r ← lift (Registry.upsert cron_name scheduler s.cron_schedulers)
  ok (update_sync_time now (record s { cron_schedulers = r }))

unfoldable pub remove_cron_scheduler :
    ℕ → CronSchedulerId → LocalConfigStore → Option CronScheduler × LocalConfigStore
unfolding sync_if_removed
remove_cron_scheduler now id s =
    let (removed, r) = Registry.remove_entity cron_name id s.cron_schedulers in
    (removed, sync_if_removed now removed (record s { cron_schedulers = r }))

unfoldable pub get_cron_scheduler : CronSchedulerId → LocalConfigStore → Option CronScheduler
get_cron_scheduler id s = get id s.cron_schedulers.entities

unfoldable pub find_cron_scheduler_by_name : String → LocalConfigStore → Option CronScheduler
find_cron_scheduler_by_name name s = Registry.find_by_name name s.cron_schedulers

unfoldable pub upsert_worker_result_handler :
    ℕ → WorkerResultHandler → LocalConfigStore → StoreResult
unfolding update_sync_time
upsert_worker_result_handler now handler s = do
  r ← lift (Registry.upsert handler_name handler s.worker_result_handlers)
  ok (update_sync_time now (record s { worker_result_handlers = r }))

unfoldable pub remove_worker_result_handler :
    ℕ → WorkerResultHandlerId → LocalConfigStore → Option WorkerResultHandler × LocalConfigStore
unfolding sync_if_removed
remove_worker_result_handler now id s =
    let (removed, r) = Registry.remove_entity handler_name id s.worker_result_handlers in
    (removed, sync_if_removed now removed (record s { worker_result_handlers = r }))

unfoldable pub get_worker_result_handler :
    WorkerResultHandlerId → LocalConfigStore → Option WorkerResultHandler
get_worker_result_handler id s = get id s.worker_result_handlers.entities

unfoldable pub find_worker_result_handler_by_name :
    String → LocalConfigStore → Option WorkerResultHandler
find_worker_result_handler_by_name name s = Registry.find_by_name name s.worker_result_handlers

unfoldable pub upsert_jobworkerp_server : ℕ → JobworkerpServer → LocalConfigStore → StoreResult
unfolding update_sync_time
upsert_jobworkerp_server now server s = do
  r ← lift (Registry.upsert server_name server s.jobworkerp_servers)
  ok (update_sync_time now (record s { jobworkerp_servers = r }))

unfoldable pub remove_jobworkerp_server :
    ℕ → JobworkerpServerId → LocalConfigStore → Option JobworkerpServer × LocalConfigStore
unfolding sync_if_removed
remove_jobworkerp_server now id s =
    let (removed, r) = Registry.remove_entity server_name id s.jobworkerp_servers in
    (removed, sync_if_removed now removed (record s { jobworkerp_servers = r }))

unfoldable pub get_jobworkerp_server :
    JobworkerpServerId → LocalConfigStore → Option JobworkerpServer
get_jobworkerp_server id s = get id s.jobworkerp_servers.entities

unfoldable pub find_jobworkerp_server_by_name : String → LocalConfigStore → Option JobworkerpServer
find_jobworkerp_server_by_name name s = Registry.find_by_name name s.jobworkerp_servers

unfoldable pub upsert_slack_event_handler : ℕ → SlackEventHandler → LocalConfigStore → StoreResult
unfolding update_sync_time
upsert_slack_event_handler now handler s = do
  r ← lift (Registry.upsert slack_name handler s.slack_event_handlers)
  ok (update_sync_time now (record s { slack_event_handlers = r }))

unfoldable pub remove_slack_event_handler :
    ℕ → SlackEventHandlerId → LocalConfigStore → Option SlackEventHandler × LocalConfigStore
unfolding sync_if_removed
remove_slack_event_handler now id s =
    let (removed, r) = Registry.remove_entity slack_name id s.slack_event_handlers in
    (removed, sync_if_removed now removed (record s { slack_event_handlers = r }))

unfoldable pub get_slack_event_handler :
    SlackEventHandlerId → LocalConfigStore → Option SlackEventHandler
get_slack_event_handler id s = get id s.slack_event_handlers.entities

unfoldable pub find_slack_event_handler_by_name :
    String → LocalConfigStore → Option SlackEventHandler
find_slack_event_handler_by_name name s = Registry.find_by_name name s.slack_event_handlers

-- `h.data.as_ref().map(|d| d.enabled).unwrap_or(false)`
abbrev pub slack_enabled : Option SlackEventHandlerData → Bool
slack_enabled none = false
slack_enabled (some d) = d.enabled

unfoldable pub keep_enabled : List SlackEventHandler → List SlackEventHandler
keep_enabled [] = []
keep_enabled (h ∷ hs) =
    let rest = keep_enabled hs in if slack_enabled h.payload then h ∷ rest else rest

unfoldable pub get_enabled_slack_event_handlers : LocalConfigStore → List SlackEventHandler
unfolding keep_enabled
get_enabled_slack_event_handlers s = keep_enabled (Registry.get_all s.slack_event_handlers.entities)
