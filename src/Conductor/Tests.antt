-- ===== src/Conductor/Tests.antt =====
-- A conductor with one server, through a few changes: the theorems at it.
use Prim.Native.Char.{code}
use Prim.Native.String.{◌++◌ as append}
use jobworkerp_conductor.Prelude.{
  ℕ, String, ◌≡◌, refl, Bool, true, false, some, none, [], ◌∷◌, ok, ◌==◌, ◌+◌, nat_eq, ℕ-HasEq,
  String-HasEq,
}
use jobworkerp_conductor.HashMap.{get}
use jobworkerp_conductor.Proto.{
  CronSchedulerData, WorkerResultHandlerData, JobworkerpServer, JobworkerpServerData,
}
use jobworkerp_conductor.Store.{LocalConfigStore, get_jobworkerp_server}
use jobworkerp_conductor.Events.{create_worker_result_handler_deleted}
use jobworkerp_conductor.Slack.Cache.{Patterns}
use jobworkerp_conductor.Conductor.Scheduler.{CronRuntime, SchedulerManager, new_manager}
use jobworkerp_conductor.Conductor.Listener.{create_listener_setting_from_local}
use jobworkerp_conductor.Conductor.Listener.Lifecycle.{expected}
use jobworkerp_conductor.Conductor.Changes.{Conductor, handle_config_change_event}
use jobworkerp_conductor.Conductor.Changes.Starting.{Runs, handled, update_event, update-starts}
use jobworkerp_conductor.Conductor.Changes.Listening.{
  after_update, update-listens, delete-keeps_listeners,
}

-- A job scheduler that numbers its jobs and refuses nothing.
abbrev pub counting : CronRuntime
counting = record {
  Tz = String;
  utc = "UTC";
  parse_tz = λ name. some name;
  trimmed_env = λ key. none;
  Uuid = ℕ;
  Failure = Unit;
  Jobs = ℕ;
  no_jobs = 0;
  add = λ job jobs. (ok jobs, jobs + 1);
  remove_job = λ uuid jobs. (ok tt, jobs);
  finish_hash = λ config. elim config [ none ↦ "" | some c ↦ append c.name c.crontab ];
}

abbrev pub exact : Patterns
exact = record {
  Regex = String;
  compile = λ pattern. some pattern;
  is_match = λ pattern text. pattern == text;
  is_whitespace = λ c. nat_eq (code c) 32;
}

abbrev pub connects : String → Bool
connects address = true

abbrev pub display : ℕ → String
display n = "#"

abbrev pub server_data : JobworkerpServerData
server_data = record {
  name = "local";
  host = "localhost";
  port = "9000";
  ssl_enabled = false;
  description = none;
  enabled = true;
  created_at = 1;
  updated_at = 1;
}

abbrev pub server : JobworkerpServer
server = record { id = some 7; payload = some server_data }

abbrev pub hourly : CronSchedulerData
hourly = record {
  name = "hourly";
  jobworkerp_server_id = some 7;
  workflow_url = "file://wf.yaml";
  channel = none;
  crontab = "0 0 * * * *";
  enabled = true;
  description = none;
  created_at = 1;
  updated_at = 1;
  args = none;
  execution_target = none;
}

abbrev pub store : LocalConfigStore
store = record {
  cron_schedulers = record { entities = []; name_index = [] };
  worker_result_handlers = record { entities = []; name_index = [] };
  jobworkerp_servers = record { entities = (7, server) ∷ []; name_index = ("local", 7) ∷ [] };
  slack_event_handlers = record { entities = []; name_index = [] };
  last_sync = 1;
  version = 2;
  snapshots = [];
}

abbrev pub conductor : Conductor counting exact connects
conductor = record {
  store = store;
  scheduler_manager = some (new_manager counting);
  listeners = [];
  slack_handler_manager = none;
}

update-starts_example :
    (m' : SchedulerManager counting) × ((handled counting exact connects display 20 10 "hourly" 3
        conductor
        (new_manager counting)
        refl
        (update_event counting exact connects display 20 10 "hourly" 3 conductor
          (new_manager counting)
          refl
          hourly
          none)).scheduler_manager
      ≡ some m')
    × Runs counting 3 (record { id = some 3; payload = some hourly }) "hourly" m'
unfolding get_jobworkerp_server get
update-starts_example =
    update-starts counting exact connects display 20 10 "hourly" 3 conductor (new_manager counting)
      refl hourly none 7 server server_data refl refl refl refl (λ handle found. refl)
      (λ job jobs same. (jobs, refl))

abbrev pub notify : WorkerResultHandlerData
notify = record {
  name = "notify";
  listen_worker_name = "builder";
  listen_jobworkerp_server_id = some 7;
  process_jobworkerp_server_id = some 7;
  workflow_url = "file://notify.yaml";
  channel = none;
  enabled = true;
  description = none;
  created_at = 1;
  updated_at = 1;
  args = none;
  execution_target = none;
}

update-listens_example :
    (get "notify"
        (after_update counting exact connects display 20 10 "notify" 4 [] conductor
          notify).listeners
      ≡ expected true (
          create_listener_setting_from_local connects
            (after_update counting exact connects display 20 10 "notify" 4 [] conductor
              notify).store
            4
            notify))
    × (get "other"
          (after_update counting exact connects display 20 10 "notify" 4 [] conductor
            notify).listeners
        ≡ get "other" conductor.listeners)
update-listens_example =
    update-listens counting exact connects display 20 10 "notify" 4 [] conductor notify "other"
      (λ e. let same : false ≡ true = (String-HasEq.test_iff "other" "notify").1 e in cc same)

delete-keeps_listeners_example :
    (handle_config_change_event counting exact connects display 30
      (create_worker_result_handler_deleted 11 "notify" (some 4) (some notify) [])
      (after_update counting exact connects display 20 10 "notify" 4 [] conductor
        notify)).1.listeners
    ≡ (after_update counting exact connects display 20 10 "notify" 4 [] conductor notify).listeners
delete-keeps_listeners_example =
    delete-keeps_listeners counting exact connects display 30 11 "notify" 4 []
      (after_update counting exact connects display 20 10 "notify" 4 [] conductor notify)
      (some notify)
