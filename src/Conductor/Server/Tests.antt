-- ===== src/Conductor/Server/Tests.antt =====
-- A server with one cron scheduler and one result handler, started, stopped and started again.
use jobworkerp_conductor.Prelude.{
  ℕ, String, Bool, not, List, ◌++◌, length, err, ◌==◌, Bool-cases, inl, inr, ◌≡◌, refl, true, false,
  ◌||◌, some, none, [], ◌∷◌, ok, is_ok, ◌+◌, ℕ-HasEq, String-HasEq, if◌then◌else◌,
}
use jobworkerp_conductor.HashMap.{get, insert}
use jobworkerp_conductor.Proto.{CronScheduler, WorkerResultHandler}
use jobworkerp_conductor.Registry
use jobworkerp_conductor.Registry.Consistency.{IsConsistent, new-IsConsistent}
use jobworkerp_conductor.Registry.Operations.{store_entity-IsConsistent}
use jobworkerp_conductor.Events.{create_cron_scheduler_updated}
use jobworkerp_conductor.Store.{LocalConfigStore, handler_name, get_cron_scheduler}
use jobworkerp_conductor.Conductor.Scheduler.{
  CronRuntime, CronJob, SchedulerManager, new_manager, cron_job,
}
use jobworkerp_conductor.Conductor.Listener.{create_listener_setting_from_local}
use jobworkerp_conductor.Conductor.Listener.Lifecycle.{expected}
use jobworkerp_conductor.Conductor.Tests.{counting, exact, connects, display, hourly, store, notify}
use jobworkerp_conductor.Conductor.Server.{
  Server, Surroundings, Action, starting, stopping, publishing, new_server, start, stop, run,
  start_initial_listeners,
}
use jobworkerp_conductor.Conductor.Server.Current.{HandlesAreCurrent, run-IsCurrent}
use jobworkerp_conductor.Conductor.Server.Keeping.{ServerKeeps}
use jobworkerp_conductor.Conductor.Changes.Tests.{keeping, held_job, keeping-KeepsOthers}
use jobworkerp_conductor.Conductor.Server.Restart.{jobs_of, store_jobs, restart-adds_again}
use jobworkerp_conductor.Conductor.Server.Running.{start-is_running}
use jobworkerp_conductor.Conductor.Server.Listening.{start_initial_listeners-listens}

abbrev scheduler : CronScheduler
scheduler = record { id = some 3; payload = some hourly }

abbrev handler : WorkerResultHandler
handler = record { id = some 4; payload = some notify }

abbrev configured : LocalConfigStore
configured = record store {
  cron_schedulers = record { entities = (3, scheduler) ∷ []; name_index = ("hourly", 3) ∷ [] };
  worker_result_handlers = record { entities = (4, handler) ∷ []; name_index = ("notify", 4) ∷ [] };
}

abbrev around : Surroundings counting exact connects
around = record {
  now = 50;
  app_token = none;
  opens = λ token. true;
  start_jobs = λ jobs. ok tt;
  subscribes = true;
}

abbrev fresh : Server counting exact connects
fresh = new_server counting exact connects configured none

abbrev started : Server counting exact connects
started = (start counting exact connects around fresh).1

abbrev keeping_around : Surroundings keeping exact connects
keeping_around = record {
  now = 50;
  app_token = none;
  opens = λ token. true;
  start_jobs = λ jobs. ok tt;
  subscribes = true;
}

abbrev disabled_then_restarted : List (Action keeping exact connects)
disabled_then_restarted =
    starting keeping_around
    ∷ publishing 51 (
        create_cron_scheduler_updated 51 "hourly" (some 3)
          (some (record hourly { enabled = false })) none)
    ∷ stopping 52
    ∷ starting keeping_around
    ∷ []

run-IsCurrent_example : ServerKeeps keeping exact connects (HandlesAreCurrent keeping held_job) (
    run keeping exact connects display disabled_then_restarted
      (new_server keeping exact connects configured none))
run-IsCurrent_example =
    run-IsCurrent keeping held_job exact connects display keeping-KeepsOthers configured none
      disabled_then_restarted

-- A job scheduler that lists its jobs and refuses an empty cron expression.
abbrev listing : CronRuntime
listing = record {
  Tz = String;
  utc = "UTC";
  parse_tz = λ name. some name;
  trimmed_env = λ key. none;
  Uuid = ℕ;
  Failure = Unit;
  Jobs = List (CronJob String);
  no_jobs = [];
  add = λ job jobs. if job.crontab == "" then (err tt, jobs) else (ok (length jobs), job ∷ jobs);
  remove_job = λ uuid jobs. (ok tt, jobs);
  finish_hash = λ config. "";
}

abbrev has_crontab : CronJob String → Bool
has_crontab job = not (job.crontab == "")

abbrev all_jobs : List (CronJob String) → List (CronJob String)
all_jobs jobs = jobs

listing-adds :
    (job : CronJob String) (jobs : List (CronJob String))
    → (listing.add job jobs).1 ≡ (if has_crontab job then job ∷ jobs else jobs)
listing-adds job jobs = elim (Bool-cases (job.crontab == "")) [
  | inl blank ↦ rw blank refl
  | inr valid ↦ rw valid refl
]

abbrev hourly_job : CronJob String
hourly_job = record {
  crontab = hourly.crontab;
  timezone = "UTC";
  scheduler_id = 3;
  job_name = "hourly";
  execution_target = none;
  workflow_url_fallback = hourly.workflow_url;
  channel_fallback = none;
  jobworkerp_endpoint = "http://localhost:9000";
  jobworkerp_server_id = 7;
  args = none;
}

abbrev one_job : SchedulerManager listing
one_job = record (new_manager listing) { scheduler = hourly_job ∷ [] }

abbrev listing_around : Surroundings listing exact connects
listing_around = record {
  now = 50;
  app_token = none;
  opens = λ token. true;
  start_jobs = λ jobs. ok tt;
  subscribes = true;
}

abbrev running : Server listing exact connects
running =
    let s = new_server listing exact connects configured none in
    record s {
      conductor = record s.conductor { store = configured; scheduler_manager = some one_job };
      is_running = true;
    }

-- The job of the scheduler is held twice after the restart.
held_twice :
    store_jobs listing exact connects all_jobs has_crontab listing-adds configured
      ++ (hourly_job ∷ [])
    ≡ hourly_job ∷ hourly_job ∷ []
unfolding Registry.get_all cron_job get_cron_scheduler get
held_twice = refl

restart-adds_again_example :
    jobs_of listing exact connects all_jobs has_crontab listing-adds
      (start listing exact connects listing_around
        (stop listing exact connects 53 running)).1.conductor.scheduler_manager
    ≡ some (
        store_jobs listing exact connects all_jobs has_crontab listing-adds configured
        ++ (hourly_job ∷ []))
restart-adds_again_example =
    restart-adds_again listing exact connects all_jobs has_crontab listing-adds 53 listing_around
      running one_job refl refl

start-is_running_example :
    ((start counting exact connects around fresh).1.is_running
      ≡ (fresh.is_running || is_ok (start counting exact connects around fresh).0))
    × ((start counting exact connects around fresh).1.receivers
        ≡ fresh.receivers + (if is_ok (start counting exact connects around fresh).0 then 1 else 0))
start-is_running_example = start-is_running counting exact connects around fresh

configured-IsConsistent : IsConsistent handler_name configured.worker_result_handlers
unfolding Registry.store_entity Registry.new get insert
configured-IsConsistent =
    store_entity-IsConsistent handler_name Registry.new 4 (new-IsConsistent handler_name) notify
      handler refl refl (λ j h. cc h)

start_initial_listeners-listens_example :
    get "notify" (start_initial_listeners counting exact connects configured [])
    ≡ expected true (create_listener_setting_from_local connects configured 4 notify)
start_initial_listeners-listens_example =
    start_initial_listeners-listens counting exact connects configured configured-IsConsistent 4
      handler notify (unfold get in refl) refl [] refl
