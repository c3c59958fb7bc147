-- ===== src/Conductor/Scheduler.antt =====
-- `DynamicSchedulerManager` (jobworkerp-conductor/src/dynamic/scheduler_manager.rs). The crate
-- tokio_cron_scheduler, the hasher, the time zone database and the environment are the interface
-- `CronRuntime`; what a fired job does is in Execution.
pub mod Sync
pub mod Held
pub mod Live
use mathlib.Core.Option
use jobworkerp_conductor.Prelude.{
  ℕ, String, ◌≡◌, Bool, true, false, Option, none, some, List, [], ◌∷◌, Result, ok, err, ◌>>=◌,
  ok_or, if◌then◌else◌, ◌==◌, ℕ-HasEq, String-HasEq,
}
use jobworkerp_conductor.HashMap.{HashMap, get, insert, remove}
use jobworkerp_conductor.Proto.{
  CronScheduler, CronSchedulerData, CronSchedulerId, JobworkerpServerId, ExecutionTarget, workflow,
  worker,
}
use jobworkerp_conductor.Events.{Event, EntityId, ChangeAction, created, updated, deleted}
use jobworkerp_conductor.Events.Accessors.{typed_id, action}
use jobworkerp_conductor.Execution.Target.{server_endpoint, is_empty}
use jobworkerp_conductor.Store.{LocalConfigStore, get_cron_scheduler, get_jobworkerp_server}

-- What the closure of a cron job captures.
pub record CronJob (Tz : Type 0) : Type 0 where
  pub crontab : String
  pub timezone : Tz
  pub scheduler_id : CronSchedulerId
  pub job_name : String
  pub execution_target : Option ExecutionTarget
  pub workflow_url_fallback : String
  pub channel_fallback : Option String
  pub jobworkerp_endpoint : String
  pub jobworkerp_server_id : JobworkerpServerId
  pub args : Option String

-- The values that `compute_config_hash` feeds to the hasher.
pub data HashedTarget : Type 0 where
  hashed_workflow : String → Option String → HashedTarget
  hashed_worker : String → Option String → HashedTarget
  hashed_legacy : String → Option String → HashedTarget

pub record HashedConfig : Type 0 where
  pub name : String
  pub crontab : String
  pub jobworkerp_server_id : Option JobworkerpServerId
  pub enabled : Bool
  pub args : Option String
  pub target : HashedTarget

pub record CronRuntime : Type 1 where
  pub Tz : Type 0
  pub utc : Tz
  pub parse_tz : String → Option Tz
  -- `std::env::var(key).ok()`, trimmed.
  pub trimmed_env : String → Option String
  pub Uuid : Type 0
  pub Failure : Type 0
  -- The jobs of the `JobScheduler`.
  pub Jobs : Type 0
  pub no_jobs : Jobs
  -- `Job::new_async_tz`, then `JobScheduler::add`.
  pub add : CronJob Tz → Jobs → Result Failure Uuid × Jobs
  pub remove_job : Uuid → Jobs → Result Failure (Unit {0}) × Jobs
  pub finish_hash : Option HashedConfig → String

pub record JobHandle (Uuid : Type 0) : Type 0 where
  pub name : String
  pub job_id : Uuid
  pub config_hash : String

pub data SchedulerError (Failure : Type 0) : Type 0 where
  scheduler_not_found : CronSchedulerId → SchedulerError Failure
  scheduler_data_missing : SchedulerError Failure
  server_id_missing : SchedulerError Failure
  server_not_found : JobworkerpServerId → SchedulerError Failure
  server_data_missing : SchedulerError Failure
  no_id_or_wrong_type : SchedulerError Failure
  job_failed : Failure → SchedulerError Failure

abbrev pub hashed_target : CronSchedulerData → Option ExecutionTarget → HashedTarget
hashed_target d (some (workflow wf)) = hashed_workflow wf.workflow_url wf.channel
hashed_target d (some (worker w)) = hashed_worker w.worker_name w.using
hashed_target d none = hashed_legacy d.workflow_url d.channel

unfoldable pub hashed_config : CronSchedulerData → HashedConfig
hashed_config d = record {
  name = d.name;
  crontab = d.crontab;
  jobworkerp_server_id = d.jobworkerp_server_id;
  enabled = d.enabled;
  args = d.args;
  target = hashed_target d d.execution_target;
}

module _ (runtime : CronRuntime) where
  open runtime use {
    Tz, utc, parse_tz, trimmed_env, Uuid, Failure, Jobs, no_jobs, add, remove_job, finish_hash,
  }

  pub record SchedulerManager : Type 0 where
    pub active_jobs : HashMap CronSchedulerId (JobHandle Uuid)
    pub scheduler : Jobs

  -- A method: its result beside the manager that it leaves.
  abbrev pub Outcome : Type 0
  Outcome = Result (SchedulerError Failure) (Unit {0}) × SchedulerManager

  -- `m?; k`
  abbrev pub and_continue : Outcome → (SchedulerManager → Outcome) → Outcome
  and_continue (ok u, m) k = k m
  and_continue (err e, m) k = (err e, m)

  abbrev pub read_non_empty : String → Option String
  read_non_empty key = elim (trimmed_env key) [
    | none ↦ none
    | some v ↦ if is_empty v then none else some v
  ]

  abbrev pub first_set : Option String → Option String → Option String
  first_set none b = b
  first_set (some a) b = some a

  abbrev pub parse_or_utc : Option String → Tz
  parse_or_utc none = utc
  parse_or_utc (some name) = elim (parse_tz name) [ none ↦ utc | some tz ↦ tz ]

  unfoldable pub resolve_cron_timezone : Tz
  resolve_cron_timezone =
      parse_or_utc (first_set (read_non_empty "CONDUCTOR_CRON_TIMEZONE") (read_non_empty "TZ"))

  unfoldable pub compute_config_hash : CronScheduler → String
  unfolding hashed_config
  compute_config_hash scheduler = finish_hash (Option.map hashed_config scheduler.payload)

  unfoldable pub new_manager : SchedulerManager
  new_manager = record { active_jobs = []; scheduler = no_jobs }

  -- The job of an enabled scheduler, with the endpoint of its server.
  unfoldable pub cron_job :
      LocalConfigStore
      → CronSchedulerId
      → CronSchedulerData
      → Result (SchedulerError Failure) (CronJob Tz)
  unfolding get_jobworkerp_server server_endpoint resolve_cron_timezone
  cron_job store scheduler_id d = do
    server_id ← ok_or server_id_missing d.jobworkerp_server_id
    server ← ok_or (server_not_found server_id) (get_jobworkerp_server server_id store)
    server_data ← ok_or server_data_missing server.payload
    ok (record {
      crontab = d.crontab;
      timezone = resolve_cron_timezone;
      scheduler_id = scheduler_id;
      job_name = d.name;
      execution_target = d.execution_target;
      workflow_url_fallback = d.workflow_url;
      channel_fallback = d.channel;
      jobworkerp_endpoint = server_endpoint server_data;
      jobworkerp_server_id = server_id;
      args = d.args;
    })

  -- After `self.scheduler.add(job)`: the handle is kept under the id, if the job was added.
  unfoldable pub keep_handle :
      CronSchedulerId
      → CronScheduler
      → CronJob Tz
      → SchedulerManager
      → Result Failure Uuid
      → Jobs
      → Outcome
  unfolding compute_config_hash
  keep_handle id scheduler job m (err e) jobs = (err (job_failed e), record m { scheduler = jobs })
  keep_handle id scheduler job m (ok uuid) jobs = (
    ok tt,
    record {
      active_jobs =
          insert id
            (record {
              name = job.job_name;
              job_id = uuid;
              config_hash = compute_config_hash scheduler;
            })
            m.active_jobs;
      scheduler = jobs;
    },
  )

  unfoldable pub register_job :
      CronSchedulerId
      → CronScheduler
      → SchedulerManager
      → Result (SchedulerError Failure) (CronJob Tz)
      → Outcome
  unfolding keep_handle
  register_job id scheduler m (err e) = (err e, m)
  register_job id scheduler m (ok job) =
      let (added, jobs) = add job m.scheduler in keep_handle id scheduler job m added jobs

  unfoldable pub add_configured :
      LocalConfigStore
      → CronSchedulerId
      → CronScheduler
      → SchedulerManager
      → Option CronSchedulerData
      → Outcome
  unfolding cron_job register_job
  add_configured store id scheduler m none = (err scheduler_data_missing, m)
  add_configured store id scheduler m (some d) =
      if d.enabled then register_job id scheduler m (cron_job store id d) else (ok tt, m)

  unfoldable pub add_scheduler :
      LocalConfigStore → CronSchedulerId → SchedulerManager → Option CronScheduler → Outcome
  unfolding add_configured
  add_scheduler store id m none = (err (scheduler_not_found id), m)
  add_scheduler store id m (some scheduler) = add_configured store id scheduler m scheduler.payload

  unfoldable pub add_scheduler_from_local :
      LocalConfigStore → CronSchedulerId → SchedulerManager → Outcome
  unfolding add_scheduler get_cron_scheduler
  add_scheduler_from_local store id m = add_scheduler store id m (get_cron_scheduler id store)

  -- The scheduler is asked to drop the job of a handle that was found.
  unfoldable pub remove_handle : SchedulerManager → Option (JobHandle Uuid) → Outcome
  remove_handle m none = (ok tt, m)
  remove_handle m (some handle) =
      let (removed, jobs) = remove_job handle.job_id m.scheduler in
      (elim removed [ err e ↦ err (job_failed e) | ok u ↦ ok tt ], record m { scheduler = jobs })

  unfoldable pub remove_scheduler_by_id : CronSchedulerId → SchedulerManager → Outcome
  unfolding remove_handle
  remove_scheduler_by_id id m =
      remove_handle (record m { active_jobs = remove id m.active_jobs }) (get id m.active_jobs)

  unfoldable pub apply_action :
      LocalConfigStore → ChangeAction → CronSchedulerId → SchedulerManager → Outcome
  unfolding remove_scheduler_by_id add_scheduler_from_local
  apply_action store created id m =
      and_continue (remove_scheduler_by_id id m) (add_scheduler_from_local store id)
  apply_action store updated id m =
      and_continue (remove_scheduler_by_id id m) (add_scheduler_from_local store id)
  apply_action store deleted id m = remove_scheduler_by_id id m
  apply_action store _ id m = (ok tt, m)

  unfoldable pub update_by_id :
      LocalConfigStore → ChangeAction → SchedulerManager → Option EntityId → Outcome
  unfolding apply_action
  update_by_id store a m (some (EntityId.cron_scheduler id)) = apply_action store a id m
  update_by_id store a m _ = (err no_id_or_wrong_type, m)

  unfoldable pub update_scheduler_from_event :
      LocalConfigStore → Option Event → SchedulerManager → Outcome
  unfolding update_by_id typed_id action
  update_scheduler_from_event store event m = update_by_id store (action event) m (typed_id event)

  -- The loop of `stop_all` over the drained handles: a failure is logged.
  unfoldable pub remove_jobs : HashMap CronSchedulerId (JobHandle Uuid) → Jobs → Jobs
  remove_jobs [] jobs = jobs
  remove_jobs ((id, handle) ∷ rest) jobs = remove_jobs rest (remove_job handle.job_id jobs).1

  unfoldable pub stop_all : SchedulerManager → SchedulerManager
  unfolding remove_jobs
  stop_all m = record { active_jobs = []; scheduler = remove_jobs m.active_jobs m.scheduler }

  unfoldable pub add_each : LocalConfigStore → List CronScheduler → SchedulerManager → Outcome
  unfolding add_scheduler_from_local
  add_each store [] m = (ok tt, m)
  add_each store (s ∷ rest) m = elim s.id [
    | none ↦ add_each store rest m
    | some id ↦ and_continue (add_scheduler_from_local store id m) (add_each store rest)
  ]

  unfoldable pub safe_reload : LocalConfigStore → List CronScheduler → SchedulerManager → Outcome
  unfolding stop_all add_each
  safe_reload store schedulers m = add_each store schedulers (stop_all m)
