-- ===== src/Conductor/Changes/Starting.antt =====
-- A created or updated cron scheduler starts to run, when the crates do what is asked of them.
use mathlib.Core.Path.{subst}
use jobworkerp_conductor.Prelude.{
  ℕ, String, ◌≡◌, refl, sym, ap, ◌∙◌, Bool, true, false, Option, none, some, Result, ok, err, is_ok,
  if◌then◌else◌, ℕ-HasEq, String-HasEq,
}
use jobworkerp_conductor.HashMap.{get, get-insert_same, get-remove_same}
use jobworkerp_conductor.Proto.{
  CronScheduler, CronSchedulerData, CronSchedulerId, JobworkerpServer, JobworkerpServerData,
  JobworkerpServerId,
}
use jobworkerp_conductor.Registry
use jobworkerp_conductor.Events.{
  ConfigChangeEventWrapper, updated, deleted, create_cron_scheduler_updated,
  create_cron_scheduler_deleted,
}
use jobworkerp_conductor.Events.Accessors.{typed_id, action}
use jobworkerp_conductor.Store.{
  LocalConfigStore, upsert_cron_scheduler, get_cron_scheduler, get_jobworkerp_server,
  update_sync_time,
}
use jobworkerp_conductor.Store.Snapshots.{create_snapshot}
use jobworkerp_conductor.Slack.Cache.{Patterns}
use jobworkerp_conductor.Conductor.Scheduler.{
  CronRuntime, CronJob, JobHandle, SchedulerManager, SchedulerError, Outcome, and_continue,
  cron_job, compute_config_hash, keep_handle, register_job, add_configured, add_scheduler,
  add_scheduler_from_local, remove_handle, remove_scheduler_by_id, apply_action, update_by_id,
  update_scheduler_from_event,
}
use jobworkerp_conductor.Conductor.Scheduler.Held.{cron_job-JobOf}
use jobworkerp_conductor.Conductor.Scheduler.Sync.{cron_job-name, active-remove_scheduler_by_id}
use jobworkerp_conductor.Conductor.Changes.{
  Conductor, store_change, store_cron_event, tell_scheduler, handle_cron_scheduler_change, dispatch,
  handle_config_change_event,
}

module _ (runtime : CronRuntime) where
  open runtime use {Tz, Uuid, Failure, Jobs, add, remove_job}

  -- The job scheduler takes out the job that a manager has for the id, if it has one.
  abbrev pub Removes : CronSchedulerId → SchedulerManager runtime → Type 0
  Removes id m =
      (handle : JobHandle Uuid)
      → get id m.active_jobs ≡ some handle
      → (remove_job handle.job_id m.scheduler).0 ≡ ok tt

  -- Jobs with this cron expression are accepted.
  abbrev pub Accepts : String → Type 0
  Accepts crontab =
      (job : CronJob Tz) (jobs : Jobs)
      → job.crontab ≡ crontab
      → (uuid : Uuid) × ((add job jobs).0 ≡ ok uuid)

  -- A handle of the scheduler, under its configuration.
  abbrev pub Runs : CronSchedulerId → CronScheduler → String → SchedulerManager runtime → Type 0
  Runs id scheduler name m =
      (handle : JobHandle Uuid) × (get id m.active_jobs ≡ some handle)
      × (handle.name ≡ name)
      × (handle.config_hash ≡ compute_config_hash runtime scheduler)

  keep_handle-Runs :
      (id : CronSchedulerId) (scheduler : CronScheduler) (name : String) (job : CronJob Tz)
      (m : SchedulerManager runtime) (added : Result Failure Uuid) (jobs : Jobs) (uuid : Uuid)
      → added ≡ ok uuid
      → job.job_name ≡ name
      → Runs id scheduler name (keep_handle runtime id scheduler job m added jobs).1
  unfolding keep_handle
  keep_handle-Runs id scheduler name job m (ok u) jobs uuid h n =
      (_, get-insert_same id _ _, n, refl)
  keep_handle-Runs id scheduler name job m (err e) jobs uuid h n = cc h

  remove_handle-ok :
      (m : SchedulerManager runtime) (o : Option (JobHandle Uuid))
      → ((handle : JobHandle Uuid)
          → o ≡ some handle
          → (remove_job handle.job_id m.scheduler).0 ≡ ok tt)
      → (remove_handle runtime m o).0 ≡ ok tt
  unfolding remove_handle
  remove_handle-ok m none r = refl
  remove_handle-ok m (some handle) r = rw (r handle refl) refl

  module _ (store : LocalConfigStore) (id : CronSchedulerId) (scheduler : CronScheduler)
      (d : CronSchedulerData) (server_id : JobworkerpServerId) (server : JobworkerpServer)
      (server_data : JobworkerpServerData) (stored : get_cron_scheduler id store ≡ some scheduler)
      (has_payload : scheduler.payload ≡ some d) (is_enabled : d.enabled ≡ true)
      (refers : d.jobworkerp_server_id ≡ some server_id)
      (known : get_jobworkerp_server server_id store ≡ some server)
      (has_address : server.payload ≡ some server_data) (adds : Accepts d.crontab) where
    cron_job-is_ok : is_ok (cron_job runtime store id d) ≡ true
    unfolding cron_job get_jobworkerp_server
    cron_job-is_ok =
        let found : get server_id store.jobworkerp_servers.entities ≡ some server = known in
        rw (refers, found, has_address) refl

    registered-Runs :
        (m : SchedulerManager runtime) (planned : Result (SchedulerError Failure) (CronJob Tz))
        → cron_job runtime store id d ≡ planned
        → Runs id scheduler d.name (register_job runtime id scheduler m planned).1
    unfolding register_job
    registered-Runs m (ok job) h =
        let accepted = adds job m.scheduler (cron_job-JobOf runtime store id d job h).1 in
        keep_handle-Runs id scheduler d.name job m _ _ accepted.0 accepted.1
          (cron_job-name runtime store id d job h)
    registered-Runs m (err e) h =
        let failed : false ≡ true = sym (ap is_ok h) ∙ cron_job-is_ok in cc failed

    configured-Runs :
        (m : SchedulerManager runtime)
        → Runs id scheduler d.name (add_configured runtime store id scheduler m (some d)).1
    unfolding add_configured
    configured-Runs m =
        subst
          (λ b.
            Runs id scheduler d.name
              (if b
                then register_job runtime id scheduler m (cron_job runtime store id d)
                else (ok tt, m)).1)
          (sym is_enabled) (registered-Runs m (cron_job runtime store id d) refl)

    added-Runs :
        (m : SchedulerManager runtime)
        → Runs id scheduler d.name (add_scheduler_from_local runtime store id m).1
    unfolding add_scheduler_from_local add_scheduler
    added-Runs m =
        subst (λ o. Runs id scheduler d.name (add_scheduler runtime store id m o).1) (sym stored)
          (subst (λ o. Runs id scheduler d.name (add_configured runtime store id scheduler m o).1)
            (sym has_payload) (configured-Runs m))

    after_remove-Runs :
        (o : Outcome runtime)
        → o.0 ≡ ok tt
        → Runs id scheduler d.name
            (and_continue runtime o (add_scheduler_from_local runtime store id)).1
    after_remove-Runs (ok u, m) h = added-Runs m
    after_remove-Runs (err e, m) h = cc h

    pub updated-Runs :
        (m : SchedulerManager runtime)
        → Removes id m
        → Runs id scheduler d.name (apply_action runtime store updated id m).1
    unfolding apply_action remove_scheduler_by_id
    updated-Runs m removes = after_remove-Runs _ (remove_handle-ok _ (get id m.active_jobs) removes)

  pub deleted-stops :
      (store : LocalConfigStore) (id : CronSchedulerId) (m : SchedulerManager runtime)
      → get id (apply_action runtime store deleted id m).1.active_jobs ≡ none
  unfolding apply_action
  deleted-stops store id m =
      ap (get id) (active-remove_scheduler_by_id runtime id m) ∙ get-remove_same id _

module _ (runtime : CronRuntime) (patterns : Patterns) (connects : String → Bool)
    (display : ℕ → String) (now created_at : ℕ) (name : String) (id : CronSchedulerId)
    (c : Conductor runtime patterns connects) (m : SchedulerManager runtime)
    (has_manager : c.scheduler_manager ≡ some m) where
  abbrev pub update_event : CronSchedulerData → Option JobworkerpServer → ConfigChangeEventWrapper
  update_event d related = create_cron_scheduler_updated created_at name (some id) (some d) related

  abbrev pub handled : ConfigChangeEventWrapper → Conductor runtime patterns connects
  handled event = (handle_config_change_event runtime patterns connects display now event c).1

  -- In a conductor with a scheduler manager, after the event of an updated cron scheduler that is
  -- enabled and names a server that the store holds, the scheduler runs: there is a handle under
  -- its id, with its new name and the hash of its new configuration, if the job scheduler takes out
  -- the job that the manager had for it and accepts jobs with its cron expression.
  pub update-starts :
      (d : CronSchedulerData) (related : Option JobworkerpServer) (server_id : JobworkerpServerId)
      (server : JobworkerpServer) (server_data : JobworkerpServerData)
      → d.enabled ≡ true
      → d.jobworkerp_server_id ≡ some server_id
      → get_jobworkerp_server server_id c.store ≡ some server
      → server.payload ≡ some server_data
      → Removes runtime id m
      → Accepts runtime d.crontab
      → (m' : SchedulerManager runtime) × ((handled (update_event d related)).scheduler_manager
          ≡ some m')
        × Runs runtime id (record { id = some id; payload = some d }) d.name m'
  unfolding handle_config_change_event create_cron_scheduler_updated dispatch
      handle_cron_scheduler_change tell_scheduler update_scheduler_from_event update_by_id
      store_cron_event store_change action typed_id upsert_cron_scheduler Registry.upsert
      update_sync_time get_jobworkerp_server get_cron_scheduler create_snapshot
  update-starts d related server_id server server_data on refers known address removes adds = (
    _,
    ap
        (tell_scheduler runtime patterns connects (update_event d related).inner
          (handled (update_event d related)).store)
        has_manager,
    updated-Runs runtime (handled (update_event d related)).store id
        (record { id = some id; payload = some d }) d server_id server server_data
        (get-insert_same id _ _) refl on refers known address adds m removes,
  )

  -- In a conductor with a scheduler manager, after the event of a deleted cron scheduler there is
  -- no handle under its id, whatever the job scheduler answers.
  pub delete-drops_handle :
      (m' : SchedulerManager runtime) × ((handled
          (create_cron_scheduler_deleted created_at name (some id))).scheduler_manager
        ≡ some m')
      × (get id m'.active_jobs ≡ none)
  unfolding handle_config_change_event create_cron_scheduler_deleted dispatch
      handle_cron_scheduler_change tell_scheduler update_scheduler_from_event update_by_id
      store_cron_event store_change action typed_id
  delete-drops_handle = (
    _,
    ap
        (tell_scheduler runtime patterns connects
          (create_cron_scheduler_deleted created_at name (some id)).inner
          (handled (create_cron_scheduler_deleted created_at name (some id))).store)
        has_manager,
    deleted-stops runtime (handled (create_cron_scheduler_deleted created_at name (some id))).store
        id m,
  )
