-- ===== src/Conductor/Scheduler/Sync.antt =====
-- Every job that the manager runs is the job of an enabled scheduler of the store, under its present
-- configuration: `update_scheduler_from_event` restores this after the store has changed.
use jobworkerp_conductor.Prelude.{
  ◌≡◌, refl, ◌∙◌, ◌≢◌, ◌⊎◌, inl, inr, arith, true, Option, none, some, Result, ok, err,
  if◌then◌else◌, ◌==◌, nat_eq_iff, ℕ-HasEq, Bool-cases,
}
use jobworkerp_conductor.HashMap.{get, remove, get-insert, get-remove}
use jobworkerp_conductor.Proto.{CronScheduler, CronSchedulerData, CronSchedulerId}
use jobworkerp_conductor.Events.{ChangeAction, created, updated, deleted}
use jobworkerp_conductor.Store.{LocalConfigStore, get_cron_scheduler}
use jobworkerp_conductor.Conductor.Scheduler.{
  CronRuntime, CronJob, JobHandle, SchedulerManager, Outcome, and_continue, compute_config_hash,
  cron_job, SchedulerError, keep_handle, register_job, add_configured, add_scheduler,
  add_scheduler_from_local, remove_handle, remove_scheduler_by_id, apply_action,
}

-- The two stores hold the same cron schedulers but for one id.
abbrev pub ChangesOnly : CronSchedulerId → LocalConfigStore → LocalConfigStore → Type 0
ChangesOnly id s s' =
    (j : CronSchedulerId) → j ≢ id → get_cron_scheduler j s' ≡ get_cron_scheduler j s

module _ (runtime : CronRuntime) where
  open runtime use {Tz, Uuid}

  -- The handle is of an enabled scheduler of the store, with its name and its configuration.
  pub record IsCurrent (store : LocalConfigStore) (id : CronSchedulerId) (handle : JobHandle Uuid)
      : Type 0 where
    pub scheduler : CronScheduler
    pub config : CronSchedulerData
    pub found : get_cron_scheduler id store ≡ some scheduler
    pub has_config : scheduler.payload ≡ some config
    pub is_enabled : config.enabled ≡ true
    pub same_name : handle.name ≡ config.name
    pub same_hash : handle.config_hash ≡ compute_config_hash runtime scheduler

  abbrev pub ActiveIsCurrent : LocalConfigStore → SchedulerManager runtime → Type 0
  ActiveIsCurrent store m =
      (id : CronSchedulerId) (handle : JobHandle Uuid)
      → get id m.active_jobs ≡ some handle
      → IsCurrent store id handle

  pub cron_job-name :
      (store : LocalConfigStore) (id : CronSchedulerId) (d : CronSchedulerData) (job : CronJob Tz)
      → cron_job runtime store id d ≡ ok job
      → job.job_name ≡ d.name
  unfolding cron_job
  cron_job-name store id d job h = ground arith

  module _ (store : LocalConfigStore) (m : SchedulerManager runtime)
      (c : ActiveIsCurrent store m) where
    keep_handle-IsCurrent :
        (id : CronSchedulerId) (scheduler : CronScheduler) (d : CronSchedulerData)
        (job : CronJob Tz) (added : Result runtime.Failure Uuid) (jobs : runtime.Jobs)
        → get_cron_scheduler id store ≡ some scheduler
        → scheduler.payload ≡ some d
        → d.enabled ≡ true
        → job.job_name ≡ d.name
        → ActiveIsCurrent store (keep_handle runtime id scheduler job m added jobs).1
    unfolding keep_handle
    keep_handle-IsCurrent id scheduler d job (err f) jobs g p e n j handle h = c j handle h
    keep_handle-IsCurrent id scheduler d job (ok uuid) jobs g p e n j handle h =
        elim (Bool-cases (id == j)) [
          | inl same ↦
              let kept : some _ ≡ some handle = rw (get-insert, same) at h in
              let ids : id ≡ j = (nat_eq_iff id j).0 same in
              record {
                scheduler = scheduler;
                config = d;
                found = rw (← ids) g;
                has_config = p;
                is_enabled = e;
                same_name = ground (arith, kept, n);
                same_hash = ground (arith, kept);
              }
          | inr other ↦ c j handle (rw (get-insert, other) at h)
        ]

    register_job-IsCurrent :
        (id : CronSchedulerId) (scheduler : CronScheduler) (d : CronSchedulerData)
        (planned : Result (SchedulerError runtime.Failure) (CronJob Tz))
        → cron_job runtime store id d ≡ planned
        → get_cron_scheduler id store ≡ some scheduler
        → scheduler.payload ≡ some d
        → d.enabled ≡ true
        → ActiveIsCurrent store (register_job runtime id scheduler m planned).1
    unfolding register_job
    register_job-IsCurrent id scheduler d (err f) q g p e = c
    register_job-IsCurrent id scheduler d (ok job) q g p e =
        keep_handle-IsCurrent id scheduler d job (runtime.add job m.scheduler).0
          (runtime.add job m.scheduler).1 g p e (cron_job-name store id d job q)

    add_configured-IsCurrent :
        (id : CronSchedulerId) (scheduler : CronScheduler) (o : Option CronSchedulerData)
        → scheduler.payload ≡ o
        → get_cron_scheduler id store ≡ some scheduler
        → ActiveIsCurrent store (add_configured runtime store id scheduler m o).1
    unfolding add_configured
    add_configured-IsCurrent id scheduler none p g = c
    add_configured-IsCurrent id scheduler (some d) p g = elim (Bool-cases d.enabled) [
      | inl on ↦
          rw on (register_job-IsCurrent id scheduler d (cron_job runtime store id d) refl g p on)
      | inr off ↦ rw off c
    ]

    add_scheduler-IsCurrent :
        (id : CronSchedulerId) (o : Option CronScheduler)
        → get_cron_scheduler id store ≡ o
        → ActiveIsCurrent store (add_scheduler runtime store id m o).1
    unfolding add_scheduler
    add_scheduler-IsCurrent id none g = c
    add_scheduler-IsCurrent id (some scheduler) g =
        add_configured-IsCurrent id scheduler scheduler.payload refl g

    pub add_scheduler_from_local-IsCurrent :
        (id : CronSchedulerId)
        → ActiveIsCurrent store (add_scheduler_from_local runtime store id m).1
    unfolding add_scheduler_from_local
    add_scheduler_from_local-IsCurrent id =
        add_scheduler-IsCurrent id (get_cron_scheduler id store) (unfold get_cron_scheduler in refl)

  active-remove_handle :
      (m : SchedulerManager runtime) (o : Option (JobHandle Uuid))
      → (remove_handle runtime m o).1.active_jobs ≡ m.active_jobs
  unfolding remove_handle
  active-remove_handle m none = refl
  active-remove_handle m (some handle) = refl

  pub active-remove_scheduler_by_id :
      (id : CronSchedulerId) (m : SchedulerManager runtime)
      → (remove_scheduler_by_id runtime id m).1.active_jobs ≡ remove id m.active_jobs
  unfolding remove_scheduler_by_id
  active-remove_scheduler_by_id id m = active-remove_handle _ (get id m.active_jobs)

  module _ (store store' : LocalConfigStore) (m : SchedulerManager runtime)
      (c : ActiveIsCurrent store m) where
    IsCurrent-ChangesOnly :
        (id j : CronSchedulerId) (handle : JobHandle Uuid)
        → ChangesOnly id store store'
        → j ≢ id
        → IsCurrent store j handle
        → IsCurrent store' j handle
    IsCurrent-ChangesOnly id j handle only ne k = record {
      scheduler = k.scheduler;
      config = k.config;
      found = only j ne ∙ k.found;
      has_config = k.has_config;
      is_enabled = k.is_enabled;
      same_name = k.same_name;
      same_hash = k.same_hash;
    }

    pub remove_scheduler_by_id-IsCurrent :
        (id : CronSchedulerId)
        → ChangesOnly id store store'
        → ActiveIsCurrent store' (remove_scheduler_by_id runtime id m).1
    remove_scheduler_by_id-IsCurrent id only j handle h =
        let h' : get j (remove id m.active_jobs) ≡ some handle =
          rw active-remove_scheduler_by_id at h in
        let h'' : (if id == j then none else get j m.active_jobs) ≡ some handle =
          rw get-remove at h' in
        elim (Bool-cases (id == j)) [
          | inl same ↦ cc (rw same at h'')
          | inr other ↦
              IsCurrent-ChangesOnly id j handle only (λ e. ground (arith, nat_eq_iff id j))
                (c j handle (rw other at h''))
        ]

  and_continue-ActiveIsCurrent :
      (store : LocalConfigStore) (o : Outcome runtime)
      (k : SchedulerManager runtime → Outcome runtime)
      → ActiveIsCurrent store o.1
      → ((m : SchedulerManager runtime) → ActiveIsCurrent store m → ActiveIsCurrent store (k m).1)
      → ActiveIsCurrent store (and_continue runtime o k).1
  and_continue-ActiveIsCurrent store (ok u, m) k c next = next m c
  and_continue-ActiveIsCurrent store (err e, m) k c next = c

  -- Created, updated and deleted events bring the manager in line with a store that has changed at
  -- one id.
  pub apply_action-IsCurrent :
      (store store' : LocalConfigStore) (m : SchedulerManager runtime) (id : CronSchedulerId)
      (a : ChangeAction)
      → ActiveIsCurrent store m
      → ChangesOnly id store store'
      → (a ≡ created) ⊎ (a ≡ updated) ⊎ (a ≡ deleted)
      → ActiveIsCurrent store' (apply_action runtime store' a id m).1
  unfolding apply_action
  apply_action-IsCurrent store store' m id created c only k =
      and_continue-ActiveIsCurrent store' _ (add_scheduler_from_local runtime store' id)
        (remove_scheduler_by_id-IsCurrent store store' m c id only)
        (λ m' c'. add_scheduler_from_local-IsCurrent store' m' c' id)
  apply_action-IsCurrent store store' m id updated c only k =
      and_continue-ActiveIsCurrent store' _ (add_scheduler_from_local runtime store' id)
        (remove_scheduler_by_id-IsCurrent store store' m c id only)
        (λ m' c'. add_scheduler_from_local-IsCurrent store' m' c' id)
  apply_action-IsCurrent store store' m id deleted c only k =
      remove_scheduler_by_id-IsCurrent store store' m c id only
  apply_action-IsCurrent store store' m id _ c only k = ground arith
