-- ===== src/Conductor/Scheduler/Held.antt =====
-- The jobs that the `JobScheduler` holds, beside the handles that the manager keeps: no job without
-- its handle, and none of a scheduler that is gone or disabled.
use mathlib.Core.Path.{subst}
use jobworkerp_conductor.Execution.Target.{server_endpoint}
use jobworkerp_conductor.Prelude.{
  ◌≡◌, ◌≢◌, refl, sym, ap, ◌∙◌, ◌⊎◌, inl, inr, arith, true, Option, none, some, Result, ok, err,
  ◌==◌, nat_eq_iff, ℕ-HasEq, Bool-cases, bind_ok, some-ok_or, ok_or,
}
use jobworkerp_conductor.HashMap.{
  get, insert, remove, get-insert, get-insert_same, get-remove, get-remove_same,
}
use jobworkerp_conductor.Proto.{CronScheduler, CronSchedulerData, CronSchedulerId}
use jobworkerp_conductor.Events.{ChangeAction, created, updated, deleted}
use jobworkerp_conductor.Store.{LocalConfigStore, get_cron_scheduler, get_jobworkerp_server}
use jobworkerp_conductor.Conductor.Scheduler.{
  CronRuntime, CronJob, JobHandle, SchedulerManager, SchedulerError, Outcome, and_continue,
  cron_job, resolve_cron_timezone, server_id_missing, server_not_found, server_data_missing,
  keep_handle, register_job, add_configured, add_scheduler, add_scheduler_from_local, remove_handle,
  remove_scheduler_by_id, apply_action,
}
use jobworkerp_conductor.Conductor.Scheduler.Sync.{ChangesOnly, active-remove_scheduler_by_id}

-- The job runs the configuration of a scheduler.
abbrev pub JobOf : {Tz : Type 0} → CronSchedulerId → CronSchedulerData → CronJob Tz → Type 0
JobOf id d job =
    (job.scheduler_id ≡ id)
    × (job.crontab ≡ d.crontab)
    × (job.job_name ≡ d.name)
    × (job.execution_target ≡ d.execution_target)
    × (job.workflow_url_fallback ≡ d.workflow_url)
    × (job.channel_fallback ≡ d.channel)
    × (some job.jobworkerp_server_id ≡ d.jobworkerp_server_id)
    × (job.args ≡ d.args)

pub cron_job-JobOf :
    (runtime : CronRuntime) (store : LocalConfigStore) (id : CronSchedulerId)
    (d : CronSchedulerData) (job : CronJob runtime.Tz)
    → cron_job runtime store id d ≡ ok job
    → JobOf id d job
unfolding cron_job
cron_job-JobOf runtime store id d job h =
    let server_id = bind_ok (ok_or server_id_missing d.jobworkerp_server_id) _ job h in
    let server =
      bind_ok (ok_or (server_not_found server_id.0) (get_jobworkerp_server server_id.0 store)) _ job
        server_id.2 in
    let address = bind_ok (ok_or server_data_missing server.0.payload) _ job server.2 in
    let refers = some-ok_or _ _ server_id.0 server_id.1 in
    let built : record {
      crontab = d.crontab;
      timezone = resolve_cron_timezone runtime;
      scheduler_id = id;
      job_name = d.name;
      execution_target = d.execution_target;
      workflow_url_fallback = d.workflow_url;
      channel_fallback = d.channel;
      jobworkerp_endpoint = server_endpoint address.0;
      jobworkerp_server_id = server_id.0;
      args = d.args;
    }
        ≡ job =
      cc address.2 in
    subst (JobOf id d) built (refl, refl, refl, refl, refl, refl, sym refers, refl)

module _ (runtime : CronRuntime)
    (holds : runtime.Uuid → runtime.Jobs → Option (CronJob runtime.Tz)) where
  open runtime use {Tz, Uuid, Failure, Jobs, add, remove_job}

  -- What the manager relies on: an added job comes under its own id, a refused one not at all, and a
  -- job that is asked to be removed is gone.
  pub record KeepsJobs : Type 0 where
    pub added :
        (job : CronJob Tz) (jobs : Jobs) (uuid : Uuid)
        → (add job jobs).0 ≡ ok uuid
        → (u : Uuid) (j : CronJob Tz) → holds u (add job jobs).1 ≡ some j
        → ((uuid ≡ u) × (job ≡ j)) ⊎ (holds u jobs ≡ some j)
    pub refused :
        (job : CronJob Tz) (jobs : Jobs) (f : Failure)
        → (add job jobs).0 ≡ err f
        → (u : Uuid) (j : CronJob Tz) → holds u (add job jobs).1 ≡ some j
        → holds u jobs ≡ some j
    pub removed :
        (uuid : Uuid) (jobs : Jobs) (u : Uuid) (j : CronJob Tz)
        → holds u (remove_job uuid jobs).1 ≡ some j
        → (uuid ≢ u) × (holds u jobs ≡ some j)

  -- The job is of an enabled scheduler of the store, runs its configuration, and has its handle.
  pub record IsTracked (store : LocalConfigStore) (m : SchedulerManager runtime) (uuid : Uuid)
      (job : CronJob Tz) : Type 0 where
    pub id : CronSchedulerId
    pub handle : JobHandle Uuid
    pub scheduler : CronScheduler
    pub config : CronSchedulerData
    pub active : get id m.active_jobs ≡ some handle
    pub same_job : handle.job_id ≡ uuid
    pub found : get_cron_scheduler id store ≡ some scheduler
    pub has_config : scheduler.payload ≡ some config
    pub is_enabled : config.enabled ≡ true
    pub runs : JobOf id config job

  abbrev pub HeldIsTracked : LocalConfigStore → SchedulerManager runtime → Type 0
  HeldIsTracked store m =
      (uuid : Uuid) (job : CronJob Tz)
      → holds uuid m.scheduler ≡ some job
      → IsTracked store m uuid job

  module _ (keeps : KeepsJobs) where
    module _ (store : LocalConfigStore) (m : SchedulerManager runtime) (c : HeldIsTracked store m)
        (id : CronSchedulerId) (unused : get id m.active_jobs ≡ none) where
      -- A job whose handle stands under another id keeps it.
      still-IsTracked :
          (handle : JobHandle Uuid) (jobs : Jobs) (uuid : Uuid) (job : CronJob Tz)
          → IsTracked store m uuid job
          → IsTracked store
              (record { active_jobs = insert id handle m.active_jobs; scheduler = jobs })
              uuid
              job
      still-IsTracked handle jobs uuid job k = record {
        id = k.id;
        handle = k.handle;
        scheduler = k.scheduler;
        config = k.config;
        active = elim (Bool-cases (id == k.id)) [
          | inl same ↦
              let ids : id ≡ k.id = (nat_eq_iff id k.id).0 same in
              let taken : none ≡ some k.handle =
                sym unused ∙ (ap (λ i. get i m.active_jobs) ids ∙ k.active) in
              cc taken
          | inr other ↦ rw (get-insert, other) k.active
        ];
        same_job = k.same_job;
        found = k.found;
        has_config = k.has_config;
        is_enabled = k.is_enabled;
        runs = k.runs;
      }

      keep_handle-IsTracked :
          (scheduler : CronScheduler) (d : CronSchedulerData) (job : CronJob Tz)
          (answer : Result Failure Uuid)
          → (add job m.scheduler).0 ≡ answer
          → get_cron_scheduler id store ≡ some scheduler
          → scheduler.payload ≡ some d
          → d.enabled ≡ true
          → JobOf id d job
          → HeldIsTracked store
              (keep_handle runtime id scheduler job m answer (add job m.scheduler).1).1
      unfolding keep_handle
      keep_handle-IsTracked scheduler d job (err f) a g p e runs uuid j h =
          let k = c uuid j (keeps.refused job m.scheduler f a uuid j h) in
          record {
            id = k.id;
            handle = k.handle;
            scheduler = k.scheduler;
            config = k.config;
            active = k.active;
            same_job = k.same_job;
            found = k.found;
            has_config = k.has_config;
            is_enabled = k.is_enabled;
            runs = k.runs;
          }
      keep_handle-IsTracked scheduler d job (ok new) a g p e runs uuid j h =
          elim (keeps.added job m.scheduler new a uuid j h) [
            | inl here ↦ record {
              id = id;
              handle = _;
              scheduler = scheduler;
              config = d;
              active = get-insert_same id _ m.active_jobs;
              same_job = here.0;
              found = g;
              has_config = p;
              is_enabled = e;
              runs = subst (JobOf id d) here.1 runs;
            }
            | inr before ↦ still-IsTracked _ _ uuid j (c uuid j before)
          ]

      register_job-IsTracked :
          (scheduler : CronScheduler) (d : CronSchedulerData)
          (planned : Result (SchedulerError Failure) (CronJob Tz))
          → cron_job runtime store id d ≡ planned
          → get_cron_scheduler id store ≡ some scheduler
          → scheduler.payload ≡ some d
          → d.enabled ≡ true
          → HeldIsTracked store (register_job runtime id scheduler m planned).1
      unfolding register_job
      register_job-IsTracked scheduler d (err f) q g p e = c
      register_job-IsTracked scheduler d (ok job) q g p e =
          keep_handle-IsTracked scheduler d job (add job m.scheduler).0 refl g p e
            (cron_job-JobOf runtime store id d job q)

      add_configured-IsTracked :
          (scheduler : CronScheduler) (o : Option CronSchedulerData)
          → scheduler.payload ≡ o
          → get_cron_scheduler id store ≡ some scheduler
          → HeldIsTracked store (add_configured runtime store id scheduler m o).1
      unfolding add_configured
      add_configured-IsTracked scheduler none p g = c
      add_configured-IsTracked scheduler (some d) p g = elim (Bool-cases d.enabled) [
        | inl on ↦
            rw on (register_job-IsTracked scheduler d (cron_job runtime store id d) refl g p on)
        | inr off ↦ rw off c
      ]

      add_scheduler-IsTracked :
          (o : Option CronScheduler)
          → get_cron_scheduler id store ≡ o
          → HeldIsTracked store (add_scheduler runtime store id m o).1
      unfolding add_scheduler
      add_scheduler-IsTracked none g = c
      add_scheduler-IsTracked (some scheduler) g =
          add_configured-IsTracked scheduler scheduler.payload refl g

      added-IsTracked : HeldIsTracked store (add_scheduler_from_local runtime store id m).1
      unfolding add_scheduler_from_local
      added-IsTracked =
          add_scheduler-IsTracked (get_cron_scheduler id store) (unfold get_cron_scheduler in refl)

    module _ (store store' : LocalConfigStore) (m : SchedulerManager runtime)
        (c : HeldIsTracked store m) (id : CronSchedulerId)
        (only : ChangesOnly id store store') where
      -- The job of another scheduler keeps its handle and its configuration.
      other-IsTracked :
          (jobs : Jobs) (uuid : Uuid) (job : CronJob Tz) (k : IsTracked store m uuid job)
          → k.id ≢ id
          → IsTracked store'
              (record { active_jobs = remove id m.active_jobs; scheduler = jobs })
              uuid
              job
      other-IsTracked jobs uuid job k ne = record {
        id = k.id;
        handle = k.handle;
        scheduler = k.scheduler;
        config = k.config;
        active = elim (Bool-cases (id == k.id)) [
          | inl same ↦ absurd (ne (sym ((nat_eq_iff id k.id).0 same)))
          | inr other ↦ rw (get-remove, other) k.active
        ];
        same_job = k.same_job;
        found = only k.id ne ∙ k.found;
        has_config = k.has_config;
        is_enabled = k.is_enabled;
        runs = k.runs;
      }

      remove_handle-IsTracked :
          (o : Option (JobHandle Uuid))
          → get id m.active_jobs ≡ o
          → HeldIsTracked store'
              (remove_handle runtime (record m { active_jobs = remove id m.active_jobs }) o).1
      unfolding remove_handle
      remove_handle-IsTracked none g uuid job h =
          let k = c uuid job h in
          other-IsTracked m.scheduler uuid job k (λ e.
            let taken : none ≡ some k.handle =
              sym g ∙ (ap (λ i. get i m.active_jobs) (sym e) ∙ k.active) in
            cc taken)
      remove_handle-IsTracked (some handle) g uuid job h =
          let gone = keeps.removed handle.job_id m.scheduler uuid job h in
          let k = c uuid job gone.1 in
          other-IsTracked (remove_job handle.job_id m.scheduler).1 uuid job k (λ e.
            let same : some handle ≡ some k.handle =
              sym g ∙ (ap (λ i. get i m.active_jobs) (sym e) ∙ k.active) in
            let handles : handle ≡ k.handle = cc same in
            gone.0 (ap (λ x. x.job_id) handles ∙ k.same_job))

      removed-IsTracked : HeldIsTracked store' (remove_scheduler_by_id runtime id m).1
      unfolding remove_scheduler_by_id
      removed-IsTracked = remove_handle-IsTracked (get id m.active_jobs) refl

    and_continue-IsTracked :
        (store : LocalConfigStore) (id : CronSchedulerId) (o : Outcome runtime)
        → HeldIsTracked store o.1
        → get id o.1.active_jobs ≡ none
        → HeldIsTracked store (and_continue runtime o (add_scheduler_from_local runtime store id)).1
    and_continue-IsTracked store id (ok u, m) c unused = added-IsTracked store m c id unused
    and_continue-IsTracked store id (err e, m) c unused = c

    -- Created, updated and deleted events keep the jobs that are held in line with a store that has
    -- changed at one id.
    pub apply_action-IsTracked :
        (store store' : LocalConfigStore) (m : SchedulerManager runtime) (id : CronSchedulerId)
        (a : ChangeAction)
        → HeldIsTracked store m
        → ChangesOnly id store store'
        → (a ≡ created) ⊎ (a ≡ updated) ⊎ (a ≡ deleted)
        → HeldIsTracked store' (apply_action runtime store' a id m).1
    unfolding apply_action
    apply_action-IsTracked store store' m id created c only k =
        and_continue-IsTracked store' id _ (removed-IsTracked store store' m c id only)
          (ap (get id) (active-remove_scheduler_by_id runtime id m) ∙ get-remove_same id _)
    apply_action-IsTracked store store' m id updated c only k =
        and_continue-IsTracked store' id _ (removed-IsTracked store store' m c id only)
          (ap (get id) (active-remove_scheduler_by_id runtime id m) ∙ get-remove_same id _)
    apply_action-IsTracked store store' m id deleted c only k =
        removed-IsTracked store store' m c id only
    apply_action-IsTracked store store' m id _ c only k = ground arith
