-- ===== src/Conductor/Scheduler/Live.antt =====
-- The jobs behind the handles that the manager keeps: each is held by the `JobScheduler` and runs the
-- present configuration of its scheduler.
use mathlib.Core.Path.{subst}
use jobworkerp_conductor.Prelude.{
  ◌≡◌, ◌≢◌, refl, sym, ap, ◌∙◌, ◌⊎◌, inl, inr, arith, true, Option, none, some, Result, ok, err,
  if◌then◌else◌, ◌==◌, nat_eq_iff, ℕ-HasEq, Bool-cases,
}
use jobworkerp_conductor.HashMap.{get, remove, get-insert, get-remove}
use jobworkerp_conductor.Proto.{CronScheduler, CronSchedulerData, CronSchedulerId}
use jobworkerp_conductor.Events.{ChangeAction, created, updated, deleted}
use jobworkerp_conductor.Store.{LocalConfigStore, get_cron_scheduler}
use jobworkerp_conductor.Conductor.Scheduler.{
  CronRuntime, CronJob, JobHandle, SchedulerManager, SchedulerError, Outcome, and_continue,
  cron_job, compute_config_hash, keep_handle, register_job, add_configured, add_scheduler,
  add_scheduler_from_local, remove_handle, remove_scheduler_by_id, apply_action,
}
use jobworkerp_conductor.Conductor.Scheduler.Held.{JobOf, cron_job-JobOf}
use jobworkerp_conductor.Conductor.Scheduler.Sync.{ChangesOnly}

module _ (runtime : CronRuntime)
    (holds : runtime.Uuid → runtime.Jobs → Option (CronJob runtime.Tz)) where
  open runtime use {Tz, Uuid, Failure, Jobs, add, remove_job}

  -- What the manager relies on: an added job is held under the id that is answered, and neither an
  -- addition nor a removal touches another job.
  pub record KeepsOthers : Type 0 where
    pub added :
        (job : CronJob Tz) (jobs : Jobs) (uuid : Uuid)
        → (add job jobs).0 ≡ ok uuid
        → holds uuid (add job jobs).1 ≡ some job
    pub kept_by_add :
        (job : CronJob Tz) (jobs : Jobs) (u : Uuid) (j : CronJob Tz)
        → holds u jobs ≡ some j
        → holds u (add job jobs).1 ≡ some j
    pub kept_by_remove :
        (uuid : Uuid) (jobs : Jobs) (u : Uuid) (j : CronJob Tz)
        → uuid ≢ u
        → holds u jobs ≡ some j
        → holds u (remove_job uuid jobs).1 ≡ some j

  -- The handle's job is held, and runs the configuration of an enabled scheduler of the store.
  pub record IsLive (store : LocalConfigStore) (jobs : Jobs) (id : CronSchedulerId)
      (handle : JobHandle Uuid) : Type 0 where
    pub scheduler : CronScheduler
    pub config : CronSchedulerData
    pub job : CronJob Tz
    pub found : get_cron_scheduler id store ≡ some scheduler
    pub has_config : scheduler.payload ≡ some config
    pub is_enabled : config.enabled ≡ true
    pub held : holds handle.job_id jobs ≡ some job
    pub runs : JobOf id config job

  abbrev pub ActiveIsLive : LocalConfigStore → SchedulerManager runtime → Type 0
  ActiveIsLive store m =
      (id : CronSchedulerId) (handle : JobHandle Uuid)
      → get id m.active_jobs ≡ some handle
      → IsLive store m.scheduler id handle

  -- In another store that has the scheduler, and with other jobs that still hold the handle's.
  moved-IsLive :
      (store store' : LocalConfigStore) (jobs jobs' : Jobs) (id : CronSchedulerId)
      (handle : JobHandle Uuid) (k : IsLive store jobs id handle)
      → get_cron_scheduler id store' ≡ get_cron_scheduler id store
      → holds handle.job_id jobs' ≡ some k.job
      → IsLive store' jobs' id handle
  moved-IsLive store store' jobs jobs' id handle k same held = record {
    scheduler = k.scheduler;
    config = k.config;
    job = k.job;
    found = same ∙ k.found;
    has_config = k.has_config;
    is_enabled = k.is_enabled;
    held = held;
    runs = k.runs;
  }

  pub ActiveIsLive-SameCron :
      (s s' : LocalConfigStore) (m : SchedulerManager runtime)
      → ((j : CronSchedulerId) → get_cron_scheduler j s' ≡ get_cron_scheduler j s)
      → ActiveIsLive s m
      → ActiveIsLive s' m
  ActiveIsLive-SameCron s s' m same c id handle h =
      let k = c id handle h in
      moved-IsLive s s' m.scheduler m.scheduler id handle k (same id) k.held

  module _ (keeps : KeepsOthers) where
    module _ (store : LocalConfigStore) (m : SchedulerManager runtime) (c : ActiveIsLive store m)
        (id : CronSchedulerId) where
      -- A handle of before, after an addition.
      still-IsLive :
          (job : CronJob Tz) (j : CronSchedulerId) (handle : JobHandle Uuid)
          → get j m.active_jobs ≡ some handle
          → IsLive store (add job m.scheduler).1 j handle
      still-IsLive job j handle h =
          let k = c j handle h in
          moved-IsLive store store m.scheduler (add job m.scheduler).1 j handle k refl
            (keeps.kept_by_add job m.scheduler handle.job_id k.job k.held)

      keep_handle-IsLive :
          (scheduler : CronScheduler) (d : CronSchedulerData) (job : CronJob Tz)
          (answer : Result Failure Uuid)
          → (add job m.scheduler).0 ≡ answer
          → get_cron_scheduler id store ≡ some scheduler
          → scheduler.payload ≡ some d
          → d.enabled ≡ true
          → JobOf id d job
          → ActiveIsLive store
              (keep_handle runtime id scheduler job m answer (add job m.scheduler).1).1
      unfolding keep_handle
      keep_handle-IsLive scheduler d job (err f) a g p e runs j handle h =
          still-IsLive job j handle h
      keep_handle-IsLive scheduler d job (ok uuid) a g p e runs j handle h =
          let new : JobHandle Uuid = record {
            name = job.job_name;
            job_id = uuid;
            config_hash = compute_config_hash runtime scheduler;
          } in
          let live : IsLive store (add job m.scheduler).1 id new = record {
            scheduler = scheduler;
            config = d;
            job = job;
            found = g;
            has_config = p;
            is_enabled = e;
            held = keeps.added job m.scheduler uuid a;
            runs = runs;
          } in
          elim (Bool-cases (id == j)) [
            | inl same ↦
                let kept : some new ≡ some handle = rw (get-insert, same) at h in
                let handles : new ≡ handle = cc kept in
                subst (IsLive store (add job m.scheduler).1 j) handles (
                  subst (λ i. IsLive store (add job m.scheduler).1 i new) ((nat_eq_iff id j).0 same)
                    live)
            | inr other ↦ still-IsLive job j handle (rw (get-insert, other) at h)
          ]

      register_job-IsLive :
          (scheduler : CronScheduler) (d : CronSchedulerData)
          (planned : Result (SchedulerError Failure) (CronJob Tz))
          → cron_job runtime store id d ≡ planned
          → get_cron_scheduler id store ≡ some scheduler
          → scheduler.payload ≡ some d
          → d.enabled ≡ true
          → ActiveIsLive store (register_job runtime id scheduler m planned).1
      unfolding register_job
      register_job-IsLive scheduler d (err f) q g p e = c
      register_job-IsLive scheduler d (ok job) q g p e =
          keep_handle-IsLive scheduler d job (add job m.scheduler).0 refl g p e
            (cron_job-JobOf runtime store id d job q)

      add_configured-IsLive :
          (scheduler : CronScheduler) (o : Option CronSchedulerData)
          → scheduler.payload ≡ o
          → get_cron_scheduler id store ≡ some scheduler
          → ActiveIsLive store (add_configured runtime store id scheduler m o).1
      unfolding add_configured
      add_configured-IsLive scheduler none p g = c
      add_configured-IsLive scheduler (some d) p g = elim (Bool-cases d.enabled) [
        | inl on ↦ rw on (register_job-IsLive scheduler d (cron_job runtime store id d) refl g p on)
        | inr off ↦ rw off c
      ]

      add_scheduler-IsLive :
          (o : Option CronScheduler)
          → get_cron_scheduler id store ≡ o
          → ActiveIsLive store (add_scheduler runtime store id m o).1
      unfolding add_scheduler
      add_scheduler-IsLive none g = c
      add_scheduler-IsLive (some scheduler) g =
          add_configured-IsLive scheduler scheduler.payload refl g

      pub added-IsLive : ActiveIsLive store (add_scheduler_from_local runtime store id m).1
      unfolding add_scheduler_from_local
      added-IsLive =
          add_scheduler-IsLive (get_cron_scheduler id store) (unfold get_cron_scheduler in refl)

    module _ (store store' : LocalConfigStore) (m : SchedulerManager runtime)
        (c : ActiveIsLive store m) (id : CronSchedulerId) (only : ChangesOnly id store store') where
      -- Two schedulers have two jobs.
      jobs_differ :
          (j : CronSchedulerId) (removed handle : JobHandle Uuid)
          → j ≢ id
          → get id m.active_jobs ≡ some removed
          → get j m.active_jobs ≡ some handle
          → removed.job_id ≢ handle.job_id
      jobs_differ j removed handle ne g h same =
          let k = c id removed g in
          let l = c j handle h in
          let held : some k.job ≡ some l.job =
            sym k.held ∙ (ap (λ u. holds u m.scheduler) same ∙ l.held) in
          let jobs : k.job ≡ l.job = cc held in
          ne (sym l.runs.0 ∙ (ap (λ x. x.scheduler_id) (sym jobs) ∙ k.runs.0))

      left :
          (j : CronSchedulerId) (handle : JobHandle Uuid)
          → get j (remove id m.active_jobs) ≡ some handle
          → (j ≢ id) × (get j m.active_jobs ≡ some handle)
      left j handle h =
          let h' : (if id == j then none else get j m.active_jobs) ≡ some handle =
            rw get-remove at h in
          elim (Bool-cases (id == j)) [
            | inl same ↦ cc (rw same at h')
            | inr other ↦ (λ e. ground (arith, nat_eq_iff id j), rw other at h')
          ]

      remove_handle-IsLive :
          (o : Option (JobHandle Uuid))
          → get id m.active_jobs ≡ o
          → ActiveIsLive store'
              (remove_handle runtime (record m { active_jobs = remove id m.active_jobs }) o).1
      unfolding remove_handle
      remove_handle-IsLive none g j handle h =
          let other = left j handle h in
          let k = c j handle other.1 in
          moved-IsLive store store' m.scheduler m.scheduler j handle k (only j other.0) k.held
      remove_handle-IsLive (some removed) g j handle h =
          let other = left j handle h in
          let k = c j handle other.1 in
          moved-IsLive store store' m.scheduler (remove_job removed.job_id m.scheduler).1 j handle k
            (only j other.0)
            (keeps.kept_by_remove removed.job_id m.scheduler handle.job_id k.job
              (jobs_differ j removed handle other.0 g other.1) k.held)

      removed-IsLive : ActiveIsLive store' (remove_scheduler_by_id runtime id m).1
      unfolding remove_scheduler_by_id
      removed-IsLive = remove_handle-IsLive (get id m.active_jobs) refl

    and_continue-IsLive :
        (store : LocalConfigStore) (id : CronSchedulerId) (o : Outcome runtime)
        → ActiveIsLive store o.1
        → ActiveIsLive store (and_continue runtime o (add_scheduler_from_local runtime store id)).1
    and_continue-IsLive store id (ok u, m) c = added-IsLive store m c id
    and_continue-IsLive store id (err e, m) c = c

    -- Created, updated and deleted events keep the handles live in a store that has changed at one id.
    pub apply_action-IsLive :
        (store store' : LocalConfigStore) (m : SchedulerManager runtime) (id : CronSchedulerId)
        (a : ChangeAction)
        → ActiveIsLive store m
        → ChangesOnly id store store'
        → (a ≡ created) ⊎ (a ≡ updated) ⊎ (a ≡ deleted)
        → ActiveIsLive store' (apply_action runtime store' a id m).1
    unfolding apply_action
    apply_action-IsLive store store' m id created c only k =
        and_continue-IsLive store' id _ (removed-IsLive store store' m c id only)
    apply_action-IsLive store store' m id updated c only k =
        and_continue-IsLive store' id _ (removed-IsLive store store' m c id only)
    apply_action-IsLive store store' m id deleted c only k = removed-IsLive store store' m c id only
    apply_action-IsLive store store' m id _ c only k = ground arith
