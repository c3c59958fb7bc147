-- ===== src/Conductor/Changes/Holding.antt =====
-- The jobs that the `JobScheduler` holds stay those of the store.
use mathlib.Core.Path.{subst}
use jobworkerp_conductor.Prelude.{
  ℕ, String, ◌≡◌, ◌≢◌, sym, ap, ◌∙◌, Bool, Option, none, some, ℕ-HasEq,
}
use jobworkerp_conductor.HashMap.{get}
use jobworkerp_conductor.Proto.{CronSchedulerId}
use jobworkerp_conductor.Events.{ConfigChangeEventWrapper, create_cron_scheduler_deleted}
use jobworkerp_conductor.Store.{LocalConfigStore}
use jobworkerp_conductor.Slack.Cache.{Patterns}
use jobworkerp_conductor.Conductor.Scheduler.{CronRuntime, CronJob, SchedulerManager}
use jobworkerp_conductor.Conductor.Scheduler.Held.{KeepsJobs, HeldIsTracked, apply_action-IsTracked}
use jobworkerp_conductor.Conductor.Changes.{Conductor, handle_config_change_event}
use jobworkerp_conductor.Conductor.Changes.Keeping.{
  SchedulerKeeps, handle_config_change_event-Keeps,
}
use jobworkerp_conductor.Conductor.Changes.Starting.{delete-drops_handle}
use jobworkerp_conductor.Conductor.Changes.StoredCron.{SameCron}

module _ (runtime : CronRuntime)
    (holds : runtime.Uuid → runtime.Jobs → Option (CronJob runtime.Tz)) where
  HeldIsTracked-SameCron :
      (s s' : LocalConfigStore) (m : SchedulerManager runtime)
      → SameCron s s'
      → HeldIsTracked runtime holds s m
      → HeldIsTracked runtime holds s' m
  HeldIsTracked-SameCron s s' m same c uuid job h =
      let k = c uuid job h in
      record {
        id = k.id;
        handle = k.handle;
        scheduler = k.scheduler;
        config = k.config;
        active = k.active;
        same_job = k.same_job;
        found = same k.id ∙ k.found;
        has_config = k.has_config;
        is_enabled = k.is_enabled;
        runs = k.runs;
      }

  module _ (patterns : Patterns) (connects : String → Bool) (now : ℕ) (display : ℕ → String)
      (keeps : KeepsJobs runtime holds) where
    -- Every job that is held is tracked, once there is a scheduler manager.
    abbrev pub JobsAreTracked : Conductor runtime patterns connects → Type 0
    JobsAreTracked c =
        SchedulerKeeps runtime (HeldIsTracked runtime holds) c.store c.scheduler_manager

    -- If every job that the job scheduler holds is that of an enabled scheduler of the store, runs its
    -- configuration and has its handle, so it is after `handle_config_change_event`, whatever event
    -- comes, also one that ends in an error, and whichever jobs are refused, if an added job comes
    -- under its own id, a refused one not at all, and a job that is asked to be removed is gone.
    pub handle_config_change_event-JobsAreTracked :
        (event : ConfigChangeEventWrapper) (c : Conductor runtime patterns connects)
        → JobsAreTracked c
        → JobsAreTracked
            (handle_config_change_event runtime patterns connects display now event c).1
    handle_config_change_event-JobsAreTracked =
        handle_config_change_event-Keeps runtime (HeldIsTracked runtime holds)
          HeldIsTracked-SameCron (apply_action-IsTracked runtime holds keeps) patterns connects now
          display

    -- In a conductor with a scheduler manager, if every job that is held is tracked, then after the
    -- event of a deleted cron scheduler the job scheduler holds no job of it, under the same
    -- conditions on the job scheduler.
    pub delete-stops :
        (created_at : ℕ) (name : String) (id : CronSchedulerId)
        (c : Conductor runtime patterns connects) (m : SchedulerManager runtime)
        → c.scheduler_manager ≡ some m
        → JobsAreTracked c
        → (m' : SchedulerManager runtime) × ((handle_config_change_event runtime patterns connects
              display now
              (create_cron_scheduler_deleted created_at name (some id))
              c).1.scheduler_manager
            ≡ some m')
          × ((uuid : runtime.Uuid) (job : CronJob runtime.Tz)
              → holds uuid m'.scheduler ≡ some job
              → job.scheduler_id ≢ id)
    delete-stops created_at name id c m has_manager tracked =
        let dropped =
          delete-drops_handle runtime patterns connects display now created_at name id c m
            has_manager in
        let event = create_cron_scheduler_deleted created_at name (some id) in
        let after = (handle_config_change_event runtime patterns connects display now event c).1 in
        let held : HeldIsTracked runtime holds after.store dropped.0 =
          subst (SchedulerKeeps runtime (HeldIsTracked runtime holds) after.store) dropped.1
            (handle_config_change_event-JobsAreTracked event c tracked) in
        (
          dropped.0,
          dropped.1,
          λ uuid job h same.
              let k = held uuid job h in
              let ids : k.id ≡ id = sym k.runs.0 ∙ same in
              let gone : some k.handle ≡ none =
                sym k.active ∙ (ap (λ i. get i dropped.0.active_jobs) ids ∙ dropped.2) in
              cc gone,
        )
