-- ===== src/Conductor/Server/Restart.antt =====
-- What a stop followed by a start does to the cron jobs.
use jobworkerp_conductor.Prelude.{
  ℕ, String, ◌≡◌, refl, ap, ◌∙◌, Bool, true, false, Option, none, some, List, [], ◌∷◌, ◌++◌, Result,
  ok, err, if◌then◌else◌, inl, inr, Bool-cases, if-both, if_true,
}
use jobworkerp_conductor.Proto.{CronScheduler, CronSchedulerData, CronSchedulerId}
use jobworkerp_conductor.Registry
use jobworkerp_conductor.Store.{LocalConfigStore, get_cron_scheduler, get_jobworkerp_server}
use jobworkerp_conductor.Store.Snapshots.{create_snapshot}
use jobworkerp_conductor.Slack.Cache.{Patterns}
use jobworkerp_conductor.Conductor.Scheduler.{
  CronRuntime, CronJob, SchedulerManager, SchedulerError, cron_job, keep_handle, register_job,
  add_configured, add_scheduler, add_scheduler_from_local,
}
use jobworkerp_conductor.Conductor.Listener.{stop_all}
use jobworkerp_conductor.Conductor.Changes.{Conductor}
use jobworkerp_conductor.Conductor.Server.{
  Server, Surroundings, start_scheduler, start_schedulers, start_initial_schedulers, manager_or_new,
  start_managers, after_schedulers, start_notification_listener, roll_back, finish_start,
  start_stopped, start, stop, Started,
}

module _ (runtime : CronRuntime) (patterns : Patterns) (connects : String → Bool) where
  open runtime use {Tz, Jobs, add}

  module _ (accepts : CronJob Tz → Bool) where
    -- The job that is added, if there is one to add and it is accepted.
    abbrev pub accepted_job :
        Result (SchedulerError runtime.Failure) (CronJob Tz) → List (CronJob Tz)
    accepted_job (err e) = []
    accepted_job (ok job) = if accepts job then job ∷ [] else []

    abbrev pub configured_job :
        LocalConfigStore → CronSchedulerId → Option CronSchedulerData → List (CronJob Tz)
    configured_job store id none = []
    configured_job store id (some d) =
        if d.enabled then accepted_job (cron_job runtime store id d) else []

    abbrev pub stored_job :
        LocalConfigStore → CronSchedulerId → Option CronScheduler → List (CronJob Tz)
    stored_job store id none = []
    stored_job store id (some scheduler) = configured_job store id scheduler.payload

    abbrev pub started_job :
        LocalConfigStore → Option CronSchedulerId → Option CronSchedulerData → List (CronJob Tz)
    started_job store (some id) (some d) =
        if d.enabled then stored_job store id (get_cron_scheduler id store) else []
    started_job store _ _ = []

    -- The jobs of the schedulers that are enabled, have their server and are accepted.
    abbrev pub started_jobs : LocalConfigStore → List CronScheduler → List (CronJob Tz)
    started_jobs store [] = []
    started_jobs store (s ∷ rest) = started_jobs store rest ++ started_job store s.id s.payload

  append_assoc : {A : Type 0} (xs ys zs : List A) → xs ++ (ys ++ zs) ≡ (xs ++ ys) ++ zs
  append_assoc [] ys zs = refl
  append_assoc (x ∷ xs) ys zs = ap (λ l. x ∷ l) (append_assoc xs ys zs)

  module _ (held : Jobs → List (CronJob Tz)) (accepts : CronJob Tz → Bool)
      (adds : (job : CronJob Tz) (jobs : Jobs)
        → held (add job jobs).1 ≡ (if accepts job then job ∷ held jobs else held jobs)) where
    kept-jobs :
        (id : CronSchedulerId) (s : CronScheduler) (job : CronJob Tz) (m : SchedulerManager runtime)
        (added : Result runtime.Failure runtime.Uuid) (jobs : Jobs)
        → (keep_handle runtime id s job m added jobs).1.scheduler ≡ jobs
    unfolding keep_handle
    kept-jobs id s job m (ok uuid) jobs = refl
    kept-jobs id s job m (err e) jobs = refl

    accepted-held :
        (job : CronJob Tz) (js : List (CronJob Tz))
        → (if accepts job then job ∷ js else js) ≡ accepted_job accepts (ok job) ++ js
    accepted-held job js = elim (Bool-cases (accepts job)) [
      | inl taken ↦ rw taken refl
      | inr refused ↦ rw refused refl
    ]

    registered-held :
        (id : CronSchedulerId) (s : CronScheduler) (m : SchedulerManager runtime)
        (planned : Result (SchedulerError runtime.Failure) (CronJob Tz))
        → held (register_job runtime id s m planned).1.scheduler
          ≡ accepted_job accepts planned ++ held m.scheduler
    unfolding register_job
    registered-held id s m (err e) = refl
    registered-held id s m (ok job) =
        ap held (kept-jobs id s job m (add job m.scheduler).0 (add job m.scheduler).1)
        ∙ adds job m.scheduler
        ∙ accepted-held job (held m.scheduler)

    configured-held :
        (store : LocalConfigStore) (id : CronSchedulerId) (s : CronScheduler)
        (m : SchedulerManager runtime) (o : Option CronSchedulerData)
        → held (add_configured runtime store id s m o).1.scheduler
          ≡ configured_job accepts store id o ++ held m.scheduler
    unfolding add_configured
    configured-held store id s m none = refl
    configured-held store id s m (some d) = elim (Bool-cases d.enabled) [
      | inl on ↦ rw on (registered-held id s m (cron_job runtime store id d))
      | inr off ↦ rw off refl
    ]

    added-held :
        (store : LocalConfigStore) (id : CronSchedulerId) (m : SchedulerManager runtime)
        (o : Option CronScheduler)
        → held (add_scheduler runtime store id m o).1.scheduler
          ≡ stored_job accepts store id o ++ held m.scheduler
    unfolding add_scheduler
    added-held store id m none = refl
    added-held store id m (some s) = configured-held store id s m s.payload

    started-held :
        (store : LocalConfigStore) (id : Option CronSchedulerId) (o : Option CronSchedulerData)
        (m : SchedulerManager runtime)
        → held (start_scheduler runtime patterns connects store id o m).scheduler
          ≡ started_job accepts store id o ++ held m.scheduler
    unfolding start_scheduler add_scheduler_from_local
    started-held store none o m = refl
    started-held store (some id) none m = refl
    started-held store (some id) (some d) m = elim (Bool-cases d.enabled) [
      | inl on ↦ rw on (added-held store id m (get_cron_scheduler id store))
      | inr off ↦ rw off refl
    ]

    all_started-held :
        (store : LocalConfigStore) (schedulers : List CronScheduler) (m : SchedulerManager runtime)
        → held (start_schedulers runtime patterns connects store schedulers m).scheduler
          ≡ started_jobs accepts store schedulers ++ held m.scheduler
    unfolding start_schedulers
    all_started-held store [] m = refl
    all_started-held store (s ∷ rest) m =
        all_started-held store rest _
        ∙ ap (λ js. started_jobs accepts store rest ++ js) (started-held store s.id s.payload m)
        ∙ append_assoc (started_jobs accepts store rest) (started_job accepts store s.id s.payload)
            (held m.scheduler)

    -- The jobs of the scheduler manager, once there is one.
    abbrev pub jobs_of : Option (SchedulerManager runtime) → Option (List (CronJob Tz))
    jobs_of none = none
    jobs_of (some m) = some (held m.scheduler)

    rolled_back-jobs :
        (r : Started runtime patterns connects)
        → (roll_back runtime patterns connects r).1.conductor ≡ r.1.conductor
    unfolding roll_back
    rolled_back-jobs (ok u, s) = refl
    rolled_back-jobs (err e, s) = refl

    subscribed-jobs :
        (around : Surroundings runtime patterns connects) (s : Server runtime patterns connects)
        → (start_notification_listener runtime patterns connects around s).1.conductor ≡ s.conductor
    unfolding start_notification_listener
    subscribed-jobs around s =
        if-both {A = Started runtime patterns connects} (λ r. r.1.conductor ≡ s.conductor)
          around.subscribes _ _ refl refl

    after_schedulers-jobs :
        (around : Surroundings runtime patterns connects) (r : Result runtime.Failure (Unit {0}))
        (s : Server runtime patterns connects)
        → (after_schedulers runtime patterns connects around r s).1.conductor.scheduler_manager
          ≡ s.conductor.scheduler_manager
    unfolding after_schedulers
    after_schedulers-jobs around (ok u) s = ap (λ c. c.scheduler_manager) (subscribed-jobs around _)
    after_schedulers-jobs around (err e) s = refl

    finish_start-jobs :
        (around : Surroundings runtime patterns connects) (s : Server runtime patterns connects)
        (c : Conductor runtime patterns connects) (m : SchedulerManager runtime)
        → (finish_start runtime patterns connects around s c m).1.conductor.scheduler_manager
          ≡ c.scheduler_manager
    unfolding finish_start
    finish_start-jobs around s c m =
        let s' : Server runtime patterns connects = record s { conductor = c; is_running = true } in
        ap (λ c. c.scheduler_manager)
          (rolled_back-jobs
            (after_schedulers runtime patterns connects around (around.start_jobs m.scheduler) s'))
        ∙ after_schedulers-jobs around (around.start_jobs m.scheduler) s'

    start_stopped-jobs :
        (around : Surroundings runtime patterns connects) (s : Server runtime patterns connects)
        → (start_stopped runtime patterns connects around s).1.conductor.scheduler_manager
          ≡ some (
              start_initial_schedulers runtime patterns connects
                (create_snapshot around.now "Initial startup snapshot" s.conductor.store)
                (manager_or_new runtime patterns connects s.conductor.scheduler_manager))
    unfolding start_stopped start_managers
    start_stopped-jobs around s =
        let m = manager_or_new runtime patterns connects s.conductor.scheduler_manager in
        let c = start_managers runtime patterns connects around.now s.conductor m in
        finish_start-jobs around s c (start_initial_schedulers runtime patterns connects c.store m)

    started_job-snapshot :
        (now : ℕ) (why : String) (store : LocalConfigStore) (id : Option CronSchedulerId)
        (o : Option CronSchedulerData)
        → started_job accepts (create_snapshot now why store) id o ≡ started_job accepts store id o
    unfolding create_snapshot get_cron_scheduler cron_job get_jobworkerp_server
    started_job-snapshot now why store none o = refl
    started_job-snapshot now why store (some id) none = refl
    started_job-snapshot now why store (some id) (some d) = refl

    started_jobs-snapshot :
        (now : ℕ) (why : String) (store : LocalConfigStore) (schedulers : List CronScheduler)
        → started_jobs accepts (create_snapshot now why store) schedulers
          ≡ started_jobs accepts store schedulers
    started_jobs-snapshot now why store [] = refl
    started_jobs-snapshot now why store (s ∷ rest) =
        rw
          (
            started_job-snapshot now why store s.id s.payload,
            started_jobs-snapshot now why store rest,
          )
          refl

    -- The jobs of all schedulers of the store.
    abbrev pub store_jobs : LocalConfigStore → List (CronJob Tz)
    store_jobs store = started_jobs accepts store (Registry.get_all store.cron_schedulers.entities)

    initial-held :
        (now : ℕ) (why : String) (store : LocalConfigStore) (m : SchedulerManager runtime)
        → held
            (start_initial_schedulers runtime patterns connects
              (create_snapshot now why store)
              m).scheduler
          ≡ store_jobs store ++ held m.scheduler
    unfolding start_initial_schedulers create_snapshot
    initial-held now why store m =
        let schedulers = Registry.get_all store.cron_schedulers.entities in
        all_started-held (create_snapshot now why store) schedulers m
        ∙ ap (λ js. js ++ held m.scheduler) (started_jobs-snapshot now why store schedulers)

    stopped-jobs :
        (now : ℕ) (store : LocalConfigStore)
        → store_jobs (create_snapshot now "Before shutdown snapshot" store) ≡ store_jobs store
    unfolding create_snapshot
    stopped-jobs now store =
        started_jobs-snapshot now "Before shutdown snapshot" store
          (Registry.get_all store.cron_schedulers.entities)

    -- What a stop leaves of a server that runs.
    abbrev stopped_server : ℕ → Server runtime patterns connects → Server runtime patterns connects
    stopped_server now s = record s {
      conductor = record s.conductor {
        store = create_snapshot now "Before shutdown snapshot" s.conductor.store;
        listeners = [];
      };
      is_running = false;
    }

    stop-running :
        (now : ℕ) (s : Server runtime patterns connects)
        → s.is_running ≡ true
        → stop runtime patterns connects now s ≡ stopped_server now s
    unfolding stop stop_all
    stop-running now s on = if_true s.is_running _ _ on

    -- If a server that runs and has a scheduler manager is stopped and then started again, then the
    -- job scheduler holds all the jobs that it held before and, before them, one more for each
    -- scheduler of the store that is enabled, has its server and whose job is accepted: whatever
    -- `JobScheduler::start` and the subscription answer, if an accepted job is held after it is added
    -- beside those held before, and one that is not accepted changes nothing.
    pub restart-adds_again :
        (now : ℕ) (around : Surroundings runtime patterns connects)
        (s : Server runtime patterns connects) (m : SchedulerManager runtime)
        → s.is_running ≡ true
        → s.conductor.scheduler_manager ≡ some m
        → jobs_of
            (start runtime patterns connects around
              (stop runtime patterns connects now s)).1.conductor.scheduler_manager
          ≡ some (store_jobs s.conductor.store ++ held m.scheduler)
    unfolding start
    restart-adds_again now around s m on h =
        let stopped : Server runtime patterns connects = stopped_server now s in
        ap (λ s'. jobs_of (start runtime patterns connects around s').1.conductor.scheduler_manager)
          (stop-running now s on)
        ∙ ap jobs_of (start_stopped-jobs around stopped)
        ∙ ap
            (λ o. some (
              held
                (start_initial_schedulers runtime patterns connects
                  (create_snapshot around.now "Initial startup snapshot" stopped.conductor.store)
                  (manager_or_new runtime patterns connects o)).scheduler))
            h
        ∙ ap some (initial-held around.now "Initial startup snapshot" stopped.conductor.store m)
        ∙ ap (λ js. some (js ++ held m.scheduler)) (stopped-jobs now s.conductor.store)
