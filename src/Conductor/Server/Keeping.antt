-- ===== src/Conductor/Server/Keeping.antt =====
-- What every start, stop and change event keeps true of the scheduler manager and the store: `P` is
-- such a property. It holds of a new manager and survives additions, actions on one id, and changes
-- of other entities.
use jobworkerp_conductor.Prelude.{
  ℕ, String, ◌≡◌, ◌⊎◌, refl, Bool, true, Option, none, some, List, [], ◌∷◌, Result, ok, err, zero,
  suc, inl, inr, Bool-cases, if-both,
}
use jobworkerp_conductor.Proto.{CronScheduler, CronSchedulerData, CronSchedulerId}
use jobworkerp_conductor.Registry
use jobworkerp_conductor.Events.{ConfigChangeEventWrapper, ChangeAction, created, updated, deleted}
use jobworkerp_conductor.Store.{LocalConfigStore, get_cron_scheduler}
use jobworkerp_conductor.Store.Snapshots.{create_snapshot}
use jobworkerp_conductor.Slack.Cache.{Patterns}
use jobworkerp_conductor.Slack.Manager.{SlackManager}
use jobworkerp_conductor.Conductor.Scheduler.{
  CronRuntime, SchedulerManager, new_manager, apply_action, add_scheduler_from_local,
}
use jobworkerp_conductor.Conductor.Scheduler.Sync.{ChangesOnly}
use jobworkerp_conductor.Conductor.Changes.{Conductor}
use jobworkerp_conductor.Conductor.Changes.Keeping.{
  SchedulerKeeps, handle_config_change_event-Keeps,
}
use jobworkerp_conductor.Conductor.Changes.StoredCron.{SameCron}
use jobworkerp_conductor.Conductor.Server.{
  Server, Surroundings, Started, Action, starting, stopping, publishing, new_server,
  start_scheduler, start_schedulers, start_initial_schedulers, manager_or_new, start_managers,
  after_schedulers, start_notification_listener, roll_back, finish_start, start_stopped, start,
  stop, receive, act, run,
}

module _ (runtime : CronRuntime) (patterns : Patterns) (connects : String → Bool)
    (P : LocalConfigStore → SchedulerManager runtime → Type 0) where
  abbrev pub ConductorKeeps : Conductor runtime patterns connects → Type 0
  ConductorKeeps c = SchedulerKeeps runtime P c.store c.scheduler_manager

  abbrev pub ServerKeeps : Server runtime patterns connects → Type 0
  ServerKeeps s = ConductorKeeps s.conductor

module _ (runtime : CronRuntime) (patterns : Patterns) (connects : String → Bool)
    (P : LocalConfigStore → SchedulerManager runtime → Type 0)
    (same_cron : (s s' : LocalConfigStore) (m : SchedulerManager runtime)
      → SameCron s s'
      → P s m
      → P s' m)
    (acts : (s s' : LocalConfigStore) (m : SchedulerManager runtime) (id : CronSchedulerId)
        (a : ChangeAction)
      → P s m
      → ChangesOnly id s s'
      → (a ≡ created) ⊎ (a ≡ updated) ⊎ (a ≡ deleted)
      → P s' (apply_action runtime s' a id m).1)
    (adds : (s : LocalConfigStore) (m : SchedulerManager runtime) (id : CronSchedulerId)
      → P s m
      → P s (add_scheduler_from_local runtime s id m).1)
    (empty : (s : LocalConfigStore) → P s (new_manager runtime)) where
  start_scheduler-Keeps :
      (store : LocalConfigStore) (id : Option CronSchedulerId) (d : Option CronSchedulerData)
      (m : SchedulerManager runtime)
      → P store m
      → P store (start_scheduler runtime patterns connects store id d m)
  unfolding start_scheduler
  start_scheduler-Keeps store (some id) (some d) m c = elim (Bool-cases d.enabled) [
    | inl on ↦ rw on (adds store m id c)
    | inr off ↦ rw off c
  ]
  start_scheduler-Keeps store none d m c = c
  start_scheduler-Keeps store (some id) none m c = c

  start_schedulers-Keeps :
      (store : LocalConfigStore) (schedulers : List CronScheduler) (m : SchedulerManager runtime)
      → P store m
      → P store (start_schedulers runtime patterns connects store schedulers m)
  unfolding start_schedulers
  start_schedulers-Keeps store [] m c = c
  start_schedulers-Keeps store (s ∷ rest) m c =
      start_schedulers-Keeps store rest _ (start_scheduler-Keeps store s.id s.payload m c)

  manager_or_new-Keeps :
      (store : LocalConfigStore) (o : Option (SchedulerManager runtime))
      → SchedulerKeeps runtime P store o
      → P store (manager_or_new runtime patterns connects o)
  manager_or_new-Keeps store none c = empty store
  manager_or_new-Keeps store (some m) c = c

  snapshot-Keeps :
      (now : ℕ) (why : String) (store : LocalConfigStore) (o : Option (SchedulerManager runtime))
      → SchedulerKeeps runtime P store o
      → SchedulerKeeps runtime P (create_snapshot now why store) o
  unfolding create_snapshot get_cron_scheduler
  snapshot-Keeps now why store none c = tt
  snapshot-Keeps now why store (some m) c = same_cron store _ m (λ j. refl) c

  start_managers-Keeps :
      (now : ℕ) (c : Conductor runtime patterns connects)
      → ConductorKeeps runtime patterns connects P c
      → ConductorKeeps runtime patterns connects P (
          start_managers runtime patterns connects now c
            (manager_or_new runtime patterns connects c.scheduler_manager))
  unfolding start_managers start_initial_schedulers
  start_managers-Keeps now c current =
      start_schedulers-Keeps _
        (Registry.get_all
          (create_snapshot now "Initial startup snapshot" c.store).cron_schedulers.entities)
        (manager_or_new runtime patterns connects c.scheduler_manager)
        (manager_or_new-Keeps _ c.scheduler_manager
          (snapshot-Keeps now "Initial startup snapshot" c.store c.scheduler_manager current))

  roll_back-Keeps :
      (r : Started runtime patterns connects)
      → ServerKeeps runtime patterns connects P r.1
      → ServerKeeps runtime patterns connects P (roll_back runtime patterns connects r).1
  unfolding roll_back
  roll_back-Keeps (ok u, s) c = c
  roll_back-Keeps (err e, s) c = c

  subscribed-Keeps :
      (around : Surroundings runtime patterns connects) (s : Server runtime patterns connects)
      → ServerKeeps runtime patterns connects P s
      → ServerKeeps runtime patterns connects P
          (start_notification_listener runtime patterns connects around s).1
  unfolding start_notification_listener
  subscribed-Keeps around s c =
      if-both {A = Started runtime patterns connects}
        (λ r. ServerKeeps runtime patterns connects P r.1) around.subscribes _ _ c c

  after_schedulers-Keeps :
      (around : Surroundings runtime patterns connects) (r : Result runtime.Failure (Unit {0}))
      (s : Server runtime patterns connects)
      → ServerKeeps runtime patterns connects P s
      → ServerKeeps runtime patterns connects P
          (after_schedulers runtime patterns connects around r s).1
  unfolding after_schedulers
  after_schedulers-Keeps around (ok u) s c = subscribed-Keeps around _ c
  after_schedulers-Keeps around (err e) s c = c

  finish_start-Keeps :
      (around : Surroundings runtime patterns connects) (s : Server runtime patterns connects)
      (c : Conductor runtime patterns connects) (m : SchedulerManager runtime)
      → ConductorKeeps runtime patterns connects P c
      → ServerKeeps runtime patterns connects P
          (finish_start runtime patterns connects around s c m).1
  unfolding finish_start
  finish_start-Keeps around s c m current =
      let s' : Server runtime patterns connects = record s { conductor = c; is_running = true } in
      roll_back-Keeps
        (after_schedulers runtime patterns connects around (around.start_jobs m.scheduler) s')
        (after_schedulers-Keeps around (around.start_jobs m.scheduler) s' current)

  start-Keeps :
      (around : Surroundings runtime patterns connects) (s : Server runtime patterns connects)
      → ServerKeeps runtime patterns connects P s
      → ServerKeeps runtime patterns connects P (start runtime patterns connects around s).1
  unfolding start start_stopped
  start-Keeps around s c =
      let m = manager_or_new runtime patterns connects s.conductor.scheduler_manager in
      let started = start_managers runtime patterns connects around.now s.conductor m in
      if-both {A = Started runtime patterns connects}
        (λ r. ServerKeeps runtime patterns connects P r.1) s.is_running _ _ c
        (finish_start-Keeps around s started
          (start_initial_schedulers runtime patterns connects started.store m)
          (start_managers-Keeps around.now s.conductor c))

  stop-Keeps :
      (now : ℕ) (s : Server runtime patterns connects)
      → ServerKeeps runtime patterns connects P s
      → ServerKeeps runtime patterns connects P (stop runtime patterns connects now s)
  unfolding stop
  stop-Keeps now s c =
      if-both (ServerKeeps runtime patterns connects P) s.is_running _ _
        (snapshot-Keeps now "Before shutdown snapshot" s.conductor.store
          s.conductor.scheduler_manager c)
        c

  module _ (display : ℕ → String) where
    receive-Keeps :
        (now : ℕ) (event : ConfigChangeEventWrapper) (n : ℕ)
        (c : Conductor runtime patterns connects)
        → ConductorKeeps runtime patterns connects P c
        → ConductorKeeps runtime patterns connects P
            (receive runtime patterns connects display now event n c)
    unfolding receive
    receive-Keeps now event zero c current = current
    receive-Keeps now event (suc n) c current = receive-Keeps now event n _ (
        handle_config_change_event-Keeps runtime P same_cron acts patterns connects now display
          event c current)

    act-Keeps :
        (a : Action runtime patterns connects) (s : Server runtime patterns connects)
        → ServerKeeps runtime patterns connects P s
        → ServerKeeps runtime patterns connects P (act runtime patterns connects display a s)
    unfolding act
    act-Keeps (starting around) s c = start-Keeps around s c
    act-Keeps (stopping now) s c = stop-Keeps now s c
    act-Keeps (publishing now event) s c = receive-Keeps now event s.receivers s.conductor c

    run_from-Keeps :
        (actions : List (Action runtime patterns connects)) (s : Server runtime patterns connects)
        → ServerKeeps runtime patterns connects P s
        → ServerKeeps runtime patterns connects P (run runtime patterns connects display actions s)
    unfolding run
    run_from-Keeps [] s c = c
    run_from-Keeps (a ∷ rest) s c = run_from-Keeps rest _ (act-Keeps a s c)

    pub run-Keeps :
        (store : LocalConfigStore) (slack : Option (SlackManager patterns))
        (actions : List (Action runtime patterns connects))
        → ServerKeeps runtime patterns connects P (
            run runtime patterns connects display actions
              (new_server runtime patterns connects store slack))
    run-Keeps store slack actions = run_from-Keeps actions _ (unfold new_server in tt)
