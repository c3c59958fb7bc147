-- ===== src/Conductor/Server.antt =====
-- `EventHandlerServerManager` (jobworkerp-conductor/src/initialization/layer.rs): start, stop and the
-- loop that receives change events. A start or a stop runs whole, and so does the handling of one
-- event; any order of them is a list of actions.
pub mod Keeping
pub mod Current
pub mod Running
pub mod Restart
pub mod Listening
mod Tests
use jobworkerp_conductor.Prelude.{
  ℕ, String, Bool, true, false, Option, none, some, List, [], ◌∷◌, Result, ok, err, if◌then◌else◌,
  ◌+◌, zero, suc,
}
use jobworkerp_conductor.Proto.{
  CronScheduler, CronSchedulerData, CronSchedulerId, WorkerResultHandler, WorkerResultHandlerData,
  WorkerResultHandlerId,
}
use jobworkerp_conductor.Registry
use jobworkerp_conductor.Events.{ConfigChangeEventWrapper}
use jobworkerp_conductor.Execution.Target.{is_empty}
use jobworkerp_conductor.Store.{LocalConfigStore}
use jobworkerp_conductor.Store.Snapshots.{create_snapshot}
use jobworkerp_conductor.Slack.Cache.{Patterns}
use jobworkerp_conductor.Slack.Manager.{SlackManager, start_slack}
use jobworkerp_conductor.Conductor.Scheduler.{
  CronRuntime, SchedulerManager, new_manager, add_scheduler_from_local,
}
use jobworkerp_conductor.Conductor.Listener.{Listeners, add_listener_from_local, stop_all}
use jobworkerp_conductor.Conductor.Changes.{Conductor, handle_config_change_event}

module _ (runtime : CronRuntime) (patterns : Patterns) (connects : String → Bool) where
  open runtime use {Failure, Jobs}

  -- `receivers` counts the spawned loops that receive change events.
  pub record Server : Type 0 where
    pub conductor : Conductor runtime patterns connects
    pub is_running : Bool
    pub receivers : ℕ

  pub data ServerError : Type 0 where
    already_running subscribe_failed : ServerError
    scheduler_failed : Failure → ServerError

  -- What a start finds: the clock, the environment's SLACK_APP_TOKEN, whether a Socket Mode listener
  -- can be made, the answer of `JobScheduler::start`, and whether the subscription succeeds.
  pub record Surroundings : Type 0 where
    pub now : ℕ
    pub app_token : Option String
    pub opens : String → Bool
    pub start_jobs : Jobs → Result Failure (Unit {0})
    pub subscribes : Bool

  abbrev pub Started : Type 0
  Started = Result ServerError (Unit {0}) × Server

  unfoldable pub new_server : LocalConfigStore → Option (SlackManager patterns) → Server
  new_server store slack = record {
    conductor = record {
      store = store;
      scheduler_manager = none;
      listeners = [];
      slack_handler_manager = slack;
    };
    is_running = false;
    receivers = 0;
  }

  -- One pass of the loop of `start_initial_listeners`: an error is logged.
  unfoldable pub start_listener :
      LocalConfigStore
      → Option WorkerResultHandlerId
      → Option WorkerResultHandlerData
      → Listeners
      → Listeners
  unfolding add_listener_from_local
  start_listener store (some id) (some d) m =
      if d.enabled then (add_listener_from_local connects store id m).1 else m
  start_listener store _ _ m = m

  unfoldable pub start_listeners :
      LocalConfigStore → List WorkerResultHandler → Listeners → Listeners
  unfolding start_listener
  start_listeners store [] m = m
  start_listeners store (h ∷ rest) m =
      start_listeners store rest (start_listener store h.id h.payload m)

  unfoldable pub start_initial_listeners : LocalConfigStore → Listeners → Listeners
  unfolding start_listeners
  start_initial_listeners store =
      start_listeners store (Registry.get_all store.worker_result_handlers.entities)

  -- One pass of the loop of `start_initial_schedulers`.
  unfoldable pub start_scheduler :
      LocalConfigStore
      → Option CronSchedulerId
      → Option CronSchedulerData
      → SchedulerManager runtime
      → SchedulerManager runtime
  unfolding add_scheduler_from_local
  start_scheduler store (some id) (some d) m =
      if d.enabled then (add_scheduler_from_local runtime store id m).1 else m
  start_scheduler store _ _ m = m

  unfoldable pub start_schedulers :
      LocalConfigStore → List CronScheduler → SchedulerManager runtime → SchedulerManager runtime
  unfolding start_scheduler
  start_schedulers store [] m = m
  start_schedulers store (s ∷ rest) m =
      start_schedulers store rest (start_scheduler store s.id s.payload m)

  unfoldable pub start_initial_schedulers :
      LocalConfigStore → SchedulerManager runtime → SchedulerManager runtime
  unfolding start_schedulers
  start_initial_schedulers store =
      start_schedulers store (Registry.get_all store.cron_schedulers.entities)

  -- `if self.scheduler_manager.is_none()`
  abbrev pub manager_or_new : Option (SchedulerManager runtime) → SchedulerManager runtime
  manager_or_new none = new_manager runtime
  manager_or_new (some m) = m

  -- The error of the Slack manager is logged.
  unfoldable pub start_slack_manager :
      Surroundings → LocalConfigStore → SlackManager patterns → SlackManager patterns
  unfolding start_slack
  start_slack_manager around store m = elim around.app_token [
    | none ↦ m
    | some token ↦
        if is_empty token
        then m
        else (start_slack patterns around.opens around.now around.app_token store m).1
  ]

  unfoldable pub start_slack_handler :
      Surroundings
      → LocalConfigStore
      → Option (SlackManager patterns)
      → Option (SlackManager patterns)
  unfolding start_slack_manager
  start_slack_handler around store none = none
  start_slack_handler around store (some m) = some (start_slack_manager around store m)

  unfoldable pub start_notification_listener : Surroundings → Server → Started
  start_notification_listener around s =
      if around.subscribes
      then (ok tt, record s { receivers = s.receivers + 1 })
      else (err subscribe_failed, s)

  -- The rest of the start after `scheduler_manager.start().await?`.
  unfoldable pub after_schedulers : Surroundings → Result Failure (Unit {0}) → Server → Started
  unfolding start_slack_handler start_notification_listener
  after_schedulers around (err e) s = (err (scheduler_failed e), s)
  after_schedulers around (ok u) s = start_notification_listener around (record s {
    conductor = record s.conductor {
      slack_handler_manager =
          start_slack_handler around s.conductor.store s.conductor.slack_handler_manager;
    };
  })

  -- The conductor once the listeners and the cron jobs are started.
  unfoldable pub start_managers :
      ℕ
      → Conductor runtime patterns connects
      → SchedulerManager runtime
      → Conductor runtime patterns connects
  unfolding create_snapshot start_initial_listeners start_initial_schedulers
  start_managers now c m =
      let store = create_snapshot now "Initial startup snapshot" c.store in
      record c {
        store = store;
        listeners = start_initial_listeners store c.listeners;
        scheduler_manager = some (start_initial_schedulers store m);
      }

  -- The flag is lowered again after an error; all else that was started stays.
  unfoldable pub roll_back : Started → Started
  roll_back (ok u, s) = (ok u, s)
  roll_back (err e, s) = (err e, record s { is_running = false })

  -- The start from `scheduler_manager.start().await?` on, with the roll back.
  unfoldable pub finish_start :
      Surroundings
      → Server
      → Conductor runtime patterns connects
      → SchedulerManager runtime
      → Started
  unfolding after_schedulers roll_back
  finish_start around s c m = roll_back (
      after_schedulers around (around.start_jobs m.scheduler)
        (record s { conductor = c; is_running = true }))

  unfoldable pub start_stopped : Surroundings → Server → Started
  unfolding start_managers finish_start
  start_stopped around s =
      let m = manager_or_new s.conductor.scheduler_manager in
      let c = start_managers around.now s.conductor m in
      finish_start around s c (start_initial_schedulers c.store m)

  unfoldable pub start : Surroundings → Server → Started
  unfolding start_stopped
  start around s = if s.is_running then (err already_running, s) else start_stopped around s

  -- The listeners are stopped; the cron jobs, Slack and the receivers are not.
  unfoldable pub stop : ℕ → Server → Server
  unfolding create_snapshot stop_all
  stop now s =
      if s.is_running
      then record s {
        conductor = record s.conductor {
          store = create_snapshot now "Before shutdown snapshot" s.conductor.store;
          listeners = stop_all connects s.conductor.listeners;
        };
        is_running = false;
      }
      else s

  -- Every receiver handles a published event; an error ends the handling of it only.
  unfoldable pub receive :
      (ℕ → String)
      → ℕ
      → ConfigChangeEventWrapper
      → ℕ
      → Conductor runtime patterns connects
      → Conductor runtime patterns connects
  unfolding handle_config_change_event
  receive display now event zero c = c
  receive display now event (suc n) c =
      receive display now event n
        (handle_config_change_event runtime patterns connects display now event c).1

  pub data Action : Type 0 where
    starting : Surroundings → Action
    stopping : ℕ → Action
    publishing : ℕ → ConfigChangeEventWrapper → Action

  module _ (display : ℕ → String) where
    unfoldable pub act : Action → Server → Server
    unfolding start stop receive
    act (starting around) s = (start around s).1
    act (stopping now) s = stop now s
    act (publishing now event) s = record s {
      conductor = receive display now event s.receivers s.conductor;
    }

    unfoldable pub run : List Action → Server → Server
    unfolding act
    run [] s = s
    run (a ∷ rest) s = run rest (act a s)
