-- ===== src/Conductor/Changes.antt =====
-- `handle_config_change_event` and the four handlers that it calls
-- (jobworkerp-conductor/src/initialization/layer.rs), over the shared store and the managers. The
-- locks are taken for granted: a handler runs whole. `now` is the clock, and `display` writes a
-- number into the description of the snapshot.
pub mod StoredCron
pub mod Keeping
pub mod Listening
pub mod Starting
pub mod Holding
pub mod Tests
use Prim.Native.String.{◌++◌ as append}
use jobworkerp_conductor.Prelude.{
  ℕ, String, ◌≡◌, Bool, true, false, Option, none, some, Result, ok, err, if◌then◌else◌,
}
use jobworkerp_conductor.HashMap.{HashMap}
use jobworkerp_conductor.Proto.{
  Entity, CronSchedulerData, WorkerResultHandlerData, JobworkerpServerData, SlackEventHandlerData,
}
use jobworkerp_conductor.Events.{
  Event, EntityId, ChangeAction, ChangeEvent, created, updated, deleted, to_i32,
  ConfigChangeEventWrapper,
}
use jobworkerp_conductor.Events.Accessors.{typed_id, action, entity_name}
use jobworkerp_conductor.Store.{
  LocalConfigStore, StoreResult, StoreError, upsert_cron_scheduler, upsert_worker_result_handler,
  upsert_jobworkerp_server, upsert_slack_event_handler, remove_cron_scheduler,
  remove_worker_result_handler, remove_jobworkerp_server, remove_slack_event_handler,
}
use jobworkerp_conductor.Store.Snapshots.{create_snapshot}
use jobworkerp_conductor.Slack.Cache.{Patterns, update_handler_cache_from_event}
use jobworkerp_conductor.Slack.Manager.{SlackManager}
use jobworkerp_conductor.Conductor.Scheduler.{
  CronRuntime, SchedulerManager, update_scheduler_from_event,
}
use jobworkerp_conductor.Conductor.Listener.{Listeners, update_listener_from_event}

pub data ChangeError : Type 0 where
  store_error : StoreError → ChangeError
  unknown_event_type : ChangeError

-- The part of a created or updated event that goes into the store: nothing, when the event has no
-- payload.
abbrev pub store_payload :
    {D R : Type 0}
    → (Entity D → LocalConfigStore → StoreResult)
    → ChangeEvent D R
    → Option D
    → LocalConfigStore
    → StoreResult
store_payload upsert e none s = ok s
store_payload upsert e (some d) s = upsert (record { id = e.id; payload = some d }) s

-- The part of a deleted event that goes into the store: nothing, when the event has no id.
abbrev pub drop_id :
    (ℕ → LocalConfigStore → LocalConfigStore) → Option ℕ → LocalConfigStore → StoreResult
drop_id drop none s = ok s
drop_id drop (some id) s = ok (drop id s)

-- The `match config_event.action()` that the four handlers share.
unfoldable pub store_change :
    {D R : Type 0}
    → (Entity D → LocalConfigStore → StoreResult)
    → (ℕ → LocalConfigStore → LocalConfigStore)
    → ChangeEvent D R
    → ChangeAction
    → LocalConfigStore
    → StoreResult
store_change upsert drop e created s = store_payload upsert e e.payload s
store_change upsert drop e updated s = store_payload upsert e e.payload s
store_change upsert drop e deleted s = drop_id drop e.id s
store_change upsert drop e _ s = ok s

module _ (now : ℕ) where
  -- What each of the four handlers does to the store; an event of another kind changes nothing.
  unfoldable pub store_cron_event : Option Event → LocalConfigStore → StoreResult
  unfolding store_change action
  store_cron_event (some (Event.cron_scheduler e)) s =
      store_change (upsert_cron_scheduler now) (λ id s'. (remove_cron_scheduler now id s').1) e
        (action (some (Event.cron_scheduler e))) s
  store_cron_event _ s = ok s

  unfoldable pub store_result_event : Option Event → LocalConfigStore → StoreResult
  unfolding store_change action
  store_result_event (some (Event.worker_result_handler e)) s =
      store_change (upsert_worker_result_handler now)
        (λ id s'. (remove_worker_result_handler now id s').1) e
        (action (some (Event.worker_result_handler e))) s
  store_result_event _ s = ok s

  unfoldable pub store_server_event : Option Event → LocalConfigStore → StoreResult
  unfolding store_change action
  store_server_event (some (Event.jobworkerp_server e)) s =
      store_change (upsert_jobworkerp_server now) (λ id s'. (remove_jobworkerp_server now id s').1)
        e (action (some (Event.jobworkerp_server e))) s
  store_server_event _ s = ok s

  unfoldable pub store_slack_event : Option Event → LocalConfigStore → StoreResult
  unfolding store_change action
  store_slack_event (some (Event.slack_event_handler e)) s =
      store_change (upsert_slack_event_handler now)
        (λ id s'. (remove_slack_event_handler now id s').1) e
        (action (some (Event.slack_event_handler e))) s
  store_slack_event _ s = ok s

module _ (runtime : CronRuntime) (patterns : Patterns) (connects : String → Bool) where
  -- The shared store and the managers; two of them are there only after the start.
  pub record Conductor : Type 0 where
    pub store : LocalConfigStore
    pub scheduler_manager : Option (SchedulerManager runtime)
    pub listeners : Listeners
    pub slack_handler_manager : Option (SlackManager patterns)

  abbrev pub Handled : Type 0
  Handled = Result ChangeError (Unit {0}) × Conductor

  -- A failing store update ends the handler before its manager is told.
  abbrev pub after_store : Conductor → StoreResult → (LocalConfigStore → Conductor) → Handled
  after_store c (err e) told = (err (store_error e), c)
  after_store c (ok s) told = (ok tt, told s)

  -- The error of a manager is logged only.
  unfoldable pub tell_scheduler :
      Option Event
      → LocalConfigStore
      → Option (SchedulerManager runtime)
      → Option (SchedulerManager runtime)
  unfolding update_scheduler_from_event
  tell_scheduler event s none = none
  tell_scheduler event s (some m) = some (update_scheduler_from_event runtime s event m).1

  unfoldable pub tell_slack :
      ℕ → Option Event → Option (SlackManager patterns) → Option (SlackManager patterns)
  unfolding update_handler_cache_from_event
  tell_slack now event none = none
  tell_slack now event (some m) = some (record m {
    slack_handler_cache =
        (update_handler_cache_from_event patterns now event m.slack_handler_cache).1;
  })

  unfoldable pub handle_cron_scheduler_change : ℕ → Option Event → Conductor → Handled
  unfolding store_cron_event tell_scheduler
  handle_cron_scheduler_change now event c =
      after_store c (store_cron_event now event c.store) (λ s. record c {
        store = s;
        scheduler_manager = tell_scheduler event s c.scheduler_manager;
      })

  unfoldable pub handle_worker_result_handler_change : ℕ → Option Event → Conductor → Handled
  unfolding store_result_event update_listener_from_event
  handle_worker_result_handler_change now event c =
      after_store c (store_result_event now event c.store) (λ s. record c {
        store = s;
        listeners = (update_listener_from_event connects s event c.listeners).1;
      })

  unfoldable pub handle_jobworkerp_server_change : ℕ → Option Event → Conductor → Handled
  unfolding store_server_event
  handle_jobworkerp_server_change now event c =
      after_store c (store_server_event now event c.store) (λ s. record c { store = s })

  unfoldable pub handle_slack_event_handler_change : ℕ → Option Event → Conductor → Handled
  unfolding store_slack_event tell_slack
  handle_slack_event_handler_change now event c =
      after_store c (store_slack_event now event c.store) (λ s. record c {
        store = s;
        slack_handler_manager = tell_slack now event c.slack_handler_manager;
      })

  unfoldable pub dispatch : ℕ → Option Event → Conductor → Handled
  unfolding handle_cron_scheduler_change handle_worker_result_handler_change
      handle_jobworkerp_server_change handle_slack_event_handler_change
  dispatch now (some (Event.cron_scheduler e)) c =
      handle_cron_scheduler_change now (some (Event.cron_scheduler e)) c
  dispatch now (some (Event.worker_result_handler e)) c =
      handle_worker_result_handler_change now (some (Event.worker_result_handler e)) c
  dispatch now (some (Event.jobworkerp_server e)) c =
      handle_jobworkerp_server_change now (some (Event.jobworkerp_server e)) c
  dispatch now (some (Event.slack_event_handler e)) c =
      handle_slack_event_handler_change now (some (Event.slack_event_handler e)) c
  dispatch now none c = (err unknown_event_type, c)

  unfoldable pub snapshot_message : (ℕ → String) → ConfigChangeEventWrapper → String
  unfolding entity_name action
  snapshot_message display event = append "Config change: " (
      append (display (to_i32 (action event.inner)))
        (append " " (append (entity_name event.inner) (append " at " (display event.timestamp)))))

  unfoldable pub handle_config_change_event :
      (ℕ → String) → ℕ → ConfigChangeEventWrapper → Conductor → Handled
  unfolding dispatch create_snapshot snapshot_message
  handle_config_change_event display now event c =
      dispatch now event.inner
        (record c { store = create_snapshot now (snapshot_message display event) c.store })
