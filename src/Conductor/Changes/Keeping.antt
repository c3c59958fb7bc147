-- ===== src/Conductor/Changes/Keeping.antt =====
-- What `handle_config_change_event` keeps true of the scheduler manager and the store: whatever
-- survives a change of other entities and an action on one id. `P` is such a property.
use mathlib.Core.Option
use jobworkerp_conductor.Prelude.{
  ℕ, String, ◌≡◌, refl, sym, ap, ◌⊎◌, inl, inr, arith, Bool, Option, none, some, ok, err, ℕ-HasEq,
}
use jobworkerp_conductor.Proto.{CronSchedulerId}
use jobworkerp_conductor.Events.{
  Event, EntityId, ChangeAction, CronSchedulerChangeEvent, unspecified, created, updated, deleted,
  enabled, disabled, ConfigChangeEventWrapper,
}
use jobworkerp_conductor.Events.Accessors.{typed_id, action}
use jobworkerp_conductor.Store.{
  LocalConfigStore, StoreResult, get_cron_scheduler, upsert_cron_scheduler, remove_cron_scheduler,
}
use jobworkerp_conductor.Store.Snapshots.{create_snapshot}
use jobworkerp_conductor.Slack.Cache.{Patterns}
use jobworkerp_conductor.Conductor.Scheduler.{
  CronRuntime, SchedulerManager, update_scheduler_from_event, update_by_id, apply_action,
}
use jobworkerp_conductor.Conductor.Scheduler.Sync.{ChangesOnly}
use jobworkerp_conductor.Conductor.Changes.{
  Conductor, after_store, store_payload, drop_id, store_change, store_cron_event, tell_scheduler,
  handle_cron_scheduler_change, handle_worker_result_handler_change,
  handle_jobworkerp_server_change, handle_slack_event_handler_change, dispatch,
  handle_config_change_event,
}
use jobworkerp_conductor.Conductor.Changes.StoredCron.{
  value_or, ok_store, SameCron, store_payload-ChangesOnly, drop_id-ChangesOnly,
  store_payload-SameCron, worker_result_handler-cron, jobworkerp_server-cron,
  slack_event_handler-cron,
}

-- What holds of the scheduler manager, once there is one.
abbrev pub SchedulerKeeps :
    (runtime : CronRuntime)
    → (LocalConfigStore → SchedulerManager runtime → Type 0)
    → LocalConfigStore
    → Option (SchedulerManager runtime)
    → Type 0
SchedulerKeeps runtime P s none = Unit
SchedulerKeeps runtime P s (some m) = P s m

module _ (runtime : CronRuntime) (P : LocalConfigStore → SchedulerManager runtime → Type 0)
    (same_cron : (s s' : LocalConfigStore) (m : SchedulerManager runtime)
      → SameCron s s'
      → P s m
      → P s' m)
    (acts : (s s' : LocalConfigStore) (m : SchedulerManager runtime) (id : CronSchedulerId)
        (a : ChangeAction)
      → P s m
      → ChangesOnly id s s'
      → (a ≡ created) ⊎ (a ≡ updated) ⊎ (a ≡ deleted)
      → P s' (apply_action runtime s' a id m).1) where
  module _ (now : ℕ) (e : CronSchedulerChangeEvent) (s s' : LocalConfigStore)
      (m : SchedulerManager runtime) (c : P s m) where
    abbrev Told : ChangeAction → Option CronSchedulerId → Type 0
    Told a o = P s' (update_by_id runtime s' a m (Option.map EntityId.cron_scheduler o)).1

    kept : SameCron s s' → P s' m
    kept same = same_cron s s' m same c

    same_store : ok_store s ≡ ok s' → SameCron s s'
    same_store h j = sym (ap (λ r. get_cron_scheduler j (value_or s r)) h)

    stored_payload-Told :
        (a : ChangeAction) (o : Option CronSchedulerId)
        → e.id ≡ o
        → (a ≡ created) ⊎ (a ≡ updated) ⊎ (a ≡ deleted)
        → store_payload (upsert_cron_scheduler now) e e.payload s ≡ ok s'
        → Told a o
    unfolding update_by_id
    stored_payload-Told a none p k h =
        same_cron s s' m (store_payload-SameCron now e e.payload s s' p h) c
    stored_payload-Told a (some id) p k h =
        acts s s' m id a c (store_payload-ChangesOnly now e id e.payload s s' p h) k

    dropped_id-Told :
        (o : Option CronSchedulerId)
        → drop_id (λ i t. (remove_cron_scheduler now i t).1) o s ≡ ok s'
        → Told deleted o
    unfolding update_by_id
    dropped_id-Told none h = kept (same_store h)
    dropped_id-Told (some id) h =
        acts s s' m id deleted c (drop_id-ChangesOnly now id (some id) s s' refl h) (inr (inr refl))

    -- An event with another action leaves store and manager alone.
    ignored-Told :
        (a : ChangeAction) (o : Option CronSchedulerId)
        → (a ≡ unspecified) ⊎ (a ≡ enabled) ⊎ (a ≡ disabled)
        → SameCron s s'
        → Told a o
    unfolding update_by_id apply_action
    ignored-Told a none k same = kept same
    ignored-Told unspecified (some id) k same = kept same
    ignored-Told enabled (some id) k same = kept same
    ignored-Told disabled (some id) k same = kept same
    ignored-Told created (some id) k same = ground arith
    ignored-Told updated (some id) k same = ground arith
    ignored-Told deleted (some id) k same = ground arith

    store_change-Told :
        (a : ChangeAction)
        → store_change (upsert_cron_scheduler now) (λ i t. (remove_cron_scheduler now i t).1) e a s
          ≡ ok s'
        → Told a e.id
    unfolding store_change
    store_change-Told created h = stored_payload-Told created e.id refl (inl refl) h
    store_change-Told updated h = stored_payload-Told updated e.id refl (inr (inl refl)) h
    store_change-Told deleted h = dropped_id-Told e.id h
    store_change-Told unspecified h = ignored-Told unspecified e.id (inl refl) (same_store h)
    store_change-Told enabled h = ignored-Told enabled e.id (inr (inl refl)) (same_store h)
    store_change-Told disabled h = ignored-Told disabled e.id (inr (inr refl)) (same_store h)

  update_scheduler-Keeps :
      (now : ℕ) (e : CronSchedulerChangeEvent) (s s' : LocalConfigStore)
      (m : SchedulerManager runtime)
      → P s m
      → store_cron_event now (some (Event.cron_scheduler e)) s ≡ ok s'
      → P s' (update_scheduler_from_event runtime s' (some (Event.cron_scheduler e)) m).1
  unfolding store_cron_event update_scheduler_from_event typed_id
  update_scheduler-Keeps now e s s' m c h =
      store_change-Told now e s s' m c (action (some (Event.cron_scheduler e))) h

  module _ (patterns : Patterns) (connects : String → Bool) (now : ℕ) where
    abbrev pub ConductorKeeps : Conductor runtime patterns connects → Type 0
    ConductorKeeps c = SchedulerKeeps runtime P c.store c.scheduler_manager

    pub SchedulerKeeps-SameCron :
        (s s' : LocalConfigStore) (o : Option (SchedulerManager runtime))
        → SameCron s s'
        → SchedulerKeeps runtime P s o
        → SchedulerKeeps runtime P s' o
    SchedulerKeeps-SameCron s s' none same c = tt
    SchedulerKeeps-SameCron s s' (some m) same c = same_cron s s' m same c

    tell_scheduler-Keeps :
        (e : CronSchedulerChangeEvent) (s s' : LocalConfigStore)
        (o : Option (SchedulerManager runtime))
        → SchedulerKeeps runtime P s o
        → store_cron_event now (some (Event.cron_scheduler e)) s ≡ ok s'
        → SchedulerKeeps runtime P s'
            (tell_scheduler runtime patterns connects (some (Event.cron_scheduler e)) s' o)
    unfolding tell_scheduler
    tell_scheduler-Keeps e s s' none c h = tt
    tell_scheduler-Keeps e s s' (some m) c h = update_scheduler-Keeps now e s s' m c h

    after_store-Keeps :
        (c : Conductor runtime patterns connects) (r : StoreResult)
        (told : LocalConfigStore → Conductor runtime patterns connects)
        → ConductorKeeps c
        → ((s : LocalConfigStore) → r ≡ ok s → ConductorKeeps (told s))
        → ConductorKeeps (after_store runtime patterns connects c r told).1
    after_store-Keeps c (ok s) told current next = next s refl
    after_store-Keeps c (err e) told current next = current

    dispatch-Keeps :
        (event : Option Event) (c : Conductor runtime patterns connects)
        → ConductorKeeps c
        → ConductorKeeps (dispatch runtime patterns connects now event c).1
    unfolding dispatch handle_cron_scheduler_change handle_worker_result_handler_change
        handle_jobworkerp_server_change handle_slack_event_handler_change
    dispatch-Keeps (some (Event.cron_scheduler e)) c current =
        after_store-Keeps c _ _ current
          (λ s h. tell_scheduler-Keeps e c.store s c.scheduler_manager current h)
    dispatch-Keeps (some (Event.worker_result_handler e)) c current =
        after_store-Keeps c _ _ current (λ s h.
          SchedulerKeeps-SameCron c.store s c.scheduler_manager
            (λ j. rw h at (worker_result_handler-cron now c.store e j)) current)
    dispatch-Keeps (some (Event.jobworkerp_server e)) c current =
        after_store-Keeps c _ _ current (λ s h.
          SchedulerKeeps-SameCron c.store s c.scheduler_manager
            (λ j. rw h at (jobworkerp_server-cron now c.store e j)) current)
    dispatch-Keeps (some (Event.slack_event_handler e)) c current =
        after_store-Keeps c _ _ current (λ s h.
          SchedulerKeeps-SameCron c.store s c.scheduler_manager
            (λ j. rw h at (slack_event_handler-cron now c.store e j)) current)
    dispatch-Keeps none c current = current

    pub handle_config_change_event-Keeps :
        (display : ℕ → String) (event : ConfigChangeEventWrapper)
        (c : Conductor runtime patterns connects)
        → ConductorKeeps c
        → ConductorKeeps
            (handle_config_change_event runtime patterns connects display now event c).1
    unfolding handle_config_change_event create_snapshot get_cron_scheduler
    handle_config_change_event-Keeps display event c current =
        dispatch-Keeps event.inner _
          (SchedulerKeeps-SameCron c.store _ c.scheduler_manager (λ j. refl) current)
