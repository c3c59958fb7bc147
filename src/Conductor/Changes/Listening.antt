-- ===== src/Conductor/Changes/Listening.antt =====
-- What a change event for a result handler does to the running listeners.
use jobworkerp_conductor.Prelude.{
  ℕ, String, ◌≡◌, refl, ap, ◌∙◌, ◌≢◌, Bool, Option, none, some, ℕ-HasEq, String-HasEq,
}
use jobworkerp_conductor.HashMap.{HashMap, get, get-insert_same, get-remove_same}
use jobworkerp_conductor.Proto.{WorkerResultHandlerData, WorkerResultHandlerId, JobworkerpServer}
use jobworkerp_conductor.Registry
use jobworkerp_conductor.Events.{
  create_worker_result_handler_updated, create_worker_result_handler_deleted,
}
use jobworkerp_conductor.Events.Accessors.{typed_id, action}
use jobworkerp_conductor.Store.{
  LocalConfigStore, upsert_worker_result_handler, remove_worker_result_handler,
  get_worker_result_handler, update_sync_time, sync_if_removed,
}
use jobworkerp_conductor.Slack.Cache.{Patterns}
use jobworkerp_conductor.Conductor.Scheduler.{CronRuntime}
use jobworkerp_conductor.Conductor.Listener.{
  create_listener_setting_from_local, update_listener_from_event, update_by_id, apply_action,
  remove_listener_by_id, stop_named, stored_name,
}
use jobworkerp_conductor.Conductor.Listener.Lifecycle.{
  expected, updated-at_name, updated-other_names,
}
use jobworkerp_conductor.Conductor.Changes.{
  Conductor, store_change, store_result_event, handle_worker_result_handler_change, dispatch,
  handle_config_change_event,
}

handler-sync_if_removed :
    {A : Type 0} (now : ℕ) (o : Option A) (s : LocalConfigStore) (id : WorkerResultHandlerId)
    → get_worker_result_handler id (sync_if_removed now o s) ≡ get_worker_result_handler id s
unfolding sync_if_removed update_sync_time get_worker_result_handler
handler-sync_if_removed now none s id = refl
handler-sync_if_removed now (some a) s id = refl

module _ (runtime : CronRuntime) (patterns : Patterns) (connects : String → Bool)
    (display : ℕ → String) (now created_at : ℕ) (name : String) (id : WorkerResultHandlerId)
    (servers : HashMap ℕ JobworkerpServer) (c : Conductor runtime patterns connects) where
  module _ (d : WorkerResultHandlerData) where
    abbrev pub after_update : Conductor runtime patterns connects
    after_update =
        (handle_config_change_event runtime patterns connects display now
          (create_worker_result_handler_updated created_at name (some id) (some d) servers) c).1

    stored_after_update :
        get_worker_result_handler id after_update.store
        ≡ some (record { id = some id; payload = some d })
    unfolding handle_config_change_event create_worker_result_handler_updated dispatch
        handle_worker_result_handler_change store_result_event store_change action
        upsert_worker_result_handler Registry.upsert update_sync_time get_worker_result_handler
    stored_after_update = get-insert_same id _ _

    -- After the event of an updated handler, its name has the listener that its new configuration
    -- asks for in the store as it then is: the new setting, or none if the handler is disabled or
    -- its setting cannot be made; and no listener of another name has changed.
    pub update-listens :
        (n : String)
        → n ≢ d.name
        → (get d.name after_update.listeners
            ≡ expected d.enabled
                (create_listener_setting_from_local connects after_update.store id d))
          × (get n after_update.listeners ≡ get n c.listeners)
    unfolding handle_config_change_event create_worker_result_handler_updated dispatch
        handle_worker_result_handler_change update_listener_from_event update_by_id
        store_result_event store_change action typed_id upsert_worker_result_handler Registry.upsert
        update_sync_time
    update-listens n other = (
      updated-at_name connects after_update.store id c.listeners _ d stored_after_update refl,
      updated-other_names connects after_update.store id c.listeners _ d stored_after_update refl n
          other,
    )

  -- After the event of a deleted handler, with or without its data, every listener is as it was, also the one that runs for
  -- the deleted handler: by the time the name is looked up, the store no longer has it.
  pub delete-keeps_listeners :
      (existing : Option WorkerResultHandlerData)
      → (handle_config_change_event runtime patterns connects display now
          (create_worker_result_handler_deleted created_at name (some id) existing servers)
          c).1.listeners
        ≡ c.listeners
  unfolding handle_config_change_event create_worker_result_handler_deleted dispatch
      handle_worker_result_handler_change update_listener_from_event update_by_id apply_action
      remove_listener_by_id store_result_event store_change action typed_id
      remove_worker_result_handler Registry.remove_entity get_worker_result_handler
  delete-keeps_listeners existing =
      ap (λ o. stop_named connects c.listeners (stored_name connects o))
        (handler-sync_if_removed now _ _ id ∙ get-remove_same id _)
