-- ===== src/Conductor/Listener/Lifecycle.antt =====
-- What an update does to the running listeners, by name.
use jobworkerp_conductor.Prelude.{
  String, ◌≡◌, refl, ap, ◌∙◌, ◌≢◌, Bool, true, false, Option, none, some, Result, ok, err,
  String-HasEq, ℕ-HasEq,
}
use jobworkerp_conductor.HashMap.{
  get, remove, get-insert_same, get-insert_other, get-remove_same, get-remove_other,
}
use jobworkerp_conductor.Proto.{WorkerResultHandler, WorkerResultHandlerData, WorkerResultHandlerId}
use jobworkerp_conductor.Events.{updated}
use jobworkerp_conductor.Store.{LocalConfigStore, get_worker_result_handler}
use jobworkerp_conductor.Conductor.Listener.{
  ListenerSetting, ListenerError, Listeners, create_listener_setting_from_local, spawn_listener,
  add_configured, add_handler, add_listener_from_local, remove_listener_by_id, apply_action,
}

-- The listener that a handler's name has after an update, from `enabled` and the setting made: the
-- setting, or none if the handler is disabled or the setting cannot be made.
abbrev pub expected : Bool → Result ListenerError ListenerSetting → Option ListenerSetting
expected true (ok setting) = some setting
expected true (err e) = none
expected false made = none

module _ (connects : String → Bool) (store : LocalConfigStore) (id : WorkerResultHandlerId)
    (m : Listeners) (handler : WorkerResultHandler) (d : WorkerResultHandlerData)
    (stored : get_worker_result_handler id store ≡ some handler)
    (has_payload : handler.payload ≡ some d) where
  after-stored :
      (apply_action connects store updated id m).1
      ≡ (add_configured connects store id (remove d.name m) (some d)).1
  unfolding apply_action remove_listener_by_id add_listener_from_local add_handler
      get_worker_result_handler
  after-stored =
      let found : get id store.worker_result_handlers.entities ≡ some handler = stored in
      rw (found, has_payload) refl

  spawned-at_name :
      (made : Result ListenerError ListenerSetting)
      → get d.name (spawn_listener connects d.name (remove d.name (remove d.name m)) made).1
        ≡ expected true made
  unfolding spawn_listener
  spawned-at_name (ok setting) = get-insert_same d.name setting _
  spawned-at_name (err e) = get-remove_same d.name _

  configured-at_name :
      (b : Bool)
      → d.enabled ≡ b
      → get d.name (add_configured connects store id (remove d.name m) (some d)).1
        ≡ expected b (create_listener_setting_from_local connects store id d)
  unfolding add_configured
  configured-at_name true h = rw h (spawned-at_name _)
  configured-at_name false h = rw h (get-remove_same d.name m)

  pub updated-at_name :
      get d.name (apply_action connects store updated id m).1
      ≡ expected d.enabled (create_listener_setting_from_local connects store id d)
  updated-at_name = ap (get d.name) after-stored ∙ configured-at_name d.enabled refl

  spawned-other_names :
      (n : String) (made : Result ListenerError ListenerSetting)
      → n ≢ d.name
      → get n (spawn_listener connects d.name (remove d.name (remove d.name m)) made).1 ≡ get n m
  unfolding spawn_listener
  spawned-other_names n (ok setting) ne =
      get-insert_other d.name n setting _ ne
      ∙ get-remove_other d.name n _ ne
      ∙ get-remove_other d.name n m ne
  spawned-other_names n (err e) ne = get-remove_other d.name n _ ne ∙ get-remove_other d.name n m ne

  configured-other_names :
      (n : String) (b : Bool)
      → d.enabled ≡ b
      → n ≢ d.name
      → get n (add_configured connects store id (remove d.name m) (some d)).1 ≡ get n m
  unfolding add_configured
  configured-other_names n true h ne = rw h (spawned-other_names n _ ne)
  configured-other_names n false h ne = rw h (get-remove_other d.name n m ne)

  pub updated-other_names :
      (n : String) → n ≢ d.name → get n (apply_action connects store updated id m).1 ≡ get n m
  updated-other_names n ne = ap (get n) after-stored ∙ configured-other_names n d.enabled refl ne
