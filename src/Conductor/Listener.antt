-- ===== src/Conductor/Listener.antt =====
-- `DynamicListenerManager` (jobworkerp-conductor/src/dynamic/listener_manager.rs). A listener runs
-- from its insertion into `active_listeners` until its handle is taken out, is told to shut down and
-- is awaited; so the map stands for the running tasks. A task that ends by itself stays in it.
-- Whether a client can be made for an address is the argument `connects`.
pub mod Lifecycle
use jobworkerp_conductor.Prelude.{
  ℕ, String, ◌≡◌, Bool, true, false, Option, none, some, List, [], ◌∷◌, Result, ok, err, ◌>>=◌,
  ◌>>◌, ok_or, if◌then◌else◌, ◌==◌, ℕ-HasEq, String-HasEq,
}
use jobworkerp_conductor.HashMap.{HashMap, get, insert, remove}
use jobworkerp_conductor.Proto.{
  WorkerResultHandler, WorkerResultHandlerData, WorkerResultHandlerId, JobworkerpServerId,
  JobworkerpServerData, ExecutionTarget, workflow, worker,
}
use jobworkerp_conductor.Events.{Event, EntityId, ChangeAction, created, updated, deleted}
use jobworkerp_conductor.Events.Accessors.{typed_id, action}
use jobworkerp_conductor.Execution.Target.{server_endpoint, non_empty}
use jobworkerp_conductor.Store.{LocalConfigStore, get_worker_result_handler, get_jobworkerp_server}

-- `JobResultListenerSetting`: the clients stand as the addresses that they were made for.
pub record ListenerSetting : Type 0 where
  pub handler_id : WorkerResultHandlerId
  pub name : String
  pub listen_worker_name : String
  pub workflow_url : String
  pub channel : Option String
  pub listen_jobworkerp : String
  pub process_jobworkerp : String
  pub args : Option String
  pub worker_name : Option String
  pub using : Option String
  pub process_jobworkerp_server_id : JobworkerpServerId

pub data ListenerError : Type 0 where
  handler_not_found : WorkerResultHandlerId → ListenerError
  handler_data_missing listen_id_missing process_id_missing : ListenerError
  listen_server_not_found process_server_not_found : JobworkerpServerId → ListenerError
  listen_data_missing process_data_missing : ListenerError
  no_id_or_wrong_type : ListenerError
  connection_failed : String → ListenerError

abbrev pub Listeners : Type 0
Listeners = HashMap String ListenerSetting

abbrev pub Outcome : Type 0
Outcome = Result ListenerError (Unit {0}) × Listeners

abbrev pub and_continue : Outcome → (Listeners → Outcome) → Outcome
and_continue (ok u, m) k = k m
and_continue (err e, m) k = (err e, m)

-- What is run: the URL, the channel, the worker's name and its `using`.
pub record Target : Type 0 where
  pub workflow_url : String
  pub channel : Option String
  pub worker_name : Option String
  pub using : Option String

unfoldable pub listener_target : WorkerResultHandlerData → Option ExecutionTarget → Target
listener_target d (some (worker w)) = record {
  workflow_url = "";
  channel = none;
  worker_name = some w.worker_name;
  using = non_empty w.using;
}
listener_target d (some (workflow wf)) = record {
  workflow_url = wf.workflow_url;
  channel = wf.channel;
  worker_name = none;
  using = none;
}
listener_target d none = record {
  workflow_url = d.workflow_url;
  channel = d.channel;
  worker_name = none;
  using = none;
}

module _ (connects : String → Bool) where
  -- `JobworkerpClientWrapper::new(&address, None).await?`
  abbrev pub connect : String → Result ListenerError String
  connect address = if connects address then ok address else err (connection_failed address)

  unfoldable pub create_listener_setting_from_local :
      LocalConfigStore
      → WorkerResultHandlerId
      → WorkerResultHandlerData
      → Result ListenerError ListenerSetting
  unfolding get_jobworkerp_server server_endpoint listener_target
  create_listener_setting_from_local store handler_id d = do
    listen_id ← ok_or listen_id_missing d.listen_jobworkerp_server_id
    listen_server ←
        ok_or (listen_server_not_found listen_id) (get_jobworkerp_server listen_id store)
    process_id ← ok_or process_id_missing d.process_jobworkerp_server_id
    process_server ←
        ok_or (process_server_not_found process_id) (get_jobworkerp_server process_id store)
    listen_data ← ok_or listen_data_missing listen_server.payload
    process_data ← ok_or process_data_missing process_server.payload
    listen_client ← connect (server_endpoint listen_data)
    process_client ← connect (server_endpoint process_data)
    let target = listener_target d d.execution_target
    ok (record {
      handler_id = handler_id;
      name = d.name;
      listen_worker_name = d.listen_worker_name;
      workflow_url = target.workflow_url;
      channel = target.channel;
      listen_jobworkerp = listen_client;
      process_jobworkerp = process_client;
      args = d.args;
      worker_name = target.worker_name;
      using = target.using;
      process_jobworkerp_server_id = process_id;
    })

  -- The new task is spawned, if its setting could be made.
  unfoldable pub spawn_listener :
      String → Listeners → Result ListenerError ListenerSetting → Outcome
  spawn_listener name m (err e) = (err e, m)
  spawn_listener name m (ok setting) = (ok tt, insert name setting m)

  -- A running listener of the name is stopped before the new setting is made.
  unfoldable pub add_configured :
      LocalConfigStore
      → WorkerResultHandlerId
      → Listeners
      → Option WorkerResultHandlerData
      → Outcome
  unfolding spawn_listener create_listener_setting_from_local
  add_configured store id m none = (err handler_data_missing, m)
  add_configured store id m (some d) =
      if d.enabled
      then spawn_listener d.name (remove d.name m) (create_listener_setting_from_local store id d)
      else (ok tt, m)

  unfoldable pub add_handler :
      LocalConfigStore → WorkerResultHandlerId → Listeners → Option WorkerResultHandler → Outcome
  unfolding add_configured
  add_handler store id m none = (err (handler_not_found id), m)
  add_handler store id m (some handler) = add_configured store id m handler.payload

  unfoldable pub add_listener_from_local :
      LocalConfigStore → WorkerResultHandlerId → Listeners → Outcome
  unfolding add_handler get_worker_result_handler
  add_listener_from_local store id m = add_handler store id m (get_worker_result_handler id store)

  abbrev pub name_of : Option WorkerResultHandlerData → Option String
  name_of none = none
  name_of (some d) = some d.name

  -- The name of the handler in the store.
  abbrev pub stored_name : Option WorkerResultHandler → Option String
  stored_name none = none
  stored_name (some handler) = name_of handler.payload

  abbrev pub stop_named : Listeners → Option String → Listeners
  stop_named m none = m
  stop_named m (some name) = remove name m

  unfoldable pub remove_listener_by_id :
      LocalConfigStore → WorkerResultHandlerId → Listeners → Outcome
  unfolding get_worker_result_handler
  remove_listener_by_id store id m =
      (ok tt, stop_named m (stored_name (get_worker_result_handler id store)))

  unfoldable pub remove_listener : String → Listeners → Outcome
  remove_listener name m = (ok tt, remove name m)

  unfoldable pub stop_all : Listeners → Listeners
  stop_all m = []

  unfoldable pub apply_action :
      LocalConfigStore → ChangeAction → WorkerResultHandlerId → Listeners → Outcome
  unfolding remove_listener_by_id add_listener_from_local
  apply_action store created id m =
      and_continue (remove_listener_by_id store id m) (add_listener_from_local store id)
  apply_action store updated id m =
      and_continue (remove_listener_by_id store id m) (add_listener_from_local store id)
  apply_action store deleted id m = remove_listener_by_id store id m
  apply_action store _ id m = (ok tt, m)

  unfoldable pub update_by_id :
      LocalConfigStore → ChangeAction → Listeners → Option EntityId → Outcome
  unfolding apply_action
  update_by_id store a m (some (EntityId.worker_result_handler id)) = apply_action store a id m
  update_by_id store a m _ = (err no_id_or_wrong_type, m)

  unfoldable pub update_listener_from_event : LocalConfigStore → Option Event → Listeners → Outcome
  unfolding update_by_id typed_id action
  update_listener_from_event store event m = update_by_id store (action event) m (typed_id event)
