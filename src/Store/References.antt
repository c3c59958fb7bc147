-- ===== src/Store/References.antt =====
-- `validate_consistency` of `LocalConfigStore`: every server that an entity refers to is there.
use jobworkerp_conductor.Prelude.{
  ℕ, String, Bool, false, ◌||◌, Option, none, some, [], ◌∷◌, Result, ok, err, ◌>>◌, if◌then◌else◌,
  ℕ-HasEq, option_eq,
}
use jobworkerp_conductor.HashMap.{HashMap}
use jobworkerp_conductor.Proto.{
  Entity, CronSchedulerData, WorkerResultHandlerData, SlackEventHandlerData, JobworkerpServer,
  JobworkerpServerId,
}
use jobworkerp_conductor.Store.{LocalConfigStore, StoreError, missing_server_id, unknown_server}

abbrev pub Servers : Type 0
Servers = HashMap JobworkerpServerId JobworkerpServer

-- `jobworkerp_servers.values().any(|s| s.id == Some(server_id))`
unfoldable pub server_exists : Servers → JobworkerpServerId → Bool
server_exists [] id = false
server_exists ((j, server) ∷ m) id = option_eq server.id (some id) || server_exists m id

-- One reference of the entity `name`.
unfoldable pub check_server :
    Servers → String → Option JobworkerpServerId → Result StoreError (Unit {0})
unfolding server_exists
check_server servers name none = err (missing_server_id name)
check_server servers name (some id) =
    if server_exists servers id then ok tt else err (unknown_server name id)

unfoldable pub check_cron : Servers → CronSchedulerData → Result StoreError (Unit {0})
unfolding check_server
check_cron servers d = check_server servers d.name d.jobworkerp_server_id

unfoldable pub check_handler : Servers → WorkerResultHandlerData → Result StoreError (Unit {0})
unfolding check_server
check_handler servers d = do
  check_server servers d.name d.listen_jobworkerp_server_id
  check_server servers d.name d.process_jobworkerp_server_id

unfoldable pub check_slack : Servers → SlackEventHandlerData → Result StoreError (Unit {0})
unfolding check_server
check_slack servers d = check_server servers d.name d.jobworkerp_server_id

-- `if let Some(data) = &entity.data { … }`
abbrev pub check_payload :
    {D : Type 0} → (D → Result StoreError (Unit {0})) → Option D → Result StoreError (Unit {0})
check_payload check none = ok tt
check_payload check (some d) = check d

-- A loop over `values()` that returns at the first error.
unfoldable pub check_all :
    {D : Type 0}
    → (D → Result StoreError (Unit {0}))
    → HashMap ℕ (Entity D)
    → Result StoreError (Unit {0})
check_all check [] = ok tt
check_all check ((id, entity) ∷ m) = do check_payload check entity.payload; check_all check m

unfoldable pub validate_consistency : LocalConfigStore → Result StoreError (Unit {0})
unfolding check_all check_cron check_handler check_slack
validate_consistency s = do
  check_all (check_cron s.jobworkerp_servers.entities) s.cron_schedulers.entities
  check_all (check_handler s.jobworkerp_servers.entities) s.worker_result_handlers.entities
  check_all (check_slack s.jobworkerp_servers.entities) s.slack_event_handlers.entities
