-- ===== src/Events/Reading.antt =====
-- What a receiver reads from an event is what its constructor wrote.
use jobworkerp_conductor.Prelude.{ℕ, String, ◌≡◌, refl, Bool, true, false, Option, some}
use jobworkerp_conductor.HashMap.{HashMap}
use jobworkerp_conductor.Proto.{
  CronSchedulerData, WorkerResultHandlerData, JobworkerpServerData, SlackEventHandlerData,
  JobworkerpServer,
}
use jobworkerp_conductor.Events.{
  ChangeAction, created, updated, deleted, Event, CronSchedulerChangeEvent,
  WorkerResultHandlerChangeEvent, JobworkerpServerChangeEvent, SlackEventHandlerChangeEvent,
  EntityId, ConfigChangeEventWrapper, create_cron_scheduler_created, create_cron_scheduler_updated,
  create_cron_scheduler_deleted, create_worker_result_handler_created,
  create_worker_result_handler_updated, create_worker_result_handler_deleted,
  create_jobworkerp_server_created, create_jobworkerp_server_updated,
  create_jobworkerp_server_deleted, create_slack_event_handler_created,
  create_slack_event_handler_updated, create_slack_event_handler_deleted,
}
use jobworkerp_conductor.Events.Accessors.{
  is_cron_scheduler, is_worker_result_handler, is_jobworkerp_server, is_slack_event_handler,
  entity_name, typed_id, action,
}

-- The tests of the four kinds, as `handle_config_change_event` makes them.
pub data Kind : Type 0 where
  cron_kind result_kind server_kind slack_kind : Kind

abbrev pub tests : Kind → Option Event → Bool
tests cron_kind e = is_cron_scheduler e
tests result_kind e = is_worker_result_handler e
tests server_kind e = is_jobworkerp_server e
tests slack_kind e = is_slack_event_handler e

abbrev pub same_kind : Kind → Kind → Bool
same_kind cron_kind cron_kind = true
same_kind result_kind result_kind = true
same_kind server_kind server_kind = true
same_kind slack_kind slack_kind = true
same_kind _ _ = false

-- The event has this action, name and id, and passes the test of its kind alone.
abbrev pub Reads :
    ChangeAction → String → Option EntityId → Kind → ConfigChangeEventWrapper → Type 0
Reads a name id kind w =
    (action w.inner ≡ a)
    × (entity_name w.inner ≡ name)
    × (typed_id w.inner ≡ id)
    × ((k : Kind) → tests k w.inner ≡ same_kind kind k)

cron_tests :
    (e : CronSchedulerChangeEvent) (k : Kind)
    → tests k (some (Event.cron_scheduler e)) ≡ same_kind cron_kind k
unfolding is_cron_scheduler is_worker_result_handler is_jobworkerp_server is_slack_event_handler
cron_tests e cron_kind = refl
cron_tests e result_kind = refl
cron_tests e server_kind = refl
cron_tests e slack_kind = refl

result_tests :
    (e : WorkerResultHandlerChangeEvent) (k : Kind)
    → tests k (some (Event.worker_result_handler e)) ≡ same_kind result_kind k
unfolding is_cron_scheduler is_worker_result_handler is_jobworkerp_server is_slack_event_handler
result_tests e cron_kind = refl
result_tests e result_kind = refl
result_tests e server_kind = refl
result_tests e slack_kind = refl

server_tests :
    (e : JobworkerpServerChangeEvent) (k : Kind)
    → tests k (some (Event.jobworkerp_server e)) ≡ same_kind server_kind k
unfolding is_cron_scheduler is_worker_result_handler is_jobworkerp_server is_slack_event_handler
server_tests e cron_kind = refl
server_tests e result_kind = refl
server_tests e server_kind = refl
server_tests e slack_kind = refl

slack_tests :
    (e : SlackEventHandlerChangeEvent) (k : Kind)
    → tests k (some (Event.slack_event_handler e)) ≡ same_kind slack_kind k
unfolding is_cron_scheduler is_worker_result_handler is_jobworkerp_server is_slack_event_handler
slack_tests e cron_kind = refl
slack_tests e result_kind = refl
slack_tests e server_kind = refl
slack_tests e slack_kind = refl

module _ (now : ℕ) (name : String) (id : ℕ) where
  -- An event made by any of the twelve constructors is read back with the action, the name and the
  -- typed id that it was made with, and passes the test of its entity kind and of no other.
  pub create-Reads :
      (cron : Option CronSchedulerData) (result : Option WorkerResultHandlerData)
      (server : Option JobworkerpServerData) (slack : Option SlackEventHandlerData)
      (related : Option JobworkerpServer) (servers : HashMap ℕ JobworkerpServer)
      → Reads created name
          (some (EntityId.cron_scheduler id))
          cron_kind
          (create_cron_scheduler_created now name (some id) cron related)
        × Reads updated name
            (some (EntityId.cron_scheduler id))
            cron_kind
            (create_cron_scheduler_updated now name (some id) cron related)
        × Reads deleted name
            (some (EntityId.cron_scheduler id))
            cron_kind
            (create_cron_scheduler_deleted now name (some id))
        × Reads created name
            (some (EntityId.worker_result_handler id))
            result_kind
            (create_worker_result_handler_created now name (some id) result servers)
        × Reads updated name
            (some (EntityId.worker_result_handler id))
            result_kind
            (create_worker_result_handler_updated now name (some id) result servers)
        × Reads deleted name
            (some (EntityId.worker_result_handler id))
            result_kind
            (create_worker_result_handler_deleted now name (some id) result servers)
        × Reads created name
            (some (EntityId.jobworkerp_server id))
            server_kind
            (create_jobworkerp_server_created now name id server)
        × Reads updated name
            (some (EntityId.jobworkerp_server id))
            server_kind
            (create_jobworkerp_server_updated now name id server)
        × Reads deleted name
            (some (EntityId.jobworkerp_server id))
            server_kind
            (create_jobworkerp_server_deleted now name id server)
        × Reads created name
            (some (EntityId.slack_event_handler id))
            slack_kind
            (create_slack_event_handler_created now name (some id) slack related)
        × Reads updated name
            (some (EntityId.slack_event_handler id))
            slack_kind
            (create_slack_event_handler_updated now name (some id) slack related)
        × Reads deleted name
            (some (EntityId.slack_event_handler id))
            slack_kind
            (create_slack_event_handler_deleted now name (some id))
  unfolding create_cron_scheduler_created create_cron_scheduler_updated
      create_cron_scheduler_deleted create_worker_result_handler_created
      create_worker_result_handler_updated create_worker_result_handler_deleted
      create_jobworkerp_server_created create_jobworkerp_server_updated
      create_jobworkerp_server_deleted create_slack_event_handler_created
      create_slack_event_handler_updated create_slack_event_handler_deleted action entity_name
      typed_id is_cron_scheduler is_worker_result_handler is_jobworkerp_server
      is_slack_event_handler
  create-Reads cron result server slack related servers = (
    (refl, refl, refl, cron_tests _),
    (refl, refl, refl, cron_tests _),
    (refl, refl, refl, cron_tests _),
    (refl, refl, refl, result_tests _),
    (refl, refl, refl, result_tests _),
    (refl, refl, refl, result_tests _),
    (refl, refl, refl, server_tests _),
    (refl, refl, refl, server_tests _),
    (refl, refl, refl, server_tests _),
    (refl, refl, refl, slack_tests _),
    (refl, refl, refl, slack_tests _),
    (refl, refl, refl, slack_tests _),
  )
