-- ===== src/Events.antt =====
-- `ConfigChangeEventWrapper` (shared/src/config_events_proto.rs) over the messages of event.proto.
-- The reading of the clock is an argument `now`; an action is the i32 of the enum field, read back
-- as prost's accessor does: a number that no variant has is `unspecified`.
pub mod Accessors
pub mod Reading
mod Tests
use jobworkerp_conductor.Prelude.{ℕ, zero, suc, String, Option, none, some}
use jobworkerp_conductor.HashMap.{HashMap}
use jobworkerp_conductor.Proto.{
  CronSchedulerData, WorkerResultHandlerData, JobworkerpServerData, SlackEventHandlerData,
  JobworkerpServer, CronSchedulerId, WorkerResultHandlerId, JobworkerpServerId, SlackEventHandlerId,
}

pub data ChangeAction : Type 0 where
  unspecified created updated deleted enabled disabled : ChangeAction

-- `action as i32`
abbrev pub to_i32 : ChangeAction → ℕ
to_i32 unspecified = 0
to_i32 created = 1
to_i32 updated = 2
to_i32 deleted = 3
to_i32 enabled = 4
to_i32 disabled = 5

unfoldable pub from_i32 : ℕ → ChangeAction
from_i32 zero = unspecified
from_i32 (suc zero) = created
from_i32 (suc (suc zero)) = updated
from_i32 (suc (suc (suc zero))) = deleted
from_i32 (suc (suc (suc (suc zero)))) = enabled
from_i32 (suc (suc (suc (suc (suc zero))))) = disabled
from_i32 (suc (suc (suc (suc (suc (suc n)))))) = unspecified

-- The four change events differ in the payload and in the servers that come with it.
pub record ChangeEvent (D R : Type 0) : Type 0 where
  pub action : ℕ
  pub name : String
  pub id : Option ℕ
  pub timestamp : ℕ
  pub payload : Option D
  pub related : R

abbrev pub CronSchedulerChangeEvent : Type 0
CronSchedulerChangeEvent = ChangeEvent CronSchedulerData (Option JobworkerpServer)

abbrev pub WorkerResultHandlerChangeEvent : Type 0
WorkerResultHandlerChangeEvent = ChangeEvent WorkerResultHandlerData (HashMap ℕ JobworkerpServer)

abbrev pub JobworkerpServerChangeEvent : Type 0
JobworkerpServerChangeEvent = ChangeEvent JobworkerpServerData (Unit {0})

abbrev pub SlackEventHandlerChangeEvent : Type 0
SlackEventHandlerChangeEvent = ChangeEvent SlackEventHandlerData (Option JobworkerpServer)

pub data Event : Type 0 where
  cron_scheduler : CronSchedulerChangeEvent → Event
  worker_result_handler : WorkerResultHandlerChangeEvent → Event
  jobworkerp_server : JobworkerpServerChangeEvent → Event
  slack_event_handler : SlackEventHandlerChangeEvent → Event

-- `EntityId`
pub data EntityId : Type 0 where
  cron_scheduler : CronSchedulerId → EntityId
  worker_result_handler : WorkerResultHandlerId → EntityId
  jobworkerp_server : JobworkerpServerId → EntityId
  slack_event_handler : SlackEventHandlerId → EntityId

unfoldable pub value : EntityId → ℕ
value (EntityId.cron_scheduler id) = id
value (EntityId.worker_result_handler id) = id
value (EntityId.jobworkerp_server id) = id
value (EntityId.slack_event_handler id) = id

pub record ConfigChangeEventWrapper : Type 0 where
  pub inner : Option Event
  pub timestamp : ℕ

-- `ConfigChangeEventWrapper::new`
unfoldable pub wrap : ℕ → Option Event → ConfigChangeEventWrapper
wrap now inner = record { inner = inner; timestamp = now }

module _ (now : ℕ) (name : String) where
  unfoldable pub change_event :
      {D R : Type 0} → ChangeAction → Option ℕ → Option D → R → ChangeEvent D R
  change_event action id payload related = record {
    action = to_i32 action;
    name = name;
    id = id;
    timestamp = now;
    payload = payload;
    related = related;
  }

  unfoldable pub create_cron_scheduler_created :
      Option CronSchedulerId
      → Option CronSchedulerData
      → Option JobworkerpServer
      → ConfigChangeEventWrapper
  unfolding wrap change_event
  create_cron_scheduler_created id payload server =
      wrap now (some (Event.cron_scheduler (change_event created id payload server)))

  unfoldable pub create_cron_scheduler_updated :
      Option CronSchedulerId
      → Option CronSchedulerData
      → Option JobworkerpServer
      → ConfigChangeEventWrapper
  unfolding wrap change_event
  create_cron_scheduler_updated id payload server =
      wrap now (some (Event.cron_scheduler (change_event updated id payload server)))

  unfoldable pub create_cron_scheduler_deleted : Option CronSchedulerId → ConfigChangeEventWrapper
  unfolding wrap change_event
  create_cron_scheduler_deleted id =
      wrap now (some (Event.cron_scheduler (change_event deleted id none none)))

  unfoldable pub create_worker_result_handler_created :
      Option WorkerResultHandlerId
      → Option WorkerResultHandlerData
      → HashMap ℕ JobworkerpServer
      → ConfigChangeEventWrapper
  unfolding wrap change_event
  create_worker_result_handler_created id payload servers =
      wrap now (some (Event.worker_result_handler (change_event created id payload servers)))

  unfoldable pub create_worker_result_handler_updated :
      Option WorkerResultHandlerId
      → Option WorkerResultHandlerData
      → HashMap ℕ JobworkerpServer
      → ConfigChangeEventWrapper
  unfolding wrap change_event
  create_worker_result_handler_updated id payload servers =
      wrap now (some (Event.worker_result_handler (change_event updated id payload servers)))

  unfoldable pub create_worker_result_handler_deleted :
      Option WorkerResultHandlerId
      → Option WorkerResultHandlerData
      → HashMap ℕ JobworkerpServer
      → ConfigChangeEventWrapper
  unfolding wrap change_event
  create_worker_result_handler_deleted id payload servers =
      wrap now (some (Event.worker_result_handler (change_event deleted id payload servers)))

  unfoldable pub create_jobworkerp_server_created :
      JobworkerpServerId → Option JobworkerpServerData → ConfigChangeEventWrapper
  unfolding wrap change_event
  create_jobworkerp_server_created id payload =
      wrap now (some (Event.jobworkerp_server (change_event created (some id) payload tt)))

  unfoldable pub create_jobworkerp_server_updated :
      JobworkerpServerId → Option JobworkerpServerData → ConfigChangeEventWrapper
  unfolding wrap change_event
  create_jobworkerp_server_updated id payload =
      wrap now (some (Event.jobworkerp_server (change_event updated (some id) payload tt)))

  unfoldable pub create_jobworkerp_server_deleted :
      JobworkerpServerId → Option JobworkerpServerData → ConfigChangeEventWrapper
  unfolding wrap change_event
  create_jobworkerp_server_deleted id payload =
      wrap now (some (Event.jobworkerp_server (change_event deleted (some id) payload tt)))

  unfoldable pub create_slack_event_handler_created :
      Option SlackEventHandlerId
      → Option SlackEventHandlerData
      → Option JobworkerpServer
      → ConfigChangeEventWrapper
  unfolding wrap change_event
  create_slack_event_handler_created id payload server =
      wrap now (some (Event.slack_event_handler (change_event created id payload server)))

  unfoldable pub create_slack_event_handler_updated :
      Option SlackEventHandlerId
      → Option SlackEventHandlerData
      → Option JobworkerpServer
      → ConfigChangeEventWrapper
  unfolding wrap change_event
  create_slack_event_handler_updated id payload server =
      wrap now (some (Event.slack_event_handler (change_event updated id payload server)))

  unfoldable pub create_slack_event_handler_deleted :
      Option SlackEventHandlerId → ConfigChangeEventWrapper
  unfolding wrap change_event
  create_slack_event_handler_deleted id =
      wrap now (some (Event.slack_event_handler (change_event deleted id none none)))
