-- ===== src/Events/Accessors.antt =====
-- What a receiver reads from a change event (shared/src/config_events_proto.rs).
use mathlib.Core.Option
use jobworkerp_conductor.Prelude.{ℕ, String, Bool, true, false, Option, none, some, is_some}
use jobworkerp_conductor.Events.{
  ChangeAction, unspecified, from_i32, CronSchedulerChangeEvent, WorkerResultHandlerChangeEvent,
  JobworkerpServerChangeEvent, SlackEventHandlerChangeEvent, Event, EntityId, value,
}

-- The accessors look at `self.inner.event` alone.
unfoldable pub is_cron_scheduler : Option Event → Bool
is_cron_scheduler (some (Event.cron_scheduler e)) = true
is_cron_scheduler _ = false

unfoldable pub is_worker_result_handler : Option Event → Bool
is_worker_result_handler (some (Event.worker_result_handler e)) = true
is_worker_result_handler _ = false

unfoldable pub is_jobworkerp_server : Option Event → Bool
is_jobworkerp_server (some (Event.jobworkerp_server e)) = true
is_jobworkerp_server _ = false

unfoldable pub is_slack_event_handler : Option Event → Bool
is_slack_event_handler (some (Event.slack_event_handler e)) = true
is_slack_event_handler _ = false

unfoldable pub is_valid : Option Event → Bool
is_valid inner = is_some inner

unfoldable pub as_cron_scheduler : Option Event → Option CronSchedulerChangeEvent
as_cron_scheduler (some (Event.cron_scheduler e)) = some e
as_cron_scheduler _ = none

unfoldable pub as_worker_result_handler : Option Event → Option WorkerResultHandlerChangeEvent
as_worker_result_handler (some (Event.worker_result_handler e)) = some e
as_worker_result_handler _ = none

unfoldable pub as_jobworkerp_server : Option Event → Option JobworkerpServerChangeEvent
as_jobworkerp_server (some (Event.jobworkerp_server e)) = some e
as_jobworkerp_server _ = none

unfoldable pub as_slack_event_handler : Option Event → Option SlackEventHandlerChangeEvent
as_slack_event_handler (some (Event.slack_event_handler e)) = some e
as_slack_event_handler _ = none

unfoldable pub entity_name : Option Event → String
entity_name (some (Event.cron_scheduler e)) = e.name
entity_name (some (Event.worker_result_handler e)) = e.name
entity_name (some (Event.jobworkerp_server e)) = e.name
entity_name (some (Event.slack_event_handler e)) = e.name
entity_name none = "unknown"

unfoldable pub typed_id : Option Event → Option EntityId
typed_id (some (Event.cron_scheduler e)) = Option.map EntityId.cron_scheduler e.id
typed_id (some (Event.worker_result_handler e)) = Option.map EntityId.worker_result_handler e.id
typed_id (some (Event.jobworkerp_server e)) = Option.map EntityId.jobworkerp_server e.id
typed_id (some (Event.slack_event_handler e)) = Option.map EntityId.slack_event_handler e.id
typed_id none = none

unfoldable pub id : Option Event → Option ℕ
unfolding typed_id value
id inner = Option.map value (typed_id inner)

unfoldable pub action : Option Event → ChangeAction
unfolding from_i32
action (some (Event.cron_scheduler e)) = from_i32 e.action
action (some (Event.worker_result_handler e)) = from_i32 e.action
action (some (Event.jobworkerp_server e)) = from_i32 e.action
action (some (Event.slack_event_handler e)) = from_i32 e.action
action none = unspecified
