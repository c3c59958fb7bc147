-- ===== src/Admin/Table/Kinds.antt =====
-- The four kinds of entity: the columns of each table
-- (api/infra/src/infra/{cron_scheduler,worker_result_handler,jobworkerp_server,slack_event_handler}).

use jobworkerp_conductor.Proto.{
  CronSchedulerData, WorkerResultHandlerData, JobworkerpServerData, SlackEventHandlerData,
}
use jobworkerp_conductor.Admin.Rows.Cron.{CronSchedulerRow, cron_row, cron_to_proto}
use jobworkerp_conductor.Admin.Rows.Handler.{WorkerResultHandlerRow, handler_row, handler_to_proto}
use jobworkerp_conductor.Admin.Rows.Server.{JobworkerpServerRow, server_row, server_to_proto}
use jobworkerp_conductor.Admin.Rows.Slack.{SlackEventHandlerRow, slack_row, slack_to_proto}
use jobworkerp_conductor.Admin.Table.{Kind}

-- The UPDATE of three of the kinds sets every column but the id.
abbrev pub cron_kind : Kind CronSchedulerData CronSchedulerRow
cron_kind = record {
  row_of = cron_row;
  to_proto = cron_to_proto;
  row_name = λ r. r.name;
  overwrite = λ old row. row;
}

abbrev pub handler_kind : Kind WorkerResultHandlerData WorkerResultHandlerRow
handler_kind = record {
  row_of = handler_row;
  to_proto = handler_to_proto;
  row_name = λ r. r.name;
  overwrite = λ old row. row;
}

abbrev pub server_kind : Kind JobworkerpServerData JobworkerpServerRow
server_kind = record {
  row_of = server_row;
  to_proto = server_to_proto;
  row_name = λ r. r.name;
  overwrite = λ old row. row;
}

-- The UPDATE of the Slack event handlers leaves `created_at`.
abbrev pub slack_kind : Kind SlackEventHandlerData SlackEventHandlerRow
slack_kind = record {
  row_of = slack_row;
  to_proto = slack_to_proto;
  row_name = λ r. r.name;
  overwrite = λ old row. record row { created_at = old.created_at };
}
