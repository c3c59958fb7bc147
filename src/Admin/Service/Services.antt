-- ===== src/Admin/Service/Services.antt =====
-- The three services: the validation and the events of each
-- (api/app/src/app/{cron_scheduler,worker_result_handler,jobworkerp_server}.rs).
use jobworkerp_conductor.Prelude.{none, some, [], ok}
use jobworkerp_conductor.Proto.{CronSchedulerData, WorkerResultHandlerData, JobworkerpServerData}
use jobworkerp_conductor.Events.{
  create_cron_scheduler_created, create_cron_scheduler_updated, create_cron_scheduler_deleted,
  create_worker_result_handler_created, create_worker_result_handler_updated,
  create_worker_result_handler_deleted, create_jobworkerp_server_created,
  create_jobworkerp_server_updated, create_jobworkerp_server_deleted,
}
use jobworkerp_conductor.Execution.Target.{validate_execution_target}
use jobworkerp_conductor.Admin.Rows.Cron.{CronSchedulerRow}
use jobworkerp_conductor.Admin.Rows.Handler.{WorkerResultHandlerRow}
use jobworkerp_conductor.Admin.Rows.Server.{JobworkerpServerRow}
use jobworkerp_conductor.Admin.Table.Kinds.{cron_kind, handler_kind, server_kind}
use jobworkerp_conductor.Admin.Service.{ServiceKind}

abbrev pub cron_service : ServiceKind CronSchedulerData CronSchedulerRow
cron_service = record {
  kind = cron_kind;
  validate = λ d. validate_execution_target d.execution_target d.workflow_url;
  created_event = λ now id d. create_cron_scheduler_created now d.name (some id) (some d) none;
  updated_event = λ now id d. create_cron_scheduler_updated now d.name (some id) (some d) none;
  deleted_event = λ now id d. create_cron_scheduler_deleted now d.name (some id);
}

abbrev pub handler_service : ServiceKind WorkerResultHandlerData WorkerResultHandlerRow
handler_service = record {
  kind = handler_kind;
  validate = λ d. validate_execution_target d.execution_target d.workflow_url;
  created_event = λ now id d. create_worker_result_handler_created now d.name (some id) (some d) [];
  updated_event = λ now id d. create_worker_result_handler_updated now d.name (some id) (some d) [];
  deleted_event = λ now id d. create_worker_result_handler_deleted now d.name (some id) (some d) [];
}

-- The servers have no target to validate.
abbrev pub server_service : ServiceKind JobworkerpServerData JobworkerpServerRow
server_service = record {
  kind = server_kind;
  validate = λ d. ok tt;
  created_event = λ now id d. create_jobworkerp_server_created now d.name id (some d);
  updated_event = λ now id d. create_jobworkerp_server_updated now d.name id (some d);
  deleted_event = λ now id d. create_jobworkerp_server_deleted now d.name id none;
}
