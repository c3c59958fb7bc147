-- ===== src/Execution/Trigger.antt =====
-- What a manual trigger runs: `CronSourceResolver` (api/app/src/app/source_resolver.rs), with the
-- types of the trigger. An error carries what its message names.
pub mod Execute
pub mod Answers
pub mod Refused
mod Tests
use jobworkerp_conductor.Prelude.{
  ℕ, String, Bool, Option, none, some, Result, ok, err, ◌>>=◌, ok_or, if◌then◌else◌, ◌==◌, ℕ-HasEq,
}
use jobworkerp_conductor.Proto.{
  CronScheduler, CronSchedulerData, JobworkerpServer, JobworkerpServerId,
}
use jobworkerp_conductor.Execution.Target.{ResolvedTarget, server_endpoint, from_cron_target}
use jobworkerp_conductor.Execution.Ledger.{
  ExecutionRef, ExecutionRefId, Ledger, LedgerError, cannot_insert, create, find,
}
use jobworkerp_conductor.Execution.Recorder.{
  EnqueuedJob, Others, Statement, pending_created, record_enqueued,
}
use jobworkerp_conductor.Execution.Status.{
  ResolvedExecutionStatus, ExecutionStatusSource, ExecutionRuntimeStatus, Remote,
  find_runtime_status,
}
use jobworkerp_conductor.Admin.Service.{MemoryCache, Service, find_entity}
use jobworkerp_conductor.Admin.Service.Services.{cron_service}

pub data ExecutionSourceType : Type 0 where
  unspecified cron_scheduler slack_event_handler worker_result_handler : ExecutionSourceType

abbrev pub source_type_number : ExecutionSourceType → ℕ
source_type_number unspecified = 0
source_type_number cron_scheduler = 1
source_type_number slack_event_handler = 2
source_type_number worker_result_handler = 3

-- `ExecutionSourceType::try_from(…).unwrap_or(Unspecified)`
abbrev pub source_type_of : ℕ → ExecutionSourceType
source_type_of n =
    if n == 1
    then cron_scheduler
    else if n == 2
    then slack_event_handler
    else if n == 3
    then worker_result_handler
    else unspecified

-- What is not there when the error is `NotFound`.
pub data Missing : Type 0 where
  scheduler execution_ref : ℕ → Missing
  server : JobworkerpServerId → Missing
  scheduler_payload scheduler_server_id server_payload : Missing

-- `status_unread` is the error of a read after the enqueueing. `no_target` and `source_gone` are `FailedPrecondition`.
pub data TriggerError : Type 0 where
  not_found source_gone : Missing → TriggerError
  unimplemented : ExecutionSourceType → TriggerError
  no_target : TriggerError
  cannot_record : LedgerError → TriggerError
  failed status_unread : String → TriggerError

pub record ResolvedSource : Type 0 where
  pub endpoint : String
  pub target : ResolvedTarget
  pub configured_args : Option String
  pub source_name : String
  pub jobworkerp_server_id : JobworkerpServerId

pub record ExecutionPlan : Type 0 where
  pub endpoint : String
  pub target : ResolvedTarget
  pub args : Option String

-- The error of a read of the table, if it fails: of the original execution, of the status after the
-- enqueueing, and of the row after an enqueueing that failed.
pub record ReadErrors : Type 0 where
  pub original : Option String
  pub status : Option String
  pub row : Option String

-- With the fields of its status.
pub record TriggerOutcome : Type 0 where
  pub execution_ref_id : ExecutionRefId
  pub execution_ref : Option ExecutionRef
  pub resolved_status : ResolvedExecutionStatus
  pub status_source : ExecutionStatusSource
  pub observed_at : ℕ
  pub detail : Option String

abbrev pub default_ref : ExecutionRef
default_ref = record {
  id = none;
  source_type = 0;
  source_id = 0;
  source_name = "";
  jobworkerp_server_id = none;
  job_id = none;
  triggered_at = 0;
  trigger_context_json = none;
  enqueue_error = none;
  created_at = 0;
  result_status = none;
}

-- `args_json.or(configured_args)`
abbrev pub or_configured : Option String → Option String → Option String
or_configured none configured_args = configured_args
or_configured (some args) configured_args = some args

abbrev pub failed_or : {A : Type 0} → Result String A → Result TriggerError A
failed_or (ok a) = ok a
failed_or (err e) = err (failed e)

module _ (remote : Remote) where
  open remote use {find_server}

  unfoldable pub endpoint_for : JobworkerpServerId → Result TriggerError String
  unfolding server_endpoint
  endpoint_for server_id = do
    found ← failed_or (find_server server_id)
    entity ← ok_or (not_found (server server_id)) found
    server_data ← ok_or (not_found server_payload) entity.payload
    ok (server_endpoint server_data)

  unfoldable pub resolve_cron : ℕ → Option CronScheduler → Result TriggerError ResolvedSource
  unfolding endpoint_for from_cron_target
  resolve_cron source_id found = do
    cron ← ok_or (not_found (scheduler source_id)) found
    d ← ok_or (not_found scheduler_payload) cron.payload
    server_id ← ok_or (not_found scheduler_server_id) d.jobworkerp_server_id
    endpoint ← endpoint_for server_id
    target ← ok_or no_target (from_cron_target d.execution_target d.workflow_url d.channel)
    ok (record {
      endpoint = endpoint;
      target = target;
      configured_args = d.args;
      source_name = d.name;
      jobworkerp_server_id = server_id;
    })

  module _ (memory : MemoryCache CronScheduler) where
    unfoldable pub resolve :
        ExecutionSourceType
        → ℕ
        → Service memory cron_service
        → Result TriggerError ResolvedSource × Service memory cron_service
    unfolding resolve_cron find_entity
    resolve cron_scheduler source_id s =
        let (found, s') = find_entity memory cron_service source_id s in
        (resolve_cron source_id found, s')
    resolve unspecified source_id s = (err (unimplemented unspecified), s)
    resolve slack_event_handler source_id s = (err (unimplemented slack_event_handler), s)
    resolve worker_result_handler source_id s = (err (unimplemented worker_result_handler), s)
