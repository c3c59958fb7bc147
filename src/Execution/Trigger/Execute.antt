-- ===== src/Execution/Trigger/Execute.antt =====
-- `trigger_execution` and `re_execute` (api/app/src/app/execution_status.rs). The enqueueing is the
-- argument `enqueue`, as it calls the client of jobworkerp. `accepts` says which
-- statements that write the table succeed, and `reads` which reads fail. `now` and `seen_at` are the clock at the recording and at
-- the answer.
use jobworkerp_conductor.Prelude.{
  ℕ, String, Bool, Option, none, some, Result, ok, err, if◌then◌else◌,
}
use jobworkerp_conductor.Proto.{CronScheduler}
use jobworkerp_conductor.Execution.Ledger.{
  ExecutionRef, ExecutionRefId, Ledger, LedgerError, cannot_insert, create, find,
}
use jobworkerp_conductor.Execution.Recorder.{
  EnqueuedJob, Others, Statement, pending_created, record_enqueued,
}
use jobworkerp_conductor.Execution.Status.{
  ResolvedExecutionStatus, ExecutionStatusSource, ExecutionRuntimeStatus, Remote,
  find_runtime_status,
}
use jobworkerp_conductor.Execution.Trigger.{
  ExecutionSourceType, unspecified, cron_scheduler, slack_event_handler, worker_result_handler,
  source_type_number, source_type_of, execution_ref, TriggerError, not_found, source_gone,
  unimplemented, cannot_record, ResolvedSource, ExecutionPlan, ReadErrors, status_unread, failed,
  TriggerOutcome, default_ref, or_configured, resolve,
}
use jobworkerp_conductor.Admin.Service.{MemoryCache, Service}
use jobworkerp_conductor.Admin.Service.Services.{cron_service}

-- The source of an execution that is there may be gone.
unfoldable pub as_re_execution : {A : Type 0} → Result TriggerError A → Result TriggerError A
as_re_execution (err (not_found missing)) = err (source_gone missing)
as_re_execution r = r

-- The row before anything is enqueued.
abbrev pub pending_ref : ℕ → ExecutionSourceType → ℕ → ResolvedSource → ExecutionRef
pending_ref now source_type source_id resolved = record default_ref {
  source_type = source_type_number source_type;
  source_id = source_id;
  source_name = resolved.source_name;
  jobworkerp_server_id = some resolved.jobworkerp_server_id;
  triggered_at = now;
  created_at = now;
}

module _ (remote : Remote) (memory : MemoryCache CronScheduler) (accepts : Statement → Bool)
    (reads : ReadErrors) (others : Others) (enqueue : ExecutionPlan → Result String EnqueuedJob)
    (now seen_at : ℕ) (new_id : ExecutionRefId) where
  unfoldable pub create_execution_ref :
      ExecutionRef → Ledger → Result LedgerError ExecutionRefId × Ledger
  unfolding create
  create_execution_ref pending t =
      if accepts pending_created then create now new_id pending t else (err cannot_insert, t)

  unfoldable pub running_status_without_job_id : ExecutionRefId → Option String → TriggerOutcome
  running_status_without_job_id id detail = record {
    execution_ref_id = id;
    execution_ref = some (record default_ref { id = some id });
    resolved_status = ResolvedExecutionStatus.running;
    status_source = ExecutionStatusSource.execution_ref;
    observed_at = seen_at;
    detail = detail;
  }

  unfoldable pub live_outcome : ExecutionRefId → Option ExecutionRuntimeStatus → TriggerOutcome
  unfolding running_status_without_job_id
  live_outcome id none = running_status_without_job_id id none
  live_outcome id (some status) = record {
    execution_ref_id = id;
    execution_ref = some status.row;
    resolved_status = status.resolved_status;
    status_source = status.status_source;
    observed_at = status.observed_at;
    detail = status.detail;
  }

  -- `find_runtime_status(…).await?`
  unfoldable pub live_answer :
      ExecutionRefId → Option String → Ledger → Result TriggerError TriggerOutcome
  unfolding live_outcome find_runtime_status
  live_answer id (some e) t = err (status_unread e)
  live_answer id none t = ok (live_outcome id (find_runtime_status remote seen_at id t))

  -- `find_execution_ref(…).await.ok().flatten()`
  abbrev pub found_or_none : Option String → ExecutionRefId → Ledger → Option ExecutionRef
  found_or_none (some e) id t = none
  found_or_none none id t = find id t

  unfoldable pub answer_of :
      ExecutionRefId → Result String (Option ℕ) → Ledger → Result TriggerError TriggerOutcome
  unfolding live_answer running_status_without_job_id find
  answer_of id (ok (some job_id)) t = live_answer id reads.status t
  answer_of id (ok none) t =
      ok (running_status_without_job_id id (some "job_id pending; not cancellable until assigned"))
  answer_of id (err e) t = ok (record {
    execution_ref_id = id;
    execution_ref = found_or_none reads.row id t;
    resolved_status = ResolvedExecutionStatus.enqueue_failed;
    status_source = ExecutionStatusSource.execution_ref;
    observed_at = seen_at;
    detail = some "enqueue failed before job_id was assigned";
  })

  -- The table is that at the answer. The task that awaits the outcome, `record_detached`, is
  -- one of the other writers, here and later.
  unfoldable pub trigger_recorded :
      ExecutionPlan
      → Result LedgerError ExecutionRefId × Ledger
      → Result TriggerError TriggerOutcome × Ledger
  unfolding record_enqueued answer_of
  trigger_recorded plan (err e, t) = (err (cannot_record e), t)
  trigger_recorded plan (ok id, t) =
      let (r, t1) = record_enqueued accepts id (enqueue plan) (others.before_job_id t) in
      let t2 = others.before_outcome t1 in (answer_of id r t2, t2)

  unfoldable pub trigger_resolved :
      ExecutionSourceType
      → ℕ
      → Option String
      → Result TriggerError ResolvedSource
      → Ledger
      → Result TriggerError TriggerOutcome × Ledger
  unfolding trigger_recorded create_execution_ref
  trigger_resolved source_type source_id args_json (err e) t = (err e, t)
  trigger_resolved source_type source_id args_json (ok resolved) t =
      trigger_recorded
        (record {
          endpoint = resolved.endpoint;
          target = resolved.target;
          args = or_configured args_json resolved.configured_args;
        })
        (create_execution_ref (pending_ref now source_type source_id resolved) t)

  unfoldable pub trigger_execution :
      ExecutionSourceType
      → ℕ
      → Option String
      → Service memory cron_service
      → Ledger
      → (Result TriggerError TriggerOutcome × Ledger) × Service memory cron_service
  unfolding trigger_resolved resolve
  trigger_execution source_type source_id args_json s t =
      let (resolved, s') = resolve remote memory source_type source_id s in
      (trigger_resolved source_type source_id args_json resolved t, s')

  unfoldable pub re_execute_as :
      ExecutionSourceType
      → ℕ
      → Service memory cron_service
      → Ledger
      → (Result TriggerError TriggerOutcome × Ledger) × Service memory cron_service
  unfolding trigger_execution as_re_execution
  re_execute_as cron_scheduler source_id s t =
      let ((r, t'), s') = trigger_execution cron_scheduler source_id none s t in
      ((as_re_execution r, t'), s')
  re_execute_as unspecified source_id s t = ((err (unimplemented unspecified), t), s)
  re_execute_as slack_event_handler source_id s t =
      ((err (unimplemented slack_event_handler), t), s)
  re_execute_as worker_result_handler source_id s t =
      ((err (unimplemented worker_result_handler), t), s)

  unfoldable pub re_execute_found :
      ExecutionRefId
      → Option ExecutionRef
      → Service memory cron_service
      → Ledger
      → (Result TriggerError TriggerOutcome × Ledger) × Service memory cron_service
  unfolding re_execute_as
  re_execute_found id none s t = ((err (not_found (execution_ref id)), t), s)
  re_execute_found id (some original) s t =
      re_execute_as (source_type_of original.source_type) original.source_id s t

  unfoldable pub re_execute_read :
      ExecutionRefId
      → Option String
      → Service memory cron_service
      → Ledger
      → (Result TriggerError TriggerOutcome × Ledger) × Service memory cron_service
  unfolding re_execute_found find
  re_execute_read id (some e) s t = ((err (failed e), t), s)
  re_execute_read id none s t = re_execute_found id (find id t) s t

  unfoldable pub re_execute :
      ExecutionRefId
      → Service memory cron_service
      → Ledger
      → (Result TriggerError TriggerOutcome × Ledger) × Service memory cron_service
  unfolding re_execute_read
  re_execute id s t = re_execute_read id reads.original s t
