-- ===== src/Execution/Tests.antt =====
-- Concrete configurations and ledgers: the theorems at them.
use jobworkerp_conductor.Prelude.{
  ℕ, String, ◌≡◌, refl, ◌↔◌, some, none, [], ◌∷◌, Result, ok, err, true, false, ℕ-HasEq,
  if◌then◌else◌, nat_eq,
}
use jobworkerp_conductor.HashMap.{get}
use jobworkerp_conductor.Proto.{workflow, JobworkerpServer}
use jobworkerp_conductor.Execution.Target.{
  validate_execution_target, validate_execution_target_iff, IsRunnable, from_cron_target,
  resolve_slack,
}
use jobworkerp_conductor.Execution.Ledger.{
  new_row, ExecutionRef, Ledger, find, update_result, delete_in, delete_by_ids,
  result_status_cancelled,
}
use jobworkerp_conductor.Execution.Ledger.Cancelled.{
  written, then_write, result_updated, IsCancelled, update_result-IsCancelled,
}
use jobworkerp_conductor.Execution.Ledger.Chunks.{elem, delete_by_ids-delete_in}
use jobworkerp_conductor.Execution.Recorder.{
  EnqueuedJob, enqueued_or_failure, record_pending_then_update,
}
use jobworkerp_conductor.Execution.Recorder.Outcome.{
  accepts_all, nobody_else, with_job_id, with_outcome, record_pending_then_update-records,
}
use jobworkerp_conductor.Execution.Recorder.Lost.{lost_result-reported_succeeded}
use jobworkerp_conductor.Execution.Status.{
  resolve_status, Remote, JobProcessingStatus, ResultStatus, ResolvedExecutionStatus,
  delete_execution_refs_by_source, cancel_execution, resolve_status_without_stored_result,
  client_for,
}
use jobworkerp_conductor.Execution.Status.Deletion.{
  deletable, delete_execution_refs_by_source-deletable, cancel_execution-reports_cancelled,
}

validate_execution_target_iff_example :
    ((validate_execution_target
          (some (workflow (record { workflow_url = "file://wf"; channel = none })))
          ""
        ≡ ok tt)
      ↔ IsRunnable (
          from_cron_target
            (some (workflow (record { workflow_url = "file://wf"; channel = none })))
            ""
            none))
    × ((validate_execution_target
            (some (workflow (record { workflow_url = "file://wf"; channel = none })))
            ""
          ≡ ok tt)
        ↔ IsRunnable (
            resolve_slack
              (some (workflow (record { workflow_url = "file://wf"; channel = none })))
              ""
              "c"))
validate_execution_target_iff_example =
    validate_execution_target_iff
      (some (workflow (record { workflow_url = "file://wf"; channel = none }))) "" none "c"

abbrev running_ref : ExecutionRef
running_ref = record {
  id = some 1;
  source_type = 1;
  source_id = 4;
  source_name = "hourly";
  jobworkerp_server_id = some 7;
  job_id = some 700;
  triggered_at = 10;
  trigger_context_json = none;
  enqueue_error = none;
  created_at = 10;
  result_status = none;
}

abbrev failed_ref : ExecutionRef
failed_ref = record running_ref { id = some 2; job_id = none; enqueue_error = some "no worker" }

abbrev pub ledger : Ledger
ledger = (1, running_ref) ∷ (2, failed_ref) ∷ []

update_result-IsCancelled_example :
    IsCancelled 1
      (update_result 1 (some 700) 0 (update_result 1 (some 700) result_status_cancelled ledger))
unfolding find get
update_result-IsCancelled_example =
    update_result-IsCancelled 1 (some 700) running_ref ledger
      (update_result 1 (some 700) 0 (update_result 1 (some 700) result_status_cancelled ledger))
      refl (then_write _ _ _ (written _) (result_updated 1 (some 700) 0 _))

delete_by_ids-delete_in_example :
    (delete_by_ids (2 ∷ 9 ∷ []) ledger ≡ delete_in (2 ∷ 9 ∷ []) ledger)
    × ((j : ℕ)
        → get j (delete_by_ids (2 ∷ 9 ∷ []) ledger).1
          ≡ (if elem j (2 ∷ 9 ∷ []) then none else get j ledger))
delete_by_ids-delete_in_example = delete_by_ids-delete_in (2 ∷ 9 ∷ []) ledger

abbrev local_server : JobworkerpServer
local_server = record {
  id = some 7;
  payload = some (record {
    name = "local";
    host = "localhost";
    port = "9000";
    ssl_enabled = false;
    description = none;
    enabled = true;
    created_at = 1;
    updated_at = 1;
  });
}

-- A server that runs every job, accepts every cancellation and stores no result.
abbrev pub server : Remote
server = record {
  processing_status_try_from = λ n. some JobProcessingStatus.running;
  result_status_try_from = λ n. if nat_eq n 6 then some ResultStatus.cancelled else none;
  cancelled_number = 6;
  find_server = λ id. ok (some local_server);
  Client = String;
  open_client = λ endpoint. ok endpoint;
  find_processing = λ client job_id. ok (some 2);
  find_result = λ client job_id. ok none;
  delete_job = λ client job_id. ok true;
}

delete_execution_refs_by_source-deletable_example :
    find 2 (delete_execution_refs_by_source server 20 1 4 false ledger).1
    ≡ (if deletable server 20 1 4 (find 2 ledger) then none else find 2 ledger)
unfolding get
delete_execution_refs_by_source-deletable_example =
    delete_execution_refs_by_source-deletable server 20 1 4 ledger 2 (refl, (refl, tt))

cancel_execution-reports_cancelled_example :
    (last : ExecutionRef) × (find 1
        (update_result 1 (some 700) 0 (cancel_execution server 1 ledger).1)
      ≡ some last)
    × ((resolve_status_without_stored_result server last.result_status).0
        ≡ ResolvedExecutionStatus.cancelled)
unfolding find get client_for
cancel_execution-reports_cancelled_example =
    cancel_execution-reports_cancelled server 1 running_ref 700 "http://localhost:9000" ledger
      (update_result 1 (some 700) 0 (cancel_execution server 1 ledger).1) refl refl refl refl refl
      refl (then_write _ _ _ (written _) (result_updated 1 (some 700) 0 _))

abbrev pending_ref : ExecutionRef
pending_ref = record running_ref { id = none; job_id = none }

abbrev finished : Result String EnqueuedJob
finished =
    ok (record { job_id = some 900; terminal = ok (record { job_id = some 900; status = 0 }) })

record_pending_then_update-records_example :
    ((record_pending_then_update accepts_all nobody_else 20 3 pending_ref finished ledger).0
      ≡ (enqueued_or_failure finished).terminal)
    × (find 3
          (record_pending_then_update accepts_all nobody_else 20 3 pending_ref finished ledger).1
        ≡ some (
            with_outcome
              (enqueued_or_failure finished).terminal
              (with_job_id (enqueued_or_failure finished).job_id (new_row 20 3 7 pending_ref))))
unfolding get
record_pending_then_update-records_example =
    record_pending_then_update-records 20 3 pending_ref 7 ledger refl refl finished

-- A server that has forgotten every job.
abbrev forgetful : Remote
forgetful = record server { find_processing = λ client job_id. ok none }

abbrev lost_row : ExecutionRef
lost_row = record (new_row 20 3 7 pending_ref) { job_id = some 900; enqueue_error = some "reset" }

lost_result-reported_succeeded_example :
    (lost_row.enqueue_error ≡ some "reset")
    × ((resolve_status forgetful 30 lost_row).resolved_status ≡ ResolvedExecutionStatus.succeeded)
unfolding get client_for enqueued_or_failure
lost_result-reported_succeeded_example =
    lost_result-reported_succeeded forgetful 30 lost_row 900 "http://localhost:9000" 20 3
      pending_ref 7 ledger "reset" refl refl refl
      (record_pending_then_update-records 20 3 pending_ref 7 ledger refl refl
        (ok (record { job_id = some 900; terminal = err "reset" }))).1
      refl refl refl
