-- ===== src/Execution/Status.antt =====
-- `ExecutionStatusAppImpl` (api/app/src/app/execution_status.rs): the runtime status of a recorded
-- execution, its cancellation and its deletion. jobworkerp and the repository of its servers are the
-- interface `Remote`; the enums of its client are data types here, read from their numbers by it.
pub mod Deletion
use jobworkerp_conductor.Prelude.{
  ℕ, String, ◌≡◌, Bool, true, false, Option, none, some, List, [], ◌∷◌, Result, ok, err, ◌>>=◌,
  ok_or, if◌then◌else◌, is_some,
}
use jobworkerp_conductor.HashMap.{HashMap}
use jobworkerp_conductor.Proto.{JobworkerpServer, JobworkerpServerData, JobworkerpServerId}
use jobworkerp_conductor.Execution.Target.{server_endpoint}
use jobworkerp_conductor.Execution.Ledger.{
  ExecutionRef, ExecutionRefId, Ledger, find, update_result, delete, delete_by_ids,
  delete_all_by_source, of_source,
}

pub data JobProcessingStatus : Type 0 where
  pending running wait_result cancelling unknown : JobProcessingStatus

-- The variants that the program names; the others are `another`.
pub data ResultStatus : Type 0 where
  success cancelled other_error : ResultStatus
  another : ℕ → ResultStatus

pub data ResolvedExecutionStatus : Type 0 where
  unspecified pending running wait_result cancelling : ResolvedExecutionStatus
  succeeded failed cancelled unknown unavailable enqueue_failed : ResolvedExecutionStatus

pub data ExecutionStatusSource : Type 0 where
  job_processing_status job_result execution_ref unavailable : ExecutionStatusSource

pub record Remote : Type 1 where
  pub processing_status_try_from : ℕ → Option JobProcessingStatus
  pub result_status_try_from : ℕ → Option ResultStatus
  pub cancelled_number : ℕ
  -- The repository of servers, and a new client for an endpoint.
  pub find_server : JobworkerpServerId → Result String (Option JobworkerpServer)
  pub Client : Type 0
  pub open_client : String → Result String Client
  -- The status in the answer about a job.
  pub find_processing : Client → ℕ → Result String (Option ℕ)
  -- The first stored result, with its status if it has data.
  pub find_result : Client → ℕ → Result String (Option (Option ResultStatus))
  -- The answer to deleting a job.
  pub delete_job : Client → ℕ → Result String Bool

pub record ExecutionRuntimeStatus : Type 0 where
  pub row : ExecutionRef
  pub resolved_status : ResolvedExecutionStatus
  pub status_source : ExecutionStatusSource
  pub observed_at : ℕ
  pub detail : Option String

pub data DeleteResult : Type 0 where
  deleted not_found not_terminal : DeleteResult

unfoldable pub is_terminal : ResolvedExecutionStatus → Bool
is_terminal ResolvedExecutionStatus.succeeded = true
is_terminal ResolvedExecutionStatus.failed = true
is_terminal ResolvedExecutionStatus.cancelled = true
is_terminal ResolvedExecutionStatus.enqueue_failed = true
is_terminal _ = false

unfoldable pub map_processing : Option JobProcessingStatus → ResolvedExecutionStatus
map_processing (some JobProcessingStatus.pending) = ResolvedExecutionStatus.pending
map_processing (some JobProcessingStatus.running) = ResolvedExecutionStatus.running
map_processing (some JobProcessingStatus.wait_result) = ResolvedExecutionStatus.wait_result
map_processing (some JobProcessingStatus.cancelling) = ResolvedExecutionStatus.cancelling
map_processing (some JobProcessingStatus.unknown) = ResolvedExecutionStatus.unknown
map_processing none = ResolvedExecutionStatus.unknown

unfoldable pub map_result_status : ResultStatus → ResolvedExecutionStatus
map_result_status ResultStatus.success = ResolvedExecutionStatus.succeeded
map_result_status ResultStatus.cancelled = ResolvedExecutionStatus.cancelled
map_result_status _ = ResolvedExecutionStatus.failed

unfoldable pub infer_status_without_result : ResolvedExecutionStatus
infer_status_without_result = ResolvedExecutionStatus.succeeded

abbrev pub status_or : ResultStatus → Option ResultStatus → ResultStatus
status_or s none = s
status_or s (some r) = r

module _ (remote : Remote) where
  open remote use {
    processing_status_try_from, result_status_try_from, cancelled_number, find_server, Client,
    open_client, find_processing, find_result, delete_job,
  }

  unfoldable pub map_processing_status : ℕ → ResolvedExecutionStatus
  unfolding map_processing
  map_processing_status status = map_processing (processing_status_try_from status)

  unfoldable pub resolve_status_without_stored_result : Option ℕ → ResolvedExecutionStatus × String
  unfolding map_result_status infer_status_without_result
  resolve_status_without_stored_result (some rs) = (
    map_result_status (status_or ResultStatus.other_error (result_status_try_from rs)),
    "no stored result; using terminal status recorded at execution time",
  )
  resolve_status_without_stored_result none = (
    infer_status_without_result,
    "no processing status, stored result, or recorded terminal status; success inferred for legacy refs",
  )

  unfoldable pub resolve_jobidless_status :
      Option String → Option ℕ → ResolvedExecutionStatus × String
  unfolding resolve_status_without_stored_result
  resolve_jobidless_status (some error) result_status =
      (ResolvedExecutionStatus.enqueue_failed, "enqueue failed before job_id was assigned")
  resolve_jobidless_status none (some rs) = resolve_status_without_stored_result (some rs)
  resolve_jobidless_status none none = (
    ResolvedExecutionStatus.running,
    "enqueued; job_id not yet assigned; awaiting result on conductor side",
  )

  unfoldable pub client_for : ExecutionRef → Result String Client
  unfolding server_endpoint
  client_for row = do
    server_id ← ok_or "execution_ref.jobworkerp_server_id is missing" row.jobworkerp_server_id
    found ← find_server server_id
    server ← ok_or "jobworkerp server not found" found
    server_data ← ok_or "jobworkerp server data is missing" server.payload
    open_client (server_endpoint server_data)

  module _ (now : ℕ) where
    abbrev pub status_of :
        ExecutionRef
        → ResolvedExecutionStatus
        → ExecutionStatusSource
        → Option String
        → ExecutionRuntimeStatus
    status_of row resolved source detail = record {
      row = row;
      resolved_status = resolved;
      status_source = source;
      observed_at = now;
      detail = detail;
    }

    -- Without a way to ask jobworkerp, or when it does not answer.
    abbrev pub cannot_tell : ExecutionRef → String → ExecutionRuntimeStatus
    cannot_tell row e =
        status_of row ResolvedExecutionStatus.unavailable ExecutionStatusSource.unavailable (some e)

    unfoldable pub resolve_result :
        ExecutionRef → Result String (Option (Option ResultStatus)) → ExecutionRuntimeStatus
    unfolding map_result_status resolve_status_without_stored_result
    resolve_result row (err e) = cannot_tell row e
    resolve_result row (ok (some result)) =
        status_of row (map_result_status (status_or ResultStatus.other_error result))
          ExecutionStatusSource.job_result none
    resolve_result row (ok none) =
        status_of row (resolve_status_without_stored_result row.result_status).0
          ExecutionStatusSource.execution_ref
          (some (resolve_status_without_stored_result row.result_status).1)

    unfoldable pub resolve_processing :
        ExecutionRef → ℕ → Client → Result String (Option ℕ) → ExecutionRuntimeStatus
    unfolding map_processing_status resolve_result
    resolve_processing row job_id client (err e) = cannot_tell row e
    resolve_processing row job_id client (ok (some status)) =
        status_of row (map_processing_status status) ExecutionStatusSource.job_processing_status
          none
    resolve_processing row job_id client (ok none) = resolve_result row (find_result client job_id)

    unfoldable pub resolve_with_client :
        ExecutionRef → ℕ → Result String Client → ExecutionRuntimeStatus
    unfolding resolve_processing
    resolve_with_client row job_id (err e) = cannot_tell row e
    resolve_with_client row job_id (ok client) =
        resolve_processing row job_id client (find_processing client job_id)

    unfoldable pub resolve_job : ExecutionRef → Option ℕ → ExecutionRuntimeStatus
    unfolding resolve_jobidless_status resolve_with_client client_for
    resolve_job row none =
        status_of row (resolve_jobidless_status row.enqueue_error row.result_status).0
          ExecutionStatusSource.execution_ref
          (some (resolve_jobidless_status row.enqueue_error row.result_status).1)
    resolve_job row (some job_id) = resolve_with_client row job_id (client_for row)

    unfoldable pub resolve_status : ExecutionRef → ExecutionRuntimeStatus
    unfolding resolve_job
    resolve_status row = resolve_job row row.job_id

    unfoldable pub find_runtime_status : ExecutionRefId → Ledger → Option ExecutionRuntimeStatus
    unfolding find resolve_status
    find_runtime_status id t = elim (find id t) [
      | none ↦ none
      | some row ↦ some (resolve_status row)
    ]

    unfoldable pub delete_resolved :
        ExecutionRefId → Ledger → Option ExecutionRef → DeleteResult × Ledger
    unfolding is_terminal resolve_status delete
    delete_resolved id t none = (not_found, t)
    delete_resolved id t (some row) =
        if is_terminal (resolve_status row).resolved_status
        then (let (removed, t') = delete id t in ((if removed then deleted else not_found), t'))
        else (not_terminal, t)

    -- No other writer comes between the lookup and the deletion here.
    unfoldable pub delete_execution_ref : ExecutionRefId → Ledger → DeleteResult × Ledger
    unfolding delete_resolved find
    delete_execution_ref id t = delete_resolved id t (find id t)

    -- The ids of the rows of a source that are confirmed terminal.
    unfoldable pub terminal_ids : ℕ → ℕ → Ledger → List ExecutionRefId
    unfolding is_terminal resolve_status
    terminal_ids source_type source_id [] = []
    terminal_ids source_type source_id ((id, row) ∷ t) =
        let rest = terminal_ids source_type source_id t in
        if of_source source_type source_id row
        then (if is_terminal (resolve_status row).resolved_status then id ∷ rest else rest)
        else rest

    unfoldable pub delete_execution_refs_by_source : ℕ → ℕ → Bool → Ledger → ℕ × Ledger
    unfolding terminal_ids delete_by_ids delete_all_by_source
    delete_execution_refs_by_source source_type source_id true t =
        delete_all_by_source source_type source_id t
    delete_execution_refs_by_source source_type source_id false t =
        delete_by_ids (terminal_ids source_type source_id t) t

  abbrev pub record_cancel :
      ExecutionRefId → ℕ → Ledger → Result String Bool → Result String Bool × Ledger
  record_cancel id job_id t (err e) = (err e, t)
  record_cancel id job_id t (ok true) = (ok true, update_result id (some job_id) cancelled_number t)
  record_cancel id job_id t (ok false) = (ok false, t)

  abbrev pub cancel_job :
      ExecutionRefId → Ledger → ℕ → Result String Client → Result String Bool × Ledger
  cancel_job id t job_id (err e) = (err e, t)
  cancel_job id t job_id (ok client) = record_cancel id job_id t (delete_job client job_id)

  abbrev pub cancel_row :
      ExecutionRefId → Ledger → ExecutionRef → Option ℕ → Result String Bool × Ledger
  cancel_row id t row none = (err "execution_ref.job_id is missing", t)
  cancel_row id t row (some job_id) = cancel_job id t job_id (client_for row)

  abbrev pub cancel_found :
      ExecutionRefId → Ledger → Option ExecutionRef → Result String Bool × Ledger
  cancel_found id t none = (err "execution_ref not found", t)
  cancel_found id t (some row) = cancel_row id t row row.job_id

  unfoldable pub cancel_execution : ExecutionRefId → Ledger → Result String Bool × Ledger
  unfolding client_for find update_result
  cancel_execution id t = cancel_found id t (find id t)
