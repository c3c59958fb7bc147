-- ===== src/Execution/Recorder/Lost.antt =====
-- What is reported of an execution whose result never came back.
use jobworkerp_conductor.Prelude.{
  ℕ, String, ◌≡◌, sym, ap, ◌∙◌, false, Option, none, some, ok, err, ℕ-HasEq,
}
use jobworkerp_conductor.HashMap.{contains_key}
use jobworkerp_conductor.Proto.{JobworkerpServerId}
use jobworkerp_conductor.Execution.Ledger.{ExecutionRef, ExecutionRefId, Ledger, find}
use jobworkerp_conductor.Execution.Recorder.{enqueued_or_failure, record_pending_then_update}
use jobworkerp_conductor.Execution.Recorder.Outcome.{
  accepts_all, nobody_else, record_pending_then_update-records,
}
use jobworkerp_conductor.Execution.Status.{
  Remote, ResolvedExecutionStatus, resolve_status, resolve_job, resolve_with_client,
  resolve_processing, resolve_result, resolve_status_without_stored_result,
  infer_status_without_result, client_for,
}

-- A field of the row that was found, or the default.
abbrev field {ℓ} : {A : Type ℓ} → (ExecutionRef → A) → A → Option ExecutionRef → A
field read default none = default
field read default (some r) = read r

module _ (remote : Remote) (now : ℕ) (row : ExecutionRef) (job_id : ℕ)
    (client : remote.Client) where
  open remote use {find_processing, find_result}

  -- A row with a job id of which jobworkerp knows nothing, and without a recorded status.
  unrecorded-resolve_status :
      row.job_id ≡ some job_id
      → row.result_status ≡ none
      → client_for remote row ≡ ok client
      → find_processing client job_id ≡ ok none
      → find_result client job_id ≡ ok none
      → (resolve_status remote now row).resolved_status ≡ ResolvedExecutionStatus.succeeded
  unfolding resolve_status resolve_job resolve_with_client resolve_processing resolve_result
      resolve_status_without_stored_result infer_status_without_result
  unrecorded-resolve_status has_job no_status connected idle nothing =
      ap (λ o. (resolve_job remote now row o).resolved_status) has_job
      ∙ ap (λ c. (resolve_with_client remote now row job_id c).resolved_status) connected
      ∙ ap (λ p. (resolve_processing remote now row job_id client p).resolved_status) idle
      ∙ ap (λ r. (resolve_result remote now row r).resolved_status) nothing
      ∙ ap (λ s. (resolve_status_without_stored_result remote s).0) no_status

  -- An execution whose job id is recorded, and whose wait for the result then ends in an error, has
  -- the error in its row; yet it is reported as succeeded once jobworkerp has neither a status nor a
  -- result of the job: if the database takes every statement, nobody else writes, and the pending
  -- row, of a new id, has a server and no status.
  pub lost_result-reported_succeeded :
      (created_at : ℕ) (id : ExecutionRefId) (pending : ExecutionRef)
      (server_id : JobworkerpServerId) (t : Ledger) (e : String)
      → pending.jobworkerp_server_id ≡ some server_id
      → pending.result_status ≡ none
      → contains_key t id ≡ false
      → find id
          (record_pending_then_update accepts_all nobody_else created_at id pending
            (ok (record { job_id = some job_id; terminal = err e }))
            t).1
        ≡ some row
      → client_for remote row ≡ ok client
      → find_processing client job_id ≡ ok none
      → find_result client job_id ≡ ok none
      → (row.enqueue_error ≡ some e)
        × ((resolve_status remote now row).resolved_status ≡ ResolvedExecutionStatus.succeeded)
  unfolding enqueued_or_failure
  lost_result-reported_succeeded created_at id pending server_id t e has_server no_status fresh
        found connected idle nothing =
      let rows =
        sym found
        ∙ (record_pending_then_update-records created_at id pending server_id t has_server fresh
            (ok (record { job_id = some job_id; terminal = err e }))).1 in
      (
        ap (λ o. field (λ r. r.enqueue_error) (some e) o) rows,
        unrecorded-resolve_status (ap (λ o. field (λ r. r.job_id) (some job_id) o) rows)
            (ap (λ o. field (λ r. r.result_status) none o) rows ∙ no_status) connected idle nothing,
      )
