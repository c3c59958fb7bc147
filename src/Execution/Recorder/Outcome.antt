-- ===== src/Execution/Recorder/Outcome.antt =====
-- What is recorded of an execution in the end.
use jobworkerp_conductor.Prelude.{
  ℕ, String, ◌≡◌, refl, ap, ◌∙◌, Bool, true, false, Option, none, some, Result, ok, err,
  if◌then◌else◌, ℕ-HasEq,
}
use jobworkerp_conductor.HashMap.{get, insert, contains_key, get-insert_same}
use jobworkerp_conductor.Proto.{JobworkerpServerId}
use jobworkerp_conductor.Execution.Ledger.{
  ExecutionRef, ExecutionRefId, Ledger, new_row, set_result, find, create, create_row, update_row,
  update_result, update_job_id, update_enqueue_error, cannot_insert,
}
use jobworkerp_conductor.Execution.Recorder.{
  EnqueuedJob, WorkflowExecutionOutcome, enqueued_or_failure, Statement, Others, record_pending,
  record_job_id, record_outcome, record_terminal, record_pending_then_update, created_id,
}

abbrev pub accepts_all : Statement → Bool
accepts_all s = true

abbrev pub nobody_else : Others
nobody_else = record { before_job_id = λ t. t; before_outcome = λ t. t }

-- The row after the job id is known, and after the outcome.
abbrev pub with_job_id : Option ℕ → ExecutionRef → ExecutionRef
with_job_id none row = row
with_job_id (some job_id) row = record row { job_id = some job_id }

abbrev pub with_outcome : Result String WorkflowExecutionOutcome → ExecutionRef → ExecutionRef
with_outcome (ok outcome) row = set_result outcome.job_id outcome.status row
with_outcome (err e) row = record row { enqueue_error = some e }

module _ (id : ExecutionRefId) where
  find-update_row :
      (change : ExecutionRef → ExecutionRef) (o : Option ExecutionRef) (row : ExecutionRef)
      (t : Ledger)
      → get id t ≡ o
      → o ≡ some row
      → get id (update_row id change o t) ≡ some (change row)
  unfolding update_row
  find-update_row change (some r) row t g h =
      get-insert_same id _ t ∙ ap (λ o. some (change o)) (cc h)
  find-update_row change none row t g h = cc h

  pub recorded-job_id :
      (job_id : Option ℕ) (row : ExecutionRef) (t : Ledger)
      → get id t ≡ some row
      → get id (record_job_id accepts_all (some id) job_id t) ≡ some (with_job_id job_id row)
  unfolding record_job_id update_job_id
  recorded-job_id none row t g = g
  recorded-job_id (some job_id) row t g = find-update_row _ (get id t) row t refl g

  pub recorded-outcome :
      (r : Result String WorkflowExecutionOutcome) (row : ExecutionRef) (t : Ledger)
      → get id t ≡ some row
      → get id (record_outcome accepts_all id r t) ≡ some (with_outcome r row)
  unfolding record_outcome update_result update_enqueue_error
  recorded-outcome (ok outcome) row t g = find-update_row _ (get id t) row t refl g
  recorded-outcome (err e) row t g = find-update_row _ (get id t) row t refl g

module _ (now : ℕ) (id : ExecutionRefId) (pending : ExecutionRef) (server_id : JobworkerpServerId)
    (t : Ledger) (has_server : pending.jobworkerp_server_id ≡ some server_id)
    (is_fresh : contains_key t id ≡ false) where
  recorded-pending :
      record_pending accepts_all now id pending t
      ≡ (some id, insert id (new_row now id server_id pending) t)
  unfolding record_pending create create_row
  recorded-pending =
      ap (λ o. created_id accepts_all true (create_row now id pending o t) t) has_server
      ∙ ap
          (λ b.
            created_id accepts_all true
              (if b
                then (err cannot_insert, t)
                else (ok id, insert id (new_row now id server_id pending) t))
              t)
          is_fresh

  -- When the database takes every statement and no other writer touches the table meanwhile, the
  -- result returned is that of the enqueued job, or the error of the enqueueing, and the new row
  -- holds the pending execution with the job id that was known at once and then the outcome: job id
  -- and status of a result, or the text of an error; if the row has a server and its id is new.
  pub record_pending_then_update-records :
      (enqueue : Result String EnqueuedJob)
      → ((record_pending_then_update accepts_all nobody_else now id pending enqueue t).0
          ≡ (enqueued_or_failure enqueue).terminal)
        × (find id (record_pending_then_update accepts_all nobody_else now id pending enqueue t).1
            ≡ some (
                with_outcome (enqueued_or_failure enqueue).terminal (
                  with_job_id
                    (enqueued_or_failure enqueue).job_id
                    (new_row now id server_id pending))))
  unfolding record_pending_then_update record_terminal find
  record_pending_then_update-records enqueue = (
    refl,
    ap
          (λ p. get id (
            record_terminal accepts_all p.0 (enqueued_or_failure enqueue).terminal
              (record_job_id accepts_all p.0 (enqueued_or_failure enqueue).job_id p.1)))
          recorded-pending
        ∙ recorded-outcome id (enqueued_or_failure enqueue).terminal _ _
            (recorded-job_id id (enqueued_or_failure enqueue).job_id _ _ (get-insert_same id _ t)),
  )
