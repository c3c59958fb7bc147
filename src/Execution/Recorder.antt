-- ===== src/Execution/Recorder.antt =====
-- The recording of one execution as it goes: `record_pending_then_update`
-- (shared/src/execution_ref_recorder.rs) and `spawn_and_record` (shared/src/triggered_execution.rs)
-- over the ledger. What the enqueueing yields is an argument. `accepts` says which of the statements
-- the database takes, and `Others` what other writers do while the execution goes on.
pub mod Outcome
pub mod Lost
use jobworkerp_conductor.Prelude.{
  ℕ, String, Bool, true, false, Option, none, some, Result, ok, err, if◌then◌else◌,
}
use jobworkerp_conductor.Execution.Ledger.{
  ExecutionRef, ExecutionRefId, Ledger, create, update_result, update_job_id, update_enqueue_error,
}

-- `WorkflowExecutionOutcome`, with the fields that are recorded.
pub record WorkflowExecutionOutcome : Type 0 where
  pub job_id : Option ℕ
  pub status : ℕ

-- The terminal future stands as the result that it resolves to.
pub record EnqueuedJob : Type 0 where
  pub job_id : Option ℕ
  pub terminal : Result String WorkflowExecutionOutcome

unfoldable pub enqueue_failure : String → EnqueuedJob
enqueue_failure e = record { job_id = none; terminal = err e }

-- `unwrap_or_else(EnqueuedJob::enqueue_failure)`
unfoldable pub enqueued_or_failure : Result String EnqueuedJob → EnqueuedJob
unfolding enqueue_failure
enqueued_or_failure (ok job) = job
enqueued_or_failure (err e) = enqueue_failure e

pub data Statement : Type 0 where
  pending_created job_id_recorded outcome_recorded : Statement

-- What the other writers do before each later statement.
pub record Others : Type 0 where
  pub before_job_id : Ledger → Ledger
  pub before_outcome : Ledger → Ledger

module _ (accepts : Statement → Bool) where
  -- The id of the pending row, if it could be created.
  abbrev pub created_id :
      {E : Type 0}
      → Bool
      → Result E ExecutionRefId × Ledger
      → Ledger
      → Option ExecutionRefId × Ledger
  created_id false r t = (none, t)
  created_id true (ok id, t') t = (some id, t')
  created_id true (err e, t') t = (none, t')

  unfoldable pub record_pending :
      ℕ → ExecutionRefId → ExecutionRef → Ledger → Option ExecutionRefId × Ledger
  unfolding create
  record_pending now new_id pending t =
      created_id (accepts pending_created) (create now new_id pending t) t

  unfoldable pub record_job_id : Option ExecutionRefId → Option ℕ → Ledger → Ledger
  unfolding update_job_id
  record_job_id (some id) (some job_id) t =
      if accepts job_id_recorded then update_job_id id job_id t else t
  record_job_id _ _ t = t

  unfoldable pub record_outcome :
      ExecutionRefId → Result String WorkflowExecutionOutcome → Ledger → Ledger
  unfolding update_result update_enqueue_error
  record_outcome id (ok outcome) t =
      if accepts outcome_recorded then update_result id outcome.job_id outcome.status t else t
  record_outcome id (err e) t = if accepts outcome_recorded then update_enqueue_error id e t else t

  unfoldable pub record_terminal :
      Option ExecutionRefId → Result String WorkflowExecutionOutcome → Ledger → Ledger
  unfolding record_outcome
  record_terminal none result t = t
  record_terminal (some id) result t = record_outcome id result t

  -- The result that is returned, and the table.
  unfoldable pub record_pending_then_update :
      Others
      → ℕ
      → ExecutionRefId
      → ExecutionRef
      → Result String EnqueuedJob
      → Ledger
      → Result String WorkflowExecutionOutcome × Ledger
  unfolding record_pending enqueued_or_failure record_job_id record_terminal
  record_pending_then_update others now new_id pending enqueue t =
      let (id, t1) = record_pending now new_id pending t in
      let job = enqueued_or_failure enqueue in
      let t2 = record_job_id id job.job_id (others.before_job_id t1) in
      (job.terminal, record_terminal id job.terminal (others.before_outcome t2))

  -- A manual trigger: the row is there already, and the job id or the error of the enqueueing is
  -- recorded and returned.
  unfoldable pub record_enqueued :
      ExecutionRefId → Result String EnqueuedJob → Ledger → Result String (Option ℕ) × Ledger
  unfolding record_job_id record_outcome
  record_enqueued id (err e) t = (err e, record_outcome id (err e) t)
  record_enqueued id (ok job) t = (ok job.job_id, record_job_id (some id) job.job_id t)

  -- The task of its own that awaits the outcome.
  unfoldable pub record_detached : ExecutionRefId → Result String EnqueuedJob → Ledger → Ledger
  unfolding record_outcome
  record_detached id (err e) t = t
  record_detached id (ok job) t = record_outcome id job.terminal t
