-- ===== src/Execution/Status/Deletion.antt =====
-- Which executions the ledger loses, and what is reported of a cancelled one.
use mathlib.Core.Path.{subst}
use jobworkerp_conductor.Prelude.{
  ℕ, ◌≡◌, refl, ap, ◌∙◌, inl, inr, arith, Bool, true, false, Option, none, some, [], ◌∷◌, ok,
  if◌then◌else◌, ◌==◌, ◌&&◌, ◌||◌, Bool-cases, ℕ-HasEq, nat_eq_iff,
}
use jobworkerp_conductor.HashMap.{get}
use jobworkerp_conductor.HashMap.Entries.{HasUniqueKeys}
use jobworkerp_conductor.Execution.Ledger.{
  ExecutionRef, ExecutionRefId, Ledger, find, update_result, of_source, result_status_cancelled,
}
use jobworkerp_conductor.Execution.Ledger.Cancelled.{Writes, IsCancelled, update_result-IsCancelled}
use jobworkerp_conductor.Execution.Ledger.Chunks.{elem, delete_by_ids-delete_in}
use jobworkerp_conductor.Execution.Status.{
  Remote, ResultStatus, ResolvedExecutionStatus, is_terminal, resolve_status, terminal_ids,
  delete_execution_refs_by_source, cancel_execution, cancel_row, cancel_job, record_cancel,
  cancel_found, client_for, resolve_status_without_stored_result, map_result_status, status_or,
}

module _ (remote : Remote) (now source_type source_id : ℕ) where
  -- A row of the source whose status is confirmed terminal.
  abbrev pub deletable : Option ExecutionRef → Bool
  deletable none = false
  deletable (some row) =
      of_source source_type source_id row
      && is_terminal (resolve_status remote now row).resolved_status

  elem-terminal_ids_head :
      (j id : ExecutionRefId) (row : ExecutionRef) (t : Ledger)
      → elem j (terminal_ids remote now source_type source_id ((id, row) ∷ t)) ≡ (
          (id == j && deletable (some row))
          || elem j (terminal_ids remote now source_type source_id t))
  unfolding terminal_ids
  elem-terminal_ids_head j id row t = ground arith

  elem-terminal_ids :
      (j : ExecutionRefId) (t : Ledger)
      → HasUniqueKeys t
      → elem j (terminal_ids remote now source_type source_id t) ≡ deletable (get j t)
  unfolding get
  elem-terminal_ids j [] u = unfold terminal_ids in refl
  elem-terminal_ids j ((id, row) ∷ t) u =
      elem-terminal_ids_head j id row t ∙ elim (Bool-cases (id == j)) [
        | inl same ↦
            let ids : id ≡ j = (nat_eq_iff id j).0 same in
            let free : get j t ≡ none = rw (← ids) u.0 in
            let absent : elem j (terminal_ids remote now source_type source_id t) ≡ false =
              elem-terminal_ids j t u.1 ∙ ap deletable free in
            rw (same, absent) (ground arith)
        | inr other ↦ rw other (elem-terminal_ids j t u.1)
      ]

  -- Deleting the executions of a source, the active ones excepted, removes the rows of that source
  -- whose status is confirmed terminal, and those only, from a table whose keys are distinct.
  pub delete_execution_refs_by_source-deletable :
      (t : Ledger) (j : ExecutionRefId)
      → HasUniqueKeys t
      → find j (delete_execution_refs_by_source remote now source_type source_id false t).1
        ≡ (if deletable (find j t) then none else find j t)
  unfolding delete_execution_refs_by_source find
  delete_execution_refs_by_source-deletable t j u =
      (delete_by_ids-delete_in (terminal_ids remote now source_type source_id t) t).1 j
      ∙ ap (λ b. if b then none else get j t) (elem-terminal_ids j t u)

module _ (remote : Remote) where
  open remote use {cancelled_number, result_status_try_from, delete_job}

  recorded-cancel_execution :
      (id : ExecutionRefId) (row : ExecutionRef) (job_id : ℕ) (client : remote.Client) (t : Ledger)
      → find id t ≡ some row
      → row.job_id ≡ some job_id
      → client_for remote row ≡ ok client
      → delete_job client job_id ≡ ok true
      → cancelled_number ≡ result_status_cancelled
      → (cancel_execution remote id t).1 ≡ update_result id (some job_id) result_status_cancelled t
  unfolding cancel_execution
  recorded-cancel_execution id row job_id client t found has_job connected accepted same =
      ap (λ o. (cancel_found remote id t o).1) found
      ∙ ap (λ o. (cancel_row remote id t row o).1) has_job
      ∙ ap (λ c. (cancel_job remote id t job_id c).1) connected
      ∙ ap (λ r. (record_cancel remote id job_id t r).1) accepted
      ∙ ap (λ n. update_result id (some job_id) n t) same

  -- When a client is made for an execution with a job id, and jobworkerp accepts its cancellation,
  -- the row stays, whatever rows are created and updated later, and where jobworkerp has no result
  -- of the job it is reported as cancelled: if the cancelled number is the number that the ledger
  -- protects and is read back as itself.
  pub cancel_execution-reports_cancelled :
      (id : ExecutionRefId) (row : ExecutionRef) (job_id : ℕ) (client : remote.Client)
      (t t' : Ledger)
      → find id t ≡ some row
      → row.job_id ≡ some job_id
      → client_for remote row ≡ ok client
      → delete_job client job_id ≡ ok true
      → cancelled_number ≡ result_status_cancelled
      → result_status_try_from result_status_cancelled ≡ some ResultStatus.cancelled
      → Writes (cancel_execution remote id t).1 t'
      → (last : ExecutionRef) × (find id t' ≡ some last)
        × ((resolve_status_without_stored_result remote last.result_status).0
            ≡ ResolvedExecutionStatus.cancelled)
  unfolding resolve_status_without_stored_result
  cancel_execution-reports_cancelled id row job_id client t t' found has_job connected accepted same
        decodes later =
      let recorded =
        recorded-cancel_execution id row job_id client t found has_job connected accepted same in
      let kept : IsCancelled id t' =
        update_result-IsCancelled id (some job_id) row t t' found
          (subst (λ l. Writes l t') recorded later) in
      (
        kept.0,
        kept.1,
        ap (λ s. (resolve_status_without_stored_result remote s).0) kept.2
            ∙ ap (λ r. map_result_status (status_or ResultStatus.other_error r)) decodes
            ∙ unfold map_result_status in refl,
      )
