-- ===== src/Execution/Trigger/Answers.antt =====
-- What a manual trigger answers.
use mathlib.Core.Path.{subst}
use jobworkerp_conductor.Prelude.{
  ℕ, String, ◌≡◌, refl, sym, ap, false, Option, none, some, Result, ok, err, if◌then◌else◌, ℕ-HasEq,
}
use jobworkerp_conductor.HashMap.{get, insert, contains_key, get-insert_same}
use jobworkerp_conductor.Proto.{CronScheduler}
use jobworkerp_conductor.Execution.Ledger.{
  ExecutionRef, ExecutionRefId, Ledger, new_row, create, create_row, find, cannot_insert,
}
use jobworkerp_conductor.Execution.Recorder.{EnqueuedJob, record_job_id, record_enqueued}
use jobworkerp_conductor.Execution.Recorder.Outcome.{
  accepts_all, nobody_else, with_job_id, with_outcome, recorded-job_id, recorded-outcome,
}
use jobworkerp_conductor.Execution.Status.{
  ExecutionRuntimeStatus, Remote, find_runtime_status, resolve_status, resolve_job,
  resolve_jobidless_status,
}
use jobworkerp_conductor.Execution.Trigger.{
  ExecutionSourceType, TriggerError, ReadErrors, ResolvedSource, ExecutionPlan, TriggerOutcome,
  or_configured, resolve,
}
use jobworkerp_conductor.Execution.Trigger.Execute.{
  pending_ref, create_execution_ref, live_outcome, live_answer, answer_of, trigger_recorded,
  trigger_resolved, trigger_execution, running_status_without_job_id,
}
use jobworkerp_conductor.Admin.Service.{MemoryCache, Service}
use jobworkerp_conductor.Admin.Service.Services.{cron_service}

-- No read fails.
abbrev pub all_read : ReadErrors
all_read = record { original = none; status = none; row = none }

module _ (remote : Remote) (memory : MemoryCache CronScheduler)
    (enqueue : ExecutionPlan → Result String EnqueuedJob) (now seen_at : ℕ)
    (new_id : ExecutionRefId) where
  found-status :
      (row : ExecutionRef) (t : Ledger)
      → get new_id t ≡ some row
      → find_runtime_status remote seen_at new_id t ≡ some (resolve_status remote seen_at row)
  unfolding find_runtime_status find
  found-status row t g =
      ap (λ o. elim o [ none ↦ none | some r ↦ some (resolve_status remote seen_at r) ]) g

  -- The answer is of the new row, and reports the status that the row has in the table.
  abbrev pub Answers : Result TriggerError TriggerOutcome × Ledger → Type 0
  Answers r =
      (outcome : TriggerOutcome) × (status : ExecutionRuntimeStatus) × (r.0 ≡ ok outcome)
      × (outcome.execution_ref_id ≡ new_id)
      × (find_runtime_status remote seen_at new_id r.1 ≡ some status)
      × (outcome.resolved_status ≡ status.resolved_status)

  abbrev answer_in : Result String (Option ℕ) → Ledger → Result TriggerError TriggerOutcome
  answer_in r t =
      answer_of remote memory accepts_all all_read nobody_else enqueue now seen_at new_id new_id r t

  module _ (source_type : ExecutionSourceType) (source_id : ℕ) (resolved : ResolvedSource) where
    abbrev row : ExecutionRef
    row =
        new_row now new_id resolved.jobworkerp_server_id
          (pending_ref now source_type source_id resolved)

    recorded-Answers :
        (job_id : Option ℕ) (t : Ledger)
        → get new_id t ≡ some row
        → Answers (
          answer_in (ok job_id) (record_job_id accepts_all (some new_id) job_id t),
          record_job_id accepts_all (some new_id) job_id t,
        )
    unfolding answer_of live_answer record_job_id running_status_without_job_id live_outcome
        resolve_status resolve_job resolve_jobidless_status
    recorded-Answers none t g = (_, _, refl, refl, found-status row t g, refl)
    recorded-Answers (some job_id) t g =
        let found =
          found-status (with_job_id (some job_id) row) _
            (recorded-job_id new_id (some job_id) row t g) in
        (
          live_outcome remote memory accepts_all all_read nobody_else enqueue now seen_at new_id
              new_id (some (resolve_status remote seen_at (with_job_id (some job_id) row))),
          _,
          ap
              (λ o. ok (
                live_outcome remote memory accepts_all all_read nobody_else enqueue now seen_at
                  new_id new_id o))
              found,
          refl,
          found,
          refl,
        )

    enqueued-Answers :
        (job : Result String EnqueuedJob) (t : Ledger)
        → get new_id t ≡ some row
        → Answers (
          answer_in
              (record_enqueued accepts_all new_id job t).0
              (record_enqueued accepts_all new_id job t).1,
          (record_enqueued accepts_all new_id job t).1,
        )
    unfolding record_enqueued answer_of resolve_status resolve_job resolve_jobidless_status
    enqueued-Answers (ok job) t g = recorded-Answers job.job_id t g
    enqueued-Answers (err e) t g = (
      _,
      _,
      refl,
      refl,
      found-status (with_outcome (err e) row) _ (recorded-outcome new_id (err e) row t g),
      refl,
    )

    created :
        (t : Ledger)
        → contains_key t new_id ≡ false
        → create_execution_ref remote memory accepts_all all_read nobody_else enqueue now seen_at
            new_id
            (pending_ref now source_type source_id resolved)
            t
          ≡ (ok new_id, insert new_id row t)
    unfolding create_execution_ref create create_row
    created t is_fresh =
        ap (λ b. if b then (err cannot_insert, t) else (ok new_id, insert new_id row t)) is_fresh

    -- If the source resolves, the id of the new row is not taken, the database takes every statement
    -- and every read, and no other writer touches the table, a trigger answers, whether or not the enqueueing
    -- succeeds: with the id of the new row, and with the status that the status call resolves from
    -- the table then.
    pub trigger_execution-Answers :
        (args_json : Option String) (s : Service memory cron_service) (t : Ledger)
        → (resolve remote memory source_type source_id s).0 ≡ ok resolved
        → contains_key t new_id ≡ false
        → Answers
            (trigger_execution remote memory accepts_all all_read nobody_else enqueue now seen_at
              new_id source_type source_id args_json s t).0
    unfolding trigger_execution trigger_resolved trigger_recorded
    trigger_execution-Answers args_json s t resolves is_fresh =
        let plan : ExecutionPlan = record {
          endpoint = resolved.endpoint;
          target = resolved.target;
          args = or_configured args_json resolved.configured_args;
        } in
        subst
          (λ r. Answers (
            trigger_resolved remote memory accepts_all all_read nobody_else enqueue now seen_at
              new_id source_type source_id args_json r t))
          (sym resolves)
          (subst
            (λ c. Answers (
              trigger_recorded remote memory accepts_all all_read nobody_else enqueue now seen_at
                new_id plan c))
            (sym (created t is_fresh))
            (enqueued-Answers (enqueue plan) (insert new_id row t) (get-insert_same new_id row t)))
