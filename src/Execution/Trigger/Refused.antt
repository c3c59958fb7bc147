-- ===== src/Execution/Trigger/Refused.antt =====
-- A manual trigger or a second execution that is refused.
use jobworkerp_conductor.Prelude.{
  ℕ, String, ◌≡◌, ◌≢◌, refl, ap, arith, Bool, Option, none, some, Result, ok, err, ℕ-HasEq,
}
use jobworkerp_conductor.Proto.{CronScheduler, JobworkerpServerId}
use jobworkerp_conductor.Execution.Ledger.{
  ExecutionRef, ExecutionRefId, Ledger, LedgerError, create, create_row, find,
}
use jobworkerp_conductor.Execution.Recorder.{EnqueuedJob, Others, Statement}
use jobworkerp_conductor.Execution.Status.{Remote}
use jobworkerp_conductor.Execution.Trigger.{
  ExecutionSourceType, unspecified, cron_scheduler, slack_event_handler, worker_result_handler,
  source_type_of, TriggerError, status_unread, ReadErrors, ResolvedSource, ExecutionPlan,
  TriggerOutcome, resolve,
}
use jobworkerp_conductor.Execution.Trigger.Execute.{
  pending_ref, create_execution_ref, trigger_recorded, trigger_resolved, trigger_execution,
  live_answer, answer_of, re_execute_read, as_re_execution, re_execute_as, re_execute_found,
  re_execute,
}
use jobworkerp_conductor.Admin.Service.{MemoryCache, Service}
use jobworkerp_conductor.Admin.Service.Services.{cron_service}

-- Any error but that of reading the status once the job is enqueued.
abbrev pub IsRefusal : TriggerError → Type 0
IsRefusal e = (cause : String) → e ≢ status_unread cause

module _ (remote : Remote) (memory : MemoryCache CronScheduler) (accepts : Statement → Bool)
    (reads : ReadErrors) (others : Others) (now seen_at : ℕ) (new_id : ExecutionRefId)
    (enqueue other : ExecutionPlan → Result String EnqueuedJob) where
  -- If a run ends in an error, it leaves the table as it was, and what the enqueueing would yield
  -- makes no difference.
  abbrev pub Refuses :
      ((ExecutionPlan → Result String EnqueuedJob) → Result TriggerError TriggerOutcome × Ledger)
      → Ledger
      → Type 0
  Refuses run t =
      (e : TriggerError)
      → (run enqueue).0 ≡ err e
      → IsRefusal e
      → ((run enqueue).1 ≡ t) × (run other ≡ run enqueue)

  live_answer-unread :
      (id : ExecutionRefId) (o : Option String) (t : Ledger) (e : TriggerError)
      → live_answer remote memory accepts reads others enqueue now seen_at new_id id o t ≡ err e
      → (cause : String) × (e ≡ status_unread cause)
  unfolding live_answer
  live_answer-unread id none t e h = cc h
  live_answer-unread id (some cause) t e h =
      let same : e ≡ status_unread cause = cc h in (cause, same)

  answer_of-unread :
      (id : ExecutionRefId) (r : Result String (Option ℕ)) (t : Ledger) (e : TriggerError)
      → answer_of remote memory accepts reads others enqueue now seen_at new_id id r t ≡ err e
      → (cause : String) × (e ≡ status_unread cause)
  unfolding answer_of
  answer_of-unread id (ok (some job_id)) t e h = live_answer-unread id reads.status t e h
  answer_of-unread id (ok none) t e h = cc h
  answer_of-unread id (err f) t e h = cc h

  recorded-Refuses :
      (plan : ExecutionPlan) (created : Result LedgerError ExecutionRefId × Ledger) (t : Ledger)
      → ((e : LedgerError) → created.0 ≡ err e → created.1 ≡ t)
      → Refuses
          (λ q.
            trigger_recorded remote memory accepts reads others q now seen_at new_id plan created)
          t
  unfolding trigger_recorded
  recorded-Refuses plan (err e, t') t kept e' h ne = (kept e refl, refl)
  recorded-Refuses plan (ok id, t') t kept e' h ne =
      let unread = answer_of-unread id _ _ e' h in absurd (ne unread.0 unread.1)

  created_row-kept :
      (pending : ExecutionRef) (server_id : Option JobworkerpServerId) (t : Ledger)
      (e : LedgerError)
      → (create_row now new_id pending server_id t).0 ≡ err e
      → (create_row now new_id pending server_id t).1 ≡ t
  unfolding create_row
  created_row-kept pending none t e h = refl
  created_row-kept pending (some server_id) t e h = ground arith

  created-kept :
      (pending : ExecutionRef) (t : Ledger) (e : LedgerError)
      → (create_execution_ref remote memory accepts reads others enqueue now seen_at new_id pending
          t).0
        ≡ err e
      → (create_execution_ref remote memory accepts reads others enqueue now seen_at new_id pending
          t).1
        ≡ t
  unfolding create_execution_ref create
  created-kept pending t e h =
      ground (arith, created_row-kept pending pending.jobworkerp_server_id t e)

  resolved-Refuses :
      (source_type : ExecutionSourceType) (source_id : ℕ) (args_json : Option String)
      (r : Result TriggerError ResolvedSource) (t : Ledger)
      → Refuses
          (λ q.
            trigger_resolved remote memory accepts reads others q now seen_at new_id source_type
              source_id args_json r t)
          t
  unfolding trigger_resolved create_execution_ref
  resolved-Refuses source_type source_id args_json (err e) t e' h ne = (refl, refl)
  resolved-Refuses source_type source_id args_json (ok resolved) t e h ne =
      recorded-Refuses _ _ t (created-kept (pending_ref now source_type source_id resolved) t) e h
        ne

  abbrev Run : Type 0
  Run = (ExecutionPlan → Result String EnqueuedJob) → Result TriggerError TriggerOutcome × Ledger

  re_executed :
      (r : Result TriggerError TriggerOutcome) (e : TriggerError)
      → as_re_execution r ≡ err e
      → IsRefusal e
      → (e' : TriggerError) × (r ≡ err e') × IsRefusal e'
  unfolding as_re_execution
  re_executed (err e') e h ne = (
    e',
    refl,
    λ cause same.
        let unread : as_re_execution {A = TriggerOutcome} (err (status_unread cause)) ≡ err e =
          rw same at h in
        ne cause (cc unread),
  )
  re_executed (ok outcome) e h ne = cc h

  as_re_execution-Refuses :
      (run : Run) (t : Ledger)
      → Refuses run t
      → Refuses (λ q. (as_re_execution (run q).0, (run q).1)) t
  unfolding as_re_execution
  as_re_execution-Refuses run t refuses e h ne =
      let failed_run = re_executed (run enqueue).0 e h ne in
      let r = refuses failed_run.0 failed_run.1 failed_run.2 in
      (r.0, ap (λ p. (as_re_execution p.0, p.1)) r.1)

  re_execute_as-Refuses :
      (source_type : ExecutionSourceType) (source_id : ℕ) (s : Service memory cron_service)
      (t : Ledger)
      → Refuses
          (λ q.
            (re_execute_as remote memory accepts reads others q now seen_at new_id source_type
              source_id s t).0)
          t
  unfolding re_execute_as trigger_execution as_re_execution
  re_execute_as-Refuses unspecified source_id s t e h ne = (refl, refl)
  re_execute_as-Refuses slack_event_handler source_id s t e h ne = (refl, refl)
  re_execute_as-Refuses worker_result_handler source_id s t e h ne = (refl, refl)
  re_execute_as-Refuses cron_scheduler source_id s t e h ne =
      as_re_execution-Refuses
        (λ q.
          trigger_resolved remote memory accepts reads others q now seen_at new_id cron_scheduler
            source_id none (resolve remote memory cron_scheduler source_id s).0 t)
        t
        (resolved-Refuses cron_scheduler source_id none
          (resolve remote memory cron_scheduler source_id s).0 t)
        e h ne

  re_execute_found-Refuses :
      (id : ExecutionRefId) (original : Option ExecutionRef) (s : Service memory cron_service)
      (t : Ledger)
      → Refuses
          (λ q.
            (re_execute_found remote memory accepts reads others q now seen_at new_id id original s
              t).0)
          t
  unfolding re_execute_found
  re_execute_found-Refuses id none s t e h ne = (refl, refl)
  re_execute_found-Refuses id (some original) s t e h ne =
      re_execute_as-Refuses (source_type_of original.source_type) original.source_id s t e h ne

  re_execute_read-Refuses :
      (id : ExecutionRefId) (o : Option String) (s : Service memory cron_service) (t : Ledger)
      → Refuses
          (λ q.
            (re_execute_read remote memory accepts reads others q now seen_at new_id id o s t).0)
          t
  unfolding re_execute_read
  re_execute_read-Refuses id none s t e h ne = re_execute_found-Refuses id (find id t) s t e h ne
  re_execute_read-Refuses id (some cause) s t e h ne = (refl, refl)

  -- Where a second execution is answered with an error, and that is not the error of reading the
  -- status once the job is enqueued, the table is as it was and the answer does not depend on what
  -- the enqueueing would yield, whatever the database takes, which reads fail and what others write.
  pub re_execute-Refuses :
      (id : ExecutionRefId) (s : Service memory cron_service) (t : Ledger) (e : TriggerError)
      → (re_execute remote memory accepts reads others enqueue now seen_at new_id id s t).0.0
        ≡ err e
      → ((cause : String) → e ≢ status_unread cause)
      → ((re_execute remote memory accepts reads others enqueue now seen_at new_id id s t).0.1 ≡ t)
        × ((re_execute remote memory accepts reads others other now seen_at new_id id s t).0
            ≡ (re_execute remote memory accepts reads others enqueue now seen_at new_id id s t).0)
  unfolding re_execute
  re_execute-Refuses id s t = re_execute_read-Refuses id reads.original s t
