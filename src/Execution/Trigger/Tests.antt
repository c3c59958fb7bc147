-- ===== src/Execution/Trigger/Tests.antt =====
-- A scheduler that is triggered, and an execution that cannot be run again.
use jobworkerp_conductor.Prelude.{String, ◌≡◌, refl, none, some, Result, ok, err}
use jobworkerp_conductor.HashMap.{get}
use jobworkerp_conductor.Execution.Recorder.{EnqueuedJob}
use jobworkerp_conductor.Execution.Recorder.Outcome.{accepts_all, nobody_else}
use jobworkerp_conductor.Execution.Tests.{server, ledger}
use jobworkerp_conductor.Execution.Target.{worker_target}
use jobworkerp_conductor.Execution.Trigger.{
  ExecutionPlan, ResolvedSource, cron_scheduler, scheduler, source_gone, resolve,
}
use jobworkerp_conductor.Execution.Trigger.Execute.{trigger_execution, re_execute}
use jobworkerp_conductor.Execution.Trigger.Answers.{all_read, Answers, trigger_execution-Answers}
use jobworkerp_conductor.Execution.Trigger.Refused.{re_execute-Refuses}
use jobworkerp_conductor.Admin.Rows.Cron.{cron_to_proto}
use jobworkerp_conductor.Admin.Tests.{no_cache, one_row}

-- A runner that streams, and one that refuses.
abbrev streaming : ExecutionPlan → Result String EnqueuedJob
streaming plan =
    ok (record { job_id = some 900; terminal = ok (record { job_id = some 900; status = 0 }) })

abbrev refusing : ExecutionPlan → Result String EnqueuedJob
refusing plan = err "no such worker"

abbrev daily_source : ResolvedSource
daily_source = record {
  endpoint = "http://localhost:9000";
  target = worker_target "report" none;
  configured_args = none;
  source_name = "daily";
  jobworkerp_server_id = 7;
}

daily_resolves : (resolve server no_cache cron_scheduler 5 one_row).0 ≡ ok daily_source
unfolding resolve get cron_to_proto
daily_resolves = refl

trigger_execution-Answers_example :
    Answers server no_cache streaming 20 21 3
      (trigger_execution server no_cache accepts_all all_read nobody_else streaming 20 21 3
        cron_scheduler 5 none one_row ledger).0
unfolding get
trigger_execution-Answers_example =
    trigger_execution-Answers server no_cache streaming 20 21 3 cron_scheduler 5 daily_source none
      one_row ledger daily_resolves refl

-- The scheduler 4 of the first execution is not there any more.
gone :
    (re_execute server no_cache accepts_all all_read nobody_else streaming 20 21 3 1 one_row
      ledger).0.0
    ≡ err (source_gone (scheduler 4))
unfolding re_execute get
gone = refl

re_execute-Refuses_example :
    ((re_execute server no_cache accepts_all all_read nobody_else streaming 20 21 3 1 one_row
        ledger).0.1
      ≡ ledger)
    × ((re_execute server no_cache accepts_all all_read nobody_else refusing 20 21 3 1 one_row
          ledger).0
        ≡ (re_execute server no_cache accepts_all all_read nobody_else streaming 20 21 3 1 one_row
            ledger).0)
re_execute-Refuses_example =
    re_execute-Refuses server no_cache accepts_all all_read nobody_else 20 21 3 streaming refusing 1
      one_row ledger (source_gone (scheduler 4)) gone (λ cause same. cc same)
