-- ===== src/Conductor/Changes/Tests.antt =====
-- A job scheduler that numbers its jobs, refuses an empty cron expression and a number that is taken,
-- and drops what it is asked to; a conductor that runs one job on it.
use jobworkerp_conductor.Prelude.{
  ap, ℕ, String, ◌≡◌, ◌≢◌, refl, sym, ◌∙◌, true, false, some, none, [], ◌∷◌, ok, err, ◌==◌, ◌||◌,
  Bool, is_some, arith, ◌+◌, inl, inr, Bool-cases, if◌then◌else◌, nat_eq_iff, ℕ-HasEq, String-HasEq,
  Option,
}
use mathlib.Core.Path.{subst}
use jobworkerp_conductor.HashMap.{
  HashMap, get, insert, contains_key, get-insert_same, remove, get-insert, get-remove,
}
use jobworkerp_conductor.Proto.{CronScheduler}
use jobworkerp_conductor.Store.{LocalConfigStore, get_cron_scheduler}
use jobworkerp_conductor.Events.{create_cron_scheduler_updated, create_cron_scheduler_deleted}
use jobworkerp_conductor.Conductor.Scheduler.{CronRuntime, CronJob, SchedulerManager}
use jobworkerp_conductor.Conductor.Scheduler.Held.{KeepsJobs, JobOf}
use jobworkerp_conductor.Conductor.Scheduler.Live.{KeepsOthers}
use jobworkerp_conductor.Conductor.Changes.{Conductor, handle_config_change_event}
use jobworkerp_conductor.Conductor.Changes.Holding.{
  JobsAreTracked, handle_config_change_event-JobsAreTracked, delete-stops,
}
use jobworkerp_conductor.Conductor.Tests.{exact, connects, display, hourly, store}

abbrev pub NumberedJobs : Type 0
NumberedJobs = ℕ × HashMap ℕ (CronJob String)

abbrev pub refuses : CronJob String → NumberedJobs → Bool
refuses job jobs = job.crontab == "" || contains_key jobs.1 jobs.0

abbrev pub keeping : CronRuntime
keeping = record {
  Tz = String;
  utc = "UTC";
  parse_tz = λ name. some name;
  trimmed_env = λ key. none;
  Uuid = ℕ;
  Failure = Unit;
  Jobs = NumberedJobs;
  no_jobs = (0, []);
  add = λ job jobs.
      if refuses job jobs
      then (err tt, jobs)
      else (ok jobs.0, (jobs.0 + 1, insert jobs.0 job jobs.1));
  remove_job = λ uuid jobs. (ok tt, (jobs.0, remove uuid jobs.1));
  finish_hash = λ config. elim config [ none ↦ "" | some c ↦ c.name ];
}

abbrev pub held_job : ℕ → NumberedJobs → Option (CronJob String)
held_job uuid jobs = get uuid jobs.1

keeping-KeepsJobs : KeepsJobs keeping held_job
keeping-KeepsJobs = record {
  added = λ job jobs uuid a u j h. elim (Bool-cases (refuses job jobs)) [
    | inl blank ↦ cc (rw blank at a)
    | inr valid ↦
        let a' : ok jobs.0 ≡ ok uuid = rw valid at a in
        let number : jobs.0 ≡ uuid = cc a' in
        let h' : get u (insert jobs.0 job jobs.1) ≡ some j = rw valid at h in
        elim (Bool-cases (jobs.0 == u)) [
          | inl here ↦
              let same : some job ≡ some j = rw (get-insert, here) at h' in
              inl (sym number ∙ (nat_eq_iff jobs.0 u).0 here, cc same)
          | inr other ↦ inr (rw (get-insert, other) at h')
        ]
  ];
  refused = λ job jobs f a u j h. elim (Bool-cases (refuses job jobs)) [
    | inl blank ↦ rw blank at h
    | inr valid ↦ cc (rw valid at a)
  ];
  removed = λ uuid jobs u j h. elim (Bool-cases (uuid == u)) [
    | inl here ↦ cc (rw (get-remove, here) at h)
    | inr other ↦ (
      λ same. let equal : (uuid == u) ≡ true = (nat_eq_iff uuid u).1 same in cc (sym equal ∙ other),
      rw (get-remove, other) at h,
    )
  ];
}

pub keeping-KeepsOthers : KeepsOthers keeping held_job
keeping-KeepsOthers = record {
  added = λ job jobs uuid a. elim (Bool-cases (refuses job jobs)) [
    | inl bad ↦ cc (rw bad at a)
    | inr valid ↦
        let a' : ok jobs.0 ≡ ok uuid = rw valid at a in
        let number : jobs.0 ≡ uuid = cc a' in
        rw valid (
          subst (λ u. get u (insert jobs.0 job jobs.1) ≡ some job) number
            (get-insert_same jobs.0 job jobs.1))
  ];
  kept_by_add = λ job jobs u j h. elim (Bool-cases (refuses job jobs)) [
    | inl bad ↦ rw bad h
    | inr valid ↦ rw valid (elim (Bool-cases (jobs.0 == u)) [
      | inl here ↦
          let there : get jobs.0 jobs.1 ≡ some j =
            ap (λ i. get i jobs.1) ((nat_eq_iff jobs.0 u).0 here) ∙ h in
          let present : contains_key jobs.1 jobs.0 ≡ true = ap is_some there in
          let absent : contains_key jobs.1 jobs.0 ≡ false = ground (arith, valid) in
          cc (present, absent)
      | inr other ↦ rw (get-insert, other) h
    ])
  ];
  kept_by_remove = λ uuid jobs u j ne h. elim (Bool-cases (uuid == u)) [
    | inl here ↦ absurd (ne ((nat_eq_iff uuid u).0 here))
    | inr other ↦ rw (get-remove, other) h
  ];
}

abbrev scheduler : CronScheduler
scheduler = record { id = some 3; payload = some hourly }

abbrev hourly_job : CronJob String
hourly_job = record {
  crontab = hourly.crontab;
  timezone = "UTC";
  scheduler_id = 3;
  job_name = "hourly";
  execution_target = none;
  workflow_url_fallback = hourly.workflow_url;
  channel_fallback = none;
  jobworkerp_endpoint = "http://localhost:9000";
  jobworkerp_server_id = 7;
  args = none;
}

abbrev one_job : SchedulerManager keeping
one_job = record {
  active_jobs = (3, record { name = "hourly"; job_id = 0; config_hash = "hourly" }) ∷ [];
  scheduler = (1, (0, hourly_job) ∷ []);
}

abbrev configured : LocalConfigStore
configured = record store {
  cron_schedulers = record { entities = (3, scheduler) ∷ []; name_index = ("hourly", 3) ∷ [] };
}

abbrev running : Conductor keeping exact connects
running = record {
  store = configured;
  scheduler_manager = some one_job;
  listeners = [];
  slack_handler_manager = none;
}

running-JobsAreTracked :
    JobsAreTracked keeping held_job exact connects 20 display keeping-KeepsJobs running
unfolding get insert get_cron_scheduler
running-JobsAreTracked uuid job h =
    let h' : get uuid (insert 0 hourly_job []) ≡ some job = h in
    elim (Bool-cases (0 == uuid)) [
      | inl here ↦
          let same : some hourly_job ≡ some job = rw (get-insert, here) at h' in
          let e : hourly_job ≡ job = cc same in
          record {
            id = 3;
            handle = record { name = "hourly"; job_id = 0; config_hash = "hourly" };
            scheduler = scheduler;
            config = hourly;
            active = refl;
            same_job = (nat_eq_iff 0 uuid).0 here;
            found = refl;
            has_config = refl;
            is_enabled = refl;
            runs = subst (JobOf 3 hourly) e (refl, refl, refl, refl, refl, refl, refl, refl);
          }
      | inr other ↦ let none_held : none ≡ some job = rw (get-insert, other) at h' in cc none_held
    ]

-- The job of a scheduler that is disabled is gone.
handle_config_change_event-JobsAreTracked_example :
    JobsAreTracked keeping held_job exact connects 20 display keeping-KeepsJobs
      (handle_config_change_event keeping exact connects display 20
        (create_cron_scheduler_updated 11 "hourly"
          (some 3)
          (some (record hourly { enabled = false }))
          none)
        running).1
handle_config_change_event-JobsAreTracked_example =
    handle_config_change_event-JobsAreTracked keeping held_job exact connects 20 display
      keeping-KeepsJobs
      (create_cron_scheduler_updated 11 "hourly" (some 3) (some (record hourly { enabled = false }))
        none)
      running running-JobsAreTracked

delete-stops_example :
    (m' : SchedulerManager keeping) × ((handle_config_change_event keeping exact connects display 20
        (create_cron_scheduler_deleted 11 "hourly" (some 3))
        running).1.scheduler_manager
      ≡ some m')
    × ((uuid : ℕ) (job : CronJob String)
        → held_job uuid m'.scheduler ≡ some job
        → job.scheduler_id ≢ 3)
delete-stops_example =
    delete-stops keeping held_job exact connects 20 display keeping-KeepsJobs 11 "hourly" 3 running
      one_job refl running-JobsAreTracked
