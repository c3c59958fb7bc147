-- ===== src/Conductor/Server/Running.antt =====
-- The flag `is_running` and the receivers after a start.
use jobworkerp_conductor.Prelude.{
  ℕ, String, ◌≡◌, refl, Bool, true, false, ◌||◌, Result, ok, err, is_ok, if◌then◌else◌, ◌+◌, inl,
  inr, Bool-cases, arith, if-both, if_true, if_false, sym, ap, ◌∙◌,
}
use jobworkerp_conductor.Slack.Cache.{Patterns}
use jobworkerp_conductor.Conductor.Scheduler.{CronRuntime, SchedulerManager}
use jobworkerp_conductor.Conductor.Changes.{Conductor}
use jobworkerp_conductor.Conductor.Server.{
  Server, Surroundings, Started, start_initial_schedulers, manager_or_new, start_managers,
  after_schedulers, start_notification_listener, roll_back, finish_start, start_stopped, start,
}

or_false : (b : Bool) → b ≡ (b || false)
or_false true = refl
or_false false = refl

module _ (runtime : CronRuntime) (patterns : Patterns) (connects : String → Bool) where
  -- A start that fails leaves the flag down and the receivers as they are; one that succeeds leaves
  -- the flag up, and one receiver more.
  abbrev pub Kept : ℕ → Started runtime patterns connects → Type 0
  Kept receivers r =
      (r.1.is_running ≡ is_ok r.0) × (r.1.receivers ≡ receivers + (if is_ok r.0 then 1 else 0))

  -- The same before the flag is lowered.
  abbrev Raised : ℕ → Started runtime patterns connects → Type 0
  Raised receivers r =
      (r.1.is_running ≡ true) × (r.1.receivers ≡ receivers + (if is_ok r.0 then 1 else 0))

  rolled_back-Kept :
      (receivers : ℕ) (r : Started runtime patterns connects)
      → Raised receivers r
      → Kept receivers (roll_back runtime patterns connects r)
  unfolding roll_back
  rolled_back-Kept receivers (ok u, s) k = k
  rolled_back-Kept receivers (err e, s) k = (refl, k.1)

  after_schedulers-Raised :
      (around : Surroundings runtime patterns connects) (r : Result runtime.Failure (Unit {0}))
      (s : Server runtime patterns connects)
      → s.is_running ≡ true
      → Raised s.receivers (after_schedulers runtime patterns connects around r s)
  unfolding after_schedulers start_notification_listener
  after_schedulers-Raised around (ok u) s on =
      if-both {A = Started runtime patterns connects} (Raised s.receivers) around.subscribes _ _
        (on, refl) (on, omega arith)
  after_schedulers-Raised around (err e) s on = (on, omega arith)

  finish_start-Kept :
      (around : Surroundings runtime patterns connects) (s : Server runtime patterns connects)
      (c : Conductor runtime patterns connects) (m : SchedulerManager runtime)
      → Kept s.receivers (finish_start runtime patterns connects around s c m)
  unfolding finish_start
  finish_start-Kept around s c m =
      let s' : Server runtime patterns connects = record s { conductor = c; is_running = true } in
      rolled_back-Kept s.receivers
        (after_schedulers runtime patterns connects around (around.start_jobs m.scheduler) s')
        (after_schedulers-Raised around (around.start_jobs m.scheduler) s' refl)

  start_stopped-Kept :
      (around : Surroundings runtime patterns connects) (s : Server runtime patterns connects)
      → Kept s.receivers (start_stopped runtime patterns connects around s)
  unfolding start_stopped
  start_stopped-Kept around s =
      let m = manager_or_new runtime patterns connects s.conductor.scheduler_manager in
      let c = start_managers runtime patterns connects around.now s.conductor m in
      finish_start-Kept around s c (start_initial_schedulers runtime patterns connects c.store m)

  -- After a start, whatever fails in it, the server runs if it ran before or the start has
  -- succeeded, and not otherwise. It has one more receiver if the start has succeeded, and as many
  -- as before otherwise.
  pub start-is_running :
      (around : Surroundings runtime patterns connects) (s : Server runtime patterns connects)
      → ((start runtime patterns connects around s).1.is_running
          ≡ (s.is_running || is_ok (start runtime patterns connects around s).0))
        × ((start runtime patterns connects around s).1.receivers
            ≡ s.receivers + (if is_ok (start runtime patterns connects around s).0 then 1 else 0))
  unfolding start
  start-is_running around s = elim (Bool-cases s.is_running) [
    | inl on ↦
        rw (if_true s.is_running _ (start_stopped runtime patterns connects around s) on)
          (or_false s.is_running, omega arith)
    | inr off ↦
        let k = start_stopped-Kept around s in
        rw (if_false s.is_running _ (start_stopped runtime patterns connects around s) off) (
          k.0 ∙ ap (λ b. b || is_ok (start_stopped runtime patterns connects around s).0) (sym off),
          k.1,
        )
  ]
