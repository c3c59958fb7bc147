-- ===== src/Conductor/Server/Current.antt =====
-- The handles of the cron jobs stay those of the store, and their jobs are held, through every start,
-- stop and change event.
use jobworkerp_conductor.Prelude.{ℕ, String, ◌∙◌, Bool, Option, List, ℕ-HasEq}
use jobworkerp_conductor.HashMap.{get}
use jobworkerp_conductor.Store.{LocalConfigStore}
use jobworkerp_conductor.Slack.Cache.{Patterns}
use jobworkerp_conductor.Slack.Manager.{SlackManager}
use jobworkerp_conductor.Conductor.Scheduler.{CronRuntime, CronJob, SchedulerManager, new_manager}
use jobworkerp_conductor.Conductor.Scheduler.Sync.{
  IsCurrent, ActiveIsCurrent, apply_action-IsCurrent, add_scheduler_from_local-IsCurrent,
}
use jobworkerp_conductor.Conductor.Scheduler.Live.{
  KeepsOthers, ActiveIsLive, ActiveIsLive-SameCron, apply_action-IsLive, added-IsLive,
}
use jobworkerp_conductor.Conductor.Changes.StoredCron.{SameCron}
use jobworkerp_conductor.Conductor.Server.{Action, new_server, run}
use jobworkerp_conductor.Conductor.Server.Keeping.{ServerKeeps, run-Keeps}

module _ (runtime : CronRuntime) where
  ActiveIsCurrent-SameCron :
      (s s' : LocalConfigStore) (m : SchedulerManager runtime)
      → SameCron s s'
      → ActiveIsCurrent runtime s m
      → ActiveIsCurrent runtime s' m
  ActiveIsCurrent-SameCron s s' m same c id handle h =
      let k : IsCurrent runtime s id handle = c id handle h in
      record {
        scheduler = k.scheduler;
        config = k.config;
        found = same id ∙ k.found;
        has_config = k.has_config;
        is_enabled = k.is_enabled;
        same_name = k.same_name;
        same_hash = k.same_hash;
      }

module _ (runtime : CronRuntime)
    (holds : runtime.Uuid → runtime.Jobs → Option (CronJob runtime.Tz)) where
  -- Every handle has the name and the hash of its scheduler, and its job is held and runs the
  -- configuration.
  abbrev pub HandlesAreCurrent : LocalConfigStore → SchedulerManager runtime → Type 0
  HandlesAreCurrent s m = ActiveIsCurrent runtime s m × ActiveIsLive runtime holds s m

  new_manager-IsCurrent : (s : LocalConfigStore) → HandlesAreCurrent s (new_manager runtime)
  unfolding new_manager get
  new_manager-IsCurrent s = (λ id handle h. cc h, λ id handle h. cc h)

  -- Through any starts, also failing ones, stops and change events in any order, from a new server
  -- over any store, every handle that the scheduler manager keeps is of an enabled scheduler of the
  -- store as it then is, with its name and the hash of its configuration, and its job is held by the
  -- job scheduler and runs that configuration: if an added job is held under the id that is answered,
  -- and neither an addition nor a removal touches another job; whichever jobs are refused, and
  -- whatever else the crates answer.
  pub run-IsCurrent :
      (patterns : Patterns) (connects : String → Bool) (display : ℕ → String)
      → KeepsOthers runtime holds
      → (store : LocalConfigStore) (slack : Option (SlackManager patterns))
        (actions : List (Action runtime patterns connects))
      → ServerKeeps runtime patterns connects HandlesAreCurrent (
          run runtime patterns connects display actions
            (new_server runtime patterns connects store slack))
  run-IsCurrent patterns connects display keeps =
      run-Keeps runtime patterns connects HandlesAreCurrent
        (λ s s' m same c. (
          ActiveIsCurrent-SameCron runtime s s' m same c.0,
          ActiveIsLive-SameCron runtime holds s s' m same c.1,
        ))
        (λ s s' m id a c only k. (
          apply_action-IsCurrent runtime s s' m id a c.0 only k,
          apply_action-IsLive runtime holds keeps s s' m id a c.1 only k,
        ))
        (λ s m id c. (
          add_scheduler_from_local-IsCurrent runtime s m c.0 id,
          added-IsLive runtime holds keeps s m c.1 id,
        ))
        new_manager-IsCurrent display
