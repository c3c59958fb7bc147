-- ===== src/Store/Load.antt =====
-- `LocalConfigStoreExt` (jobworkerp-conductor/src/dynamic/local_config.rs): the store filled from
-- the configuration that was read at start-up.
use jobworkerp_conductor.Prelude.{ℕ, List, [], ◌∷◌, ok, err}
use jobworkerp_conductor.Proto.{
  CronScheduler, WorkerResultHandler, JobworkerpServer, SlackEventHandler,
}
use jobworkerp_conductor.Store.{
  LocalConfigStore, StoreResult, new, upsert_cron_scheduler, upsert_worker_result_handler,
  upsert_jobworkerp_server, upsert_slack_event_handler,
}

pub record InitialConfig : Type 0 where
  pub cron_schedulers : List CronScheduler
  pub worker_result_handlers : List WorkerResultHandler
  pub jobworkerp_servers : List JobworkerpServer
  pub slack_event_handlers : List SlackEventHandler

-- A failed insertion is logged, and the store stays as it is.
abbrev pub or_keep : LocalConfigStore → StoreResult → LocalConfigStore
or_keep s (ok s') = s'
or_keep s (err e) = s

unfoldable pub load_each {ℓ} :
    {A : Type ℓ}
    → (A → LocalConfigStore → StoreResult)
    → List A
    → LocalConfigStore
    → LocalConfigStore
load_each upsert [] s = s
load_each upsert (x ∷ xs) s = load_each upsert xs (or_keep s (upsert x s))

unfoldable pub load_from_initial_config : ℕ → InitialConfig → LocalConfigStore → LocalConfigStore
unfolding load_each
load_from_initial_config now config s =
    load_each (upsert_slack_event_handler now) config.slack_event_handlers (
      load_each (upsert_jobworkerp_server now) config.jobworkerp_servers (
        load_each (upsert_worker_result_handler now) config.worker_result_handlers
          (load_each (upsert_cron_scheduler now) config.cron_schedulers s)))

unfoldable pub from_initial_config : ℕ → InitialConfig → LocalConfigStore
unfolding load_from_initial_config
from_initial_config now config = load_from_initial_config now config (new now)
