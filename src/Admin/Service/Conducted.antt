-- ===== src/Admin/Service/Conducted.antt =====
-- What the handling of one event of a cron scheduler does to the conductor's store, id by id.
use jobworkerp_conductor.Prelude.{
  ℕ, String, ◌≡◌, ◌∙◌, Bool, none, some, List, [], ◌∷◌, if◌then◌else◌, ◌==◌, ℕ-HasEq, String-HasEq,
}
use jobworkerp_conductor.HashMap.{get-insert, get-remove}
use jobworkerp_conductor.Proto.{CronSchedulerData, CronSchedulerId}
use jobworkerp_conductor.Registry
use jobworkerp_conductor.Events.{
  ConfigChangeEventWrapper, create_cron_scheduler_created, create_cron_scheduler_updated,
  create_cron_scheduler_deleted,
}
use jobworkerp_conductor.Events.Accessors.{action}
use jobworkerp_conductor.Store.{
  get_cron_scheduler, upsert_cron_scheduler, remove_cron_scheduler, update_sync_time,
}
use jobworkerp_conductor.Store.Snapshots.{create_snapshot}
use jobworkerp_conductor.Slack.Cache.{Patterns}
use jobworkerp_conductor.Conductor.Scheduler.{CronRuntime}
use jobworkerp_conductor.Conductor.Changes.{
  Conductor, store_change, store_cron_event, handle_cron_scheduler_change, dispatch,
  handle_config_change_event,
}
use jobworkerp_conductor.Conductor.Changes.StoredCron.{cron-sync_if_removed}

module _ (runtime : CronRuntime) (patterns : Patterns) (connects : String → Bool)
    (display : ℕ → String) (now : ℕ) where
  abbrev pub conduct :
      ConfigChangeEventWrapper
      → Conductor runtime patterns connects
      → Conductor runtime patterns connects
  conduct event c = (handle_config_change_event runtime patterns connects display now event c).1

  module _ (at : ℕ) (name : String) (id j : CronSchedulerId) (d : CronSchedulerData)
      (c : Conductor runtime patterns connects) where
    pub conducted-created :
        get_cron_scheduler j
          (conduct (create_cron_scheduler_created at name (some id) (some d) none) c).store
        ≡ (if id == j
            then some (record { id = some id; payload = some d })
            else get_cron_scheduler j c.store)
    unfolding handle_config_change_event create_cron_scheduler_created dispatch
        handle_cron_scheduler_change store_cron_event store_change action upsert_cron_scheduler
        Registry.upsert update_sync_time get_cron_scheduler create_snapshot
    conducted-created = get-insert id j _ _

    pub conducted-updated :
        get_cron_scheduler j
          (conduct (create_cron_scheduler_updated at name (some id) (some d) none) c).store
        ≡ (if id == j
            then some (record { id = some id; payload = some d })
            else get_cron_scheduler j c.store)
    unfolding handle_config_change_event create_cron_scheduler_updated dispatch
        handle_cron_scheduler_change store_cron_event store_change action upsert_cron_scheduler
        Registry.upsert update_sync_time get_cron_scheduler create_snapshot
    conducted-updated = get-insert id j _ _

  pub conducted-deleted :
      (at : ℕ) (name : String) (id j : CronSchedulerId) (c : Conductor runtime patterns connects)
      → get_cron_scheduler j (conduct (create_cron_scheduler_deleted at name (some id)) c).store
        ≡ (if id == j then none else get_cron_scheduler j c.store)
  unfolding handle_config_change_event create_cron_scheduler_deleted dispatch
      handle_cron_scheduler_change store_cron_event store_change action remove_cron_scheduler
      Registry.remove_entity get_cron_scheduler create_snapshot
  conducted-deleted at name id j c = cron-sync_if_removed now _ _ j ∙ get-remove id j _

  -- The conductor after all published events; the newest stands first.
  abbrev pub conduct_all :
      List ConfigChangeEventWrapper
      → Conductor runtime patterns connects
      → Conductor runtime patterns connects
  conduct_all [] c = c
  conduct_all (event ∷ older) c = conduct event (conduct_all older c)
