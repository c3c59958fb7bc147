-- ===== src/Admin/Service/Reading.antt =====
-- What is read through the memory cache after an update, and what an update of a row that is not
-- there does.
use jobworkerp_conductor.Prelude.{
  ℕ, String, ◌≡◌, refl, ap, ◌∙◌, Bool, true, false, Option, none, some, Result, ok, err, ==_refl,
  ℕ-HasEq, String-HasEq,
}
use jobworkerp_conductor.HashMap.{get}
use jobworkerp_conductor.Proto.{Entity, CronScheduler, CronSchedulerData}
use jobworkerp_conductor.Store.{get_cron_scheduler}
use jobworkerp_conductor.Slack.Cache.{Patterns}
use jobworkerp_conductor.Events.{ConfigChangeEventWrapper}
use jobworkerp_conductor.Execution.Target.{TargetError, validate_execution_target}
use jobworkerp_conductor.Conductor.Scheduler.{CronRuntime}
use jobworkerp_conductor.Conductor.Changes.{Conductor}
use jobworkerp_conductor.Admin.Table.{DbError, Table, update, update_found, find, find_by_name}
use jobworkerp_conductor.Admin.Service.{
  CacheKey, find_cache_key, find_by_name_cache_key, MemoryCache, ServiceKind, Service, notify,
  after_update, update_valid, update_entity, find_entity, find_entity_by_name,
}
use jobworkerp_conductor.Admin.Service.Services.{cron_service}
use jobworkerp_conductor.Admin.Service.Conducted.{conduct_all, conducted-updated}

module _ {D R : Type 0} (memory : MemoryCache (Entity D)) (service : ServiceKind D R) where
  open memory use {Cache, with_cache_if_some, delete_cache}
  open service use {kind, validate}

  -- What the documentation of the cache says: a key that was deleted is looked up anew, and to delete
  -- one key does not touch another.
  abbrev pub LooksUpDeleted : Type 0
  LooksUpDeleted =
      (k : CacheKey) (found : Option (Entity D)) (cache : Cache)
      → (with_cache_if_some k found (delete_cache k cache)).0 ≡ found

  abbrev pub KeepsNames : Type 0
  KeepsNames =
      (id : ℕ) (name : String) (found : Option (Entity D)) (cache : Cache)
      → (with_cache_if_some (find_by_name_cache_key name) found
          (delete_cache (find_cache_key id) cache)).0
        ≡ (with_cache_if_some (find_by_name_cache_key name) found cache).0

  notified-memory_cache :
      (delivered : Bool) (event : ConfigChangeEventWrapper) (s : Service memory service)
      → (notify memory service delivered event s).memory_cache ≡ s.memory_cache
  unfolding notify
  notified-memory_cache true event s = refl
  notified-memory_cache false event s = refl

  after_update-memory_cache :
      (now : ℕ) (delivered : Bool) (id : ℕ) (d : D) (s : Service memory service)
      (r : Result DbError Bool × Table kind)
      → (after_update memory service now delivered id d s r).0 ≡ ok true
      → (after_update memory service now delivered id d s r).1.memory_cache
        ≡ delete_cache (find_cache_key id) s.memory_cache
  unfolding after_update
  after_update-memory_cache now delivered id d s (ok touched, t) h =
      notified-memory_cache delivered _ _
  after_update-memory_cache now delivered id d s (err e, t) h = cc h

  update_valid-memory_cache :
      (now : ℕ) (delivered : Bool) (id : ℕ) (d : D) (s : Service memory service)
      (v : Result TargetError (Unit {0}))
      → (update_valid memory service now delivered id d s v).0 ≡ ok true
      → (update_valid memory service now delivered id d s v).1.memory_cache
        ≡ delete_cache (find_cache_key id) s.memory_cache
  unfolding update_valid
  update_valid-memory_cache now delivered id d s (ok u) h =
      after_update-memory_cache now delivered id d s _ h
  update_valid-memory_cache now delivered id d s (err e) h = cc h

  -- After an update that succeeds, the entity is read by its id as the table has it. But what was
  -- cached under a name, of this entity or of another, is still read by that name, even if the update
  -- has changed it. The cache is taken to look a deleted key up anew, and to keep the other keys.
  pub update_entity-find :
      (now : ℕ) (delivered : Bool) (id : ℕ) (d : D) (s : Service memory service) (name : String)
      (cached : Entity D)
      → LooksUpDeleted
      → KeepsNames
      → ((found : Option (Entity D))
          → (with_cache_if_some (find_by_name_cache_key name) found s.memory_cache).0 ≡ some cached)
      → (update_entity memory service now delivered id (some d) s).0 ≡ ok true
      → ((find_entity memory service id
            (update_entity memory service now delivered id (some d) s).1).0
          ≡ find kind id (update_entity memory service now delivered id (some d) s).1.table)
        × ((find_entity_by_name memory service name
              (update_entity memory service now delivered id (some d) s).1).0
            ≡ some cached)
  unfolding update_entity find_entity find_entity_by_name
  update_entity-find now delivered id d s name cached anew keeps hit h =
      let s' = (update_valid memory service now delivered id d s (validate d)).1 in
      let cache = update_valid-memory_cache now delivered id d s (validate d) h in
      (
        ap (λ m. (with_cache_if_some (find_cache_key id) (find kind id s'.table) m).0) cache
            ∙ anew (find_cache_key id) (find kind id s'.table) s.memory_cache,
        ap
              (λ m.
                (with_cache_if_some (find_by_name_cache_key name) (find_by_name kind name s'.table)
                  m).0)
              cache
            ∙ keeps id name (find_by_name kind name s'.table) s.memory_cache
            ∙ hit (find_by_name kind name s'.table),
      )

-- An update of a cron scheduler that the table does not have, with a valid target, succeeds: it leaves
-- the table without the row and publishes an updated event, so the conductor that handles it has a
-- scheduler that the table does not have.
pub update_entity-unknown :
    (runtime : CronRuntime) (patterns : Patterns) (connects : String → Bool) (display : ℕ → String)
    (now at : ℕ) (memory : MemoryCache CronScheduler) (id : ℕ) (d : CronSchedulerData)
    (s : Service memory cron_service) (c : Conductor runtime patterns connects)
    → get id s.table ≡ none
    → validate_execution_target d.execution_target d.workflow_url ≡ ok tt
    → ((update_entity memory cron_service at true id (some d) s).0 ≡ ok true)
      × (get id (update_entity memory cron_service at true id (some d) s).1.table ≡ none)
      × (get_cron_scheduler id
            (conduct_all runtime patterns connects display now
              (update_entity memory cron_service at true id (some d) s).1.published
              c).store
          ≡ some (record { id = some id; payload = some d }))
unfolding update_entity update_valid update update_found after_update notify
update_entity-unknown runtime patterns connects display now at memory id d s c absent valid =
    rw (valid, absent)
      (
        refl,
        absent,
        conducted-updated runtime patterns connects display now at d.name id id d
              (conduct_all runtime patterns connects display now s.published c)
            ∙ rw (==_refl id) refl,
      )
