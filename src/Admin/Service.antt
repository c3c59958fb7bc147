-- ===== src/Admin/Service.antt =====
-- The services over the repositories (`CronSchedulerAppImpl` in api/app/src/app/cron_scheduler.rs,
-- `WorkerResultHandlerAppImpl` in worker_result_handler.rs, `JobworkerpServerAppImpl` in
-- jobworkerp_server.rs). The three write the same code over a different entity; here it is written
-- once over a `ServiceKind`. The memory cache is an interface, `now` is the clock that stamps an
-- event, and `delivered` says whether the notification is sent; if it is not, that is only logged.
pub mod Services
pub mod Operations
pub mod Conducted
pub mod Mirror
pub mod Reading
use jobworkerp_conductor.Prelude.{
  ℕ, String, Bool, true, false, Option, none, some, List, [], ◌∷◌, Result, ok, err, if◌then◌else◌,
}
use jobworkerp_conductor.HashMap.{HashMap}
use jobworkerp_conductor.Proto.{Entity}
use jobworkerp_conductor.Events.{ConfigChangeEventWrapper}
use jobworkerp_conductor.Execution.Target.{TargetError}
use jobworkerp_conductor.Admin.Table.{
  Kind, DbError, Table, create, update, delete, find, find_by_name, find_list,
}

-- `find_cache_key` and `find_by_name_cache_key`: the prefixes keep the two apart.
pub data CacheKey : Type 0 where
  find_cache_key : ℕ → CacheKey
  find_by_name_cache_key : String → CacheKey

-- `UseMemoryCache`: the second argument of `with_cache_if_some` is what its closure would find.
pub record MemoryCache (V : Type 0) : Type 1 where
  pub Cache : Type 0
  pub with_cache_if_some : CacheKey → Option V → Cache → Option V × Cache
  pub delete_cache : CacheKey → Cache → Cache

pub record ServiceKind (D R : Type 0) : Type 0 where
  pub kind : Kind D R
  pub validate : D → Result TargetError (Unit {0})
  -- The events, from the clock, the id and the data.
  pub created_event : ℕ → ℕ → D → ConfigChangeEventWrapper
  pub updated_event : ℕ → ℕ → D → ConfigChangeEventWrapper
  pub deleted_event : ℕ → ℕ → D → ConfigChangeEventWrapper

pub data ServiceError : Type 0 where
  invalid : TargetError → ServiceError
  database : DbError → ServiceError

module _ {D R : Type 0} (memory : MemoryCache (Entity D)) (service : ServiceKind D R) where
  open memory use {Cache, with_cache_if_some, delete_cache}
  open service use {kind, validate, created_event, updated_event, deleted_event}

  -- The newest event stands first.
  pub record Service : Type 0 where
    pub table : Table kind
    pub memory_cache : Cache
    pub published : List ConfigChangeEventWrapper

  unfoldable pub notify : Bool → ConfigChangeEventWrapper → Service → Service
  notify delivered event s = if delivered then record s { published = event ∷ s.published } else s

  -- An error of the repository ends the method; the transaction is dropped.
  unfoldable pub after_create :
      ℕ → Bool → D → Service → Result DbError ℕ × Table kind → Result ServiceError ℕ × Service
  unfolding notify
  after_create now delivered d s (err e, t) = (err (database e), s)
  after_create now delivered d s (ok id, t) =
      (ok id, notify delivered (created_event now id d) (record s { table = t }))

  unfoldable pub create_valid :
      ℕ → Bool → ℕ → D → Service → Result TargetError (Unit {0}) → Result ServiceError ℕ × Service
  unfolding after_create create
  create_valid now delivered id d s (err e) = (err (invalid e), s)
  create_valid now delivered id d s (ok u) =
      after_create now delivered d s (create kind id d s.table)

  unfoldable pub create_entity : ℕ → Bool → ℕ → D → Service → Result ServiceError ℕ × Service
  unfolding create_valid
  create_entity now delivered id d s = create_valid now delivered id d s (validate d)

  -- The number of rows that the UPDATE touched is not looked at.
  unfoldable pub after_update :
      ℕ
      → Bool
      → ℕ
      → D
      → Service
      → Result DbError Bool × Table kind
      → Result ServiceError Bool × Service
  unfolding notify
  after_update now delivered id d s (err e, t) = (err (database e), s)
  after_update now delivered id d s (ok touched, t) = (
    ok true,
    notify delivered (updated_event now id d)
        (record s { table = t; memory_cache = delete_cache (find_cache_key id) s.memory_cache }),
  )

  unfoldable pub update_valid :
      ℕ
      → Bool
      → ℕ
      → D
      → Service
      → Result TargetError (Unit {0})
      → Result ServiceError Bool × Service
  unfolding after_update update
  update_valid now delivered id d s (err e) = (err (invalid e), s)
  update_valid now delivered id d s (ok u) =
      after_update now delivered id d s (update kind id d s.table)

  unfoldable pub update_entity :
      ℕ → Bool → ℕ → Option D → Service → Result ServiceError Bool × Service
  unfolding update_valid
  update_entity now delivered id none s =
      (ok false, record s { memory_cache = delete_cache (find_cache_key id) s.memory_cache })
  update_entity now delivered id (some d) s = update_valid now delivered id d s (validate d)

  -- The event of a deleted entity carries what was found before; `to_proto` always gives data.
  abbrev pub notify_deleted : ℕ → Bool → ℕ → Option (Entity D) → Service → Service
  notify_deleted now delivered id none s = s
  notify_deleted now delivered id (some existing) s = elim existing.payload [
    | none ↦ s
    | some d ↦ notify delivered (deleted_event now id d) s
  ]

  unfoldable pub after_delete :
      ℕ → Bool → ℕ → Option (Entity D) → Service → Bool × Table kind → Bool × Service
  unfolding notify
  after_delete now delivered id existing s (false, t) = (false, s)
  after_delete now delivered id existing s (true, t) = (
    true,
    notify_deleted now delivered id existing
        (record s { table = t; memory_cache = delete_cache (find_cache_key id) s.memory_cache }),
  )

  unfoldable pub delete_entity : ℕ → Bool → ℕ → Service → Bool × Service
  unfolding after_delete delete find
  delete_entity now delivered id s =
      after_delete now delivered id (find kind id s.table) s (delete kind id s.table)

  abbrev pub keep_cache {ℓ} : {A : Type ℓ} → Service → A × Cache → A × Service
  keep_cache s (found, cache) = (found, record s { memory_cache = cache })

  unfoldable pub find_entity : ℕ → Service → Option (Entity D) × Service
  unfolding find
  find_entity id s =
      keep_cache s (with_cache_if_some (find_cache_key id) (find kind id s.table) s.memory_cache)

  unfoldable pub find_entity_by_name : String → Service → Option (Entity D) × Service
  unfolding find_by_name
  find_entity_by_name name s = keep_cache s (
      with_cache_if_some (find_by_name_cache_key name) (find_by_name kind name s.table)
        s.memory_cache)

  unfoldable pub find_entity_list : Option ℕ → Option ℕ → Service → List (Entity D)
  unfolding find_list
  find_entity_list limit offset s = find_list kind limit offset s.table
