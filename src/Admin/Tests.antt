-- ===== src/Admin/Tests.antt =====
-- A small table of cron schedulers and a few Slack handlers: the theorems at them.
use jobworkerp_conductor.Prelude.{
  ℕ, ◌≡◌, refl, sym, ap, ◌∙◌, Bool, true, false, Option, some, none, [], ◌∷◌, ok, nat_eq_iff, ◌==◌,
  ℕ-HasEq, String-HasEq,
}
use jobworkerp_conductor.HashMap.{get}
use jobworkerp_conductor.Proto.{CronScheduler, CronSchedulerData, worker}
use jobworkerp_conductor.Store.{get_cron_scheduler}
use jobworkerp_conductor.Execution.Target.{validate_execution_target}
use jobworkerp_conductor.Conductor.Tests.{counting, exact, connects, display, hourly, conductor}
use jobworkerp_conductor.Conductor.Changes.{Conductor}
use jobworkerp_conductor.Admin.Rows.Cron.{CronSchedulerRow, cron_row}
use jobworkerp_conductor.Admin.Rows.Targets.{flatten_execution_target}
use jobworkerp_conductor.Admin.Rows.RoundTrip.{CronReadsBack, cron_row-reads_back}
use jobworkerp_conductor.Admin.Table.{find, taken, update, update_row, update_found}
use jobworkerp_conductor.Admin.Table.Kinds.{cron_kind}
use jobworkerp_conductor.Admin.Service.{
  CacheKey, find_cache_key, find_by_name_cache_key, MemoryCache, Service, after_update, notify,
  update_valid, update_entity, find_entity, find_entity_by_name,
}
use jobworkerp_conductor.Admin.Service.Services.{cron_service}
use jobworkerp_conductor.Admin.Service.Conducted.{conduct_all}
use jobworkerp_conductor.Admin.Service.Mirror.{
  Request, stored_row, serve_all, ServiceMirrors, serve_all-Mirrors,
}
use jobworkerp_conductor.Admin.Service.Reading.{
  LooksUpDeleted, update_entity-find, update_entity-unknown,
}

-- A cache that keeps nothing.
abbrev pub no_cache : MemoryCache CronScheduler
no_cache = record {
  Cache = Unit;
  with_cache_if_some = λ k found cache. (found, tt);
  delete_cache = λ k cache. tt;
}

abbrev daily : CronSchedulerData
daily = record hourly {
  name = "daily";
  execution_target = some (worker (record { worker_name = "report"; using = some "" }));
}

abbrev daily_row : CronSchedulerRow
daily_row = record {
  id = 5;
  name = "daily";
  jobworkerp_server_id = 7;
  target = record { workflow_url = ""; channel = none; worker_name = some "report"; using = none };
  crontab = "0 0 * * * *";
  enabled = true;
  description = none;
  created_at = 1;
  updated_at = 1;
  args = none;
}

daily_written : cron_row 5 daily ≡ some daily_row
unfolding cron_row flatten_execution_target
daily_written = refl

abbrev five : ℕ
five = 5

daily_valid : validate_execution_target daily.execution_target daily.workflow_url ≡ ok tt
unfolding validate_execution_target
daily_valid = refl

hourly_valid : validate_execution_target hourly.execution_target hourly.workflow_url ≡ ok tt
unfolding validate_execution_target
hourly_valid = refl

cron_row-reads_back_example : CronReadsBack 5 daily daily_row
cron_row-reads_back_example = cron_row-reads_back 5 daily daily_row daily_valid daily_written

abbrev no_rows : Service no_cache cron_service
no_rows = record { table = []; memory_cache = tt; published = [] }

abbrev pub one_row : Service no_cache cron_service
one_row = record no_rows { table = (5, daily_row) ∷ [] }

-- A conductor that has the one scheduler.
abbrev holding : Conductor counting exact connects
holding = record conductor {
  store = record conductor.store {
    cron_schedulers = record {
      entities = (5, record { id = some 5; payload = some daily }) ∷ [];
      name_index = ("daily", 5) ∷ [];
    };
  };
}

held-Mirrors :
    (id : ℕ) (b : Bool)
    → (5 == id) ≡ b
    → stored_row counting exact connects display 60 no_cache id
        (get_cron_scheduler id holding.store)
      ≡ get id one_row.table
unfolding get_cron_scheduler get
held-Mirrors id true here =
    let same : 5 ≡ id = (nat_eq_iff 5 id).0 here in
    rw here (ap (λ k. cron_row k daily) (sym same) ∙ daily_written)
held-Mirrors id false there = rw there refl

one_row-Mirrors : ServiceMirrors counting exact connects display 60 no_cache holding one_row
one_row-Mirrors id = held-Mirrors id (5 == id) refl

-- The scheduler is renamed, another is created, one more is refused, and the first is deleted.
serve_all-Mirrors_example : ServiceMirrors counting exact connects display 60 no_cache holding (
    serve_all counting exact connects display 60 no_cache
      (Request.updating 61 5 (some (record daily { name = "weekly" }))
        ∷ Request.creating 62 6 hourly
        ∷ Request.creating 63 8 hourly
        ∷ Request.deleting 64 5
        ∷ [])
      one_row)
serve_all-Mirrors_example =
    serve_all-Mirrors counting exact connects display 60 no_cache holding
      (Request.updating 61 5 (some (record daily { name = "weekly" }))
        ∷ Request.creating 62 6 hourly
        ∷ Request.creating 63 8 hourly
        ∷ Request.deleting 64 5
        ∷ [])
      one_row ((daily_row, unfold get in refl), (tt, (tt, (tt, tt)))) one_row-Mirrors

update_entity-unknown_example :
    ((update_entity no_cache cron_service 65 true 9 (some hourly) one_row).0 ≡ ok true)
    × (get 9 (update_entity no_cache cron_service 65 true 9 (some hourly) one_row).1.table ≡ none)
    × (get_cron_scheduler 9
          (conduct_all counting exact connects display 60
            (update_entity no_cache cron_service 65 true 9 (some hourly) one_row).1.published
            conductor).store
        ≡ some (record { id = some 9; payload = some hourly }))
update_entity-unknown_example =
    update_entity-unknown counting exact connects display 60 65 no_cache 9 hourly one_row conductor
      (unfold get in refl) hourly_valid

-- A cache that keeps the last entity that was found by name.
abbrev name_lookup :
    CacheKey
    → Option CronScheduler
    → Option CronScheduler
    → Option CronScheduler × Option CronScheduler
name_lookup (find_cache_key id) found cache = (found, cache)
name_lookup (find_by_name_cache_key name) found none = (found, found)
name_lookup (find_by_name_cache_key name) found (some e) = (some e, some e)

abbrev forget_name : CacheKey → Option CronScheduler → Option CronScheduler
forget_name (find_cache_key id) cache = cache
forget_name (find_by_name_cache_key name) cache = none

abbrev name_cache : MemoryCache CronScheduler
name_cache = record {
  Cache = Option CronScheduler;
  with_cache_if_some = name_lookup;
  delete_cache = forget_name;
}

name_cache-LooksUpDeleted : LooksUpDeleted name_cache cron_service
name_cache-LooksUpDeleted (find_cache_key id) found cache = refl
name_cache-LooksUpDeleted (find_by_name_cache_key name) found cache = refl

abbrev seen : CronScheduler
seen = record { id = some 5; payload = some daily }

-- "daily" was found by its name before.
abbrev warm : Service name_cache cron_service
warm = record { table = (5, daily_row) ∷ []; memory_cache = some seen; published = [] }

abbrev renamed : CronSchedulerData
renamed = record daily { name = "weekly" }

-- After it is renamed, it is still found by its old name.
update_entity-find_example :
    ((find_entity name_cache cron_service 5
        (update_entity name_cache cron_service 66 true 5 (some renamed) warm).1).0
      ≡ find cron_kind 5
          (update_entity name_cache cron_service 66 true 5 (some renamed) warm).1.table)
    × ((find_entity_by_name name_cache cron_service "daily"
          (update_entity name_cache cron_service 66 true 5 (some renamed) warm).1).0
        ≡ some seen)
unfolding update_entity update_valid validate_execution_target
update_entity-find_example =
    update_entity-find name_cache cron_service 66 true 5 renamed warm "daily" seen
      name_cache-LooksUpDeleted (λ id name found cache. refl) (λ found. refl)
      (unfold update update_found update_row taken cron_row get flatten_execution_target
          after_update notify in
        refl)
