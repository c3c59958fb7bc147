-- ===== src/Store/Proofs/WellFormed.antt =====
-- What holds of a `LocalConfigStore` between two operations.
use jobworkerp_conductor.Prelude.{
  ℕ, String, ◌≡◌, ◌≤◌, Option, none, some, arith, length, All, ℕ-HasEq,
}
use jobworkerp_conductor.HashMap.{HashMap, get}
use jobworkerp_conductor.HashMap.Entries.{HasUniqueKeys}
use jobworkerp_conductor.Proto.{Entity}
use jobworkerp_conductor.Registry
use jobworkerp_conductor.Registry.{Registry}
use jobworkerp_conductor.Registry.Consistency.{IsComplete, IsConsistent, new-IsConsistent}
use jobworkerp_conductor.Registry.Rebuild.{
  HasDistinctNames, rebuild-IsConsistent, distinct_of_IsConsistent,
}
use jobworkerp_conductor.Store.{
  LocalConfigStore, ConfigSnapshot, new, update_sync_time, sync_if_removed, cron_name, handler_name,
  server_name, slack_name,
}
use jobworkerp_conductor.Store.Snapshots.{ConfigExport}

-- A map of entities from which the reverse index can be rebuilt.
pub record IsSound {D : Type 0} (name : D → String) (m : HashMap ℕ (Entity D)) : Type 0 where
  pub unique : HasUniqueKeys m
  pub complete : (id : ℕ) (entity : Entity D) → get id m ≡ some entity → IsComplete name id entity
  pub distinct : HasDistinctNames name m

module _ {D : Type 0} (name : D → String) where
  pub IsSound-of_IsConsistent : (r : Registry D) → IsConsistent name r → IsSound name r.entities
  IsSound-of_IsConsistent r c = record {
    unique = c.unique_ids;
    complete = c.complete;
    distinct = distinct_of_IsConsistent name r c;
  }

  pub rebuild_of_IsSound :
      (m : HashMap ℕ (Entity D)) → IsSound name m → IsConsistent name (Registry.rebuild name m)
  rebuild_of_IsSound m h = rebuild-IsConsistent name m h.unique h.complete h.distinct

pub record SnapshotIsSound (x : ConfigSnapshot) : Type 0 where
  pub cron : IsSound cron_name x.cron_schedulers
  pub worker : IsSound handler_name x.worker_result_handlers
  pub server : IsSound server_name x.jobworkerp_servers
  pub slack : IsSound slack_name x.slack_event_handlers

pub record ExportIsSound (x : ConfigExport) : Type 0 where
  pub cron : IsSound cron_name x.cron_schedulers
  pub worker : IsSound handler_name x.worker_result_handlers
  pub server : IsSound server_name x.jobworkerp_servers
  pub slack : IsSound slack_name x.slack_event_handlers

pub record IsWellFormed (s : LocalConfigStore) : Type 0 where
  pub cron : IsConsistent cron_name s.cron_schedulers
  pub worker : IsConsistent handler_name s.worker_result_handlers
  pub server : IsConsistent server_name s.jobworkerp_servers
  pub slack : IsConsistent slack_name s.slack_event_handlers
  pub snapshots_sound : All SnapshotIsSound s.snapshots
  pub snapshots_fit : length s.snapshots ≤ 10

pub new-IsWellFormed : (now : ℕ) → IsWellFormed (new now)
unfolding new
new-IsWellFormed now = record {
  cron = new-IsConsistent cron_name;
  worker = new-IsConsistent handler_name;
  server = new-IsConsistent server_name;
  slack = new-IsConsistent slack_name;
  snapshots_sound = tt;
  snapshots_fit = omega arith;
}

pub update_sync_time-IsWellFormed :
    (now : ℕ) (s : LocalConfigStore) → IsWellFormed s → IsWellFormed (update_sync_time now s)
unfolding update_sync_time
update_sync_time-IsWellFormed now s w = record {
  cron = w.cron;
  worker = w.worker;
  server = w.server;
  slack = w.slack;
  snapshots_sound = w.snapshots_sound;
  snapshots_fit = w.snapshots_fit;
}

pub sync_if_removed-IsWellFormed {ℓ} :
    {A : Type ℓ} (now : ℕ) (o : Option A) (s : LocalConfigStore)
    → IsWellFormed s
    → IsWellFormed (sync_if_removed now o s)
unfolding sync_if_removed
sync_if_removed-IsWellFormed now none s w = w
sync_if_removed-IsWellFormed now (some a) s w = update_sync_time-IsWellFormed now s w
