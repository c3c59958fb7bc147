-- ===== src/Store/Tests.antt =====
-- Concrete stores: runs of the operations, and the theorems at them.
use jobworkerp_conductor.Prelude.{
  ◌≡◌, refl, ◌↔◌, true, false, none, some, [], ◌∷◌, arith, ok, err, ◌>>=◌, ℕ-HasEq,
}
use jobworkerp_conductor.HashMap.{get, insert}
use jobworkerp_conductor.Proto.{
  JobworkerpServer, JobworkerpServerData, CronScheduler, CronSchedulerData, workflow,
}
use jobworkerp_conductor.Registry
use jobworkerp_conductor.Registry.{Registry}
use jobworkerp_conductor.Registry.Upsert.{find-upsert, NameIsFree}
use jobworkerp_conductor.Registry.Consistency.{new-IsConsistent}
use jobworkerp_conductor.Store.Indices.{validate_index_consistency}
use jobworkerp_conductor.Store.Proofs.Indices.{Reach-validates}
use jobworkerp_conductor.Store.{
  LocalConfigStore, new, upsert_jobworkerp_server, upsert_cron_scheduler, server_name,
  remove_jobworkerp_server, unknown_server,
}
use jobworkerp_conductor.Store.Snapshots.{
  create_snapshot, restore_from_snapshot, restore, snapshot_of, import_config, export_config,
  find_snapshot,
}
use jobworkerp_conductor.Store.References.{validate_consistency}
use jobworkerp_conductor.Store.Proofs.WellFormed.{IsWellFormed, new-IsWellFormed}
use jobworkerp_conductor.Store.Proofs.Reach.{
  Step, Reach, here, next, server_upserted, snapshot_created, Reach-IsWellFormed,
}
use jobworkerp_conductor.Store.Proofs.RoundTrip.{
  HoldsConfigOf, rollback, import-export, restore-create_snapshot_old,
}
use jobworkerp_conductor.Store.Proofs.References.{ReferencesResolve, validate_consistency_iff}

abbrev local_server_data : JobworkerpServerData
local_server_data = record {
  name = "local-jobworkerp";
  host = "localhost";
  port = "9000";
  ssl_enabled = false;
  description = none;
  enabled = true;
  created_at = 1;
  updated_at = 1;
}

abbrev local_server : JobworkerpServer
local_server = record { id = some 7; payload = some local_server_data }

abbrev hourly_data : CronSchedulerData
hourly_data = record {
  name = "hourly";
  jobworkerp_server_id = some 8;
  workflow_url = "";
  channel = none;
  crontab = "0 0 * * * *";
  enabled = true;
  description = none;
  created_at = 1;
  updated_at = 1;
  args = none;
  execution_target = some (workflow (record { workflow_url = "file://wf.yaml"; channel = none }));
}

abbrev hourly : CronScheduler
hourly = record { id = some 3; payload = some hourly_data }

abbrev empty_store : LocalConfigStore
empty_store = new 0

-- The store with one server in it.
abbrev server_store : LocalConfigStore
server_store = record {
  cron_schedulers = Registry.new;
  worker_result_handlers = Registry.new;
  jobworkerp_servers = record {
    entities = (7, local_server) ∷ [];
    name_index = ("local-jobworkerp", 7) ∷ [];
  };
  slack_event_handlers = Registry.new;
  last_sync = 5;
  version = 2;
  snapshots = [];
}

upsert_runs : upsert_jobworkerp_server 5 local_server empty_store ≡ ok server_store
unfolding upsert_jobworkerp_server Registry.upsert new Registry.new get insert
upsert_runs = refl

name_is_free : NameIsFree server_name local_server empty_store.jobworkerp_servers
unfolding new Registry.new get
name_is_free id d i p j g = cc

server_store-Step : Step empty_store server_store
server_store-Step = server_upserted 5 local_server name_is_free upsert_runs

server_store-Reach : Reach empty_store (create_snapshot 6 "startup" server_store)
server_store-Reach = next (next here server_store-Step) (snapshot_created 6 "startup")

server_store-IsWellFormed : IsWellFormed server_store
server_store-IsWellFormed = Reach-IsWellFormed (new-IsWellFormed 0) (next here server_store-Step)

Reach-IsWellFormed_example : IsWellFormed (create_snapshot 6 "startup" server_store)
Reach-IsWellFormed_example = Reach-IsWellFormed (new-IsWellFormed 0) server_store-Reach

Reach-validates_example :
    validate_index_consistency (create_snapshot 6 "startup" server_store) ≡ ok tt
Reach-validates_example = Reach-validates (new-IsWellFormed 0) server_store-Reach

-- The server is removed after the snapshot, and a rollback brings it back.
abbrev emptied : LocalConfigStore
emptied = (remove_jobworkerp_server 8 7 (create_snapshot 6 "before" server_store)).1

emptied_history : emptied.snapshots ≡ (create_snapshot 6 "before" server_store).snapshots
unfolding remove_jobworkerp_server Registry.remove_entity create_snapshot get
emptied_history = refl

no_snapshot_yet : find_snapshot server_store.version server_store.snapshots ≡ none
unfolding find_snapshot
no_snapshot_yet = refl

rollback_example :
    (t' : LocalConfigStore) × (restore_from_snapshot 9 server_store.version emptied ≡ ok t')
    × HoldsConfigOf server_store t'
rollback_example =
    rollback 6 9 "before" server_store emptied server_store-IsWellFormed no_snapshot_yet
      emptied_history

import-export_example :
    HoldsConfigOf server_store (import_config 4 (export_config server_store) empty_store)
import-export_example = import-export 4 server_store empty_store server_store-IsWellFormed

-- The history already holds a snapshot of version 2, taken of the empty store.
abbrev stale_store : LocalConfigStore
stale_store = record server_store {
  snapshots = snapshot_of 1 "old" (record empty_store { version = 2 }) ∷ [];
}

stale_found :
    find_snapshot stale_store.version stale_store.snapshots
    ≡ some (snapshot_of 1 "old" (record empty_store { version = 2 }))
unfolding find_snapshot snapshot_of
stale_found = refl

restore-create_snapshot_old_example :
    restore_from_snapshot 9 2 (create_snapshot 6 "new" stale_store)
    ≡ ok (
        restore 9
          (create_snapshot 6 "new" stale_store)
          (snapshot_of 1 "old" (record empty_store { version = 2 })))
restore-create_snapshot_old_example =
    restore-create_snapshot_old 6 9 "new" stale_store
      (snapshot_of 1 "old" (record empty_store { version = 2 })) (omega arith) stale_found

validate_consistency_iff_example :
    (validate_consistency server_store ≡ ok tt) ↔ ReferencesResolve server_store
validate_consistency_iff_example = validate_consistency_iff server_store server_store-IsWellFormed

-- The cron scheduler refers to server 8, which is not there.
dangling_reference :
    (upsert_cron_scheduler 9 hourly server_store >>= validate_consistency)
    ≡ err (unknown_server "hourly" 8)
unfolding upsert_cron_scheduler Registry.upsert Registry.new get insert validate_consistency
dangling_reference = refl

registry_upsert_runs :
    Registry.upsert server_name local_server Registry.new ≡ ok server_store.jobworkerp_servers
unfolding Registry.upsert Registry.new get insert
registry_upsert_runs = refl

find-upsert_example :
    (get 7 server_store.jobworkerp_servers.entities ≡ some local_server)
    × (Registry.find_by_name "local-jobworkerp" server_store.jobworkerp_servers ≡ some local_server)
find-upsert_example =
    find-upsert server_name local_server Registry.new server_store.jobworkerp_servers
      (new-IsConsistent server_name) registry_upsert_runs 7 local_server_data refl refl
