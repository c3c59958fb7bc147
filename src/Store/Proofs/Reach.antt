-- ===== src/Store/Proofs/Reach.antt =====
-- Every store that the operations reach from `new` is well formed.
use jobworkerp_conductor.Prelude.{ℕ, String, ◌≡◌, refl, Result, ok, err, ◌>>=◌}
use jobworkerp_conductor.Proto.{
  CronScheduler, WorkerResultHandler, JobworkerpServer, SlackEventHandler,
}
use jobworkerp_conductor.Registry
use jobworkerp_conductor.Registry.{Registry, RegistryError}
use jobworkerp_conductor.Registry.Operations.{remove_entity-IsConsistent}
use jobworkerp_conductor.Registry.Upsert.{NameIsFree, upsert-IsConsistent}
use jobworkerp_conductor.Store.{
  LocalConfigStore, lift, cron_name, handler_name, server_name, slack_name, upsert_cron_scheduler,
  remove_cron_scheduler, upsert_worker_result_handler, remove_worker_result_handler,
  upsert_jobworkerp_server, remove_jobworkerp_server, upsert_slack_event_handler,
  remove_slack_event_handler,
}
use jobworkerp_conductor.Store.Snapshots.{
  ConfigExport, create_snapshot, restore_from_snapshot, import_config,
}
use jobworkerp_conductor.Store.Proofs.WellFormed.{
  IsWellFormed, ExportIsSound, sync_if_removed-IsWellFormed,
}
use jobworkerp_conductor.Store.Proofs.Rollback.{
  create_snapshot-IsWellFormed, restore_from_snapshot-IsWellFormed, import_config-IsWellFormed,
}

-- A successful write to a store is a successful write to the registry, put back.
bind_ok :
    {D : Type 0} (m : Result RegistryError (Registry D)) (f : Registry D → LocalConfigStore)
    (s' : LocalConfigStore)
    → (lift m >>= λ r. ok (f r)) ≡ ok s'
    → (r : Registry D) × (m ≡ ok r) × (s' ≡ f r)
bind_ok (ok r) f s' h = (r, refl, cc)
bind_ok (err e) f s' h = cc

module _ (now : ℕ) (s s' : LocalConfigStore) (w : IsWellFormed s) where
  pub upsert_cron_scheduler-IsWellFormed :
      (scheduler : CronScheduler)
      → NameIsFree cron_name scheduler s.cron_schedulers
      → upsert_cron_scheduler now scheduler s ≡ ok s'
      → IsWellFormed s'
  unfolding upsert_cron_scheduler
  upsert_cron_scheduler-IsWellFormed scheduler free h =
      let (r, done, e) = bind_ok (Registry.upsert cron_name scheduler s.cron_schedulers) _ s' h in
      rw e (record {
        cron = upsert-IsConsistent cron_name scheduler s.cron_schedulers r w.cron free done;
        worker = w.worker;
        server = w.server;
        slack = w.slack;
        snapshots_sound = w.snapshots_sound;
        snapshots_fit = w.snapshots_fit;
      })

  pub upsert_worker_result_handler-IsWellFormed :
      (handler : WorkerResultHandler)
      → NameIsFree handler_name handler s.worker_result_handlers
      → upsert_worker_result_handler now handler s ≡ ok s'
      → IsWellFormed s'
  unfolding upsert_worker_result_handler
  upsert_worker_result_handler-IsWellFormed handler free h =
      let (r, done, e) =
        bind_ok (Registry.upsert handler_name handler s.worker_result_handlers) _ s' h in
      rw e (record {
        cron = w.cron;
        worker =
            upsert-IsConsistent handler_name handler s.worker_result_handlers r w.worker free done;
        server = w.server;
        slack = w.slack;
        snapshots_sound = w.snapshots_sound;
        snapshots_fit = w.snapshots_fit;
      })

  pub upsert_jobworkerp_server-IsWellFormed :
      (server : JobworkerpServer)
      → NameIsFree server_name server s.jobworkerp_servers
      → upsert_jobworkerp_server now server s ≡ ok s'
      → IsWellFormed s'
  unfolding upsert_jobworkerp_server
  upsert_jobworkerp_server-IsWellFormed server free h =
      let (r, done, e) = bind_ok (Registry.upsert server_name server s.jobworkerp_servers) _ s' h in
      rw e (record {
        cron = w.cron;
        worker = w.worker;
        server = upsert-IsConsistent server_name server s.jobworkerp_servers r w.server free done;
        slack = w.slack;
        snapshots_sound = w.snapshots_sound;
        snapshots_fit = w.snapshots_fit;
      })

  pub upsert_slack_event_handler-IsWellFormed :
      (handler : SlackEventHandler)
      → NameIsFree slack_name handler s.slack_event_handlers
      → upsert_slack_event_handler now handler s ≡ ok s'
      → IsWellFormed s'
  unfolding upsert_slack_event_handler
  upsert_slack_event_handler-IsWellFormed handler free h =
      let (r, done, e) =
        bind_ok (Registry.upsert slack_name handler s.slack_event_handlers) _ s' h in
      rw e (record {
        cron = w.cron;
        worker = w.worker;
        server = w.server;
        slack = upsert-IsConsistent slack_name handler s.slack_event_handlers r w.slack free done;
        snapshots_sound = w.snapshots_sound;
        snapshots_fit = w.snapshots_fit;
      })

module _ (now id : ℕ) (s : LocalConfigStore) (w : IsWellFormed s) where
  pub remove_cron_scheduler-IsWellFormed : IsWellFormed (remove_cron_scheduler now id s).1
  unfolding remove_cron_scheduler
  remove_cron_scheduler-IsWellFormed = sync_if_removed-IsWellFormed now _ _ (record {
    cron = remove_entity-IsConsistent cron_name s.cron_schedulers id w.cron;
    worker = w.worker;
    server = w.server;
    slack = w.slack;
    snapshots_sound = w.snapshots_sound;
    snapshots_fit = w.snapshots_fit;
  })

  pub remove_worker_result_handler-IsWellFormed :
      IsWellFormed (remove_worker_result_handler now id s).1
  unfolding remove_worker_result_handler
  remove_worker_result_handler-IsWellFormed = sync_if_removed-IsWellFormed now _ _ (record {
    cron = w.cron;
    worker = remove_entity-IsConsistent handler_name s.worker_result_handlers id w.worker;
    server = w.server;
    slack = w.slack;
    snapshots_sound = w.snapshots_sound;
    snapshots_fit = w.snapshots_fit;
  })

  pub remove_jobworkerp_server-IsWellFormed : IsWellFormed (remove_jobworkerp_server now id s).1
  unfolding remove_jobworkerp_server
  remove_jobworkerp_server-IsWellFormed = sync_if_removed-IsWellFormed now _ _ (record {
    cron = w.cron;
    worker = w.worker;
    server = remove_entity-IsConsistent server_name s.jobworkerp_servers id w.server;
    slack = w.slack;
    snapshots_sound = w.snapshots_sound;
    snapshots_fit = w.snapshots_fit;
  })

  pub remove_slack_event_handler-IsWellFormed : IsWellFormed (remove_slack_event_handler now id s).1
  unfolding remove_slack_event_handler
  remove_slack_event_handler-IsWellFormed = sync_if_removed-IsWellFormed now _ _ (record {
    cron = w.cron;
    worker = w.worker;
    server = w.server;
    slack = remove_entity-IsConsistent slack_name s.slack_event_handlers id w.slack;
    snapshots_sound = w.snapshots_sound;
    snapshots_fit = w.snapshots_fit;
  })

-- One operation of the store. A write of a name that another entity holds, and an import of
-- entities that contradict one another, are left out: the database forbids both.
pub data Step (s : LocalConfigStore) : LocalConfigStore → Type 0 where
  cron_upserted :
      (now : ℕ) (scheduler : CronScheduler) {s' : LocalConfigStore}
      → NameIsFree cron_name scheduler s.cron_schedulers
      → upsert_cron_scheduler now scheduler s ≡ ok s'
      → Step s s'
  worker_upserted :
      (now : ℕ) (handler : WorkerResultHandler) {s' : LocalConfigStore}
      → NameIsFree handler_name handler s.worker_result_handlers
      → upsert_worker_result_handler now handler s ≡ ok s'
      → Step s s'
  server_upserted :
      (now : ℕ) (server : JobworkerpServer) {s' : LocalConfigStore}
      → NameIsFree server_name server s.jobworkerp_servers
      → upsert_jobworkerp_server now server s ≡ ok s'
      → Step s s'
  slack_upserted :
      (now : ℕ) (handler : SlackEventHandler) {s' : LocalConfigStore}
      → NameIsFree slack_name handler s.slack_event_handlers
      → upsert_slack_event_handler now handler s ≡ ok s'
      → Step s s'
  cron_removed : (now id : ℕ) → Step s (remove_cron_scheduler now id s).1
  worker_removed : (now id : ℕ) → Step s (remove_worker_result_handler now id s).1
  server_removed : (now id : ℕ) → Step s (remove_jobworkerp_server now id s).1
  slack_removed : (now id : ℕ) → Step s (remove_slack_event_handler now id s).1
  snapshot_created : (now : ℕ) (description : String) → Step s (create_snapshot now description s)
  restored :
      (now version : ℕ) {s' : LocalConfigStore}
      → restore_from_snapshot now version s ≡ ok s'
      → Step s s'
  imported :
      (now : ℕ) (export : ConfigExport) → ExportIsSound export → Step s (import_config now export s)

pub data Reach (s : LocalConfigStore) : LocalConfigStore → Type 0 where
  here : Reach s s
  next : {t u : LocalConfigStore} → Reach s t → Step t u → Reach s u

-- Each operation keeps the store well formed.
pub Step-IsWellFormed : {s t : LocalConfigStore} → Step s t → IsWellFormed s → IsWellFormed t
Step-IsWellFormed {s} {t} (cron_upserted now x free h) w =
    upsert_cron_scheduler-IsWellFormed now s t w x free h
Step-IsWellFormed {s} {t} (worker_upserted now x free h) w =
    upsert_worker_result_handler-IsWellFormed now s t w x free h
Step-IsWellFormed {s} {t} (server_upserted now x free h) w =
    upsert_jobworkerp_server-IsWellFormed now s t w x free h
Step-IsWellFormed {s} {t} (slack_upserted now x free h) w =
    upsert_slack_event_handler-IsWellFormed now s t w x free h
Step-IsWellFormed {s} (cron_removed now id) w = remove_cron_scheduler-IsWellFormed now id s w
Step-IsWellFormed {s} (worker_removed now id) w =
    remove_worker_result_handler-IsWellFormed now id s w
Step-IsWellFormed {s} (server_removed now id) w = remove_jobworkerp_server-IsWellFormed now id s w
Step-IsWellFormed {s} (slack_removed now id) w = remove_slack_event_handler-IsWellFormed now id s w
Step-IsWellFormed {s} (snapshot_created now description) w =
    create_snapshot-IsWellFormed now description s w
Step-IsWellFormed {s} {t} (restored now version h) w =
    restore_from_snapshot-IsWellFormed now version s t w h
Step-IsWellFormed {s} (imported now export sound) w =
    import_config-IsWellFormed now export s w sound

-- Every store that the operations reach from a well-formed one is well formed: the indices of all
-- four entity kinds are consistent, every snapshot can be restored, and there are at most ten.
pub Reach-IsWellFormed : {s t : LocalConfigStore} → IsWellFormed s → Reach s t → IsWellFormed t
Reach-IsWellFormed w here = w
Reach-IsWellFormed w (next r st) = Step-IsWellFormed st (Reach-IsWellFormed w r)
