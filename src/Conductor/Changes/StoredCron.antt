-- ===== src/Conductor/Changes/StoredCron.antt =====
-- What a change event does to the cron schedulers of the store: one that is about a cron scheduler
-- changes them at its id only, the others leave them alone.
use jobworkerp_conductor.Prelude.{
  ℕ, ◌≡◌, refl, sym, ap, ◌∙◌, Option, none, some, Result, ok, err, ◌>>=◌, ℕ-HasEq,
}
use jobworkerp_conductor.HashMap.{get-insert_other, get-remove_other}
use jobworkerp_conductor.Proto.{Entity, CronSchedulerData, CronSchedulerId}
use jobworkerp_conductor.Registry
use jobworkerp_conductor.Registry.{Registry}
use jobworkerp_conductor.Events.{
  Event, ChangeAction, ChangeEvent, CronSchedulerChangeEvent, WorkerResultHandlerChangeEvent,
  JobworkerpServerChangeEvent, SlackEventHandlerChangeEvent, created, updated, deleted,
}
use jobworkerp_conductor.Events.Accessors.{action}
use jobworkerp_conductor.Store.{
  LocalConfigStore, StoreResult, StoreError, get_cron_scheduler, upsert_cron_scheduler,
  upsert_worker_result_handler, upsert_jobworkerp_server, upsert_slack_event_handler,
  remove_cron_scheduler, remove_worker_result_handler, remove_jobworkerp_server,
  remove_slack_event_handler, update_sync_time, sync_if_removed,
}
use jobworkerp_conductor.Conductor.Scheduler.Sync.{ChangesOnly}
use jobworkerp_conductor.Conductor.Changes.{
  store_payload, drop_id, store_change, store_result_event, store_server_event, store_slack_event,
}

-- The value of a result, or the default of an error.
abbrev pub value_or : LocalConfigStore → StoreResult → LocalConfigStore
value_or s (ok t) = t
value_or s (err e) = s

abbrev pub ok_store : LocalConfigStore → StoreResult
ok_store s = ok s

abbrev pub SameCron : LocalConfigStore → LocalConfigStore → Type 0
SameCron s s' = (j : CronSchedulerId) → get_cron_scheduler j s' ≡ get_cron_scheduler j s

module _ (now : ℕ) where
  upsert_cron_scheduler-ChangesOnly :
      (id : CronSchedulerId) (d : CronSchedulerData) (s s' : LocalConfigStore)
      → upsert_cron_scheduler now (record { id = some id; payload = some d }) s ≡ ok s'
      → ChangesOnly id s s'
  unfolding upsert_cron_scheduler Registry.upsert update_sync_time get_cron_scheduler
  upsert_cron_scheduler-ChangesOnly id d s s' h j ne =
      sym (ap (λ r. get_cron_scheduler j (value_or s r)) h) ∙ get-insert_other id j _ _ ne

  pub cron-sync_if_removed :
      {A : Type 0} (o : Option A) (s : LocalConfigStore) (j : CronSchedulerId)
      → get_cron_scheduler j (sync_if_removed now o s) ≡ get_cron_scheduler j s
  unfolding sync_if_removed update_sync_time get_cron_scheduler
  cron-sync_if_removed none s j = refl
  cron-sync_if_removed (some a) s j = refl

  remove_cron_scheduler-ChangesOnly :
      (id : CronSchedulerId) (s : LocalConfigStore)
      → ChangesOnly id s (remove_cron_scheduler now id s).1
  unfolding remove_cron_scheduler Registry.remove_entity get_cron_scheduler
  remove_cron_scheduler-ChangesOnly id s j ne =
      cron-sync_if_removed _ _ j ∙ get-remove_other id j _ ne

  pub store_payload-ChangesOnly :
      (e : CronSchedulerChangeEvent) (id : CronSchedulerId) (o : Option CronSchedulerData)
      (s s' : LocalConfigStore)
      → e.id ≡ some id
      → store_payload (upsert_cron_scheduler now) e o s ≡ ok s'
      → ChangesOnly id s s'
  store_payload-ChangesOnly e id none s s' p h j ne =
      sym (ap (λ r. get_cron_scheduler j (value_or s r)) h)
  store_payload-ChangesOnly e id (some d) s s' p h j ne =
      upsert_cron_scheduler-ChangesOnly id d s s' (rw p at h) j ne

  pub drop_id-ChangesOnly :
      (id : CronSchedulerId) (o : Option CronSchedulerId) (s s' : LocalConfigStore)
      → o ≡ some id
      → drop_id (λ i t. (remove_cron_scheduler now i t).1) o s ≡ ok s'
      → ChangesOnly id s s'
  drop_id-ChangesOnly id none s s' p h j ne = cc p
  drop_id-ChangesOnly id (some i) s s' p h j ne =
      let same : i ≡ id = cc p in
      sym (ap (λ r. get_cron_scheduler j (value_or s r)) h)
      ∙ remove_cron_scheduler-ChangesOnly i s j (λ q. ne (q ∙ same))

  pub store_payload-SameCron :
      (e : CronSchedulerChangeEvent) (o : Option CronSchedulerData) (s s' : LocalConfigStore)
      → e.id ≡ none
      → store_payload (upsert_cron_scheduler now) e o s ≡ ok s'
      → SameCron s s'
  unfolding upsert_cron_scheduler Registry.upsert
  store_payload-SameCron e none s s' p h j = sym (ap (λ r. get_cron_scheduler j (value_or s r)) h)
  store_payload-SameCron e (some d) s s' p h j = cc (rw p at h)

-- A store that is made from an optional registry keeps the cron schedulers.
stored-cron :
    {R : Type 0} (s : LocalConfigStore) (r : Result StoreError R) (put : R → LocalConfigStore)
    → ((x : R) → SameCron s (put x))
    → (j : CronSchedulerId)
    → get_cron_scheduler j (value_or s (r >>= λ x. ok (put x))) ≡ get_cron_scheduler j s
stored-cron s (ok x) put same j = same x j
stored-cron s (err e) put same j = refl

-- The events of the other kinds leave the cron schedulers of the store alone.
module _ {D : Type 0} (upsert : Entity D → LocalConfigStore → StoreResult)
    (drop : ℕ → LocalConfigStore → LocalConfigStore) (s : LocalConfigStore)
    (upsert_same : (entity : Entity D) (j : CronSchedulerId)
      → get_cron_scheduler j (value_or s (upsert entity s)) ≡ get_cron_scheduler j s)
    (drop_same : (id : ℕ) → SameCron s (drop id s)) where
  store_payload-cron :
      {R : Type 0} (e : ChangeEvent D R) (o : Option D) (j : CronSchedulerId)
      → get_cron_scheduler j (value_or s (store_payload upsert e o s)) ≡ get_cron_scheduler j s
  store_payload-cron e none j = refl
  store_payload-cron e (some d) j = upsert_same _ j

  drop_id-cron :
      (o : Option ℕ) (j : CronSchedulerId)
      → get_cron_scheduler j (value_or s (drop_id drop o s)) ≡ get_cron_scheduler j s
  drop_id-cron none j = refl
  drop_id-cron (some id) j = drop_same id j

  store_change-cron :
      {R : Type 0} (e : ChangeEvent D R) (a : ChangeAction) (j : CronSchedulerId)
      → get_cron_scheduler j (value_or s (store_change upsert drop e a s)) ≡ get_cron_scheduler j s
  unfolding store_change
  store_change-cron e created j = store_payload-cron e e.payload j
  store_change-cron e updated j = store_payload-cron e e.payload j
  store_change-cron e deleted j = drop_id-cron e.id j
  store_change-cron e _ j = refl

module _ (now : ℕ) (s : LocalConfigStore) where
  pub worker_result_handler-cron :
      (e : WorkerResultHandlerChangeEvent) (j : CronSchedulerId)
      → get_cron_scheduler j
          (value_or s (store_result_event now (some (Event.worker_result_handler e)) s))
        ≡ get_cron_scheduler j s
  unfolding store_result_event upsert_worker_result_handler remove_worker_result_handler
      get_cron_scheduler update_sync_time
  worker_result_handler-cron e j =
      store_change-cron (upsert_worker_result_handler now)
        (λ id t. (remove_worker_result_handler now id t).1) s
        (λ entity i. stored-cron s _ _ (λ r k. refl) i) (λ id i. cron-sync_if_removed now _ _ i) e
        (action (some (Event.worker_result_handler e))) j

  pub jobworkerp_server-cron :
      (e : JobworkerpServerChangeEvent) (j : CronSchedulerId)
      → get_cron_scheduler j
          (value_or s (store_server_event now (some (Event.jobworkerp_server e)) s))
        ≡ get_cron_scheduler j s
  unfolding store_server_event upsert_jobworkerp_server remove_jobworkerp_server get_cron_scheduler
      update_sync_time
  jobworkerp_server-cron e j =
      store_change-cron (upsert_jobworkerp_server now)
        (λ id t. (remove_jobworkerp_server now id t).1) s
        (λ entity i. stored-cron s _ _ (λ r k. refl) i) (λ id i. cron-sync_if_removed now _ _ i) e
        (action (some (Event.jobworkerp_server e))) j

  pub slack_event_handler-cron :
      (e : SlackEventHandlerChangeEvent) (j : CronSchedulerId)
      → get_cron_scheduler j
          (value_or s (store_slack_event now (some (Event.slack_event_handler e)) s))
        ≡ get_cron_scheduler j s
  unfolding store_slack_event upsert_slack_event_handler remove_slack_event_handler
      get_cron_scheduler update_sync_time
  slack_event_handler-cron e j =
      store_change-cron (upsert_slack_event_handler now)
        (λ id t. (remove_slack_event_handler now id t).1) s
        (λ entity i. stored-cron s _ _ (λ r k. refl) i) (λ id i. cron-sync_if_removed now _ _ i) e
        (action (some (Event.slack_event_handler e))) j
