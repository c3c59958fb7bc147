-- ===== src/Store/Proofs/Rollback.antt =====
-- Snapshots: the history is bounded, a restored store is well formed, and a rollback brings back
-- what the snapshot was taken of.
use jobworkerp_conductor.Prelude.{
  ℕ, String, ◌+◌, ◌≡◌, ◌≤◌, inl, inr, some, List, [], ◌∷◌, ◌++◌, arith, length, length-append, All,
  ℕ-HasEq, ◌==◌, nat_eq_iff, ltb, ok, Bool-cases, Option-cases,
}
use jobworkerp_conductor.Store.{
  StoreResult, LocalConfigStore, ConfigSnapshot, cron_name, handler_name, server_name, slack_name,
}
use jobworkerp_conductor.Store.Snapshots.{
  ConfigExport, snapshot_of, remove_first, push_snapshot, create_snapshot, find_snapshot, restore,
  restore_from_snapshot, import_config,
}
use jobworkerp_conductor.Store.Proofs.WellFormed.{
  IsSound-of_IsConsistent, rebuild_of_IsSound, SnapshotIsSound, ExportIsSound, IsWellFormed,
}

All-concat :
    (P : ConfigSnapshot → Type 0) (xs : List ConfigSnapshot) (x : ConfigSnapshot)
    → All P xs
    → P x
    → All P (xs ++ x ∷ [])
All-concat P [] x h p = (p, tt)
All-concat P (y ∷ xs) x h p = (h.0, All-concat P xs x h.1 p)

All-remove_first :
    (P : ConfigSnapshot → Type 0) (xs : List ConfigSnapshot) → All P xs → All P (remove_first xs)
unfolding remove_first
All-remove_first P [] h = tt
All-remove_first P (x ∷ xs) h = h.1

All-push_snapshot :
    (P : ConfigSnapshot → Type 0) (x : ConfigSnapshot) (xs : List ConfigSnapshot)
    → All P xs
    → P x
    → All P (push_snapshot x xs)
unfolding push_snapshot
All-push_snapshot P x xs h p = elim (Bool-cases (ltb 10 (length (xs ++ x ∷ [])))) [
  | inl full ↦ rw full (All-remove_first P (xs ++ x ∷ []) (All-concat P xs x h p))
  | inr room ↦ rw room (All-concat P xs x h p)
]

length-remove_first :
    (xs : List ConfigSnapshot) (n : ℕ) → length xs ≤ n + 1 → length (remove_first xs) ≤ n
unfolding remove_first
length-remove_first [] n h = omega arith
length-remove_first (x ∷ xs) n h = omega arith

length-push_snapshot :
    (x : ConfigSnapshot) (xs : List ConfigSnapshot)
    → length xs ≤ 10
    → length (push_snapshot x xs) ≤ 10
unfolding push_snapshot
length-push_snapshot x xs h =
    let n = length-append xs (x ∷ []) in
    elim (Bool-cases (ltb 10 (length (xs ++ x ∷ [])))) [
      | inl full ↦ rw full (length-remove_first (xs ++ x ∷ []) 10 (omega arith))
      | inr room ↦ rw room (ground arith)
    ]

pub snapshot_of-IsSound :
    (now : ℕ) (description : String) (s : LocalConfigStore)
    → IsWellFormed s
    → SnapshotIsSound (snapshot_of now description s)
unfolding snapshot_of
snapshot_of-IsSound now description s w = record {
  cron = IsSound-of_IsConsistent cron_name s.cron_schedulers w.cron;
  worker = IsSound-of_IsConsistent handler_name s.worker_result_handlers w.worker;
  server = IsSound-of_IsConsistent server_name s.jobworkerp_servers w.server;
  slack = IsSound-of_IsConsistent slack_name s.slack_event_handlers w.slack;
}

pub create_snapshot-IsWellFormed :
    (now : ℕ) (description : String) (s : LocalConfigStore)
    → IsWellFormed s
    → IsWellFormed (create_snapshot now description s)
unfolding create_snapshot
create_snapshot-IsWellFormed now description s w = record {
  cron = w.cron;
  worker = w.worker;
  server = w.server;
  slack = w.slack;
  snapshots_sound =
      All-push_snapshot SnapshotIsSound (snapshot_of now description s) s.snapshots
        w.snapshots_sound (snapshot_of-IsSound now description s w);
  snapshots_fit = length-push_snapshot (snapshot_of now description s) s.snapshots w.snapshots_fit;
}

-- A found snapshot is in the history and has the version that was asked for.
pub find_snapshot_sound :
    (P : ConfigSnapshot → Type 0) (version : ℕ) (xs : List ConfigSnapshot) (x : ConfigSnapshot)
    → All P xs
    → find_snapshot version xs ≡ some x
    → P x × (x.version ≡ version)
unfolding find_snapshot
find_snapshot_sound P version [] x h f = cc
find_snapshot_sound P version (y ∷ xs) x h f = elim (Bool-cases (y.version == version)) [
  | inl same ↦
      let e : some y ≡ some x = rw same at f in
      let e' : y ≡ x = cc (e) in (rw (← e') h.0, rw (← e') ((nat_eq_iff _ _).0 same))
  | inr other ↦ find_snapshot_sound P version xs x h.1 (rw other at f)
]

restore-IsWellFormed :
    (now : ℕ) (s : LocalConfigStore) (x : ConfigSnapshot)
    → IsWellFormed s
    → SnapshotIsSound x
    → IsWellFormed (restore now s x)
unfolding restore
restore-IsWellFormed now s x w h = record {
  cron = rebuild_of_IsSound cron_name x.cron_schedulers h.cron;
  worker = rebuild_of_IsSound handler_name x.worker_result_handlers h.worker;
  server = rebuild_of_IsSound server_name x.jobworkerp_servers h.server;
  slack = rebuild_of_IsSound slack_name x.slack_event_handlers h.slack;
  snapshots_sound = w.snapshots_sound;
  snapshots_fit = w.snapshots_fit;
}

restored_from :
    (now version : ℕ) (s s' : LocalConfigStore)
    → restore_from_snapshot now version s ≡ ok s'
    → (x : ConfigSnapshot) × (find_snapshot version s.snapshots ≡ some x) × (s' ≡ restore now s x)
unfolding restore_from_snapshot
restored_from now version s s' h = elim (Option-cases (find_snapshot version s.snapshots)) [
  | inl gone ↦ cc (rw gone at h)
  | inr (x, found) ↦
      let e : ◌≡◌ {A = StoreResult} (ok (restore now s x)) (ok s') = rw found at h in
      (x, found, cc (e))
]

pub restore_from_snapshot-IsWellFormed :
    (now version : ℕ) (s s' : LocalConfigStore)
    → IsWellFormed s
    → restore_from_snapshot now version s ≡ ok s'
    → IsWellFormed s'
restore_from_snapshot-IsWellFormed now version s s' w h =
    let (x, found, e) = restored_from now version s s' h in
    rw e (
      restore-IsWellFormed now s x w
        (find_snapshot_sound SnapshotIsSound version s.snapshots x w.snapshots_sound found).0)

pub import_config-IsWellFormed :
    (now : ℕ) (export : ConfigExport) (s : LocalConfigStore)
    → IsWellFormed s
    → ExportIsSound export
    → IsWellFormed (import_config now export s)
unfolding import_config
import_config-IsWellFormed now export s w h = record {
  cron = rebuild_of_IsSound cron_name export.cron_schedulers h.cron;
  worker = rebuild_of_IsSound handler_name export.worker_result_handlers h.worker;
  server = rebuild_of_IsSound server_name export.jobworkerp_servers h.server;
  slack = rebuild_of_IsSound slack_name export.slack_event_handlers h.slack;
  snapshots_sound = (create_snapshot-IsWellFormed now "Before import" s w).snapshots_sound;
  snapshots_fit = (create_snapshot-IsWellFormed now "Before import" s w).snapshots_fit;
}
