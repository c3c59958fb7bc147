-- ===== src/Store/Proofs/RoundTrip.antt =====
-- Rollback to a snapshot and import of an export bring back the configuration, with its indices.
use jobworkerp_conductor.Prelude.{
  ℕ, String, ◌≡◌, refl, ◌<◌, inl, inr, true, false, none, some, List, [], ◌∷◌, ◌++◌, arith, length,
  length-append, ℕ-HasEq, ◌==◌, ==_refl, ltb, ok, Bool-cases,
}
use jobworkerp_conductor.Registry
use jobworkerp_conductor.Registry.Consistency.{IsConsistent}
use jobworkerp_conductor.Store.{
  LocalConfigStore, ConfigSnapshot, cron_name, handler_name, server_name, slack_name,
}
use jobworkerp_conductor.Store.Snapshots.{
  snapshot_of, remove_first, push_snapshot, create_snapshot, find_snapshot, restore,
  restore_from_snapshot, export_config, import_config,
}
use jobworkerp_conductor.Store.Proofs.WellFormed.{
  IsSound-of_IsConsistent, rebuild_of_IsSound, SnapshotIsSound, IsWellFormed,
}
use jobworkerp_conductor.Store.Proofs.Rollback.{snapshot_of-IsSound}

-- `t` holds the configuration of `s`, at its version, and its indices are consistent.
pub record HoldsConfigOf (s t : LocalConfigStore) : Type 0 where
  pub cron_entities : t.cron_schedulers.entities ≡ s.cron_schedulers.entities
  pub worker_entities : t.worker_result_handlers.entities ≡ s.worker_result_handlers.entities
  pub server_entities : t.jobworkerp_servers.entities ≡ s.jobworkerp_servers.entities
  pub slack_entities : t.slack_event_handlers.entities ≡ s.slack_event_handlers.entities
  pub same_version : t.version ≡ s.version
  pub cron : IsConsistent cron_name t.cron_schedulers
  pub worker : IsConsistent handler_name t.worker_result_handlers
  pub server : IsConsistent server_name t.jobworkerp_servers
  pub slack : IsConsistent slack_name t.slack_event_handlers

module _ (version : ℕ) where
  find-concat :
      (xs : List ConfigSnapshot) (x : ConfigSnapshot)
      → find_snapshot version xs ≡ none
      → x.version ≡ version
      → find_snapshot version (xs ++ x ∷ []) ≡ some x
  unfolding find_snapshot
  find-concat [] x h v = rw (v, ==_refl version)
  find-concat (y ∷ xs) x h v = elim (Bool-cases (y.version == version)) [
    | inl same ↦ cc (rw same at h)
    | inr other ↦ rw other (find-concat xs x (rw other at h) v)
  ]

  find-tail :
      (y : ConfigSnapshot) (xs : List ConfigSnapshot)
      → find_snapshot version (y ∷ xs) ≡ none
      → find_snapshot version xs ≡ none
  unfolding find_snapshot
  find-tail y xs h = elim (Bool-cases (y.version == version)) [
    | inl same ↦ cc (rw same at h)
    | inr other ↦ rw other at h
  ]

  find-remove_first :
      (xs : List ConfigSnapshot) (x : ConfigSnapshot)
      → find_snapshot version xs ≡ none
      → x.version ≡ version
      → ltb 10 (length (xs ++ x ∷ [])) ≡ true
      → find_snapshot version (remove_first (xs ++ x ∷ [])) ≡ some x
  unfolding remove_first
  find-remove_first [] x h v full = ground arith
  find-remove_first (y ∷ xs) x h v full = find-concat xs x (find-tail y xs h) v

  find-push_snapshot :
      (xs : List ConfigSnapshot) (x : ConfigSnapshot)
      → find_snapshot version xs ≡ none
      → x.version ≡ version
      → find_snapshot version (push_snapshot x xs) ≡ some x
  unfolding push_snapshot
  find-push_snapshot xs x h v = elim (Bool-cases (ltb 10 (length (xs ++ x ∷ [])))) [
    | inl full ↦ rw full (find-remove_first xs x h v full)
    | inr room ↦ rw room (find-concat xs x h v)
  ]

  -- An older snapshot of the version hides a newer one.
  find-concat_old :
      (xs : List ConfigSnapshot) (x old : ConfigSnapshot)
      → find_snapshot version xs ≡ some old
      → find_snapshot version (xs ++ x ∷ []) ≡ some old
  unfolding find_snapshot
  find-concat_old [] x old h = cc
  find-concat_old (y ∷ xs) x old h = elim (Bool-cases (y.version == version)) [
    | inl same ↦ rw same (rw same at h)
    | inr other ↦ rw other (find-concat_old xs x old (rw other at h))
  ]

  restore_found :
      (now : ℕ) (t : LocalConfigStore) (x : ConfigSnapshot)
      → find_snapshot version t.snapshots ≡ some x
      → restore_from_snapshot now version t ≡ ok (restore now t x)
  unfolding restore_from_snapshot
  restore_found now t x h = rw h

restored-HoldsConfigOf :
    (now now' : ℕ) (description : String) (s t : LocalConfigStore)
    → IsWellFormed s
    → HoldsConfigOf s (restore now' t (snapshot_of now description s))
unfolding restore snapshot_of
restored-HoldsConfigOf now now' description s t w =
    let sound : SnapshotIsSound (snapshot_of now description s) =
      snapshot_of-IsSound now description s w in
    record {
      cron_entities = unfold Registry.rebuild in refl;
      worker_entities = unfold Registry.rebuild in refl;
      server_entities = unfold Registry.rebuild in refl;
      slack_entities = unfold Registry.rebuild in refl;
      same_version = refl;
      cron = rebuild_of_IsSound cron_name s.cron_schedulers.entities sound.cron;
      worker = rebuild_of_IsSound handler_name s.worker_result_handlers.entities sound.worker;
      server = rebuild_of_IsSound server_name s.jobworkerp_servers.entities sound.server;
      slack = rebuild_of_IsSound slack_name s.slack_event_handlers.entities sound.slack;
    }

-- After a snapshot of `s` was taken, and whatever was changed since in a store `t` that still has
-- that history, a restore at the version of `s` succeeds and gives a store that holds the
-- configuration of `s` at its version with consistent indices, if `s` is well formed and no older
-- snapshot has its version.
pub rollback :
    (now now' : ℕ) (description : String) (s t : LocalConfigStore)
    → IsWellFormed s
    → find_snapshot s.version s.snapshots ≡ none
    → t.snapshots ≡ (create_snapshot now description s).snapshots
    → (t' : LocalConfigStore) × (restore_from_snapshot now' s.version t ≡ ok t')
      × HoldsConfigOf s t'
unfolding create_snapshot
rollback now now' description s t w fresh history =
    let x = snapshot_of now description s in
    let found : find_snapshot s.version t.snapshots ≡ some x =
      rw history (find-push_snapshot s.version s.snapshots x fresh (unfold snapshot_of in refl)) in
    (
      restore now' t x,
      restore_found s.version now' t x found,
      restored-HoldsConfigOf now now' description s t w,
    )

-- A snapshot does not change the version, so versions can repeat: if the history already has a
-- snapshot of the current version and has room, a restore right after `create_snapshot` gives the
-- older snapshot and not the one just taken.
pub restore-create_snapshot_old :
    (now now' : ℕ) (description : String) (s : LocalConfigStore) (old : ConfigSnapshot)
    → length s.snapshots < 10
    → find_snapshot s.version s.snapshots ≡ some old
    → restore_from_snapshot now' s.version (create_snapshot now description s)
      ≡ ok (restore now' (create_snapshot now description s) old)
unfolding create_snapshot push_snapshot
restore-create_snapshot_old now now' description s old room found =
    let n = length-append s.snapshots (snapshot_of now description s ∷ []) in
    let fits : ltb 10 (length (s.snapshots ++ snapshot_of now description s ∷ [])) ≡ false =
      ground (arith, n) in
    restore_found s.version now' (create_snapshot now description s) old
      (rw fits (find-concat_old s.version s.snapshots (snapshot_of now description s) old found))

-- What a well-formed store exports, any store imports: it then holds the same configuration at the
-- same version with consistent indices.
pub import-export :
    (now : ℕ) (s t : LocalConfigStore)
    → IsWellFormed s
    → HoldsConfigOf s (import_config now (export_config s) t)
unfolding import_config export_config
import-export now s t w = record {
  cron_entities = unfold Registry.rebuild in refl;
  worker_entities = unfold Registry.rebuild in refl;
  server_entities = unfold Registry.rebuild in refl;
  slack_entities = unfold Registry.rebuild in refl;
  same_version = refl;
  cron =
      rebuild_of_IsSound cron_name s.cron_schedulers.entities
        (IsSound-of_IsConsistent cron_name s.cron_schedulers w.cron);
  worker =
      rebuild_of_IsSound handler_name s.worker_result_handlers.entities
        (IsSound-of_IsConsistent handler_name s.worker_result_handlers w.worker);
  server =
      rebuild_of_IsSound server_name s.jobworkerp_servers.entities
        (IsSound-of_IsConsistent server_name s.jobworkerp_servers w.server);
  slack =
      rebuild_of_IsSound slack_name s.slack_event_handlers.entities
        (IsSound-of_IsConsistent slack_name s.slack_event_handlers w.slack);
}
