-- ===== src/Store/Proofs/References.antt =====
-- `validate_consistency` decides that every reference to a server resolves.
use jobworkerp_conductor.Prelude.{
  ℕ, String, ◌≡◌, refl, ◌↔◌, inl, inr, true, false, Option, none, some, [], ◌∷◌, arith, Result, ok,
  err, ◌>>◌, ◌==◌, ==_refl, ℕ-HasEq, nat_eq_iff, Bool-cases, Option-cases,
}
use jobworkerp_conductor.HashMap.{HashMap, get}
use jobworkerp_conductor.HashMap.Entries.{HasUniqueKeys}
use jobworkerp_conductor.Proto.{
  Entity, JobworkerpServer, JobworkerpServerId, CronSchedulerData, WorkerResultHandlerData,
  SlackEventHandlerData,
}
use jobworkerp_conductor.Registry.Rebuild.{get-tail, get-head, get-cons_other}
use jobworkerp_conductor.Store.{LocalConfigStore, StoreError}
use jobworkerp_conductor.Store.References.{
  Servers, server_exists, check_server, check_cron, check_handler, check_slack, check_payload,
  check_all, validate_consistency,
}
use jobworkerp_conductor.Store.Proofs.WellFormed.{IsWellFormed}

-- A reference that is set and that the store can resolve.
abbrev pub Resolves : Servers → Option JobworkerpServerId → Type 0
Resolves servers o =
    (id : JobworkerpServerId) × (server : JobworkerpServer) × (o ≡ some id)
    × (get id servers ≡ some server)

module _ (id : JobworkerpServerId) where
  -- `values().any(..)` finds a server that is stored under its own id.
  server_exists_complete :
      (servers : Servers) (server : JobworkerpServer)
      → HasUniqueKeys servers
      → get id servers ≡ some server
      → server.id ≡ some id
      → server_exists servers id ≡ true
  unfolding server_exists get
  server_exists_complete [] server u g i = cc
  server_exists_complete ((j, other) ∷ m) server u g i = elim (Bool-cases (j == id)) [
    | inl same ↦
        let e : some other ≡ some server = rw same at g in
        let i' : other.id ≡ some id = cc (e, i) in rw (i', ==_refl id)
    | inr apart ↦ rw (server_exists_complete m server u.1 (rw apart at g) i) (ground arith)
  ]

  server_exists_sound :
      (servers : Servers)
      → HasUniqueKeys servers
      → ((j : ℕ) (server : JobworkerpServer) → get j servers ≡ some server → server.id ≡ some j)
      → server_exists servers id ≡ true
      → (server : JobworkerpServer) × (get id servers ≡ some server)
  unfolding server_exists
  server_exists_sound [] u own h = cc
  server_exists_sound ((j, other) ∷ m) u own h =
      let i : other.id ≡ some j = own j other (get-head j other m) in
      elim (Bool-cases (j == id)) [
        | inl same ↦ (other, rw (← (nat_eq_iff j id).0 same) (get-head j other m))
        | inr apart ↦
            let h' : server_exists m id ≡ true = rw (i, apart) at h in
            let (server, g) =
              server_exists_sound m u.1
                (λ k server g. own k server (get-tail j k other server m u g)) h' in
            (server, get-tail j id other server m u g)
      ]

module _ (servers : Servers) (u : HasUniqueKeys servers)
    (own : (j : ℕ) (server : JobworkerpServer)
      → get j servers ≡ some server
      → server.id ≡ some j) where
  check_server_iff :
      (name : String) (o : Option JobworkerpServerId)
      → (check_server servers name o ≡ ok tt) ↔ Resolves servers o
  unfolding check_server
  check_server_iff name none = (λ h. cc, λ r. cc (r.2))
  check_server_iff name (some id) = (
    λ h. elim (Bool-cases (server_exists servers id)) [
      | inl there ↦
          let (server, g) = server_exists_sound id servers u own there in (id, server, refl, g)
      | inr gone ↦ cc (rw gone at h)
    ],
    λ r.
        let same : r.0 ≡ id = cc (r.2) in
        let g : get id servers ≡ some r.1 = rw (← same) r.3 in
        rw (server_exists_complete id servers r.1 u g (own id r.1 g)),
  )

then_ok : (m n : Result StoreError (Unit {0})) → ((m >> n) ≡ ok tt) ↔ ((m ≡ ok tt) × (n ≡ ok tt))
then_ok (ok t) n = (λ h. (refl, h), λ h. h.1)
then_ok (err e) n = (λ h. cc, λ h. cc (h.0))

module _ {D : Type 0} (check : D → Result StoreError (Unit {0})) where
  check_all_sound :
      (m : HashMap ℕ (Entity D))
      → check_all check m ≡ ok tt
      → (id : ℕ) (entity : Entity D) (payload : D) → get id m ≡ some entity
      → entity.payload ≡ some payload
      → check payload ≡ ok tt
  unfolding check_all
  check_all_sound [] h id entity payload g p = unfold get in cc
  check_all_sound ((j, other) ∷ m) h id entity payload g p =
      let (first, rest) = (then_ok (check_payload check other.payload) (check_all check m)).0 h in
      elim (Bool-cases (j == id)) [
        | inl same ↦
            let e : some other ≡ some entity = unfold get in rw same at g in
            let p' : other.payload ≡ some payload = cc (e, p) in rw p' at first
        | inr apart ↦ check_all_sound m rest id entity payload (sym-get j id other m apart g) p
      ]
    where
      sym-get :
          (j id : ℕ) (other : Entity D) (m : HashMap ℕ (Entity D))
          → (j == id) ≡ false
          → get id ((j, other) ∷ m) ≡ some entity
          → get id m ≡ some entity
      sym-get j id other m apart g = rw (get-cons_other j id other m apart) at g

  check_all_complete :
      (m : HashMap ℕ (Entity D))
      → HasUniqueKeys m
      → ((id : ℕ) (entity : Entity D) (payload : D)
          → get id m ≡ some entity
          → entity.payload ≡ some payload
          → check payload ≡ ok tt)
      → check_all check m ≡ ok tt
  unfolding check_all
  check_all_complete [] u h = refl
  check_all_complete ((j, other) ∷ m) u h =
      (then_ok (check_payload check other.payload) (check_all check m)).1 (
        elim (Option-cases other.payload) [
          | inl empty ↦ rw empty
          | inr (d, p) ↦ rw p (h j other d (get-head j other m) p)
        ],
        check_all_complete m u.1
            (λ id entity payload g. h id entity payload (get-tail j id other entity m u g)),
      )

-- Every reference of a stored entity to a server is set and resolves.
pub record ReferencesResolve (s : LocalConfigStore) : Type 0 where
  pub cron :
      (id : ℕ) (entity : Entity CronSchedulerData) (d : CronSchedulerData)
      → get id s.cron_schedulers.entities ≡ some entity
      → entity.payload ≡ some d
      → Resolves s.jobworkerp_servers.entities d.jobworkerp_server_id
  pub listen :
      (id : ℕ) (entity : Entity WorkerResultHandlerData) (d : WorkerResultHandlerData)
      → get id s.worker_result_handlers.entities ≡ some entity
      → entity.payload ≡ some d
      → Resolves s.jobworkerp_servers.entities d.listen_jobworkerp_server_id
  pub process :
      (id : ℕ) (entity : Entity WorkerResultHandlerData) (d : WorkerResultHandlerData)
      → get id s.worker_result_handlers.entities ≡ some entity
      → entity.payload ≡ some d
      → Resolves s.jobworkerp_servers.entities d.process_jobworkerp_server_id
  pub slack :
      (id : ℕ) (entity : Entity SlackEventHandlerData) (d : SlackEventHandlerData)
      → get id s.slack_event_handlers.entities ≡ some entity
      → entity.payload ≡ some d
      → Resolves s.jobworkerp_servers.entities d.jobworkerp_server_id

module _ (s : LocalConfigStore) (w : IsWellFormed s) where
  check_iff :
      (name : String) (o : Option JobworkerpServerId)
      → (check_server s.jobworkerp_servers.entities name o ≡ ok tt)
        ↔ Resolves s.jobworkerp_servers.entities o
  check_iff =
      check_server_iff s.jobworkerp_servers.entities w.server.unique_ids
        (λ j server g. (w.server.complete j server g).same_id)

  valid-ReferencesResolve : validate_consistency s ≡ ok tt → ReferencesResolve s
  unfolding validate_consistency
  valid-ReferencesResolve h =
      let servers = s.jobworkerp_servers.entities in
      let (a, bc) = (then_ok (check_all (check_cron servers) s.cron_schedulers.entities) _).0 h in
      let (b, c) =
        (then_ok (check_all (check_handler servers) s.worker_result_handlers.entities) _).0 bc in
      record {
        cron = λ id entity d g p.
            (check_iff d.name _).0
              (check_all_sound (check_cron servers) s.cron_schedulers.entities a id entity d g p);
        listen = λ id entity d g p.
            (check_iff d.name _).0
              ((then_ok _ _).0 (
                check_all_sound (check_handler servers) s.worker_result_handlers.entities b id
                  entity d g p)).0;
        process = λ id entity d g p.
            (check_iff d.name _).0
              ((then_ok _ _).0 (
                check_all_sound (check_handler servers) s.worker_result_handlers.entities b id
                  entity d g p)).1;
        slack = λ id entity d g p. (check_iff d.name _).0 (
            check_all_sound (check_slack servers) s.slack_event_handlers.entities c id entity d g
              p);
      }

  ReferencesResolve-valid : ReferencesResolve s → validate_consistency s ≡ ok tt
  unfolding validate_consistency
  ReferencesResolve-valid r = (then_ok _ _).1 (
    check_all_complete (check_cron s.jobworkerp_servers.entities) s.cron_schedulers.entities
        w.cron.unique_ids (λ id entity d g p. (check_iff d.name _).1 (r.cron id entity d g p)),
    (then_ok _ _).1 (
      check_all_complete (check_handler s.jobworkerp_servers.entities)
          s.worker_result_handlers.entities w.worker.unique_ids
          (λ id entity d g p. (then_ok _ _).1 (
            (check_iff d.name _).1 (r.listen id entity d g p),
            (check_iff d.name _).1 (r.process id entity d g p),
          )),
      check_all_complete (check_slack s.jobworkerp_servers.entities) s.slack_event_handlers.entities
          w.slack.unique_ids (λ id entity d g p. (check_iff d.name _).1 (r.slack id entity d g p)),
    ),
  )

-- For a well-formed store, `validate_consistency` succeeds exactly when the server id of every cron
-- scheduler and Slack handler, and both server ids of every worker-result handler, are set and are
-- found in the store.
pub validate_consistency_iff :
    (s : LocalConfigStore) → IsWellFormed s → (validate_consistency s ≡ ok tt) ↔ ReferencesResolve s
validate_consistency_iff s w = (valid-ReferencesResolve s w, ReferencesResolve-valid s w)
