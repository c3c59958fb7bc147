-- ===== src/Admin/Service/Mirror.antt =====
-- The conductor that handles the published events holds the cron schedulers of the table: the service
-- and its database table are refined by the store that the events build.
use mathlib.Core.Option
use jobworkerp_conductor.Prelude.{
  ℕ, String, ◌≡◌, refl, sym, ap, ◌∙◌, Bool, true, Option, none, some, List, [], ◌∷◌, Result, ok,
  err, if◌then◌else◌, ◌==◌, ℕ-HasEq, String-HasEq, and_then, inl, inr, Bool-cases, nat_eq_iff,
  is_some,
}
use jobworkerp_conductor.HashMap.{get, insert, remove, get-insert, get-remove}
use jobworkerp_conductor.Proto.{CronScheduler, CronSchedulerData}
use jobworkerp_conductor.Store.{get_cron_scheduler}
use jobworkerp_conductor.Slack.Cache.{Patterns}
use jobworkerp_conductor.Conductor.Scheduler.{CronRuntime}
use jobworkerp_conductor.Conductor.Changes.{Conductor}
use jobworkerp_conductor.Execution.Target.{TargetError}
use jobworkerp_conductor.Admin.Rows.Cron.{CronSchedulerRow, cron_row, cron_to_proto}
use jobworkerp_conductor.Admin.Table.{DbError, Table, create, update, delete, find}
use jobworkerp_conductor.Admin.Table.Effects.{created-table, updated-table}
use jobworkerp_conductor.Admin.Table.Kinds.{cron_kind}
use jobworkerp_conductor.Admin.Service.{
  MemoryCache, Service, notify, after_create, create_valid, create_entity, after_update,
  update_valid, update_entity, after_delete, delete_entity,
}
use jobworkerp_conductor.Admin.Service.Conducted.{
  conduct_all, conducted-created, conducted-updated, conducted-deleted,
}
use jobworkerp_conductor.Admin.Service.Services.{cron_service}

module _ (runtime : CronRuntime) (patterns : Patterns) (connects : String → Bool)
    (display : ℕ → String) (now : ℕ) where
  module _ (memory : MemoryCache CronScheduler) where
    abbrev CronService : Type 0
    CronService = Service memory cron_service

    -- A call of the service, with the clock; for a creation, with the generated id.
    pub data Request : Type 0 where
      creating : ℕ → ℕ → CronSchedulerData → Request
      updating : ℕ → ℕ → Option CronSchedulerData → Request
      deleting : ℕ → ℕ → Request

    abbrev pub serve : Request → CronService → CronService
    serve (creating at id d) s = (create_entity memory cron_service at true id d s).1
    serve (updating at id d) s = (update_entity memory cron_service at true id d s).1
    serve (deleting at id) s = (delete_entity memory cron_service at true id s).1

    abbrev pub serve_all : List Request → CronService → CronService
    serve_all [] s = s
    serve_all (r ∷ rest) s = serve_all rest (serve r s)

    -- An update is of a row that is there.
    abbrev pub IsKnown : Request → CronService → Type 0
    IsKnown (creating at id d) s = Unit
    IsKnown (updating at id d) s = (row : CronSchedulerRow) × (get id s.table ≡ some row)
    IsKnown (deleting at id) s = Unit

    abbrev pub AllKnown : List Request → CronService → Type 0
    AllKnown [] s = Unit
    AllKnown (r ∷ rest) s = IsKnown r s × AllKnown rest (serve r s)

    -- The row that an entity of the store would have.
    abbrev pub stored_row : ℕ → Option CronScheduler → Option CronSchedulerRow
    stored_row id none = none
    stored_row id (some scheduler) = and_then scheduler.payload (cron_row id)

    -- Under every id the table has the row of what the store has.
    abbrev pub Mirrors : Conductor runtime patterns connects → Table cron_kind → Type 0
    Mirrors c t = (id : ℕ) → stored_row id (get_cron_scheduler id c.store) ≡ get id t

    put-mirrored :
        (i id j : ℕ) (d : CronSchedulerData) (row : CronSchedulerRow) (g : Option CronScheduler)
        (t t' : Table cron_kind)
        → i ≡ id
        → cron_row id d ≡ some row
        → insert id row t ≡ t'
        → stored_row j g ≡ get j t
        → stored_row j (if i == j then some (record { id = some i; payload = some d }) else g)
          ≡ get j t'
    put-mirrored i id j d row g t t' e r put same = elim (Bool-cases (id == j)) [
      | inl here ↦
          rw (e, here)
            (ap (λ k. cron_row k d) (sym ((nat_eq_iff id j).0 here))
              ∙ r
              ∙ sym (ap (λ b. if b then some row else get j t) here)
              ∙ sym (get-insert id j row t)
              ∙ ap (get j) put)
      | inr there ↦
          rw (e, there)
            (same
              ∙ sym (ap (λ b. if b then some row else get j t) there)
              ∙ sym (get-insert id j row t)
              ∙ ap (get j) put)
    ]

    removed-mirrored :
        (id j : ℕ) (g : Option CronScheduler) (t : Table cron_kind)
        → stored_row j g ≡ get j t
        → stored_row j (if id == j then none else g) ≡ get j (remove id t)
    removed-mirrored id j g t same = elim (Bool-cases (id == j)) [
      | inl here ↦ rw (get-remove, here) refl
      | inr there ↦ rw (get-remove, there) same
    ]

    module _ (c : Conductor runtime patterns connects) where
      -- The conductor has handled what the service has published, and mirrors its table.
      abbrev pub ServiceMirrors : CronService → Type 0
      ServiceMirrors s =
          Mirrors (conduct_all runtime patterns connects display now s.published c) s.table

      created-Mirrors :
          (at id : ℕ) (d : CronSchedulerData) (s : CronService)
          (r : Result DbError ℕ × Table cron_kind)
          → create cron_kind id d s.table ≡ r
          → ServiceMirrors s
          → ServiceMirrors (after_create memory cron_service at true d s r).1
      unfolding after_create notify
      created-Mirrors at id d s (err e, t) h m = m
      created-Mirrors at id d s (ok i, t) h m = λ j.
          let made = created-table cron_kind id i d s.table t h in
          ap (stored_row j) (
            conducted-created runtime patterns connects display now at d.name i j d
              (conduct_all runtime patterns connects display now s.published c))
          ∙ put-mirrored i id j d made.0
              (get_cron_scheduler j
                (conduct_all runtime patterns connects display now s.published c).store)
              s.table t made.2 made.1 made.3 (m j)

      updated-Mirrors :
          (at id : ℕ) (d : CronSchedulerData) (s : CronService)
          (r : Result DbError Bool × Table cron_kind) (old : CronSchedulerRow)
          → get id s.table ≡ some old
          → update cron_kind id d s.table ≡ r
          → ServiceMirrors s
          → ServiceMirrors (after_update memory cron_service at true id d s r).1
      unfolding after_update notify
      updated-Mirrors at id d s (err e, t) old known h m = m
      updated-Mirrors at id d s (ok touched, t) old known h m = λ j.
          let made = updated-table cron_kind id d touched s.table t old known h in
          ap (stored_row j) (
            conducted-updated runtime patterns connects display now at d.name id j d
              (conduct_all runtime patterns connects display now s.published c))
          ∙ put-mirrored id id j d made.0
              (get_cron_scheduler j
                (conduct_all runtime patterns connects display now s.published c).store)
              s.table t refl made.1 made.2 (m j)

      -- No row, no entity: a deletion that finds nothing changes nothing.
      deleted-Mirrors :
          (at id : ℕ) (s : CronService) (o : Option CronSchedulerRow)
          → get id s.table ≡ o
          → ServiceMirrors s
          → ServiceMirrors
              (after_delete memory cron_service at true id
                (Option.map cron_to_proto o)
                s
                (is_some o, remove id s.table)).1
      unfolding after_delete notify cron_to_proto
      deleted-Mirrors at id s none h m = m
      deleted-Mirrors at id s (some row) h m = λ j.
          ap (stored_row j) (
            conducted-deleted runtime patterns connects display now at row.name id j
              (conduct_all runtime patterns connects display now s.published c))
          ∙ removed-mirrored id j
              (get_cron_scheduler j
                (conduct_all runtime patterns connects display now s.published c).store)
              s.table (m j)

      created_valid-Mirrors :
          (at id : ℕ) (d : CronSchedulerData) (s : CronService) (v : Result TargetError (Unit {0}))
          → ServiceMirrors s
          → ServiceMirrors (create_valid memory cron_service at true id d s v).1
      unfolding create_valid
      created_valid-Mirrors at id d s (err e) m = m
      created_valid-Mirrors at id d s (ok u) m = created-Mirrors at id d s _ refl m

      updated_valid-Mirrors :
          (at id : ℕ) (d : CronSchedulerData) (s : CronService) (v : Result TargetError (Unit {0}))
          → IsKnown (updating at id (some d)) s
          → ServiceMirrors s
          → ServiceMirrors (update_valid memory cron_service at true id d s v).1
      unfolding update_valid
      updated_valid-Mirrors at id d s (err e) known m = m
      updated_valid-Mirrors at id d s (ok u) known m =
          updated-Mirrors at id d s _ known.0 known.1 refl m

      serve-Mirrors :
          (r : Request) (s : CronService)
          → IsKnown r s
          → ServiceMirrors s
          → ServiceMirrors (serve r s)
      unfolding create_entity update_entity delete_entity delete find
      serve-Mirrors (creating at id d) s known m = created_valid-Mirrors at id d s _ m
      serve-Mirrors (updating at id none) s known m = m
      serve-Mirrors (updating at id (some d)) s known m = updated_valid-Mirrors at id d s _ known m
      serve-Mirrors (deleting at id) s known m = deleted-Mirrors at id s (get id s.table) refl m

      -- If the conductor mirrors the table when the service starts, it does so after any requests,
      -- refused ones too, once it has handled the published events in their order: under every id the
      -- table has the row of the scheduler that the conductor's store has, and no row where the store
      -- has none. Every event is delivered, and an update is of a row that is there.
      pub serve_all-Mirrors :
          (requests : List Request) (s : CronService)
          → AllKnown requests s
          → ServiceMirrors s
          → ServiceMirrors (serve_all requests s)
      serve_all-Mirrors [] s known m = m
      serve_all-Mirrors (r ∷ rest) s known m =
          serve_all-Mirrors rest (serve r s) known.1 (serve-Mirrors r s known.0 m)
