-- ===== src/Admin/Transfer/Sound.antt =====
-- After an import every scheduler and every result handler has its servers and a target.
use mathlib.Core.Path.{subst}
use jobworkerp_conductor.Prelude.{
  ℕ, String, ◌≡◌, refl, sym, ap, ◌∙◌, arith, true, false, not, ◌||◌, ◌&&◌, some, List, [], ◌∷◌,
  Result, ok, err, ◌==◌, ◌⊎◌, inl, inr, Bool-cases, ℕ-HasEq, String-HasEq, nat_eq_iff,
}
use jobworkerp_conductor.HashMap.{HashMap, get, insert, get-insert}
use jobworkerp_conductor.Execution.Target.{is_empty}
use jobworkerp_conductor.Admin.Rows.Cron.{CronSchedulerRow}
use jobworkerp_conductor.Admin.Rows.Handler.{WorkerResultHandlerRow}
use jobworkerp_conductor.Admin.Rows.Server.{JobworkerpServerRow}
use jobworkerp_conductor.Admin.Rows.Targets.{Columns, worker_mode}
use jobworkerp_conductor.Admin.Table.{Kind, DbError, Table, insert_row}
use jobworkerp_conductor.Admin.Table.Effects.{inserted-table}
use jobworkerp_conductor.Admin.Table.Kinds.{server_kind}
use jobworkerp_conductor.Admin.Transfer.{WorkflowSettingItem, Database, validate_items}
use jobworkerp_conductor.Admin.Transfer.Import.{
  scheduler_columns, listener_columns, inserted, server_map,
}

-- The server is there.
abbrev pub HasServer : Table server_kind → ℕ → Type 0
HasServer servers id = (row : JobworkerpServerRow) × (get id servers ≡ some row)

-- A worker's name or a workflow's URL is set.
abbrev pub HasTarget : Columns → Type 0
HasTarget c = (worker_mode c.worker_name || not (is_empty c.workflow_url)) ≡ true

abbrev pub CronIsSound : Table server_kind → CronSchedulerRow → Type 0
CronIsSound servers row = HasServer servers row.jobworkerp_server_id × HasTarget row.target

abbrev pub HandlerIsSound : Table server_kind → WorkerResultHandlerRow → Type 0
HandlerIsSound servers row =
    HasServer servers row.listen_jobworkerp_server_id
    × HasServer servers row.process_jobworkerp_server_id
    × HasTarget row.target

-- Every row of a table satisfies `P`.
abbrev pub AllRows : {R : Type 0} → (R → Type 0) → HashMap ℕ R → Type 0
AllRows P t = (id : ℕ) (row : _) → get id t ≡ some row → P row

-- Every row refers to servers that are there, and has a target.
abbrev pub IsSound : Database → Type 0
IsSound db =
    AllRows (CronIsSound db.servers) db.crons × AllRows (HandlerIsSound db.servers) db.handlers

-- The servers of one table are still there in another.
abbrev pub Grows : Table server_kind → Table server_kind → Type 0
Grows t t' = (id : ℕ) → HasServer t id → HasServer t' id

pub insert-AllRows :
    {R : Type 0} (P : R → Type 0) (k : ℕ) (new : R) (t : HashMap ℕ R)
    → P new
    → AllRows P t
    → AllRows P (insert k new t)
insert-AllRows P k new t p all id row g = elim (Bool-cases (k == id)) [
  | inl here ↦
      let same : some new ≡ some row = rw (get-insert, here) at g in
      let e : new ≡ row = cc same in subst P e p
  | inr there ↦ all id row (rw (get-insert, there) at g)
]

-- An INSERT that succeeds has put its row into the table.
pub inserted-put :
    {D R : Type 0} (kind : Kind D R) (id : ℕ) (t t' : Table kind) (row : R)
    (r : Result DbError ℕ × Table kind)
    → insert_row kind id t (some row) ≡ r
    → inserted r ≡ ok t'
    → insert id row t ≡ t'
unfolding inserted
inserted-put kind id t t' row (ok i, u) e h =
    let put = inserted-table kind id i t u (some row) e in
    let same : put.0 ≡ row = cc put.1 in
    let out : u ≡ t' = cc h in ap (λ x. insert id x t) (sym same) ∙ put.3 ∙ out
inserted-put kind id t t' row (err e', u) e h = cc h

pub insert-Grows :
    (k : ℕ) (new : JobworkerpServerRow) (t : Table server_kind) → Grows t (insert k new t)
insert-Grows k new t id s = elim (Bool-cases (k == id)) [
  | inl here ↦ (new, rw (get-insert, here) refl)
  | inr there ↦ (s.0, rw (get-insert, there) s.1)
]

-- Every id of the map is that of a server.
pub server_map-HasServer :
    (t : Table server_kind) (m : HashMap String ℕ) (name : String) (id : ℕ)
    → get name (server_map t m) ≡ some id
    → HasServer t id ⊎ (get name m ≡ some id)
unfolding server_map get
server_map-HasServer [] m name id h = inr h
server_map-HasServer ((j, row) ∷ t) m name id h =
    elim (server_map-HasServer t (insert row.name j m) name id h) [
      | inl s ↦ inl (elim (Bool-cases (j == id)) [
        | inl here ↦ (row, rw here refl)
        | inr there ↦ (s.0, rw there s.1)
      ])
      | inr g ↦ elim (Bool-cases (row.name == name)) [
        | inl same ↦
            let e : some j ≡ some id = rw (get-insert, same) at g in
            let ids : j ≡ id = cc e in inl (row, rw ((nat_eq_iff j id).1 ids) refl)
        | inr other ↦ inr (rw (get-insert, other) at g)
      ]
    ]

pub scheduler_columns-HasTarget :
    (item : WorkflowSettingItem)
    → (not (worker_mode item.worker_name) && is_empty item.workflow_url) ≡ false
    → HasTarget (scheduler_columns item)
unfolding scheduler_columns
scheduler_columns-HasTarget item h = ground (arith, h)

pub listener_columns-HasTarget :
    (item : WorkflowSettingItem)
    → (not (worker_mode item.worker_name) && is_empty item.workflow_url) ≡ false
    → HasTarget (listener_columns item)
unfolding listener_columns
listener_columns-HasTarget item h = ground (arith, h)

-- The first item has a target, and so have the others.
pub valid_items :
    (item : WorkflowSettingItem) (rest : List WorkflowSettingItem)
    → validate_items (item ∷ rest) ≡ ok tt
    → ((not (worker_mode item.worker_name) && is_empty item.workflow_url) ≡ false)
      × (validate_items rest ≡ ok tt)
unfolding validate_items
valid_items item rest h =
    elim (Bool-cases (not (worker_mode item.worker_name) && is_empty item.workflow_url)) [
      | inl bad ↦ cc (rw bad at h)
      | inr good ↦ (good, rw good at h)
    ]
