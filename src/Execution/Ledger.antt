-- ===== src/Execution/Ledger.antt =====
-- The table `execution_ref` (api/infra/src/infra/execution_ref/rdb.rs) by its primary key, and the
-- statements that write it. A statement that the database refuses leaves the table as it was and is
-- not written out. Listing and counting are not modelled.
pub mod Cancelled
pub mod Chunks
use jobworkerp_conductor.Prelude.{
  ℕ, String, ◌≡◌, Bool, true, false, not, Option, none, some, List, [], ◌∷◌, Result, ok, err, ◌>>=◌,
  ok_or, if◌then◌else◌, ◌==◌, ◌&&◌, ◌+◌, ltb, ℕ-HasEq, option_eq, zero, suc, length, is_some,
}
use jobworkerp_conductor.HashMap.{HashMap, get, insert, remove, contains_key}
use jobworkerp_conductor.Proto.{JobworkerpServerId}

abbrev pub ExecutionRefId : Type 0
ExecutionRefId = ℕ

pub record ExecutionRef : Type 0 where
  pub id : Option ExecutionRefId
  pub source_type : ℕ
  pub source_id : ℕ
  pub source_name : String
  pub jobworkerp_server_id : Option JobworkerpServerId
  pub job_id : Option ℕ
  pub triggered_at : ℕ
  pub trigger_context_json : Option String
  pub enqueue_error : Option String
  pub created_at : ℕ
  pub result_status : Option ℕ

-- The rows, as `to_proto` reads them.
abbrev pub Ledger : Type 0
Ledger = HashMap ExecutionRefId ExecutionRef

abbrev pub result_status_cancelled : ℕ
result_status_cancelled = 6

pub data LedgerError : Type 0 where
  server_id_required cannot_insert : LedgerError

-- `if t > 0 { t } else { now }`
abbrev pub positive_or : ℕ → ℕ → ℕ
positive_or now t = if ltb 0 t then t else now

abbrev pub new_row : ℕ → ExecutionRefId → JobworkerpServerId → ExecutionRef → ExecutionRef
new_row now id server_id r = record r {
  id = some id;
  jobworkerp_server_id = some server_id;
  created_at = positive_or now r.created_at;
  triggered_at = positive_or (positive_or now r.created_at) r.triggered_at;
}

-- `create`: `id` comes from the id generator; a key that is taken is refused.
unfoldable pub create_row :
    ℕ
    → ExecutionRefId
    → ExecutionRef
    → Option JobworkerpServerId
    → Ledger
    → Result LedgerError ExecutionRefId × Ledger
create_row now id r none t = (err server_id_required, t)
create_row now id r (some server_id) t =
    if contains_key t id
    then (err cannot_insert, t)
    else (ok id, insert id (new_row now id server_id r) t)

unfoldable pub create :
    ℕ → ExecutionRefId → ExecutionRef → Ledger → Result LedgerError ExecutionRefId × Ledger
unfolding create_row
create now id r t = create_row now id r r.jobworkerp_server_id t

-- `UPDATE … WHERE id = ?`, for the row that a lookup found.
unfoldable pub update_row :
    ExecutionRefId → (ExecutionRef → ExecutionRef) → Option ExecutionRef → Ledger → Ledger
update_row id change none t = t
update_row id change (some row) t = insert id (change row) t

abbrev pub is_cancelled : ExecutionRef → Bool
is_cancelled row = option_eq row.result_status (some result_status_cancelled)

-- The `WHERE` of `update_result` spares a cancelled row.
abbrev pub set_result : Option ℕ → ℕ → ExecutionRef → ExecutionRef
set_result job_id status row =
    if is_cancelled row then row else record row { job_id = job_id; result_status = some status }

unfoldable pub update_result : ExecutionRefId → Option ℕ → ℕ → Ledger → Ledger
unfolding update_row
update_result id job_id status t = update_row id (set_result job_id status) (get id t) t

unfoldable pub update_job_id : ExecutionRefId → ℕ → Ledger → Ledger
unfolding update_row
update_job_id id job_id t = update_row id (λ row. record row { job_id = some job_id }) (get id t) t

unfoldable pub update_enqueue_error : ExecutionRefId → String → Ledger → Ledger
unfolding update_row
update_enqueue_error id error t =
    update_row id (λ row. record row { enqueue_error = some error }) (get id t) t

unfoldable pub find : ExecutionRefId → Ledger → Option ExecutionRef
find id t = get id t

-- Whether a row was removed, and the table after it.
unfoldable pub delete : ExecutionRefId → Ledger → Bool × Ledger
delete id t = (contains_key t id, remove id t)

-- `DELETE … WHERE id IN (…)`, with the number of rows removed.
unfoldable pub delete_in : List ExecutionRefId → Ledger → ℕ × Ledger
delete_in [] t = (0, t)
delete_in (id ∷ ids) t =
    let (n, t') = delete_in ids (remove id t) in ((if contains_key t id then 1 else 0) + n, t')

abbrev pub take_chunk : ℕ → List ExecutionRefId → List ExecutionRefId
take_chunk zero ids = []
take_chunk (suc n) [] = []
take_chunk (suc n) (id ∷ ids) = id ∷ take_chunk n ids

abbrev pub drop_chunk : ℕ → List ExecutionRefId → List ExecutionRefId
drop_chunk zero ids = ids
drop_chunk (suc n) [] = []
drop_chunk (suc n) (id ∷ ids) = drop_chunk n ids

-- The loop over `ids.chunks(CHUNK)`; one unit of fuel for each chunk.
unfoldable pub delete_chunks : (fuel chunk : ℕ) → List ExecutionRefId → Ledger → ℕ × Ledger
unfolding delete_in
delete_chunks zero chunk ids t = (0, t)
delete_chunks (suc fuel) chunk [] t = (0, t)
delete_chunks (suc fuel) chunk (id ∷ ids) t =
    let (n, t') = delete_in (take_chunk chunk (id ∷ ids)) t in
    let (k, t'') = delete_chunks fuel chunk (drop_chunk chunk (id ∷ ids)) t' in (n + k, t'')

unfoldable pub delete_by_ids : List ExecutionRefId → Ledger → ℕ × Ledger
unfolding delete_chunks
delete_by_ids ids t = delete_chunks (length ids) 900 ids t

abbrev pub of_source : ℕ → ℕ → ExecutionRef → Bool
of_source source_type source_id row = row.source_type == source_type && row.source_id == source_id

-- `DELETE … WHERE source_type = ? AND source_id = ?`
unfoldable pub delete_all_by_source : ℕ → ℕ → Ledger → ℕ × Ledger
delete_all_by_source source_type source_id [] = (0, [])
delete_all_by_source source_type source_id ((id, row) ∷ t) =
    let (n, rest) = delete_all_by_source source_type source_id t in
    if of_source source_type source_id row then (1 + n, rest) else (n, (id, row) ∷ rest)
