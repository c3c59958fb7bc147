-- ===== src/Execution/Ledger/Cancelled.antt =====
-- A cancelled execution stays cancelled, in whatever order the writers come.
use mathlib.Core.Path.{subst}
use jobworkerp_conductor.Prelude.{
  ℕ, String, ◌≡◌, refl, sym, ap, ◌∙◌, inl, inr, arith, Bool, true, false, Option, none, some,
  if◌then◌else◌, ◌==◌, ℕ-HasEq, nat_eq_iff, Bool-cases,
}
use jobworkerp_conductor.HashMap.{get, get-insert, get-insert_same, contains_key}
use jobworkerp_conductor.Proto.{JobworkerpServerId}
use jobworkerp_conductor.Execution.Ledger.{
  ExecutionRef, ExecutionRefId, Ledger, result_status_cancelled, create_row, create, update_row,
  is_cancelled, set_result, update_result, update_job_id, update_enqueue_error, find,
}

-- One statement of one writer; another row's statements are among them.
pub data Write : Ledger → Ledger → Type 0 where
  row_created :
      (now : ℕ) (id : ExecutionRefId) (r : ExecutionRef) (t : Ledger)
      → Write t (create now id r t).1
  result_updated :
      (id : ExecutionRefId) (job_id : Option ℕ) (status : ℕ) (t : Ledger)
      → Write t (update_result id job_id status t)
  job_id_updated :
      (id : ExecutionRefId) (job_id : ℕ) (t : Ledger) → Write t (update_job_id id job_id t)
  enqueue_error_updated :
      (id : ExecutionRefId) (error : String) (t : Ledger)
      → Write t (update_enqueue_error id error t)

pub data Writes : Ledger → Ledger → Type 0 where
  written : (t : Ledger) → Writes t t
  then_write : (t t' t'' : Ledger) → Writes t t' → Write t' t'' → Writes t t''

-- The row is there, and is cancelled.
abbrev pub IsCancelled : ExecutionRefId → Ledger → Type 0
IsCancelled id t =
    (row : ExecutionRef) × (find id t ≡ some row)
    × (row.result_status ≡ some result_status_cancelled)

module _ (id : ExecutionRefId) where
  update_row-IsCancelled :
      (k : ExecutionRefId) (change : ExecutionRef → ExecutionRef) (o : Option ExecutionRef)
      (t : Ledger)
      → get k t ≡ o
      → ((row : ExecutionRef)
          → row.result_status ≡ some result_status_cancelled
          → (change row).result_status ≡ some result_status_cancelled)
      → IsCancelled id t
      → IsCancelled id (update_row k change o t)
  unfolding update_row find
  update_row-IsCancelled k change none t g keeps c = c
  update_row-IsCancelled k change (some row) t g keeps (mine, found, cancelled) =
      elim (Bool-cases (k == id)) [
        | inl same ↦
            let ids : k ≡ id = (nat_eq_iff k id).0 same in
            let mine_found : get k t ≡ some mine = rw ids found in
            let rows : some mine ≡ some row = sym mine_found ∙ g in
            let rows' : mine ≡ row = cc rows in
            (
              change row,
              rw (get-insert, same) refl,
              keeps row (ap (λ r. r.result_status) (sym rows') ∙ cancelled),
            )
        | inr other ↦ (mine, rw (get-insert, other) found, cancelled)
      ]

  create_row-IsCancelled :
      (now : ℕ) (k : ExecutionRefId) (r : ExecutionRef) (o : Option JobworkerpServerId) (t : Ledger)
      → IsCancelled id t
      → IsCancelled id (create_row now k r o t).1
  unfolding create_row find
  create_row-IsCancelled now k r none t c = c
  create_row-IsCancelled now k r (some s) t (mine, found, cancelled) =
      elim (Bool-cases (contains_key t k)) [
        | inl taken ↦ rw taken (mine, found, cancelled)
        | inr free ↦ elim (Bool-cases (k == id)) [
          | inl same ↦
              let ids : k ≡ id = (nat_eq_iff k id).0 same in
              let there : contains_key t k ≡ true = rw (ids, found) refl in
              let clash : true ≡ false = sym there ∙ free in cc clash
          | inr other ↦ rw free (mine, rw (get-insert, other) found, cancelled)
        ]
      ]

  set_result-cancelled :
      (job_id : Option ℕ) (status : ℕ) (row : ExecutionRef)
      → row.result_status ≡ some result_status_cancelled
      → (set_result job_id status row).result_status ≡ some result_status_cancelled
  set_result-cancelled job_id status row c =
      let yes : is_cancelled row ≡ true = rw c refl in
      ap
        (λ b.
          (if b
            then row
            else record row { job_id = job_id; result_status = some status }).result_status)
        yes
      ∙ c

  Write-IsCancelled : (t t' : Ledger) → Write t t' → IsCancelled id t → IsCancelled id t'
  unfolding create update_result update_job_id update_enqueue_error
  Write-IsCancelled t _ (row_created now k r _) c =
      create_row-IsCancelled now k r r.jobworkerp_server_id t c
  Write-IsCancelled t _ (result_updated k job_id status _) c =
      update_row-IsCancelled k _ (get k t) t refl (set_result-cancelled job_id status) c
  Write-IsCancelled t _ (job_id_updated k job_id _) c =
      update_row-IsCancelled k _ (get k t) t refl (λ row h. h) c
  Write-IsCancelled t _ (enqueue_error_updated k error _) c =
      update_row-IsCancelled k _ (get k t) t refl (λ row h. h) c

  Writes-IsCancelled : (t t' : Ledger) → Writes t t' → IsCancelled id t → IsCancelled id t'
  Writes-IsCancelled t _ (written _) c = c
  Writes-IsCancelled t _ (then_write _ t' t'' before w) c =
      Write-IsCancelled t' t'' w (Writes-IsCancelled t t' before c)

  cancels :
      (job_id : Option ℕ) (row : ExecutionRef) (b : Bool)
      → is_cancelled row ≡ b
      → (set_result job_id result_status_cancelled row).result_status ≡ some result_status_cancelled
  cancels job_id row true h = ground (arith, h)
  cancels job_id row false h = ground (arith, h)

  cancel_row-IsCancelled :
      (job_id : Option ℕ) (row : ExecutionRef) (t : Ledger)
      → get id t ≡ some row
      → IsCancelled id (update_result id job_id result_status_cancelled t)
  unfolding update_result update_row find
  cancel_row-IsCancelled job_id row t g =
      subst (λ o. IsCancelled id (update_row id (set_result job_id result_status_cancelled) o t))
        (sym g) (_, get-insert_same id _ t, cancels job_id row (is_cancelled row) refl)

-- Once the cancellation of an execution that has a row is recorded, the row stays and stays
-- cancelled, whatever writers follow and in whatever order: late results, job ids, enqueue errors and
-- rows of other executions.
pub update_result-IsCancelled :
    (id : ExecutionRefId) (job_id : Option ℕ) (row : ExecutionRef) (t t' : Ledger)
    → find id t ≡ some row
    → Writes (update_result id job_id result_status_cancelled t) t'
    → IsCancelled id t'
unfolding find
update_result-IsCancelled id job_id row t t' found later =
    Writes-IsCancelled id _ t' later (cancel_row-IsCancelled id job_id row t found)
