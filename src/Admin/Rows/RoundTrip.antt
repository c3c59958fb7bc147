-- ===== src/Admin/Rows/RoundTrip.antt =====
-- A cron scheduler that is written to its row and read back.
use mathlib.Core.Option
use mathlib.Core.Path.{subst}
use jobworkerp_conductor.Prelude.{
  ℕ, String, ◌≡◌, refl, arith, Option, none, some, ok, String-HasEq, Bool-cases, inl, inr, ap,
}
use jobworkerp_conductor.Proto.{ExecutionTarget, workflow, worker, CronSchedulerData}
use jobworkerp_conductor.Execution.Target.{
  ResolvedTarget, worker_target, workflow_target, is_empty, non_empty, from_cron_target,
  validate_execution_target,
}
use jobworkerp_conductor.Admin.Rows.Targets.{target_of_columns, flatten_execution_target}
use jobworkerp_conductor.Admin.Rows.Cron.{CronSchedulerRow, cron_row, cron_to_proto}

-- An empty channel, and an empty name of what a worker uses, count as none.
abbrev pub normal : Option ResolvedTarget → Option ResolvedTarget
normal none = none
normal (some (worker_target name using)) = some (worker_target name (non_empty using))
normal (some (workflow_target url channel)) = some (workflow_target url (non_empty channel))

pub non_empty-twice : (o : Option String) → non_empty (non_empty o) ≡ non_empty o
non_empty-twice none = refl
non_empty-twice (some s) = ground arith

-- Columns that were read are written again as they are.
flatten-read :
    (target : Option ExecutionTarget) (url : String) (channel : Option String)
    → validate_execution_target target url ≡ ok tt
    → (let c = flatten_execution_target target url channel in
        flatten_execution_target (target_of_columns c) c.workflow_url c.channel ≡ c)
unfolding target_of_columns flatten_execution_target validate_execution_target
flatten-read (some (workflow wf)) url channel v = elim (Bool-cases (is_empty wf.workflow_url)) [
  | inl e ↦ cc (rw e at v)
  | inr e ↦ rw e refl
]
flatten-read (some (worker w)) url channel v = elim (Bool-cases (is_empty w.worker_name)) [
  | inl e ↦ cc (rw e at v)
  | inr e ↦ rw e (
      ap
        (λ u. record {
          workflow_url = "";
          channel = none;
          worker_name = some w.worker_name;
          using = u;
        })
        (non_empty-twice w.using))
]
flatten-read none url channel v = elim (Bool-cases (is_empty url)) [
  | inl e ↦ cc (rw e at v)
  | inr e ↦ rw e refl
]

resolve-read :
    (target : Option ExecutionTarget) (url : String) (channel : Option String)
    → validate_execution_target target url ≡ ok tt
    → (let c = flatten_execution_target target url channel in
        normal (from_cron_target (target_of_columns c) c.workflow_url c.channel)
        ≡ normal (from_cron_target target url channel))
unfolding target_of_columns flatten_execution_target from_cron_target validate_execution_target
resolve-read (some (workflow wf)) url channel v = ground arith
resolve-read (some (worker w)) url channel v = ground (arith, non_empty-twice w.using)
resolve-read none url channel v = ground (arith, non_empty-twice channel)

-- What `to_proto` gives of the row: the data with its target and the two deprecated fields read from
-- the columns, which are written again as they are and resolve to the same target.
abbrev pub CronReadsBack : ℕ → CronSchedulerData → CronSchedulerRow → Type 0
CronReadsBack id d row =
    (d' : CronSchedulerData) × (cron_to_proto row ≡ record { id = some id; payload = some d' })
    × (cron_row id d' ≡ some row)
    × (normal (from_cron_target d'.execution_target d'.workflow_url d'.channel)
        ≡ normal (from_cron_target d.execution_target d.workflow_url d.channel))
    × (record d' {
      workflow_url = d.workflow_url;
      channel = d.channel;
      execution_target = d.execution_target;
    }
        ≡ d)

abbrev cron_columns : ℕ → CronSchedulerData → ℕ → CronSchedulerRow
cron_columns id d server_id = record {
  id = id;
  name = d.name;
  jobworkerp_server_id = server_id;
  target = flatten_execution_target d.execution_target d.workflow_url d.channel;
  crontab = d.crontab;
  enabled = d.enabled;
  description = d.description;
  created_at = d.created_at;
  updated_at = d.updated_at;
  args = d.args;
}

cron_columns-ReadsBack :
    (id : ℕ) (d : CronSchedulerData) (server_id : ℕ)
    → validate_execution_target d.execution_target d.workflow_url ≡ ok tt
    → some server_id ≡ d.jobworkerp_server_id
    → CronReadsBack id d (cron_columns id d server_id)
unfolding cron_to_proto cron_row
cron_columns-ReadsBack id d server_id v e = (
  _,
  refl,
  ap (λ t. some (record (cron_columns id d server_id) { target = t }))
      (flatten-read d.execution_target d.workflow_url d.channel v),
  resolve-read d.execution_target d.workflow_url d.channel v,
  ap (λ o. record d { jobworkerp_server_id = o }) e,
)

cron_row-of :
    (id : ℕ) (d : CronSchedulerData) (row : CronSchedulerRow) (o : Option ℕ)
    → o ≡ d.jobworkerp_server_id
    → Option.map (cron_columns id d) o ≡ some row
    → validate_execution_target d.execution_target d.workflow_url ≡ ok tt
    → CronReadsBack id d row
cron_row-of id d row none e h v = cc h
cron_row-of id d row (some server_id) e h v =
    let same : cron_columns id d server_id ≡ row = cc h in
    subst (CronReadsBack id d) same (cron_columns-ReadsBack id d server_id v e)

-- A cron scheduler whose target is valid is read back from its row with every field as it was but
-- the target and the deprecated fields, which resolve to the same target up to empty channels and
-- empty names of what a worker uses; and what was read is written again to the same row.
pub cron_row-reads_back :
    (id : ℕ) (d : CronSchedulerData) (row : CronSchedulerRow)
    → validate_execution_target d.execution_target d.workflow_url ≡ ok tt
    → cron_row id d ≡ some row
    → CronReadsBack id d row
cron_row-reads_back id d row v h =
    cron_row-of id d row d.jobworkerp_server_id refl (unfold cron_row in h) v
