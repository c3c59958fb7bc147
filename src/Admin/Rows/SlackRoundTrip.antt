-- ===== src/Admin/Rows/SlackRoundTrip.antt =====
-- A Slack event handler that is written to its row and read back.
use mathlib.Core.Option
use mathlib.Core.Path.{subst}
use jobworkerp_conductor.Prelude.{
  ℕ, zero, suc, String, ◌≡◌, refl, arith, Option, none, some, ok, String-HasEq, and_then,
  Bool-cases, inl, inr, ap, ◌∙◌,
}
use jobworkerp_conductor.Proto.{ExecutionTarget, workflow, worker, SlackEventHandlerData}
use jobworkerp_conductor.Execution.Target.{
  workflow_target, is_empty, non_empty, resolve_slack, validate_execution_target,
}
use jobworkerp_conductor.Admin.Rows.Targets.{or_default, target_of_columns, flatten_slack_target}
use jobworkerp_conductor.Admin.Rows.Slack.{
  SlackEventHandlerRow, slack_row, slack_to_proto, with_channel, reaction_operation_to_db,
  reaction_operation_from_db,
}
use jobworkerp_conductor.Slack.Matcher.{ReactionOperation, reaction_operation_of}
use jobworkerp_conductor.Admin.Rows.RoundTrip.{normal, non_empty-twice}

default_read : (o : Option String) → non_empty (some (or_default o)) ≡ non_empty o
default_read none = refl
default_read (some s) = refl

slack_flatten-read :
    (target : Option ExecutionTarget) (url channel : String)
    → validate_execution_target target url ≡ ok tt
    → (let c = with_channel (flatten_slack_target target url channel) in
        with_channel
          (flatten_slack_target (target_of_columns c) c.workflow_url (or_default c.channel))
        ≡ c)
unfolding target_of_columns flatten_slack_target validate_execution_target
slack_flatten-read (some (workflow wf)) url channel v =
    elim (Bool-cases (is_empty wf.workflow_url)) [ inl e ↦ cc (rw e at v) | inr e ↦ rw e refl ]
slack_flatten-read (some (worker w)) url channel v = elim (Bool-cases (is_empty w.worker_name)) [
  | inl e ↦ cc (rw e at v)
  | inr e ↦ rw e (
      ap
        (λ u. record {
          workflow_url = "";
          channel = some "";
          worker_name = some w.worker_name;
          using = u;
        })
        (non_empty-twice w.using))
]
slack_flatten-read none url channel v = elim (Bool-cases (is_empty url)) [
  | inl e ↦ cc (rw e at v)
  | inr e ↦ rw e refl
]

slack_resolve-read :
    (target : Option ExecutionTarget) (url channel : String)
    → validate_execution_target target url ≡ ok tt
    → (let c = with_channel (flatten_slack_target target url channel) in
        normal (resolve_slack (target_of_columns c) c.workflow_url (or_default c.channel))
        ≡ normal (resolve_slack target url channel))
unfolding target_of_columns flatten_slack_target resolve_slack validate_execution_target
slack_resolve-read (some (workflow wf)) url channel v =
    elim (Bool-cases (is_empty wf.workflow_url)) [
      | inl e ↦ cc (rw e at v)
      | inr e ↦ rw e (ap (λ c. some (workflow_target wf.workflow_url c)) (default_read wf.channel))
    ]
slack_resolve-read (some (worker w)) url channel v = ground (arith, non_empty-twice w.using)
slack_resolve-read none url channel v = ground arith

-- Every operation that the enum has is read back from its name.
operation-read :
    (op : ℕ) (operation : ReactionOperation)
    → reaction_operation_of op ≡ some operation
    → reaction_operation_from_db (reaction_operation_to_db op) ≡ op
unfolding reaction_operation_from_db reaction_operation_to_db
operation-read zero operation h = refl
operation-read (suc zero) operation h = refl
operation-read (suc (suc zero)) operation h = refl
operation-read (suc (suc (suc zero))) operation h = refl
operation-read (suc (suc (suc (suc n)))) operation h = cc h

abbrev slack_columns : ℕ → SlackEventHandlerData → ℕ → ℕ → SlackEventHandlerRow
slack_columns id d server_id timeout = record {
  id = id;
  name = d.name;
  description = some d.description;
  enabled = d.enabled;
  slack_channel_id = d.slack_channel_id;
  message_pattern = d.message_pattern;
  mention_required = d.mention_required;
  reaction_names = d.reaction_names;
  reaction_operation = reaction_operation_to_db d.reaction_operation;
  reaction_user_filter = d.reaction_user_filter;
  jobworkerp_server_id = server_id;
  target = with_channel (flatten_slack_target d.execution_target d.workflow_url d.channel);
  timeout_sec = timeout;
  args = d.args;
  created_at = d.created_at;
  updated_at = d.updated_at;
}

abbrev pub SlackReadsBack : ℕ → SlackEventHandlerData → SlackEventHandlerRow → Type 0
SlackReadsBack id d row =
    (d' : SlackEventHandlerData) × (slack_to_proto row ≡ record { id = some id; payload = some d' })
    × (slack_row id d' ≡ some row)
    × (normal (resolve_slack d'.execution_target d'.workflow_url d'.channel)
        ≡ normal (resolve_slack d.execution_target d.workflow_url d.channel))
    × (record d' {
      workflow_url = d.workflow_url;
      channel = d.channel;
      execution_target = d.execution_target;
    }
        ≡ d)

slack_columns-ReadsBack :
    (id : ℕ) (d : SlackEventHandlerData) (server_id timeout : ℕ)
    → validate_execution_target d.execution_target d.workflow_url ≡ ok tt
    → reaction_operation_from_db (reaction_operation_to_db d.reaction_operation)
      ≡ d.reaction_operation
    → some server_id ≡ d.jobworkerp_server_id
    → some timeout ≡ d.timeout_sec
    → SlackReadsBack id d (slack_columns id d server_id timeout)
unfolding slack_to_proto slack_row
slack_columns-ReadsBack id d server_id timeout v op e e' = (
  _,
  refl,
  ap
        (λ o. some (record (slack_columns id d server_id timeout) {
          reaction_operation = reaction_operation_to_db o;
          target =
              (let c =
                  with_channel (flatten_slack_target d.execution_target d.workflow_url d.channel) in
                with_channel (
                  flatten_slack_target (target_of_columns c) c.workflow_url
                    (or_default c.channel)));
        }))
        op
      ∙ ap (λ t. some (record (slack_columns id d server_id timeout) { target = t }))
          (slack_flatten-read d.execution_target d.workflow_url d.channel v),
  slack_resolve-read d.execution_target d.workflow_url d.channel v,
  ap
        (λ o. record d {
          jobworkerp_server_id = some server_id;
          timeout_sec = some timeout;
          reaction_operation = o;
        })
        op
      ∙ ap (λ o. record d { jobworkerp_server_id = o; timeout_sec = some timeout }) e
      ∙ ap (λ o. record d { timeout_sec = o }) e',
)

slack_row-of :
    (id : ℕ) (d : SlackEventHandlerData) (row : SlackEventHandlerRow) (o o' : Option ℕ)
    → o ≡ d.jobworkerp_server_id
    → o' ≡ d.timeout_sec
    → and_then o (λ s. Option.map (slack_columns id d s) o') ≡ some row
    → validate_execution_target d.execution_target d.workflow_url ≡ ok tt
    → reaction_operation_from_db (reaction_operation_to_db d.reaction_operation)
      ≡ d.reaction_operation
    → SlackReadsBack id d row
slack_row-of id d row none o' e e' h v op = cc h
slack_row-of id d row (some server_id) none e e' h v op = cc h
slack_row-of id d row (some server_id) (some timeout) e e' h v op =
    let same : slack_columns id d server_id timeout ≡ row = cc h in
    subst (SlackReadsBack id d) same (slack_columns-ReadsBack id d server_id timeout v op e e')

-- A Slack event handler whose target is valid and whose reaction operation is one of the enum is
-- read back from its row with every field as it was but the target and the deprecated fields, which
-- resolve to the same target up to empty channels and empty names of what a worker uses; and what
-- was read is written again to the same row.
pub slack_row-reads_back :
    (id : ℕ) (d : SlackEventHandlerData) (row : SlackEventHandlerRow)
    (operation : ReactionOperation)
    → validate_execution_target d.execution_target d.workflow_url ≡ ok tt
    → reaction_operation_of d.reaction_operation ≡ some operation
    → slack_row id d ≡ some row
    → SlackReadsBack id d row
slack_row-reads_back id d row operation v op h =
    slack_row-of id d row d.jobworkerp_server_id d.timeout_sec refl refl (unfold slack_row in h) v
      (operation-read d.reaction_operation operation op)
