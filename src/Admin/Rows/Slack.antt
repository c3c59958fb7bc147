-- ===== src/Admin/Rows/Slack.antt =====
-- The row of a Slack event handler (api/infra/src/infra/slack_event_handler/rows.rs and rdb.rs).
use mathlib.Core.Option
use jobworkerp_conductor.Prelude.{
  ℕ, String, Bool, Option, none, some, if◌then◌else◌, ◌==◌, String-HasEq, and_then,
}
use jobworkerp_conductor.Proto.{SlackEventHandler, SlackEventHandlerData, JobworkerpServerId}
use jobworkerp_conductor.Slack.Matcher.{
  ReactionOperation, unspecified, added, removed, both, reaction_operation_of,
}
use jobworkerp_conductor.Admin.Rows.Targets.{
  TargetColumns, Columns, or_default, target_of_columns, flatten_slack_target,
}

pub record SlackEventHandlerRow : Type 0 where
  pub id : ℕ
  pub name : String
  pub description : Option String
  pub enabled : Bool
  pub slack_channel_id : Option String
  pub message_pattern : Option String
  pub mention_required : Bool
  pub reaction_names : Option String
  pub reaction_operation : Option String
  pub reaction_user_filter : Option String
  pub jobworkerp_server_id : JobworkerpServerId
  pub target : Columns
  pub timeout_sec : ℕ
  pub args : Option String
  pub created_at : ℕ
  pub updated_at : ℕ

unfoldable pub reaction_operation_from_db : Option String → ℕ
reaction_operation_from_db none = 0
reaction_operation_from_db (some s) =
    if s == "added" then 1 else if s == "removed" then 2 else if s == "both" then 3 else 0

abbrev pub operation_name : ReactionOperation → Option String
operation_name added = some "added"
operation_name removed = some "removed"
operation_name both = some "both"
operation_name unspecified = none

unfoldable pub reaction_operation_to_db : ℕ → Option String
reaction_operation_to_db op = and_then (reaction_operation_of op) operation_name

unfoldable pub slack_to_proto : SlackEventHandlerRow → SlackEventHandler
unfolding target_of_columns reaction_operation_from_db
slack_to_proto r = record {
  id = some r.id;
  payload = some (record {
    name = r.name;
    description = or_default r.description;
    enabled = r.enabled;
    slack_channel_id = r.slack_channel_id;
    message_pattern = r.message_pattern;
    mention_required = r.mention_required;
    reaction_names = r.reaction_names;
    reaction_operation = reaction_operation_from_db r.reaction_operation;
    reaction_user_filter = r.reaction_user_filter;
    jobworkerp_server_id = some r.jobworkerp_server_id;
    workflow_url = r.target.workflow_url;
    channel = or_default r.target.channel;
    timeout_sec = some r.timeout_sec;
    args = r.args;
    created_at = r.created_at;
    updated_at = r.updated_at;
    execution_target = target_of_columns r.target;
  });
}

-- The bound columns of an INSERT: none, if NULL is bound to a column that is NOT NULL.
-- The channel of the columns becomes a value that is not NULL.
abbrev pub with_channel : TargetColumns String → Columns
with_channel c = record {
  workflow_url = c.workflow_url;
  channel = some c.channel;
  worker_name = c.worker_name;
  using = c.using;
}

unfoldable pub slack_row : ℕ → SlackEventHandlerData → Option SlackEventHandlerRow
unfolding flatten_slack_target reaction_operation_to_db
slack_row id d = and_then d.jobworkerp_server_id (λ server_id.
    Option.map
      (λ timeout. record {
        id = id;
        name = d.name;
        description = some d.description;
        enabled = d.enabled;
        slack_channel_id = d.slack_channel_id;
        message_pattern = d.message_pattern;
        mention_required = d.mention_required;
        reaction_names = d.reaction_names;
        reaction_operation = reaction_operation_to_db d.reaction_operation;
        reaction_user_filter = d.reaction_user_filter;
        jobworkerp_server_id = server_id;
        target = with_channel (flatten_slack_target d.execution_target d.workflow_url d.channel);
        timeout_sec = timeout;
        args = d.args;
        created_at = d.created_at;
        updated_at = d.updated_at;
      })
      d.timeout_sec)
