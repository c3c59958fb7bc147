-- ===== src/Admin/Slack/Tests.antt =====
-- A handler for messages, one for reactions and one that runs a worker: the theorems at them.
use Prim.Native.Char.{code}
use jobworkerp_conductor.Prelude.{
  ◌≡◌, refl, inl, inr, true, false, not, some, none, [], ◌∷◌, ok, nat_eq, String-HasEq, ℕ-HasEq,
}
use jobworkerp_conductor.HashMap.{insert, get}
use jobworkerp_conductor.Proto.{SlackEventHandler, SlackEventHandlerData}
use jobworkerp_conductor.Execution.Target.{validate_execution_target, resolve_slack_target}
use jobworkerp_conductor.Slack.Cache.{new_cache}
use jobworkerp_conductor.Slack.Names.{split_comma, trim, trim_start, trim_end}
use jobworkerp_conductor.Registry
use jobworkerp_conductor.Store.{LocalConfigStore, get_enabled_slack_event_handlers}
use jobworkerp_conductor.Slack.Matcher.Members.{Among}
use jobworkerp_conductor.Slack.Matcher.{
  added, match_event_to_handlers, message_event, reaction_added_event, reaction_removed_event,
}
use jobworkerp_conductor.Conductor.Tests.{exact, store}
use jobworkerp_conductor.Admin.Rows.Slack.{
  SlackEventHandlerRow, slack_row, reaction_operation_to_db,
}
use jobworkerp_conductor.Admin.Rows.Targets.{flatten_slack_target}
use jobworkerp_conductor.Admin.Rows.SlackRoundTrip.{SlackReadsBack, slack_row-reads_back}
use jobworkerp_conductor.Admin.Table.{create, insert_row, taken}
use jobworkerp_conductor.Admin.Table.Kinds.{slack_kind}
use jobworkerp_conductor.Admin.Service.{MemoryCache}
use jobworkerp_conductor.Admin.Slack.Validation.{
  Syntax, byte_len, has_message_condition, has_reaction_condition, validate_event_type_consistency,
  validate_regex_pattern, check_reaction, check_reactions, validate_reaction_names, contains_dots,
  validate_workflow_url, validate_target_url, validate_handler_data,
}
use jobworkerp_conductor.Admin.Slack.Conditions.{
  message_handler-matches_reactions, reaction_handler-matches_messages,
}
use jobworkerp_conductor.Admin.Slack.Bounds.{IsSafe}
use jobworkerp_conductor.Admin.Slack.Accepted.{
  AllSet, IsCompilable, HasReactionNames, validate_handler_data-accepts,
}
use jobworkerp_conductor.Admin.Slack.Service.{
  SlackService, unsent, with_enabled, create_slack_event_handler,
}
use jobworkerp_conductor.Admin.Slack.Answers.{Recorded, create_slack_event_handler-Recorded}

abbrev syntax : Syntax
syntax = record {
  builds = λ pattern. true;
  is_slow = λ pattern. false;
  is_whitespace = λ c. nat_eq (code c) 32;
  is_alphanumeric = λ c. not (nat_eq (code c) 32);
}

abbrev on_message : SlackEventHandlerData
on_message = record {
  name = "deploy";
  description = "";
  enabled = false;
  slack_channel_id = none;
  message_pattern = some "deploy";
  mention_required = false;
  reaction_names = none;
  reaction_operation = 0;
  reaction_user_filter = none;
  jobworkerp_server_id = some 7;
  workflow_url = "file://deploy.yaml";
  channel = "";
  timeout_sec = some 60;
  args = none;
  created_at = 1;
  updated_at = 1;
  execution_target = none;
}

abbrev on_reaction : SlackEventHandlerData
on_reaction = record on_message {
  name = "ship";
  message_pattern = none;
  reaction_names = some "rocket, ship";
  reaction_operation = 1;
}

-- Both handlers, enabled as the service stores them; the one for reactions has a channel.
abbrev enabled_message : SlackEventHandlerData
enabled_message = record on_message { enabled = true }

abbrev enabled_reaction : SlackEventHandlerData
enabled_reaction = record on_reaction { enabled = true; slack_channel_id = some "C1" }

abbrev message_handler : SlackEventHandler
message_handler = record { id = some 5; payload = some enabled_message }

abbrev reaction_handler : SlackEventHandler
reaction_handler = record { id = some 6; payload = some enabled_reaction }

abbrev two_handlers : LocalConfigStore
two_handlers = record store {
  slack_event_handlers = record {
    entities = (5, message_handler) ∷ (6, reaction_handler) ∷ [];
    name_index = ("deploy", 5) ∷ ("ship", 6) ∷ [];
  };
}

message_handler-matches_reactions_example :
    Among message_handler (
      match_event_to_handlers exact
        (new_cache exact 1)
        (reaction_added_event "eyes" "U1")
        "C2"
        two_handlers)
    × Among message_handler (
        match_event_to_handlers exact
          (new_cache exact 1)
          (reaction_removed_event "eyes" "U1")
          "C2"
          two_handlers)
unfolding validate_event_type_consistency get_enabled_slack_event_handlers Registry.get_all
message_handler-matches_reactions_example =
    message_handler-matches_reactions exact (new_cache exact 1) "C2" two_handlers message_handler
      enabled_message "eyes" "U1" refl (inl refl) refl refl refl refl refl

reaction_handler-matches_messages_example : Among reaction_handler (
    match_event_to_handlers exact
      (new_cache exact 1)
      (message_event (some "good morning"))
      "C1"
      two_handlers)
unfolding validate_event_type_consistency get_enabled_slack_event_handlers Registry.get_all
reaction_handler-matches_messages_example =
    reaction_handler-matches_messages exact (new_cache exact 1) "C1" two_handlers reaction_handler
      enabled_reaction (some "good morning") refl (inr (inl refl)) refl refl refl

on_reaction_accepted : validate_handler_data syntax on_reaction ≡ ok tt
unfolding validate_handler_data validate_event_type_consistency validate_regex_pattern
    validate_reaction_names validate_target_url validate_execution_target validate_workflow_url
    check_reactions check_reaction split_comma trim trim_start trim_end byte_len contains_dots
on_reaction_accepted = refl

validate_handler_data-accepts_example :
    (has_message_condition on_reaction ≡ not (has_reaction_condition on_reaction))
    × AllSet (IsCompilable syntax) on_reaction.message_pattern
    × AllSet (IsCompilable syntax) on_reaction.reaction_user_filter
    × AllSet (HasReactionNames syntax) on_reaction.reaction_names
    × IsSafe (resolve_slack_target on_reaction)
validate_handler_data-accepts_example =
    validate_handler_data-accepts syntax on_reaction on_reaction_accepted

abbrev on_reaction_row : SlackEventHandlerRow
on_reaction_row = record {
  id = 6;
  name = "ship";
  description = some "";
  enabled = false;
  slack_channel_id = none;
  message_pattern = none;
  mention_required = false;
  reaction_names = some "rocket, ship";
  reaction_operation = some "added";
  reaction_user_filter = none;
  jobworkerp_server_id = 7;
  target = record {
    workflow_url = "file://deploy.yaml";
    channel = some "";
    worker_name = none;
    using = none;
  };
  timeout_sec = 60;
  args = none;
  created_at = 1;
  updated_at = 1;
}

on_reaction_written : slack_row 6 on_reaction ≡ some on_reaction_row
unfolding slack_row flatten_slack_target reaction_operation_to_db
on_reaction_written = refl

slack_row-reads_back_example : SlackReadsBack 6 on_reaction on_reaction_row
slack_row-reads_back_example =
    slack_row-reads_back 6 on_reaction on_reaction_row added
      (unfold validate_execution_target in refl) refl on_reaction_written

abbrev no_cache : MemoryCache SlackEventHandler
no_cache = record {
  Cache = Unit;
  with_cache_if_some = λ k found cache. (found, tt);
  delete_cache = λ k cache. tt;
}

abbrev no_handlers : SlackService no_cache syntax
no_handlers = record { table = []; servers = []; memory_cache = tt; published = [] }

with_enabled_accepted : validate_handler_data syntax (with_enabled on_reaction) ≡ ok tt
unfolding with_enabled validate_handler_data validate_event_type_consistency validate_regex_pattern
    validate_reaction_names validate_target_url validate_execution_target validate_workflow_url
    check_reactions check_reaction split_comma trim trim_start trim_end byte_len contains_dots
with_enabled_accepted = refl

with_enabled_inserted :
    create slack_kind 6 (with_enabled on_reaction) []
    ≡ (ok 6, (6, record on_reaction_row { enabled = true }) ∷ [])
unfolding with_enabled create insert_row slack_row flatten_slack_target reaction_operation_to_db get
    taken insert
with_enabled_inserted = refl

-- The notification is not sent.
create_slack_event_handler-Recorded_example :
    Recorded no_cache syntax 6 unsent
      (with_enabled on_reaction)
      no_handlers
      (create_slack_event_handler no_cache syntax 70 unsent 6 on_reaction no_handlers)
create_slack_event_handler-Recorded_example =
    create_slack_event_handler-Recorded no_cache syntax 70 unsent 6 6 on_reaction no_handlers
      ((6, record on_reaction_row { enabled = true }) ∷ []) with_enabled_accepted
      with_enabled_inserted
