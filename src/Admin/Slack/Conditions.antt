-- ===== src/Admin/Slack/Conditions.antt =====
-- What a valid handler matches, and what `validate_handler_data` lets through.
use Prim.Native.String.{String}
use jobworkerp_conductor.Prelude.{
  ◌≡◌, ap, ◌∙◌, ◌↔◌, arith, true, not, Option, none, some, ok, String-HasEq,
}
use jobworkerp_conductor.Proto.{SlackEventHandler, SlackEventHandlerData}
use jobworkerp_conductor.Slack.Cache.{Patterns, SlackHandlerCache}
use jobworkerp_conductor.Slack.Matcher.Members.{Among, matching-Among}
use jobworkerp_conductor.Store.{LocalConfigStore, get_enabled_slack_event_handlers}
use jobworkerp_conductor.Slack.Matcher.{
  SlackEvent, message_event, reaction_added_event, reaction_removed_event, event_matches,
  operation_matches, channel_matches, handler_matches, match_event_to_handlers,
  check_message_conditions, check_reaction_conditions,
}
use jobworkerp_conductor.Admin.Slack.Validation.{
  has_message_condition, has_reaction_condition, validate_event_type_consistency,
}

-- A handler is consistent exactly when it has a message condition or a reaction condition and not
-- both.
pub validate_event_type_consistency_iff :
    (d : SlackEventHandlerData)
    → (validate_event_type_consistency d ≡ ok tt)
      ↔ (has_message_condition d ≡ not (has_reaction_condition d))
unfolding validate_event_type_consistency
validate_event_type_consistency_iff d = ground arith

-- A handler of a channel that matches gets an event whose conditions it meets.
meets-Among :
    (patterns : Patterns) (cache : SlackHandlerCache patterns) (event : SlackEvent)
    (channel_id : String) (store : LocalConfigStore) (handler : SlackEventHandler)
    (d : SlackEventHandlerData)
    → handler.payload ≡ some d
    → Among handler (get_enabled_slack_event_handlers store)
    → channel_matches d.slack_channel_id channel_id ≡ true
    → event_matches patterns cache event handler d ≡ true
    → Among handler (match_event_to_handlers patterns cache event channel_id store)
unfolding match_event_to_handlers handler_matches
meets-Among patterns cache event channel_id store handler d p among channel conditions =
    let met : handler_matches patterns cache event channel_id handler (some d) ≡ true =
      ground (arith, channel, conditions) in
    matching-Among patterns cache event channel_id handler
      (ap (handler_matches patterns cache event channel_id handler) p ∙ met)
      (get_enabled_slack_event_handlers store) among

-- An enabled handler that the service accepts as one for messages, with the default reaction
-- operation and no user filter, is among the handlers of every reaction in its channel, or in any
-- channel if it names none: added or removed, of whatever name and by whatever user.
pub message_handler-matches_reactions :
    (patterns : Patterns) (cache : SlackHandlerCache patterns) (channel_id : String)
    (store : LocalConfigStore) (handler : SlackEventHandler) (d : SlackEventHandlerData)
    (reaction user : String)
    → handler.payload ≡ some d
    → Among handler (get_enabled_slack_event_handlers store)
    → channel_matches d.slack_channel_id channel_id ≡ true
    → validate_event_type_consistency d ≡ ok tt
    → has_message_condition d ≡ true
    → d.reaction_operation ≡ 0
    → d.reaction_user_filter ≡ none
    → Among handler (
        match_event_to_handlers patterns cache
          (reaction_added_event reaction user)
          channel_id
          store)
      × Among handler (
          match_event_to_handlers patterns cache
            (reaction_removed_event reaction user)
            channel_id
            store)
unfolding validate_event_type_consistency event_matches check_reaction_conditions operation_matches
message_handler-matches_reactions patterns cache channel_id store handler d reaction user p among
      channel v m op filter =
    (
      meets-Among patterns cache (reaction_added_event reaction user) channel_id store handler d p
          among channel (ground (arith, p, v, m, op, filter)),
      meets-Among patterns cache (reaction_removed_event reaction user) channel_id store handler d p
          among channel (ground (arith, p, v, m, op, filter)),
    )

-- An enabled handler that the service accepts as one for reactions is among the handlers of every
-- message in its channel, or in any channel if it names none, of whatever text.
pub reaction_handler-matches_messages :
    (patterns : Patterns) (cache : SlackHandlerCache patterns) (channel_id : String)
    (store : LocalConfigStore) (handler : SlackEventHandler) (d : SlackEventHandlerData)
    (text : Option String)
    → handler.payload ≡ some d
    → Among handler (get_enabled_slack_event_handlers store)
    → channel_matches d.slack_channel_id channel_id ≡ true
    → validate_event_type_consistency d ≡ ok tt
    → has_reaction_condition d ≡ true
    → Among handler (match_event_to_handlers patterns cache (message_event text) channel_id store)
unfolding validate_event_type_consistency event_matches check_message_conditions
reaction_handler-matches_messages patterns cache channel_id store handler d text p among channel v
      r =
    meets-Among patterns cache (message_event text) channel_id store handler d p among channel
      (ground (arith, p, v, r))
