-- ===== src/Slack/Matcher.antt =====
-- `EventMatcher` (slack-event-handler/src/event_matcher.rs). An event is given by the fields that
-- the matcher reads of slack_morphism's type.
pub mod Exclusive
pub mod Members
use mathlib.Core.Option
use jobworkerp_conductor.Prelude.{
  ℕ, zero, suc, String, ◌≡◌, Bool, true, false, not, Option, none, some, List, [], ◌∷◌, Result, ok,
  err, ◌>>=◌, ok_or, if◌then◌else◌, ◌&&◌, ◌||◌, ◌==◌, ℕ-HasEq, String-HasEq, is_some,
}
use jobworkerp_conductor.HashMap.{HashMap, get}
use jobworkerp_conductor.Proto.{SlackEventHandler, SlackEventHandlerData, SlackEventHandlerId}
use jobworkerp_conductor.Store.{LocalConfigStore, get_enabled_slack_event_handlers}
use jobworkerp_conductor.Slack.Cache.{Patterns, SlackHandlerCache}

pub data ReactionOperation : Type 0 where
  unspecified added removed both : ReactionOperation

-- `ReactionOperation::try_from`
abbrev pub reaction_operation_of : ℕ → Option ReactionOperation
reaction_operation_of zero = some unspecified
reaction_operation_of (suc zero) = some added
reaction_operation_of (suc (suc zero)) = some removed
reaction_operation_of (suc (suc (suc zero))) = some both
reaction_operation_of (suc (suc (suc (suc n)))) = none

pub data EventType : Type 0 where
  message app_mention reaction_added reaction_removed : EventType

-- `SlackEventCallbackBody`: the text is that of the content, if it has one.
pub data SlackEvent : Type 0 where
  app_mention_event : (text : Option String) → SlackEvent
  message_event : (text : Option String) → SlackEvent
  reaction_added_event : (reaction user : String) → SlackEvent
  reaction_removed_event : (reaction user : String) → SlackEvent
  other_event : SlackEvent

abbrev pub text_or_empty : Option String → String
text_or_empty none = ""
text_or_empty (some text) = text

abbrev pub contains : List String → String → Bool
contains [] name = false
contains (n ∷ names) name = n == name || contains names name

-- `actual_operation` is "added" or "removed".
unfoldable pub operation_matches : Option ReactionOperation → String → Bool
operation_matches (some added) actual = actual == "added"
operation_matches (some removed) actual = actual == "removed"
operation_matches (some both) actual = true
operation_matches (some unspecified) actual = true
operation_matches none actual = false

abbrev pub channel_matches : Option String → String → Bool
channel_matches none channel_id = true
channel_matches (some target) channel_id = target == channel_id

module _ (patterns : Patterns) (cache : SlackHandlerCache patterns) where
  open patterns use {Regex, is_match}

  -- A condition that is set holds only if its cached form is there and holds.
  abbrev pub cached_condition :
      {V : Type 0}
      → Option String
      → Option SlackEventHandlerId
      → HashMap SlackEventHandlerId V
      → (V → Bool)
      → Bool
  cached_condition none id entries holds = true
  cached_condition (some text) none entries holds = false
  cached_condition (some text) (some id) entries holds = elim (get id entries) [
    | none ↦ false
    | some v ↦ holds v
  ]

  unfoldable pub check_message_conditions : SlackEventHandler → String → Bool
  check_message_conditions handler text = elim handler.payload [
    | none ↦ false
    | some d ↦
        cached_condition d.message_pattern handler.id cache.message_pattern_cache
          (λ regex. is_match regex text)
  ]

  unfoldable pub check_reaction_conditions : SlackEventHandler → String → String → String → Bool
  unfolding operation_matches
  check_reaction_conditions handler actual reaction user = elim handler.payload [
    | none ↦ false
    | some d ↦
        operation_matches (reaction_operation_of d.reaction_operation) actual
        && cached_condition d.reaction_names handler.id cache.reaction_names_cache
            (λ names. contains names reaction)
        && cached_condition d.reaction_user_filter handler.id cache.reaction_user_filter_cache
            (λ regex. is_match regex user)
  ]

  unfoldable pub event_matches : SlackEvent → SlackEventHandler → SlackEventHandlerData → Bool
  unfolding check_message_conditions check_reaction_conditions
  event_matches (app_mention_event text) handler d =
      d.mention_required && check_message_conditions handler (text_or_empty text)
  event_matches (message_event text) handler d =
      not d.mention_required && check_message_conditions handler (text_or_empty text)
  event_matches (reaction_added_event reaction user) handler d =
      check_reaction_conditions handler "added" reaction user
  event_matches (reaction_removed_event reaction user) handler d =
      check_reaction_conditions handler "removed" reaction user
  event_matches other_event handler d = false

  unfoldable pub handler_matches :
      SlackEvent → String → SlackEventHandler → Option SlackEventHandlerData → Bool
  unfolding event_matches
  handler_matches event channel_id handler none = false
  handler_matches event channel_id handler (some d) =
      channel_matches d.slack_channel_id channel_id && event_matches event handler d

  -- The loop over the enabled handlers.
  unfoldable pub matching : SlackEvent → String → List SlackEventHandler → List SlackEventHandler
  unfolding handler_matches
  matching event channel_id [] = []
  matching event channel_id (handler ∷ rest) =
      let matched = matching event channel_id rest in
      if handler_matches event channel_id handler handler.payload
      then handler ∷ matched
      else matched

  unfoldable pub match_event_to_handlers :
      SlackEvent → String → LocalConfigStore → List SlackEventHandler
  unfolding matching get_enabled_slack_event_handlers
  match_event_to_handlers event channel_id store =
      matching event channel_id (get_enabled_slack_event_handlers store)

abbrev pub has_operation : Option ReactionOperation → Bool
has_operation none = false
has_operation (some unspecified) = false
has_operation (some _) = true

abbrev pub reaction_type : Option ReactionOperation → Option EventType
reaction_type (some added) = some reaction_added
reaction_type (some removed) = some reaction_removed
reaction_type _ = none

unfoldable pub event_type_of : SlackEventHandlerData → Option EventType
event_type_of d =
    let has_message = is_some d.message_pattern || d.mention_required in
    let operation = reaction_operation_of d.reaction_operation in
    let has_reaction = is_some d.reaction_names || has_operation operation in
    if has_message && not has_reaction
    then (if d.mention_required then some app_mention else some message)
    else (if has_reaction && not has_message then reaction_type operation else none)

unfoldable pub determine_event_type : SlackEventHandler → Option EventType
unfolding event_type_of
determine_event_type handler = elim handler.payload [ none ↦ none | some d ↦ event_type_of d ]
