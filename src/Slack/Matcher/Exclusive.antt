-- ===== src/Slack/Matcher/Exclusive.antt =====
-- No handler runs both for a mention and for the message that carries it.
use jobworkerp_conductor.Prelude.{
  String, ◌≡◌, refl, arith, Bool, true, false, Option, none, some, List, [], ◌∷◌, All, Bool-cases,
  inl, inr,
}
use jobworkerp_conductor.Proto.{SlackEventHandler, SlackEventHandlerData}
use jobworkerp_conductor.Store.{LocalConfigStore, get_enabled_slack_event_handlers}
use jobworkerp_conductor.Slack.Cache.{Patterns, SlackHandlerCache}
use jobworkerp_conductor.Slack.Matcher.{
  SlackEvent, app_mention_event, message_event, event_matches, handler_matches, matching,
  match_event_to_handlers,
}

-- The handler has a payload, with the given `mention_required`.
abbrev pub WithMention : Bool → SlackEventHandler → Type 0
WithMention b handler =
    (d : SlackEventHandlerData) × (handler.payload ≡ some d) × (d.mention_required ≡ b)

module _ (patterns : Patterns) (cache : SlackHandlerCache patterns) (channel_id : String) where
  matches-WithMention :
      (event : SlackEvent) (b : Bool) (handler : SlackEventHandler)
      (o : Option SlackEventHandlerData)
      → ((h : SlackEventHandler) (d : SlackEventHandlerData)
          → event_matches patterns cache event h d ≡ true
          → d.mention_required ≡ b)
      → handler.payload ≡ o
      → handler_matches patterns cache event channel_id handler o ≡ true
      → WithMention b handler
  unfolding handler_matches
  matches-WithMention event b handler none needs p h = cc h
  matches-WithMention event b handler (some d) needs p h =
      (d, p, needs handler d (ground (arith, h)))

  matching-WithMention :
      (event : SlackEvent) (b : Bool) (handlers : List SlackEventHandler)
      → ((h : SlackEventHandler) (d : SlackEventHandlerData)
          → event_matches patterns cache event h d ≡ true
          → d.mention_required ≡ b)
      → All (WithMention b) (matching patterns cache event channel_id handlers)
  unfolding matching
  matching-WithMention event b [] needs = tt
  matching-WithMention event b (handler ∷ rest) needs =
      elim (Bool-cases (handler_matches patterns cache event channel_id handler handler.payload)) [
        | inl matched ↦ rw matched (
          matches-WithMention event b handler handler.payload needs refl matched,
          matching-WithMention event b rest needs,
        )
        | inr unmatched ↦ rw unmatched (matching-WithMention event b rest needs)
      ]

  -- The handlers that match a mention all require one, and those that match a message do not: so no
  -- handler is run for both, in whatever channel and whatever the cache holds.
  pub match_event_to_handlers-exclusive :
      (store : LocalConfigStore) (mention text : Option String)
      → All
          (WithMention true)
          (match_event_to_handlers patterns cache (app_mention_event mention) channel_id store)
        × All
            (WithMention false)
            (match_event_to_handlers patterns cache (message_event text) channel_id store)
  unfolding match_event_to_handlers event_matches
  match_event_to_handlers-exclusive store mention text = (
    matching-WithMention (app_mention_event mention) true (get_enabled_slack_event_handlers store)
        (λ h d e. ground (arith, e)),
    matching-WithMention (message_event text) false (get_enabled_slack_event_handlers store)
        (λ h d e. ground (arith, e)),
  )
