-- ===== src/Slack/Matcher/Members.antt =====
-- Which handlers the loop of `match_event_to_handlers` keeps.
use jobworkerp_conductor.Prelude.{String, ◌≡◌, ◌⊎◌, inl, inr, true, List, [], ◌∷◌, Bool-cases}
use jobworkerp_conductor.Proto.{SlackEventHandler}
use jobworkerp_conductor.Slack.Cache.{Patterns, SlackHandlerCache}
use jobworkerp_conductor.Slack.Matcher.{SlackEvent, handler_matches, matching}

abbrev pub Among : SlackEventHandler → List SlackEventHandler → Type 0
Among handler [] = ⊥
Among handler (h ∷ rest) = (handler ≡ h) ⊎ Among handler rest

module _ (patterns : Patterns) (cache : SlackHandlerCache patterns) (event : SlackEvent)
    (channel_id : String) (handler : SlackEventHandler)
    (matched : handler_matches patterns cache event channel_id handler handler.payload ≡ true) where
  pub matching-Among :
      (handlers : List SlackEventHandler)
      → Among handler handlers
      → Among handler (matching patterns cache event channel_id handlers)
  unfolding matching
  matching-Among [] m = m
  matching-Among (h ∷ rest) (inl same) =
      let kept : handler_matches patterns cache event channel_id h h.payload ≡ true =
        rw same at matched in
      rw kept (inl same)
  matching-Among (h ∷ rest) (inr later) =
      elim (Bool-cases (handler_matches patterns cache event channel_id h h.payload)) [
        | inl kept ↦ rw kept (inr (matching-Among rest later))
        | inr dropped ↦ rw dropped (matching-Among rest later)
      ]
