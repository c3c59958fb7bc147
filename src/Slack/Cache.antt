-- ===== src/Slack/Cache.antt =====
-- `SlackHandlerCache` (slack-event-handler/src/config_cache.rs), and
-- `update_handler_cache_from_event` (slack-event-handler/src/manager.rs), which keeps it current.
-- The crate regex is the interface `Patterns`; a clock reading is an argument `now`.
use Prim.Native.Char.{Char}
use jobworkerp_conductor.Prelude.{
  ℕ, String, Bool, Option, none, some, List, [], Result, ok, err, ok_or, if◌then◌else◌, ◌||◌, ◌+◌,
  ◌%◌, ◌^◌, ℕ-HasEq, String-HasEq,
}
use jobworkerp_conductor.HashMap.{HashMap, insert, remove, contains_key}
use jobworkerp_conductor.Proto.{SlackEventHandler, SlackEventHandlerData, SlackEventHandlerId}
use jobworkerp_conductor.Events.{
  Event, SlackEventHandlerChangeEvent, ChangeAction, created, updated, deleted,
}
use jobworkerp_conductor.Events.Accessors.{action, as_slack_event_handler}
use jobworkerp_conductor.Slack.Names.{parse_reaction_names}

-- `Regex::new` and `Regex::is_match`, and `char::is_whitespace`.
pub record Patterns : Type 1 where
  pub Regex : Type 0
  pub compile : String → Option Regex
  pub is_match : Regex → String → Bool
  pub is_whitespace : Char → Bool

pub data CacheError : Type 0 where
  no_id no_payload not_slack_event : CacheError
  invalid_message_pattern invalid_user_filter : String → CacheError

module _ (patterns : Patterns) where
  open patterns use {Regex, compile, is_whitespace}

  pub record SlackHandlerCache : Type 0 where
    pub message_pattern_cache : HashMap SlackEventHandlerId Regex
    pub reaction_user_filter_cache : HashMap SlackEventHandlerId Regex
    pub reaction_names_cache : HashMap SlackEventHandlerId (List String)
    pub last_update : ℕ
    pub version : ℕ

  -- A method that can fail: what it changed before an error stays changed.
  abbrev pub CacheOutcome : Type 0
  CacheOutcome = Result CacheError (Unit {0}) × SlackHandlerCache

  abbrev pub and_continue : CacheOutcome → (SlackHandlerCache → CacheOutcome) → CacheOutcome
  and_continue (ok u, c) k = k c
  and_continue (err e, c) k = (err e, c)

  unfoldable pub new_cache : ℕ → SlackHandlerCache
  new_cache now = record {
    message_pattern_cache = [];
    reaction_user_filter_cache = [];
    reaction_names_cache = [];
    last_update = now;
    version = 0;
  }

  -- The assignment to `last_update` and `version` after a change.
  unfoldable pub touch : ℕ → SlackHandlerCache → SlackHandlerCache
  touch now c = record c { last_update = now; version = (c.version + 1) % 2 ^ 64 }

  abbrev pub compiled : CacheError → String → Result CacheError Regex
  compiled e pattern = ok_or e (compile pattern)

  unfoldable pub keep_message_pattern :
      SlackEventHandlerId → SlackHandlerCache → Result CacheError Regex → CacheOutcome
  keep_message_pattern id c (err e) = (err e, c)
  keep_message_pattern id c (ok regex) =
      (ok tt, record c { message_pattern_cache = insert id regex c.message_pattern_cache })

  unfoldable pub cache_message_pattern :
      SlackEventHandlerId → Option String → SlackHandlerCache → CacheOutcome
  unfolding keep_message_pattern
  cache_message_pattern id none c = (ok tt, c)
  cache_message_pattern id (some pattern) c =
      keep_message_pattern id c (compiled (invalid_message_pattern pattern) pattern)

  unfoldable pub keep_user_filter :
      SlackEventHandlerId → SlackHandlerCache → Result CacheError Regex → CacheOutcome
  keep_user_filter id c (err e) = (err e, c)
  keep_user_filter id c (ok regex) = (
    ok tt,
    record c { reaction_user_filter_cache = insert id regex c.reaction_user_filter_cache },
  )

  unfoldable pub cache_user_filter :
      SlackEventHandlerId → Option String → SlackHandlerCache → CacheOutcome
  unfolding keep_user_filter
  cache_user_filter id none c = (ok tt, c)
  cache_user_filter id (some filter) c =
      keep_user_filter id c (compiled (invalid_user_filter filter) filter)

  unfoldable pub cache_reaction_names :
      SlackEventHandlerId → Option String → SlackHandlerCache → SlackHandlerCache
  unfolding parse_reaction_names
  cache_reaction_names id none c = c
  cache_reaction_names id (some names) c = record c {
    reaction_names_cache =
        insert id (parse_reaction_names is_whitespace names) c.reaction_names_cache;
  }

  unfoldable pub compile_parts :
      ℕ
      → Option SlackEventHandlerId
      → Option SlackEventHandlerData
      → SlackHandlerCache
      → CacheOutcome
  unfolding cache_message_pattern cache_user_filter cache_reaction_names touch
  compile_parts now none d c = (err no_id, c)
  compile_parts now (some id) none c = (err no_payload, c)
  compile_parts now (some id) (some d) c =
      and_continue (cache_message_pattern id d.message_pattern c) (λ c'.
        and_continue (cache_user_filter id d.reaction_user_filter c')
          (λ c''. (ok tt, touch now (cache_reaction_names id d.reaction_names c''))))

  unfoldable pub compile_and_cache_patterns :
      ℕ → SlackEventHandler → SlackHandlerCache → CacheOutcome
  unfolding compile_parts
  compile_and_cache_patterns now handler c = compile_parts now handler.id handler.payload c

  unfoldable pub invalidate_handler :
      ℕ → SlackEventHandlerId → SlackHandlerCache → SlackHandlerCache
  unfolding touch
  invalidate_handler now id c =
      let removed = record c {
        message_pattern_cache = remove id c.message_pattern_cache;
        reaction_user_filter_cache = remove id c.reaction_user_filter_cache;
        reaction_names_cache = remove id c.reaction_names_cache;
      } in
      if contains_key c.message_pattern_cache id
        || contains_key c.reaction_user_filter_cache id
        || contains_key c.reaction_names_cache id
      then touch now removed
      else removed

  unfoldable pub clear : ℕ → SlackHandlerCache → SlackHandlerCache
  unfolding touch
  clear now c = touch now (record c {
    message_pattern_cache = [];
    reaction_user_filter_cache = [];
    reaction_names_cache = [];
  })

  -- The handler that a created or updated event carries, with both its parts.
  unfoldable pub recompile :
      ℕ
      → Option SlackEventHandlerId
      → Option SlackEventHandlerData
      → SlackHandlerCache
      → CacheOutcome
  unfolding invalidate_handler compile_and_cache_patterns
  recompile now (some id) (some d) c =
      compile_and_cache_patterns now (record { id = some id; payload = some d })
        (invalidate_handler now id c)
  recompile now _ _ c = (ok tt, c)

  unfoldable pub invalidate_deleted :
      ℕ → Option SlackEventHandlerId → SlackHandlerCache → SlackHandlerCache
  unfolding invalidate_handler
  invalidate_deleted now none c = c
  invalidate_deleted now (some id) c = invalidate_handler now id c

  unfoldable pub apply_slack_action :
      ℕ → ChangeAction → SlackEventHandlerChangeEvent → SlackHandlerCache → CacheOutcome
  unfolding recompile invalidate_deleted
  apply_slack_action now created e c = recompile now e.id e.payload c
  apply_slack_action now updated e c = recompile now e.id e.payload c
  apply_slack_action now deleted e c = (ok tt, invalidate_deleted now e.id c)
  apply_slack_action now _ e c = (ok tt, c)

  unfoldable pub apply_slack_event :
      ℕ → ChangeAction → Option SlackEventHandlerChangeEvent → SlackHandlerCache → CacheOutcome
  unfolding apply_slack_action
  apply_slack_event now a none c = (err not_slack_event, c)
  apply_slack_event now a (some e) c = apply_slack_action now a e c

  unfoldable pub update_handler_cache_from_event :
      ℕ → Option Event → SlackHandlerCache → CacheOutcome
  unfolding apply_slack_event action as_slack_event_handler
  update_handler_cache_from_event now event c =
      apply_slack_event now (action event) (as_slack_event_handler event) c
