-- ===== src/Slack/Manager.antt =====
-- `DynamicSlackHandlerManager` (slack-event-handler/src/manager.rs): start and stop, with the loading
-- of the cache. The Socket Mode listener is I/O: of its task only its presence is kept, and whether
-- one can be made for a token is the argument `opens`.
use jobworkerp_conductor.Prelude.{
  ℕ, String, Bool, true, false, Option, none, some, List, [], ◌∷◌, Result, ok, err, if◌then◌else◌,
}
use jobworkerp_conductor.Proto.{SlackEventHandler}
use jobworkerp_conductor.Registry
use jobworkerp_conductor.Execution.Target.{is_empty}
use jobworkerp_conductor.Store.{LocalConfigStore}
use jobworkerp_conductor.Slack.Cache.{
  Patterns, SlackHandlerCache, new_cache, compile_and_cache_patterns,
}

pub data SlackStartError : Type 0 where
  socket_mode_failed : SlackStartError

module _ (patterns : Patterns) where
  pub record SlackManager : Type 0 where
    pub slack_handler_cache : SlackHandlerCache patterns
    -- Whether a task is there, and whether its shutdown channel is.
    pub socket_mode_listener : Bool
    pub shutdown_sender : Bool
    pub is_running : Bool

  abbrev pub Started : Type 0
  Started = Result SlackStartError (Unit {0}) × SlackManager

  unfoldable pub new_slack_manager : ℕ → SlackManager
  unfolding new_cache
  new_slack_manager now = record {
    slack_handler_cache = new_cache patterns now;
    socket_mode_listener = false;
    shutdown_sender = false;
    is_running = false;
  }

  -- A handler that does not compile is skipped, with what it had cached before the error.
  unfoldable pub initialize_handler_cache :
      ℕ → List SlackEventHandler → SlackHandlerCache patterns → SlackHandlerCache patterns
  unfolding compile_and_cache_patterns
  initialize_handler_cache now [] c = c
  initialize_handler_cache now (handler ∷ rest) c =
      initialize_handler_cache now rest (compile_and_cache_patterns patterns now handler c).1

  module _ (opens : String → Bool) where
    unfoldable pub open_listener : String → SlackManager → Started
    open_listener token m =
        if is_empty token
        then (ok tt, m)
        else if opens token
        then (ok tt, record m { socket_mode_listener = true; shutdown_sender = true })
        else (err socket_mode_failed, m)

    -- `app_token` is the environment's SLACK_APP_TOKEN.
    unfoldable pub start_socket_mode_listener : Option String → SlackManager → Started
    unfolding open_listener
    start_socket_mode_listener none m = (ok tt, m)
    start_socket_mode_listener (some token) m = open_listener token m

    -- The flag is raised before the listener is made, and stays up when that fails.
    unfoldable pub start_slack : ℕ → Option String → LocalConfigStore → SlackManager → Started
    unfolding initialize_handler_cache start_socket_mode_listener
    start_slack now app_token store m =
        if m.is_running
        then (ok tt, m)
        else start_socket_mode_listener app_token (record m {
          slack_handler_cache =
              initialize_handler_cache now (Registry.get_all store.slack_event_handlers.entities)
                m.slack_handler_cache;
          is_running = true;
        })

  -- The listener is told to shut down and is awaited, if there is one.
  unfoldable pub stop_slack : SlackManager → SlackManager
  stop_slack m =
      if m.is_running
      then record m { socket_mode_listener = false; shutdown_sender = false; is_running = false }
      else m
