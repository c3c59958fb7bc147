-- ===== src/Slack/Tests.antt =====
-- A store with one handler for mentions, matched.
use jobworkerp_conductor.Prelude.{
  ℕ, ◌≡◌, refl, ◌≤◌, ◌-◌, ◌⊎◌, Result, ok, err, if◌then◌else◌, some, none, [], ◌∷◌, String,
  String-HasEq, ◌==◌, nat_eq, true, false, All,
}
use Prim.Native.Char.{code}
use jobworkerp_conductor.Proto.{SlackEventHandlerData}
use jobworkerp_conductor.Store.{LocalConfigStore}
use jobworkerp_conductor.Events.{
  create_slack_event_handler_updated, create_slack_event_handler_deleted,
}
use jobworkerp_conductor.Slack.Cache.{Patterns, SlackHandlerCache, update_handler_cache_from_event}
use jobworkerp_conductor.Slack.Current.{
  entries, compiled_entries, no_entries, update_handler_cache_from_event-entries,
}
use jobworkerp_conductor.Slack.Retry.{
  Run, is_retriable_error, execute_workflow_with_retry, execute_workflow_with_retry_lem,
  max_retries, is_retried, all_retried,
}
use jobworkerp_conductor.Slack.Matcher.{app_mention_event, message_event, match_event_to_handlers}
use jobworkerp_conductor.Slack.Matcher.Exclusive.{WithMention, match_event_to_handlers-exclusive}

-- A pattern that only its own text matches.
abbrev exact : Patterns
exact = record {
  Regex = String;
  compile = λ pattern. some pattern;
  is_match = λ pattern text. pattern == text;
  is_whitespace = λ c. nat_eq (code c) 32;
}

abbrev on_mention : SlackEventHandlerData
on_mention = record {
  name = "deploy";
  description = "";
  enabled = true;
  slack_channel_id = some "C1";
  message_pattern = some "deploy";
  mention_required = true;
  reaction_names = none;
  reaction_operation = 0;
  reaction_user_filter = none;
  jobworkerp_server_id = some 7;
  workflow_url = "file://deploy.yaml";
  channel = "";
  timeout_sec = none;
  args = none;
  created_at = 1;
  updated_at = 1;
  execution_target = none;
}

abbrev store : LocalConfigStore
store = record {
  cron_schedulers = record { entities = []; name_index = [] };
  worker_result_handlers = record { entities = []; name_index = [] };
  jobworkerp_servers = record { entities = []; name_index = [] };
  slack_event_handlers = record {
    entities = (5, record { id = some 5; payload = some on_mention }) ∷ [];
    name_index = ("deploy", 5) ∷ [];
  };
  last_sync = 1;
  version = 2;
  snapshots = [];
}

abbrev cache : SlackHandlerCache exact
cache = record {
  message_pattern_cache = (5, "deploy") ∷ [];
  reaction_user_filter_cache = [];
  reaction_names_cache = [];
  last_update = 1;
  version = 1;
}

match_event_to_handlers-exclusive_example :
    All
      (WithMention true)
      (match_event_to_handlers exact cache (app_mention_event (some "deploy")) "C1" store)
    × All
        (WithMention false)
        (match_event_to_handlers exact cache (message_event (some "deploy")) "C1" store)
match_event_to_handlers-exclusive_example =
    match_event_to_handlers-exclusive exact cache "C1" store (some "deploy") (some "deploy")

-- The first two attempts cannot connect, the third succeeds.
abbrev flaky : ℕ → Result String (Unit {0})
flaky n = if nat_eq n 2 then ok tt else err "connection refused"

abbrev lowercase : String → String
lowercase text = text

abbrev flaky_run : Run
flaky_run = execute_workflow_with_retry (is_retriable_error lowercase) flaky (λ n. 7)

execute_workflow_with_retry_lem_example :
    (1 ≤ flaky_run.attempts)
    × (flaky_run.attempts ≤ max_retries)
    × (flaky_run.result ≡ flaky (flaky_run.attempts - 1))
    × (all_retried (is_retriable_error lowercase) flaky (λ n. 7) (flaky_run.attempts - 1) ≡ true)
    × ((is_retried (is_retriable_error lowercase) flaky (λ n. 7) flaky_run.result ≡ false)
        ⊎ (flaky_run.attempts ≡ max_retries))
execute_workflow_with_retry_lem_example =
    execute_workflow_with_retry_lem (is_retriable_error lowercase) flaky (λ n. 7)

attempts_flaky_run : (flaky_run.attempts ≡ 3) × (flaky_run.result ≡ ok tt)
unfolding execute_workflow_with_retry is_retriable_error
attempts_flaky_run = (refl, refl)

update_handler_cache_from_event-entries_example :
    (entries exact 5
        (update_handler_cache_from_event exact 9
          (create_slack_event_handler_updated 8 "deploy"
            (some 5)
            (some (record on_mention { message_pattern = none }))
            none).inner
          cache).1
      ≡ compiled_entries exact 5 (record on_mention { message_pattern = none }))
    × (entries exact 5
          (update_handler_cache_from_event exact 9
            (create_slack_event_handler_deleted 8 "deploy" (some 5)).inner
            cache).1
        ≡ no_entries exact 5)
unfolding update_handler_cache_from_event create_slack_event_handler_updated
update_handler_cache_from_event-entries_example =
    update_handler_cache_from_event-entries exact 5 9 8 "deploy"
      (record on_mention { message_pattern = none }) none cache refl
