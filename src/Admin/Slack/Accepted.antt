-- ===== src/Admin/Slack/Accepted.antt =====
-- What holds of every handler that `validate_handler_data` accepts.
use Prim.Native.String.{String}
use jobworkerp_conductor.Prelude.{
  ◌≤◌, ◌≡◌, refl, arith, true, not, Option, none, some, Result, ok, err, both_ok, length, All,
}
use jobworkerp_conductor.Proto.{SlackEventHandlerData}
use jobworkerp_conductor.Execution.Target.{
  TargetError, validate_execution_target, resolve_slack_target,
}
use jobworkerp_conductor.Slack.Names.{parse_reaction_names}
use jobworkerp_conductor.Admin.Slack.Validation.{
  Syntax, SlackInvalid, byte_len, has_message_condition, has_reaction_condition,
  validate_event_type_consistency, validate_regex_pattern, validate_reaction_names, check_option,
  target_result, validate_handler_data,
}
use jobworkerp_conductor.Admin.Slack.Conditions.{validate_event_type_consistency_iff}
use jobworkerp_conductor.Admin.Slack.Bounds.{
  IsReactionName, IsSafe, resolved-IsSafe, validate_reaction_names-bounds,
}

-- A text that is set satisfies `P`.
abbrev pub AllSet : (String → Type 0) → Option String → Type 0
AllSet P none = Unit
AllSet P (some text) = P text

checked-AllSet :
    (P : String → Type 0) (check : String → Result SlackInvalid (Unit {0})) (o : Option String)
    → ((text : String) → check text ≡ ok tt → P text)
    → check_option check o ≡ ok tt
    → AllSet P o
checked-AllSet P check none holds h = tt
checked-AllSet P check (some text) holds h = holds text h

target_result-ok : (r : Result TargetError (Unit {0})) → target_result r ≡ ok tt → r ≡ ok tt
target_result-ok (ok u) h = refl
target_result-ok (err e) h = cc h

module _ (syntax : Syntax) where
  open syntax use {builds, is_whitespace}

  abbrev pub IsCompilable : String → Type 0
  IsCompilable pattern = (byte_len pattern ≤ 500) × (builds pattern ≡ true)

  -- The names that the cache takes from the text.
  abbrev pub HasReactionNames : String → Type 0
  HasReactionNames names =
      (length (parse_reaction_names is_whitespace names) ≤ 50)
      × All (IsReactionName syntax) (parse_reaction_names is_whitespace names)

  validated-IsCompilable :
      (pattern : String) → validate_regex_pattern syntax pattern ≡ ok tt → IsCompilable pattern
  unfolding validate_regex_pattern
  validated-IsCompilable pattern h = (ground (arith, h), ground (arith, h))

  -- A handler that `validate_handler_data` accepts has a message condition or a reaction condition
  -- and not both; its patterns, where they are set, have at most 500 bytes and compile; its reaction
  -- names are parsed to at most 50, each of at most 100 bytes and of the allowed characters; and what
  -- it runs is a worker with a name or a workflow whose URL is not empty, has at most 2048 bytes and
  -- one of the three schemes, and does not contain "..".
  pub validate_handler_data-accepts :
      (d : SlackEventHandlerData)
      → validate_handler_data syntax d ≡ ok tt
      → (has_message_condition d ≡ not (has_reaction_condition d))
        × AllSet IsCompilable d.message_pattern
        × AllSet IsCompilable d.reaction_user_filter
        × AllSet HasReactionNames d.reaction_names
        × IsSafe (resolve_slack_target d)
  unfolding validate_handler_data resolve_slack_target
  validate_handler_data-accepts d h =
      let conditions = (both_ok (validate_event_type_consistency d) _).0 h in
      let pattern =
        (both_ok (check_option (validate_regex_pattern syntax) d.message_pattern) _).0
          conditions.1 in
      let filter =
        (both_ok (check_option (validate_regex_pattern syntax) d.reaction_user_filter) _).0
          pattern.1 in
      let names =
        (both_ok (check_option (validate_reaction_names syntax) d.reaction_names) _).0 filter.1 in
      let target =
        (both_ok (target_result (validate_execution_target d.execution_target d.workflow_url)) _).0
          names.1 in
      (
        (validate_event_type_consistency_iff d).0 conditions.0,
        checked-AllSet IsCompilable (validate_regex_pattern syntax) d.message_pattern
            validated-IsCompilable pattern.0,
        checked-AllSet IsCompilable (validate_regex_pattern syntax) d.reaction_user_filter
            validated-IsCompilable filter.0,
        checked-AllSet HasReactionNames (validate_reaction_names syntax) d.reaction_names
            (validate_reaction_names-bounds syntax) names.0,
        resolved-IsSafe d.execution_target d.workflow_url d.channel (target_result-ok _ target.0)
            target.1,
      )
