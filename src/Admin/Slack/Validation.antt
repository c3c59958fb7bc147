-- ===== src/Admin/Slack/Validation.antt =====
-- The validations of `SlackEventHandlerAppImpl` (api/app/src/app/slack_event_handler.rs). Of the
-- crates and of `char` it uses the interface `Syntax`; a length is in bytes.
use Prim.Native.Char.{Char, code}
use Prim.Native.String.{String, [], ◌∷◌}
use mathlib.Core.List.{[] as nil, ◌∷◌ as cons}
use text.Mathlib.Text.{starts_with}
use jobworkerp_conductor.Prelude.{
  ℕ, ◌+◌, Bool, true, false, not, ◌&&◌, ◌||◌, Option, none, some, List, Result, ok, err, ◌>>◌,
  if◌then◌else◌, ltb, nat_eq, is_some, length, map,
}
use jobworkerp_conductor.Proto.{ExecutionTarget, workflow, worker, SlackEventHandlerData}
use jobworkerp_conductor.Execution.Target.{TargetError, is_empty, validate_execution_target}
use jobworkerp_conductor.Slack.Names.{split_comma, trim}
use jobworkerp_conductor.Slack.Matcher.{reaction_operation_of, has_operation}

pub record Syntax : Type 0 where
  -- `RegexBuilder::build` with its size limit, and whether that takes more than a second.
  pub builds : String → Bool
  pub is_slow : String → Bool
  pub is_whitespace : Char → Bool
  pub is_alphanumeric : Char → Bool

pub data SlackInvalid : Type 0 where
  both_conditions no_condition : SlackInvalid
  pattern_too_long pattern_invalid pattern_slow : String → SlackInvalid
  too_many_reactions : SlackInvalid
  reaction_too_long reaction_invalid : String → SlackInvalid
  url_too_long url_scheme url_traversal : String → SlackInvalid
  target_invalid : TargetError → SlackInvalid

-- The bytes of a character in UTF-8.
abbrev pub utf8_len : Char → ℕ
utf8_len c =
    if ltb (code c) 128
    then 1
    else if ltb (code c) 2048
    then 2
    else if ltb (code c) 65536
    then 3
    else 4

-- `str::len`
unfoldable pub byte_len : String → ℕ
byte_len [] = 0
byte_len (c ∷ s) = utf8_len c + byte_len s

abbrev pub has_message_condition : SlackEventHandlerData → Bool
has_message_condition d = is_some d.message_pattern || d.mention_required

abbrev pub has_reaction_condition : SlackEventHandlerData → Bool
has_reaction_condition d =
    is_some d.reaction_names || has_operation (reaction_operation_of d.reaction_operation)

unfoldable pub validate_event_type_consistency :
    SlackEventHandlerData → Result SlackInvalid (Unit {0})
validate_event_type_consistency d =
    if has_message_condition d && has_reaction_condition d
    then err both_conditions
    else if not (has_message_condition d) && not (has_reaction_condition d)
    then err no_condition
    else ok tt

-- `c.is_alphanumeric() || c == '_' || c == '-' || c == '+'`
abbrev pub reaction_char : (Char → Bool) → Char → Bool
reaction_char is_alphanumeric c =
    is_alphanumeric c || nat_eq (code c) 95 || nat_eq (code c) 45 || nat_eq (code c) 43

abbrev pub all_chars : (Char → Bool) → String → Bool
all_chars p [] = true
all_chars p (c ∷ s) = p c && all_chars p s

-- `url.contains("..")`
unfoldable pub contains_dots : String → Bool
contains_dots [] = false
contains_dots (c ∷ s) = starts_with (c ∷ s) ".." || contains_dots s

unfoldable pub validate_workflow_url : String → Result SlackInvalid (Unit {0})
unfolding byte_len contains_dots
validate_workflow_url url =
    if ltb 2048 (byte_len url)
    then err (url_too_long url)
    else if not (starts_with url "http://")
        && not (starts_with url "https://")
        && not (starts_with url "file://")
    then err (url_scheme url)
    else if contains_dots url
    then err (url_traversal url)
    else ok tt

-- The second check of a target, of its URL.
unfoldable pub validate_target_url :
    Option ExecutionTarget → String → Result SlackInvalid (Unit {0})
unfolding validate_workflow_url
validate_target_url (some (workflow wf)) url = validate_workflow_url wf.workflow_url
validate_target_url (some (worker w)) url = ok tt
validate_target_url none url = if is_empty url then ok tt else validate_workflow_url url

abbrev pub check_option :
    (String → Result SlackInvalid (Unit {0})) → Option String → Result SlackInvalid (Unit {0})
check_option check none = ok tt
check_option check (some text) = check text

abbrev pub target_result : Result TargetError (Unit {0}) → Result SlackInvalid (Unit {0})
target_result (err e) = err (target_invalid e)
target_result (ok u) = ok tt

module _ (syntax : Syntax) where
  open syntax use {builds, is_slow, is_whitespace, is_alphanumeric}

  unfoldable pub validate_regex_pattern : String → Result SlackInvalid (Unit {0})
  unfolding byte_len
  validate_regex_pattern pattern =
      if ltb 500 (byte_len pattern)
      then err (pattern_too_long pattern)
      else if not (builds pattern)
      then err (pattern_invalid pattern)
      else if is_slow pattern
      then err (pattern_slow pattern)
      else ok tt

  unfoldable pub check_reaction : String → Result SlackInvalid (Unit {0})
  unfolding byte_len
  check_reaction reaction =
      if ltb 100 (byte_len reaction)
      then err (reaction_too_long reaction)
      else if all_chars (reaction_char is_alphanumeric) reaction
      then ok tt
      else err (reaction_invalid reaction)

  unfoldable pub check_reactions : List String → Result SlackInvalid (Unit {0})
  unfolding check_reaction
  check_reactions nil = ok tt
  check_reactions (cons reaction rest) = do check_reaction reaction; check_reactions rest

  unfoldable pub validate_reaction_names : String → Result SlackInvalid (Unit {0})
  unfolding check_reactions split_comma trim
  validate_reaction_names names =
      let reactions = map (trim is_whitespace) (split_comma names) in
      if ltb 50 (length reactions) then err too_many_reactions else check_reactions reactions

  unfoldable pub validate_handler_data : SlackEventHandlerData → Result SlackInvalid (Unit {0})
  unfolding validate_event_type_consistency validate_regex_pattern validate_reaction_names
      validate_target_url validate_execution_target
  validate_handler_data d = do
    validate_event_type_consistency d
    check_option validate_regex_pattern d.message_pattern
    check_option validate_regex_pattern d.reaction_user_filter
    check_option validate_reaction_names d.reaction_names
    target_result (validate_execution_target d.execution_target d.workflow_url)
    validate_target_url d.execution_target d.workflow_url
