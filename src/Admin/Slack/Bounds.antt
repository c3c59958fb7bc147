-- ===== src/Admin/Slack/Bounds.antt =====
-- What the validations bound.
use Prim.Native.String.{String, []}
use text.Mathlib.Text.{starts_with}
use mathlib.Core.List.{[] as nil, ◌∷◌ as cons}
use jobworkerp_conductor.Prelude.{
  ◌≤◌, ◌≡◌, arith, ◌||◌, Bool, true, false, Option, none, some, List, ok, both_ok, ltb, length, map,
  All, Bool-cases, inl, inr, ◌==◌, String-HasEq,
}
use jobworkerp_conductor.Proto.{ExecutionTarget, workflow, worker}
use jobworkerp_conductor.Execution.Target.{
  is_empty, validate_execution_target, ResolvedTarget, worker_target, workflow_target,
  resolve_slack,
}
use jobworkerp_conductor.Slack.Names.{split_comma, trim, trim_non_empty, parse_reaction_names}
use jobworkerp_conductor.Admin.Slack.Validation.{
  Syntax, byte_len, check_reaction, check_reactions, validate_reaction_names, validate_workflow_url,
  validate_target_url, all_chars, reaction_char, contains_dots,
}

module _ (syntax : Syntax) where
  open syntax use {is_whitespace, is_alphanumeric}

  -- At most 100 bytes, of allowed characters.
  abbrev pub IsReactionName : String → Type 0
  IsReactionName name =
      (byte_len name ≤ 100) × (all_chars (reaction_char is_alphanumeric) name ≡ true)

  checked-IsReactionName :
      (name : String) → check_reaction syntax name ≡ ok tt → IsReactionName name
  unfolding check_reaction
  checked-IsReactionName name h = (ground (arith, h), ground (arith, h))

  checked-All :
      (names : List String) → check_reactions syntax names ≡ ok tt → All IsReactionName names
  unfolding check_reactions
  checked-All nil h = tt
  checked-All (cons name rest) h =
      let checked = (both_ok (check_reaction syntax name) (check_reactions syntax rest)).0 h in
      (checked-IsReactionName name checked.0, checked-All rest checked.1)

  kept-length :
      (names : List String)
      → length (trim_non_empty is_whitespace names) ≤ length (map (trim is_whitespace) names)
  unfolding trim_non_empty
  kept-length nil = omega arith
  kept-length (cons name rest) = elim (Bool-cases (trim is_whitespace name == [])) [
    | inl blank ↦ rw blank (omega (arith, kept-length rest))
    | inr full ↦ rw full (omega (arith, kept-length rest))
  ]

  kept-All :
      (names : List String)
      → All IsReactionName (map (trim is_whitespace) names)
      → All IsReactionName (trim_non_empty is_whitespace names)
  unfolding trim_non_empty
  kept-All nil a = tt
  kept-All (cons name rest) a = elim (Bool-cases (trim is_whitespace name == [])) [
    | inl blank ↦ rw blank (kept-All rest a.1)
    | inr full ↦ rw full (a.0, kept-All rest a.1)
  ]

  -- If the reaction names are valid, the cache parses them to at most 50 names, each of at most 100
  -- bytes and of the allowed characters only.
  pub validate_reaction_names-bounds :
      (names : String)
      → validate_reaction_names syntax names ≡ ok tt
      → (length (parse_reaction_names is_whitespace names) ≤ 50)
        × All IsReactionName (parse_reaction_names is_whitespace names)
  unfolding validate_reaction_names parse_reaction_names
  validate_reaction_names-bounds names h =
      elim (Bool-cases (ltb 50 (length (map (trim is_whitespace) (split_comma names))))) [
        | inl many ↦ cc (rw many at h)
        | inr few ↦ (
          ground (arith, few, kept-length (split_comma names)),
          kept-All (split_comma names) (checked-All _ (rw few at h)),
        )
      ]

-- One of the three schemes.
abbrev pub has_scheme : String → Bool
has_scheme url =
    starts_with url "http://" || starts_with url "https://" || starts_with url "file://"

-- A worker with a name, or a workflow whose URL is short, has an allowed scheme and no "..".
abbrev pub IsSafe : Option ResolvedTarget → Type 0
IsSafe none = ⊥
IsSafe (some (worker_target name using)) = is_empty name ≡ false
IsSafe (some (workflow_target url channel)) =
    (is_empty url ≡ false)
    × (byte_len url ≤ 2048)
    × (contains_dots url ≡ false)
    × (has_scheme url ≡ true)

valid_url-bounds :
    (url : String)
    → validate_workflow_url url ≡ ok tt
    → (byte_len url ≤ 2048) × (contains_dots url ≡ false) × (has_scheme url ≡ true)
unfolding validate_workflow_url
valid_url-bounds url h = ground (arith, h)

pub resolved-IsSafe :
    (target : Option ExecutionTarget) (url channel : String)
    → validate_execution_target target url ≡ ok tt
    → validate_target_url target url ≡ ok tt
    → IsSafe (resolve_slack target url channel)
unfolding validate_execution_target validate_target_url resolve_slack
resolved-IsSafe (some (worker w)) url channel v u = ground (arith, v)
resolved-IsSafe (some (workflow wf)) url channel v u =
    let b = valid_url-bounds wf.workflow_url u in (ground (arith, v), b.0, b.1, b.2)
resolved-IsSafe none url channel v u = elim (Bool-cases (is_empty url)) [
  | inl blank ↦ cc (rw blank at v)
  | inr full ↦
      let u' = rw full at u in let b = valid_url-bounds url u' in rw full (full, b.0, b.1, b.2)
]
