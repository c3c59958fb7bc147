-- ===== src/Slack/Names.antt =====
-- The reaction names of a handler, from the comma-separated text of its configuration:
-- `names.split(',').map(|s| s.trim().to_string()).filter(|s| !s.is_empty())` of
-- slack-event-handler/src/config_cache.rs. `is_whitespace` is the method of `char`.
use Prim.Native.Char.{Char, code}
use Prim.Native.String.{String, [], ◌∷◌}
use mathlib.Core.List.{[] as nil, ◌∷◌ as cons}
use jobworkerp_conductor.Prelude.{Bool, List, if◌then◌else◌, nat_eq, ◌==◌, String-HasEq}

abbrev pub is_comma : Char → Bool
is_comma c = nat_eq (code c) 44

-- A character goes to the front of the first part.
abbrev pub extend_first : Char → List String → List String
extend_first c nil = cons (c ∷ []) nil
extend_first c (cons part parts) = cons (c ∷ part) parts

unfoldable pub split_comma : String → List String
split_comma [] = cons [] nil
split_comma (c ∷ s) =
    let parts = split_comma s in if is_comma c then cons [] parts else extend_first c parts

module _ (is_whitespace : Char → Bool) where
  unfoldable pub trim_start : String → String
  trim_start [] = []
  trim_start (c ∷ s) = let rest = trim_start s in if is_whitespace c then rest else c ∷ s

  abbrev pub keep_unless_blank : Char → String → String
  keep_unless_blank c [] = if is_whitespace c then [] else c ∷ []
  keep_unless_blank c (d ∷ s) = c ∷ d ∷ s

  unfoldable pub trim_end : String → String
  trim_end [] = []
  trim_end (c ∷ s) = keep_unless_blank c (trim_end s)

  unfoldable pub trim : String → String
  unfolding trim_start trim_end
  trim s = trim_end (trim_start s)

  unfoldable pub trim_non_empty : List String → List String
  unfolding trim
  trim_non_empty nil = nil
  trim_non_empty (cons s rest) =
      let kept = trim_non_empty rest in if trim s == [] then kept else cons (trim s) kept

  unfoldable pub parse_reaction_names : String → List String
  unfolding split_comma trim_non_empty
  parse_reaction_names names = trim_non_empty (split_comma names)
