-- ===== src/Slack/Current.antt =====
-- What the cache of Slack conditions holds of a handler after its change event.
use jobworkerp_conductor.Prelude.{
  ℕ, String, ◌≡◌, refl, sym, ap, ◌∙◌, Option, none, some, List, Result, ok, err, and_then, ok_or,
  ◌||◌, Bool-cases, inl, inr, ℕ-HasEq,
}
use jobworkerp_conductor.HashMap.{get, contains_key, get-insert_same, get-remove_same}
use jobworkerp_conductor.Events.{
  create_slack_event_handler_updated, create_slack_event_handler_deleted,
}
use jobworkerp_conductor.Events.Accessors.{action, as_slack_event_handler}
use jobworkerp_conductor.Proto.{JobworkerpServer, SlackEventHandlerData, SlackEventHandlerId}
use jobworkerp_conductor.Slack.Names.{parse_reaction_names}
use jobworkerp_conductor.Slack.Cache.{
  Patterns, CacheError, SlackHandlerCache, CacheOutcome, and_continue, keep_message_pattern,
  cache_message_pattern, keep_user_filter, cache_user_filter, cache_reaction_names, compile_parts,
  compile_and_cache_patterns, touch, invalidate_handler, recompile, invalid_message_pattern,
  invalid_user_filter, update_handler_cache_from_event, apply_slack_event, apply_slack_action,
  invalidate_deleted,
}

module _ (patterns : Patterns) (id : SlackEventHandlerId) where
  open patterns use {Regex, compile, is_whitespace}

  -- The cached forms of the three conditions.
  pub record Entries : Type 0 where
    pub message_pattern : Option Regex
    pub user_filter : Option Regex
    pub reaction_names : Option (List String)

  abbrev pub entries : SlackHandlerCache patterns → Entries
  entries c = record {
    message_pattern = get id c.message_pattern_cache;
    user_filter = get id c.reaction_user_filter_cache;
    reaction_names = get id c.reaction_names_cache;
  }

  abbrev pub parsed : Option String → Option (List String)
  parsed none = none
  parsed (some names) = some (parse_reaction_names is_whitespace names)

  names-entries :
      (o : Option String) (c : SlackHandlerCache patterns)
      → get id c.reaction_names_cache ≡ none
      → entries (cache_reaction_names patterns id o c)
        ≡ record (entries c) { reaction_names = parsed o }
  unfolding cache_reaction_names
  names-entries none c free = ap (λ r. record (entries c) { reaction_names = r }) free
  names-entries (some names) c free =
      ap (λ r. record (entries c) { reaction_names = r })
        (get-insert_same id _ c.reaction_names_cache)

  -- The outcome of the user filter: an error, or the entry that the filter compiles to.
  kept_filter-entries :
      (made : Result CacheError Regex) (c : SlackHandlerCache patterns)
      (k : SlackHandlerCache patterns → CacheOutcome patterns) (u : Unit {0})
      → (and_continue patterns (keep_user_filter patterns id c made) k).0 ≡ ok u
      → (c' : SlackHandlerCache patterns) × (r : Regex) × (made ≡ ok r)
        × (and_continue patterns (keep_user_filter patterns id c made) k ≡ k c')
        × (entries c' ≡ record (entries c) { user_filter = some r })
  unfolding keep_user_filter
  kept_filter-entries (ok r) c k u h =
      (_, r, refl, refl, ap (λ v. record (entries c) { user_filter = v }) (get-insert_same id r _))
  kept_filter-entries (err e) c k u h = cc h

  kept_message-entries :
      (made : Result CacheError Regex) (c : SlackHandlerCache patterns)
      (k : SlackHandlerCache patterns → CacheOutcome patterns) (u : Unit {0})
      → (and_continue patterns (keep_message_pattern patterns id c made) k).0 ≡ ok u
      → (c' : SlackHandlerCache patterns) × (r : Regex) × (made ≡ ok r)
        × (and_continue patterns (keep_message_pattern patterns id c made) k ≡ k c')
        × (entries c' ≡ record (entries c) { message_pattern = some r })
  unfolding keep_message_pattern
  kept_message-entries (ok r) c k u h = (
    _,
    r,
    refl,
    refl,
    ap (λ v. record (entries c) { message_pattern = v }) (get-insert_same id r _),
  )
  kept_message-entries (err e) c k u h = cc h

  some-ok_or : (e : CacheError) (o : Option Regex) (r : Regex) → ok_or e o ≡ ok r → o ≡ some r
  some-ok_or e (some x) r h = cc h
  some-ok_or e none r h = cc h

  filter-entries :
      (o : Option String) (c : SlackHandlerCache patterns)
      (k : SlackHandlerCache patterns → CacheOutcome patterns) (u : Unit {0})
      → get id c.reaction_user_filter_cache ≡ none
      → (and_continue patterns (cache_user_filter patterns id o c) k).0 ≡ ok u
      → (c' : SlackHandlerCache patterns) × (and_continue patterns
            (cache_user_filter patterns id o c)
            k
          ≡ k c')
        × (entries c' ≡ record (entries c) { user_filter = and_then o compile })
  unfolding cache_user_filter
  filter-entries none c k u free h =
      (c, refl, ap (λ v. record (entries c) { user_filter = v }) free)
  filter-entries (some filter) c k u free h =
      let s = kept_filter-entries (ok_or (invalid_user_filter filter) (compile filter)) c k u h in
      (
        s.0,
        s.3,
        s.4
            ∙ ap (λ v. record (entries c) { user_filter = v })
                (sym (some-ok_or (invalid_user_filter filter) (compile filter) s.1 s.2)),
      )

  message-entries :
      (o : Option String) (c : SlackHandlerCache patterns)
      (k : SlackHandlerCache patterns → CacheOutcome patterns) (u : Unit {0})
      → get id c.message_pattern_cache ≡ none
      → (and_continue patterns (cache_message_pattern patterns id o c) k).0 ≡ ok u
      → (c' : SlackHandlerCache patterns) × (and_continue patterns
            (cache_message_pattern patterns id o c)
            k
          ≡ k c')
        × (entries c' ≡ record (entries c) { message_pattern = and_then o compile })
  unfolding cache_message_pattern
  message-entries none c k u free h =
      (c, refl, ap (λ v. record (entries c) { message_pattern = v }) free)
  message-entries (some pattern) c k u free h =
      let s =
        kept_message-entries (ok_or (invalid_message_pattern pattern) (compile pattern)) c k u h in
      (
        s.0,
        s.3,
        s.4
            ∙ ap (λ v. record (entries c) { message_pattern = v })
                (sym (some-ok_or (invalid_message_pattern pattern) (compile pattern) s.1 s.2)),
      )

  abbrev pub no_entries : Entries
  no_entries = record { message_pattern = none; user_filter = none; reaction_names = none }

  abbrev pub compiled_entries : SlackEventHandlerData → Entries
  compiled_entries d = record {
    message_pattern = and_then d.message_pattern compile;
    user_filter = and_then d.reaction_user_filter compile;
    reaction_names = parsed d.reaction_names;
  }

  entries-invalidate_handler :
      (now : ℕ) (c : SlackHandlerCache patterns)
      → entries (invalidate_handler patterns now id c) ≡ no_entries
  unfolding invalidate_handler touch
  entries-invalidate_handler now c =
      elim (Bool-cases (
        contains_key c.message_pattern_cache id
        || contains_key c.reaction_user_filter_cache id
        || contains_key c.reaction_names_cache id)) [
          | inl held ↦
              rw
                (
                  held,
                  get-remove_same id c.message_pattern_cache,
                  get-remove_same id c.reaction_user_filter_cache,
                  get-remove_same id c.reaction_names_cache,
                )
                refl
          | inr empty ↦
              rw
                (
                  empty,
                  get-remove_same id c.message_pattern_cache,
                  get-remove_same id c.reaction_user_filter_cache,
                  get-remove_same id c.reaction_names_cache,
                )
                refl
        ]

  compiled-entries :
      (now : ℕ) (d : SlackEventHandlerData) (c : SlackHandlerCache patterns) (u : Unit {0})
      → entries c ≡ no_entries
      → (compile_parts patterns now (some id) (some d) c).0 ≡ ok u
      → entries (compile_parts patterns now (some id) (some d) c).1 ≡ compiled_entries d
  unfolding compile_parts touch
  compiled-entries now d c u free h =
      let m = message-entries d.message_pattern c _ u (ap (λ e. e.message_pattern) free) h in
      let h' = sym (ap (λ o. o.0) m.1) ∙ h in
      let f =
        filter-entries d.reaction_user_filter m.0 _ u
          (ap (λ e. e.user_filter) m.2 ∙ ap (λ e. e.user_filter) free) h' in
      let names =
        ap (λ e. e.reaction_names) f.2
        ∙ ap (λ e. e.reaction_names) m.2
        ∙ ap (λ e. e.reaction_names) free in
      ap (λ o. entries o.1) m.1
      ∙ ap (λ o. entries o.1) f.1
      ∙ names-entries d.reaction_names f.0 names
      ∙ ap {A = Entries} (λ e. record e { reaction_names = parsed d.reaction_names }) f.2
      ∙ ap {A = Entries}
          (λ e. record e {
            user_filter = and_then d.reaction_user_filter compile;
            reaction_names = parsed d.reaction_names;
          })
          m.2
      ∙ ap {A = Entries}
          (λ e. record e {
            message_pattern = and_then d.message_pattern compile;
            user_filter = and_then d.reaction_user_filter compile;
            reaction_names = parsed d.reaction_names;
          })
          free

  -- After the event of an updated handler, where the update of the cache succeeds, the cache holds of
  -- the handler exactly what its new configuration says: the compiled form of each pattern that is
  -- set, the parsed reaction names, and nothing for a condition that is not set. After the event of
  -- a deleted handler it holds nothing of it.
  pub update_handler_cache_from_event-entries :
      (now created_at : ℕ) (name : String) (d : SlackEventHandlerData)
      (related : Option JobworkerpServer) (c : SlackHandlerCache patterns)
      → (update_handler_cache_from_event patterns now
          (create_slack_event_handler_updated created_at name (some id) (some d) related).inner
          c).0
        ≡ ok tt
      → (entries
            (update_handler_cache_from_event patterns now
              (create_slack_event_handler_updated created_at name (some id) (some d) related).inner
              c).1
          ≡ compiled_entries d)
        × (entries
              (update_handler_cache_from_event patterns now
                (create_slack_event_handler_deleted created_at name (some id)).inner
                c).1
            ≡ no_entries)
  unfolding update_handler_cache_from_event apply_slack_event apply_slack_action recompile
      invalidate_deleted compile_and_cache_patterns action as_slack_event_handler
      create_slack_event_handler_updated create_slack_event_handler_deleted
  update_handler_cache_from_event-entries now created_at name d related c h = (
    compiled-entries now d (invalidate_handler patterns now id c) tt
        (entries-invalidate_handler now c) h,
    entries-invalidate_handler now c,
  )
