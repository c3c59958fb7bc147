-- ===== src/Store/Proofs/Indices.antt =====
-- What the operations lead to passes `validate_index_consistency`.
use jobworkerp_conductor.Prelude.{
  ℕ, String, ◌≡◌, refl, arith, Bool, true, Option, none, some, [], ◌∷◌, ok, option_eq, ==_refl,
  ℕ-HasEq, String-HasEq,
}
use jobworkerp_conductor.HashMap.{HashMap, get, contains_key}
use jobworkerp_conductor.HashMap.Entries.{all_entries, all_entries_complete}
use jobworkerp_conductor.Proto.{Entity}
use jobworkerp_conductor.Registry.{Registry}
use jobworkerp_conductor.Registry.Consistency.{IsConsistent}
use jobworkerp_conductor.Store.{LocalConfigStore, cron_name, handler_name, server_name, slack_name}
use jobworkerp_conductor.Store.Indices.{
  IndexKind, cron_index, handler_index, server_index, slack_index, check_reverse, check_entities,
  check_orphans, check_index, validate_index_consistency,
}
use jobworkerp_conductor.Store.Proofs.WellFormed.{IsWellFormed}
use jobworkerp_conductor.Store.Proofs.Reach.{Reach, Reach-IsWellFormed}

module _ {D : Type 0} (kind : IndexKind) (name : D → String) where
  -- The two tests, as the loops make them.
  abbrev reverse_found : HashMap String ℕ → ℕ → Option D → Bool
  reverse_found index id none = true
  reverse_found index id (some payload) = option_eq (get (name payload) index) (some id)

  found_reverse :
      (index : HashMap String ℕ) (id : ℕ) (o : Option D)
      → ((payload : D) → o ≡ some payload → get (name payload) index ≡ some id)
      → reverse_found index id o ≡ true
  found_reverse index id none h = refl
  found_reverse index id (some payload) h = rw (h payload refl) (==_refl id)

  reverse-passes :
      (index : HashMap String ℕ) (id : ℕ) (o : Option D)
      → reverse_found index id o ≡ true
      → check_reverse kind name index id o ≡ ok tt
  unfolding check_reverse
  reverse-passes index id none h = refl
  reverse-passes index id (some payload) h = rw h refl

  entities-pass :
      (index : HashMap String ℕ) (m : HashMap ℕ (Entity D))
      → all_entries (λ id entity. reverse_found index id entity.payload) m ≡ true
      → check_entities kind name index m ≡ ok tt
  unfolding check_entities
  entities-pass index [] h = refl
  entities-pass index ((id, entity) ∷ m) h =
      rw
        (
          reverse-passes index id entity.payload (ground (arith, h)),
          entities-pass index m (ground (arith, h)),
        )
        refl

  orphans-pass :
      (entities : HashMap ℕ (Entity D)) (index : HashMap String ℕ)
      → all_entries (λ n id. contains_key entities id) index ≡ true
      → check_orphans kind name entities index ≡ ok tt
  unfolding check_orphans
  orphans-pass entities [] h = refl
  orphans-pass entities ((n, id) ∷ index) h =
      let present : contains_key entities id ≡ true = ground (arith, h) in
      rw (present, orphans-pass entities index (ground (arith, h))) refl

  consistent-passes : (r : Registry D) → IsConsistent name r → check_index kind name r ≡ ok tt
  unfolding check_index
  consistent-passes r c =
      rw
        (
          entities-pass r.name_index r.entities (
              all_entries_complete (λ id entity. reverse_found r.name_index id entity.payload)
                r.entities c.unique_ids
                (λ id entity g.
                  found_reverse r.name_index id entity.payload
                    (λ payload p. c.indexed id entity payload g p))),
          orphans-pass r.entities r.name_index (
              all_entries_complete (λ n id. contains_key r.entities id) r.name_index c.unique_names
                (λ n id g. rw (c.pointed n id g).found refl)),
        )
        refl

-- Whatever sequence of operations is run from a well-formed store, `validate_index_consistency`
-- succeeds on the store that it leads to, if upserts have free names and an imported export has
-- unique keys, entities that are complete, and distinct names.
pub Reach-validates :
    {s t : LocalConfigStore} → IsWellFormed s → Reach s t → validate_index_consistency t ≡ ok tt
unfolding validate_index_consistency
Reach-validates {s} {t} w r =
    let w' = Reach-IsWellFormed w r in
    rw
      (
        consistent-passes cron_index cron_name t.cron_schedulers w'.cron,
        consistent-passes handler_index handler_name t.worker_result_handlers w'.worker,
        consistent-passes server_index server_name t.jobworkerp_servers w'.server,
        consistent-passes slack_index slack_name t.slack_event_handlers w'.slack,
      )
      refl
