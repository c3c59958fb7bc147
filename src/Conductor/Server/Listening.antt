-- ===== src/Conductor/Server/Listening.antt =====
-- The listeners after `start_initial_listeners`, in whatever order the map of handlers is iterated.
use jobworkerp_conductor.Prelude.{
  ℕ, String, ◌≡◌, refl, sym, ap, ◌∙◌, ◌≢◌, arith, Bool, true, none, some, Result, ok, err, [], ◌∷◌,
  ◌==◌, ==_refl, nat_eq_iff, inl, inr, Bool-cases, ℕ-HasEq, String-HasEq,
}
use jobworkerp_conductor.HashMap.{
  HashMap, get, remove, get-insert_same, get-insert_other, get-remove_same, get-remove_other,
}
use jobworkerp_conductor.HashMap.Entries.{HasUniqueKeys}
use jobworkerp_conductor.Proto.{WorkerResultHandler, WorkerResultHandlerData, WorkerResultHandlerId}
use jobworkerp_conductor.Registry
use jobworkerp_conductor.Registry.Consistency.{IsConsistent, IsComplete}
use jobworkerp_conductor.Store.{LocalConfigStore, handler_name, get_worker_result_handler}
use jobworkerp_conductor.Slack.Cache.{Patterns}
use jobworkerp_conductor.Conductor.Scheduler.{CronRuntime}
use jobworkerp_conductor.Conductor.Listener.{
  ListenerSetting, ListenerError, Listeners, create_listener_setting_from_local, spawn_listener,
  add_configured, add_handler, add_listener_from_local,
}
use jobworkerp_conductor.Conductor.Listener.Lifecycle.{expected}
use jobworkerp_conductor.Conductor.Server.{start_listener, start_listeners, start_initial_listeners}

module _ (runtime : CronRuntime) (patterns : Patterns) (connects : String → Bool)
    (store : LocalConfigStore) where
  module _ (name : String) (m : Listeners) where
    spawned-same :
        (made : Result ListenerError ListenerSetting)
        → get name (spawn_listener connects name (remove name m) made).1 ≡ expected true made
    unfolding spawn_listener
    spawned-same (ok setting) = get-insert_same name setting _
    spawned-same (err e) = get-remove_same name _

    spawned-other :
        (n : String) (made : Result ListenerError ListenerSetting)
        → n ≢ name
        → get n (spawn_listener connects name (remove name m) made).1 ≡ get n m
    unfolding spawn_listener
    spawned-other n (ok setting) ne =
        get-insert_other name n setting _ ne ∙ get-remove_other name n m ne
    spawned-other n (err e) ne = get-remove_other name n m ne

  -- One pass of the loop, for a handler that the store holds.
  module _ (id : WorkerResultHandlerId) (handler : WorkerResultHandler)
      (d : WorkerResultHandlerData)
      (stored : get id store.worker_result_handlers.entities ≡ some handler)
      (has_payload : handler.payload ≡ some d) (m : Listeners) where
    added :
        (add_listener_from_local connects store id m).1
        ≡ (add_configured connects store id m (some d)).1
    unfolding add_listener_from_local get_worker_result_handler add_handler
    added =
        ap (λ o. (add_handler connects store id m o).1) stored
        ∙ ap (λ o. (add_configured connects store id m o).1) has_payload

    started-same :
        d.enabled ≡ true
        → get d.name (start_listener runtime patterns connects store (some id) (some d) m)
          ≡ expected true (create_listener_setting_from_local connects store id d)
    unfolding start_listener add_configured
    started-same on = rw on (ap (get d.name) added ∙ rw on (spawned-same d.name m _))

    started-other :
        (n : String)
        → n ≢ d.name
        → get n (start_listener runtime patterns connects store (some id) (some d) m) ≡ get n m
    unfolding start_listener add_configured
    started-other n ne = elim (Bool-cases d.enabled) [
      | inl on ↦ rw on (ap (get n) added ∙ rw on (spawned-other d.name m n _ ne))
      | inr off ↦ rw off refl
    ]

  -- The entries that are still to come are among those of the store.
  abbrev Among : HashMap ℕ WorkerResultHandler → Type 0
  Among es =
      (j : ℕ) (e : WorkerResultHandler)
      → get j es ≡ some e
      → get j store.worker_result_handlers.entities ≡ some e

  Among-rest :
      (j : ℕ) (e : WorkerResultHandler) (es : HashMap ℕ WorkerResultHandler)
      → get j es ≡ none
      → Among ((j, e) ∷ es)
      → Among es
  unfolding get
  Among-rest j e es fresh among k e' g = elim (Bool-cases (j == k)) [
    | inl same ↦ cc (ap (λ i. get i es) ((nat_eq_iff j k).0 same), fresh, g)
    | inr other ↦ among k e' (rw other g)
  ]

  module _ (c : IsConsistent handler_name store.worker_result_handlers) (id : WorkerResultHandlerId)
      (handler : WorkerResultHandler) (d : WorkerResultHandlerData)
      (stored : get id store.worker_result_handlers.entities ≡ some handler)
      (has_payload : handler.payload ≡ some d) where
    -- A handler with another id has another name.
    other_name :
        (j : ℕ) (e : WorkerResultHandler) (dj : WorkerResultHandlerData)
        → get j store.worker_result_handlers.entities ≡ some e
        → e.payload ≡ some dj
        → j ≢ id
        → d.name ≢ dj.name
    other_name j e dj g p ne same =
        let mine = c.indexed id handler d stored has_payload in
        let theirs = c.indexed j e dj g p in
        let both : some id ≡ some j =
          sym mine ∙ ap (λ n. get n store.worker_result_handlers.name_index) same ∙ theirs in
        ne (cc both)

    -- The pass for an entry, with the entity's parts known.
    pass :
        (j : ℕ) (e : WorkerResultHandler) (k : IsComplete handler_name j e) (m : Listeners)
        → start_listener runtime patterns connects store e.id e.payload m
          ≡ start_listener runtime patterns connects store (some j) (some k.payload) m
    pass j e k m =
        ap (λ i. start_listener runtime patterns connects store i e.payload m) k.same_id
        ∙ ap (λ p. start_listener runtime patterns connects store (some j) p m) k.has_payload

    rest-other :
        (es : HashMap ℕ WorkerResultHandler) (m : Listeners)
        → HasUniqueKeys es
        → Among es
        → get id es ≡ none
        → get d.name (start_listeners runtime patterns connects store (Registry.get_all es) m)
          ≡ get d.name m
    unfolding start_listeners Registry.get_all get
    rest-other [] m u among absent = refl
    rest-other ((j, e) ∷ es) m u among absent =
        let g = among j e (rw (==_refl j) refl) in
        let k = c.complete j e g in
        elim (Bool-cases (j == id)) [
          | inl same ↦ cc (rw same at absent)
          | inr other ↦
              let ne : j ≢ id = λ h. ground (arith, nat_eq_iff j id) in
              rest-other es _ u.1 (Among-rest j e es u.0 among) (rw other at absent)
              ∙ ap (get d.name) (pass j e k m)
              ∙ started-other j e k.payload g k.has_payload m d.name
                  (other_name j e k.payload g k.has_payload ne)
        ]

    each-listens :
        (es : HashMap ℕ WorkerResultHandler) (m : Listeners)
        → HasUniqueKeys es
        → Among es
        → get id es ≡ some handler
        → d.enabled ≡ true
        → get d.name (start_listeners runtime patterns connects store (Registry.get_all es) m)
          ≡ expected true (create_listener_setting_from_local connects store id d)
    unfolding start_listeners Registry.get_all get
    each-listens [] m u among found on = cc found
    each-listens ((j, e) ∷ es) m u among found on = elim (Bool-cases (j == id)) [
      | inl same ↦
          let ids : j ≡ id = (nat_eq_iff j id).0 same in
          let e_is : e ≡ handler = cc (rw same at found) in
          let none_left : get id es ≡ none = ap (λ i. get i es) (sym ids) ∙ u.0 in
          let k = c.complete id handler stored in
          let d_is : some k.payload ≡ some d = sym k.has_payload ∙ has_payload in
          rest-other es _ u.1 (Among-rest j e es u.0 among) none_left
          ∙ ap (λ h. get d.name (start_listener runtime patterns connects store h.id h.payload m))
              e_is
          ∙ ap (get d.name) (pass id handler k m)
          ∙ ap (λ p. get d.name (start_listener runtime patterns connects store (some id) p m)) d_is
          ∙ started-same id handler d stored has_payload m on
      | inr other ↦ each-listens es _ u.1 (Among-rest j e es u.0 among) (rw other at found) on
    ]

    -- After `start_initial_listeners` over a store whose handlers are consistent, the name of each
    -- enabled handler has the listener that its configuration asks for, or none if its setting
    -- cannot be made: whatever ran before, and in whatever order the handlers are started.
    pub start_initial_listeners-listens :
        (m : Listeners)
        → d.enabled ≡ true
        → get d.name (start_initial_listeners runtime patterns connects store m)
          ≡ expected true (create_listener_setting_from_local connects store id d)
    unfolding start_initial_listeners
    start_initial_listeners-listens m on =
        each-listens store.worker_result_handlers.entities m c.unique_ids (λ j e g. g) stored on
