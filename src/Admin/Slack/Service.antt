-- ===== src/Admin/Slack/Service.antt =====
-- `SlackEventHandlerAppImpl` (api/app/src/app/slack_event_handler.rs): creation, update, deletion and
-- search. Unlike the other services it tells whether a row was touched, clears the name from the cache
-- too, sends the related server, and fails when the notification does.
use jobworkerp_conductor.Prelude.{
  ℕ, String, Bool, true, false, Option, none, some, List, ◌∷◌, Result, ok, err, if◌then◌else◌, map,
}
use jobworkerp_conductor.Proto.{
  SlackEventHandler, SlackEventHandlerData, SlackEventHandlerId, JobworkerpServer,
  JobworkerpServerId,
}
use jobworkerp_conductor.Events.{
  ConfigChangeEventWrapper, create_slack_event_handler_created, create_slack_event_handler_updated,
  create_slack_event_handler_deleted,
}
use jobworkerp_conductor.Admin.Table.{DbError, Table, create, update, delete, find, find_by_name}
use jobworkerp_conductor.Admin.Table.Kinds.{slack_kind, server_kind}
use jobworkerp_conductor.Admin.Service.{find_cache_key, find_by_name_cache_key, MemoryCache}
use jobworkerp_conductor.Admin.Slack.Validation.{Syntax, SlackInvalid, validate_handler_data}

pub data SlackServiceError : Type 0 where
  invalid_handler : SlackInvalid → SlackServiceError
  database : DbError → SlackServiceError
  notification_failed : SlackServiceError
  transaction_failed : String → SlackServiceError

-- What comes after the statement: the lookup of the related server or the commit fails and rolls it
-- back, or the commit stands and the notification is sent or not.
pub data Ending : Type 0 where
  sent unsent : Ending
  rolled_back : (cause : String) → Ending

-- "enabled field is false (proto3 default), setting to true (DB default)"
unfoldable pub with_enabled : SlackEventHandlerData → SlackEventHandlerData
with_enabled d = if d.enabled then d else record d { enabled = true }

module _ (memory : MemoryCache SlackEventHandler) (syntax : Syntax) where
  open memory use {Cache, with_cache_if_some, delete_cache}

  -- The table of the servers belongs to another service; here it is only read.
  pub record SlackService : Type 0 where
    pub table : Table slack_kind
    pub servers : Table server_kind
    pub memory_cache : Cache
    pub published : List ConfigChangeEventWrapper

  abbrev pub Answer {ℓ} : Type ℓ → Type ℓ
  Answer A = Result SlackServiceError A × SlackService

  -- From the lookup of the related server to `notify(event).await?; Ok(a)`: `s` is the service before
  -- the statement and `s'` the one after it.
  unfoldable pub notify_or_fail {ℓ} :
      {A : Type ℓ} → Ending → ConfigChangeEventWrapper → A → SlackService → SlackService → Answer A
  notify_or_fail sent event a s s' = (ok a, record s' { published = event ∷ s'.published })
  notify_or_fail unsent event a s s' = (err notification_failed, s')
  notify_or_fail (rolled_back cause) event a s s' = (err (transaction_failed cause), s)

  unfoldable pub related_server : Option JobworkerpServerId → SlackService → Option JobworkerpServer
  unfolding find
  related_server none s = none
  related_server (some id) s = find server_kind id s.servers

  -- `memory_cache.remove` of both keys.
  abbrev pub forget : ℕ → String → SlackService → SlackService
  forget id name s = record s {
    memory_cache =
        delete_cache (find_by_name_cache_key name)
          (delete_cache (find_cache_key id) s.memory_cache);
  }

  unfoldable pub after_slack_create :
      ℕ
      → Ending
      → SlackEventHandlerData
      → SlackService
      → Result DbError ℕ × Table slack_kind
      → Answer SlackEventHandlerId
  unfolding notify_or_fail related_server
  after_slack_create now ending d s (err e, t) = (err (database e), s)
  after_slack_create now ending d s (ok id, t) =
      notify_or_fail ending
        (create_slack_event_handler_created now d.name (some id) (some d)
          (related_server d.jobworkerp_server_id s))
        id s (record s { table = t })

  unfoldable pub create_slack_valid :
      ℕ
      → Ending
      → ℕ
      → SlackEventHandlerData
      → SlackService
      → Result SlackInvalid (Unit {0})
      → Answer SlackEventHandlerId
  unfolding after_slack_create create
  create_slack_valid now ending id d s (err e) = (err (invalid_handler e), s)
  create_slack_valid now ending id d s (ok u) =
      after_slack_create now ending d s (create slack_kind id d s.table)

  unfoldable pub create_slack_event_handler :
      ℕ → Ending → ℕ → SlackEventHandlerData → SlackService → Answer SlackEventHandlerId
  unfolding create_slack_valid validate_handler_data with_enabled
  create_slack_event_handler now ending id d s =
      create_slack_valid now ending id (with_enabled d) s
        (validate_handler_data syntax (with_enabled d))

  unfoldable pub after_slack_update :
      ℕ
      → Ending
      → ℕ
      → SlackEventHandlerData
      → SlackService
      → Result DbError Bool × Table slack_kind
      → Answer Bool
  unfolding notify_or_fail related_server
  after_slack_update now ending id d s (err e, t) = (err (database e), s)
  after_slack_update now ending id d s (ok false, t) = (ok false, s)
  after_slack_update now ending id d s (ok true, t) =
      notify_or_fail ending
        (create_slack_event_handler_updated now d.name (some id) (some d)
          (related_server d.jobworkerp_server_id s))
        true s (forget id d.name (record s { table = t }))

  unfoldable pub update_slack_valid :
      ℕ
      → Ending
      → ℕ
      → SlackEventHandlerData
      → SlackService
      → Result SlackInvalid (Unit {0})
      → Answer Bool
  unfolding after_slack_update update
  update_slack_valid now ending id d s (err e) = (err (invalid_handler e), s)
  update_slack_valid now ending id d s (ok u) =
      after_slack_update now ending id d s (update slack_kind id d s.table)

  unfoldable pub update_slack_event_handler :
      ℕ → Ending → ℕ → SlackEventHandlerData → SlackService → Answer Bool
  unfolding update_slack_valid validate_handler_data
  update_slack_event_handler now ending id d s =
      update_slack_valid now ending id d s (validate_handler_data syntax d)

  abbrev pub name_or_default : Option SlackEventHandlerData → String
  name_or_default none = ""
  name_or_default (some d) = d.name

  unfoldable pub after_slack_delete :
      ℕ → Ending → ℕ → SlackEventHandler → SlackService → Bool × Table slack_kind → Answer Bool
  unfolding notify_or_fail
  after_slack_delete now ending id handler s (false, t) = (ok false, s)
  after_slack_delete now ending id handler s (true, t) =
      let name = name_or_default handler.payload in
      notify_or_fail ending (create_slack_event_handler_deleted now name (some id)) true s
        (forget id name (record s { table = t }))

  unfoldable pub delete_found :
      ℕ → Ending → ℕ → SlackService → Option SlackEventHandler → Answer Bool
  unfolding after_slack_delete delete
  delete_found now ending id s none = (ok false, s)
  delete_found now ending id s (some handler) =
      after_slack_delete now ending id handler s (delete slack_kind id s.table)

  unfoldable pub delete_slack_event_handler : ℕ → Ending → ℕ → SlackService → Answer Bool
  unfolding delete_found find
  delete_slack_event_handler now ending id s =
      delete_found now ending id s (find slack_kind id s.table)

  abbrev pub keep_slack_cache {ℓ} : {A : Type ℓ} → SlackService → A × Cache → A × SlackService
  keep_slack_cache s (found, cache) = (found, record s { memory_cache = cache })

  unfoldable pub find_slack_event_handler :
      ℕ → SlackService → Option SlackEventHandler × SlackService
  unfolding find
  find_slack_event_handler id s =
      keep_slack_cache s
        (with_cache_if_some (find_cache_key id) (find slack_kind id s.table) s.memory_cache)

  unfoldable pub find_slack_event_handler_by_name :
      String → SlackService → Option SlackEventHandler × SlackService
  unfolding find_by_name
  find_slack_event_handler_by_name name s = keep_slack_cache s (
      with_cache_if_some (find_by_name_cache_key name) (find_by_name slack_kind name s.table)
        s.memory_cache)

  -- `find_all`: in whatever order the table has.
  unfoldable pub find_slack_event_handler_list : SlackService → List SlackEventHandler
  find_slack_event_handler_list s = map (λ e. slack_kind.to_proto e.1) s.table
