-- ===== src/Store/Indices.antt =====
-- `validate_index_consistency` (shared/src/local_config_store.rs): each id map and its name index are
-- compared in two loops, and the first difference is the error.
use jobworkerp_conductor.Prelude.{
  ℕ, String, Option, none, some, [], ◌∷◌, Result, ok, err, ◌>>◌, if◌then◌else◌, option_eq, ℕ-HasEq,
  String-HasEq,
}
use jobworkerp_conductor.HashMap.{HashMap, get, contains_key}
use jobworkerp_conductor.Proto.{Entity}
use jobworkerp_conductor.Registry.{Registry}
use jobworkerp_conductor.Store.{LocalConfigStore, cron_name, handler_name, server_name, slack_name}

pub data IndexKind : Type 0 where
  cron_index handler_index server_index slack_index : IndexKind

pub data IndexError : Type 0 where
  inconsistent : IndexKind → (id : ℕ) → (name : String) → (reverse_id : Option ℕ) → IndexError
  orphaned : IndexKind → (name : String) → (id : ℕ) → IndexError

module _ {D : Type 0} (kind : IndexKind) (name : D → String) where
  unfoldable pub check_reverse : HashMap String ℕ → ℕ → Option D → Result IndexError (Unit {0})
  check_reverse index id none = ok tt
  check_reverse index id (some payload) =
      if option_eq (get (name payload) index) (some id)
      then ok tt
      else err (inconsistent kind id (name payload) (get (name payload) index))

  unfoldable pub check_entities :
      HashMap String ℕ → HashMap ℕ (Entity D) → Result IndexError (Unit {0})
  unfolding check_reverse
  check_entities index [] = ok tt
  check_entities index ((id, entity) ∷ m) = do
    check_reverse index id entity.payload
    check_entities index m

  unfoldable pub check_orphans :
      HashMap ℕ (Entity D) → HashMap String ℕ → Result IndexError (Unit {0})
  check_orphans entities [] = ok tt
  check_orphans entities ((n, id) ∷ index) = do
    if contains_key entities id then ok tt else err (orphaned kind n id)
    check_orphans entities index

  unfoldable pub check_index : Registry D → Result IndexError (Unit {0})
  unfolding check_entities check_orphans
  check_index r = do check_entities r.name_index r.entities; check_orphans r.entities r.name_index

unfoldable pub validate_index_consistency : LocalConfigStore → Result IndexError (Unit {0})
unfolding check_index
validate_index_consistency s = do
  check_index cron_index cron_name s.cron_schedulers
  check_index handler_index handler_name s.worker_result_handlers
  check_index server_index server_name s.jobworkerp_servers
  check_index slack_index slack_name s.slack_event_handlers
