-- ===== src/Admin/Transfer.antt =====
-- Import of a configuration file into the tables (api/infra/src/infra/config_management/rdb.rs). The
-- file is given as TOML has parsed it; the crate url is the interface `Urls`, the generated ids are
-- those of `generate_id` by their number.
pub mod Import
pub mod Sound
pub mod Integrity
pub mod Export
mod Tests
use mathlib.Core.Option
use jobworkerp_conductor.Prelude.{
  ℕ, ◌+◌, String, Bool, true, false, not, ◌&&◌, Option, none, some, List, [], ◌∷◌, Result, ok, err,
  ◌>>=◌, ◌>>◌, ok_or, if◌then◌else◌, ◌==◌, ◌||◌, String-HasEq, ℕ-HasEq, length, and_then,
}
use jobworkerp_conductor.HashMap.{HashMap, get, insert}
use jobworkerp_conductor.Execution.Target.{is_empty, non_empty}
use jobworkerp_conductor.Admin.Rows.Targets.{Columns, worker_mode}
use jobworkerp_conductor.Admin.Table.{DbError, Table, insert_row}
use jobworkerp_conductor.Admin.Table.Kinds.{cron_kind, handler_kind, server_kind, slack_kind}

-- `JobWorkerpSetting`, `WorkflowSettingItem` and `WorkflowSettingFile`
-- (jobworkerp-handler/src/settings.rs).
pub record JobWorkerpSetting : Type 0 where
  pub name : String
  pub address : String

pub record WorkflowSettingItem : Type 0 where
  pub name : String
  pub jobworkerp : String
  pub workflow_url : String
  pub channel : Option String
  pub listen_worker_name : Option String
  pub listen_jobworkerp : Option String
  pub crontab : Option String
  pub args : Option String
  pub worker_name : Option String
  pub using : Option String

pub record WorkflowSettingFile : Type 0 where
  pub jobworkerp : List JobWorkerpSetting
  pub listeners : Option (List WorkflowSettingItem)
  pub schedulers : Option (List WorkflowSettingItem)

pub record Urls : Type 1 where
  pub Url : Type 0
  pub parse : String → Option Url
  pub host_str : Url → Option String
  pub scheme : Url → String
  -- The port, if the URL has one that is not the default, as it is written.
  pub port : Url → Option String

pub data TransferError : Type 0 where
  no_servers : TransferError
  duplicate_server invalid_url missing_host : String → TransferError
  no_target : String → TransferError
  missing_crontab missing_listen_worker missing_listen_server : String → TransferError
  unknown_server : (server item : String) → TransferError
  refused : DbError → TransferError

pub record Database : Type 0 where
  pub servers : Table server_kind
  pub crons : Table cron_kind
  pub handlers : Table handler_kind
  pub slack : Table slack_kind

abbrev pub or_none {ℓ} : {A : Type ℓ} → Option (List A) → List A
or_none none = []
or_none (some items) = items

-- The three DELETE statements; the Slack handlers stay.
unfoldable pub clear_all_configs : Database → Database
clear_all_configs db = record db { servers = []; crons = []; handlers = [] }

abbrev pub names_item : String → List JobWorkerpSetting → Bool
names_item name [] = false
names_item name (server ∷ rest) = server.name == name || names_item name rest

-- Either a worker's name or a workflow's URL is set.
unfoldable pub validate_items : List WorkflowSettingItem → Result TransferError (Unit {0})
validate_items [] = ok tt
validate_items (item ∷ rest) =
    let checked = validate_items rest in
    if not (worker_mode item.worker_name) && is_empty item.workflow_url
    then err (no_target item.name)
    else checked

module _ (urls : Urls) where
  open urls use {parse, host_str, scheme, port}

  pub record Address : Type 0 where
    pub host : String
    pub port_number : String
    pub ssl_enabled : Bool

  unfoldable pub parse_server_address : String → Result TransferError Address
  parse_server_address address = do
    url ← ok_or (invalid_url address) (parse address)
    host ← ok_or (missing_host address) (host_str url)
    let ssl = scheme url == "https"
    ok (record {
      host = host;
      port_number = elim (port url) [ none ↦ if ssl then "443" else "80" | some p ↦ p ];
      ssl_enabled = ssl;
    })

  -- The loop of the server names, with those seen before.
  unfoldable pub validate_servers :
      List JobWorkerpSetting → List JobWorkerpSetting → Result TransferError (Unit {0})
  unfolding parse_server_address
  validate_servers seen [] = ok tt
  validate_servers seen (server ∷ rest) =
      let checked = validate_servers (server ∷ seen) rest in
      if names_item server.name seen
      then err (duplicate_server server.name)
      else (parse_server_address server.address >>= λ address. checked)

  unfoldable pub validate_toml_config : WorkflowSettingFile → Result TransferError (Unit {0})
  unfolding validate_servers validate_items
  validate_toml_config file = do
    elim file.jobworkerp [ [] ↦ err no_servers | server ∷ rest ↦ ok tt ]
    validate_servers [] file.jobworkerp
    validate_items (or_none file.listeners)
    validate_items (or_none file.schedulers)
