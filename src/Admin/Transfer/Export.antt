-- ===== src/Admin/Transfer/Export.antt =====
-- `export_toml_config` (api/infra/src/infra/config_management/rdb.rs), up to the file that TOML prints.
use jobworkerp_conductor.Prelude.{
  Bool, not, ◌&&◌, Option, none, some, List, [], ◌∷◌, if◌then◌else◌, ℕ-HasEq,
}
use Prim.Native.String.{◌++◌ as append}
use jobworkerp_conductor.HashMap.{get}
use jobworkerp_conductor.Admin.Rows.Cron.{CronSchedulerRow}
use jobworkerp_conductor.Admin.Rows.Handler.{WorkerResultHandlerRow}
use jobworkerp_conductor.Admin.Rows.Server.{JobworkerpServerRow}
use jobworkerp_conductor.Admin.Table.{Table}
use jobworkerp_conductor.Admin.Table.Kinds.{cron_kind, handler_kind, server_kind}
use jobworkerp_conductor.Admin.Transfer.{
  JobWorkerpSetting, WorkflowSettingItem, WorkflowSettingFile, Database,
}

-- `WHERE enabled = 1`, if only the enabled rows are asked for.
abbrev pub selected : Bool → Bool → Bool
selected enabled_only enabled = not (enabled_only && not enabled)

unfoldable pub server_setting : JobworkerpServerRow → JobWorkerpSetting
server_setting row = record {
  name = row.name;
  address =
      append (if row.ssl_enabled then "https" else "http")
        (append "://" (append row.host (append ":" row.port)));
}

unfoldable pub export_servers : Bool → Table server_kind → List JobWorkerpSetting
unfolding server_setting
export_servers enabled_only [] = []
export_servers enabled_only ((id, row) ∷ t) =
    let rest = export_servers enabled_only t in
    if selected enabled_only row.enabled then server_setting row ∷ rest else rest

unfoldable pub scheduler_item : CronSchedulerRow → JobworkerpServerRow → WorkflowSettingItem
scheduler_item row server = record {
  name = row.name;
  jobworkerp = server.name;
  workflow_url = row.target.workflow_url;
  channel = row.target.channel;
  listen_worker_name = none;
  listen_jobworkerp = none;
  crontab = some row.crontab;
  args = row.args;
  worker_name = row.target.worker_name;
  using = row.target.using;
}

unfoldable pub listener_item :
    WorkerResultHandlerRow → JobworkerpServerRow → JobworkerpServerRow → WorkflowSettingItem
listener_item row listen process = record {
  name = row.name;
  jobworkerp = process.name;
  workflow_url = row.target.workflow_url;
  channel = row.target.channel;
  listen_worker_name = some row.listen_worker_name;
  listen_jobworkerp = some listen.name;
  crontab = none;
  args = row.args;
  worker_name = row.target.worker_name;
  using = row.target.using;
}

-- The JOIN drops a row whose server is not there. It does not look whether the server is enabled.
unfoldable pub join_scheduler :
    CronSchedulerRow
    → Option JobworkerpServerRow
    → List WorkflowSettingItem
    → List WorkflowSettingItem
unfolding scheduler_item
join_scheduler row none rest = rest
join_scheduler row (some server) rest = scheduler_item row server ∷ rest

unfoldable pub join_listener :
    WorkerResultHandlerRow
    → Option JobworkerpServerRow
    → Option JobworkerpServerRow
    → List WorkflowSettingItem
    → List WorkflowSettingItem
unfolding listener_item
join_listener row (some listen) (some process) rest = listener_item row listen process ∷ rest
join_listener row _ _ rest = rest

unfoldable pub export_schedulers :
    Bool → Table server_kind → Table cron_kind → List WorkflowSettingItem
unfolding join_scheduler
export_schedulers enabled_only servers [] = []
export_schedulers enabled_only servers ((id, row) ∷ t) =
    let rest = export_schedulers enabled_only servers t in
    if selected enabled_only row.enabled
    then join_scheduler row (get row.jobworkerp_server_id servers) rest
    else rest

unfoldable pub export_listeners :
    Bool → Table server_kind → Table handler_kind → List WorkflowSettingItem
unfolding join_listener
export_listeners enabled_only servers [] = []
export_listeners enabled_only servers ((id, row) ∷ t) =
    let rest = export_listeners enabled_only servers t in
    if selected enabled_only row.enabled
    then join_listener row (get row.listen_jobworkerp_server_id servers)
        (get row.process_jobworkerp_server_id servers) rest
    else rest

abbrev pub none_if_empty : List WorkflowSettingItem → Option (List WorkflowSettingItem)
none_if_empty [] = none
none_if_empty (item ∷ rest) = some (item ∷ rest)

unfoldable pub export_toml_config : Bool → Database → WorkflowSettingFile
unfolding export_servers export_schedulers export_listeners
export_toml_config enabled_only db = record {
  jobworkerp = export_servers enabled_only db.servers;
  listeners = none_if_empty (export_listeners enabled_only db.servers db.handlers);
  schedulers = none_if_empty (export_schedulers enabled_only db.servers db.crons);
}
