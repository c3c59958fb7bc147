-- ===== src/Admin/Transfer/Import.antt =====
-- `import_toml_config` (api/infra/src/infra/config_management/rdb.rs). The ids are those of
-- `generate_id` by their number, and `now` is the clock. A transaction is the database passed along: at
-- an error it is the old one that stays.
use jobworkerp_conductor.Prelude.{
  ℕ, ◌+◌, String, Bool, true, none, some, List, [], ◌∷◌, Result, ok, err, ◌>>=◌, ◌>>◌, ok_or,
  if◌then◌else◌, String-HasEq, ℕ-HasEq, length,
}
use jobworkerp_conductor.HashMap.{HashMap, get, insert}
use jobworkerp_conductor.Execution.Target.{non_empty}
use jobworkerp_conductor.Admin.Rows.Targets.{Columns, worker_mode}
use jobworkerp_conductor.Admin.Table.{DbError, Table, insert_row}
use jobworkerp_conductor.Admin.Table.Kinds.{cron_kind, handler_kind, server_kind}
use jobworkerp_conductor.Admin.Transfer.{
  JobWorkerpSetting, WorkflowSettingItem, WorkflowSettingFile, Urls, TransferError, missing_crontab,
  missing_listen_worker, missing_listen_server, unknown_server, refused, Database, or_none,
  clear_all_configs, parse_server_address, validate_toml_config,
}

-- The columns of a target: a worker's name takes precedence. A scheduler binds the name as it is given.
unfoldable pub scheduler_columns : WorkflowSettingItem → Columns
scheduler_columns item = record {
  workflow_url = if worker_mode item.worker_name then "" else item.workflow_url;
  channel = if worker_mode item.worker_name then none else item.channel;
  worker_name = item.worker_name;
  using = non_empty item.using;
}

unfoldable pub listener_columns : WorkflowSettingItem → Columns
listener_columns item =
    if worker_mode item.worker_name
    then record {
      workflow_url = "";
      channel = none;
      worker_name = item.worker_name;
      using = non_empty item.using;
    }
    else record {
      workflow_url = item.workflow_url;
      channel = item.channel;
      worker_name = none;
      using = none;
    }

-- The result of an INSERT, with the table that it leaves.
unfoldable pub inserted {ℓ} : {T : Type ℓ} → Result DbError ℕ × T → Result TransferError T
inserted (ok id, t) = ok t
inserted (err e, t) = err (refused e)

-- "SELECT id, name FROM jobworkerp_server", by name.
unfoldable pub server_map : Table server_kind → HashMap String ℕ → HashMap String ℕ
server_map [] m = m
server_map ((id, row) ∷ t) m = server_map t (insert row.name id m)

module _ (urls : Urls) where
  module _ (generate_id : ℕ → ℕ) (now : ℕ) where
    unfoldable pub import_servers :
        ℕ → List JobWorkerpSetting → Table server_kind → Result TransferError (Table server_kind)
    unfolding parse_server_address inserted insert_row
    import_servers n [] t = ok t
    import_servers n (server ∷ rest) t = do
      address ← parse_server_address urls server.address
      t' ← inserted (
          insert_row server_kind (generate_id n) t (
            some (record {
              id = generate_id n;
              name = server.name;
              host = address.host;
              port = address.port_number;
              ssl_enabled = address.ssl_enabled;
              description = none;
              enabled = true;
              created_at = now;
              updated_at = now;
            })))
      import_servers (n + 1) rest t'

    module _ (ids : HashMap String ℕ) where
      unfoldable pub import_schedulers :
          ℕ → List WorkflowSettingItem → Table cron_kind → Result TransferError (Table cron_kind)
      unfolding scheduler_columns inserted insert_row
      import_schedulers n [] t = ok t
      import_schedulers n (item ∷ rest) t = do
        crontab ← ok_or (missing_crontab item.name) item.crontab
        server_id ← ok_or (unknown_server item.jobworkerp item.name) (get item.jobworkerp ids)
        t' ← inserted (
            insert_row cron_kind (generate_id n) t (
              some (record {
                id = generate_id n;
                name = item.name;
                jobworkerp_server_id = server_id;
                target = scheduler_columns item;
                crontab = crontab;
                enabled = true;
                description = none;
                created_at = now;
                updated_at = now;
                args = item.args;
              })))
        import_schedulers (n + 1) rest t'

      unfoldable pub import_listeners :
          ℕ
          → List WorkflowSettingItem
          → Table handler_kind
          → Result TransferError (Table handler_kind)
      unfolding listener_columns inserted insert_row
      import_listeners n [] t = ok t
      import_listeners n (item ∷ rest) t = do
        worker_name ← ok_or (missing_listen_worker item.name) item.listen_worker_name
        listen ← ok_or (missing_listen_server item.name) item.listen_jobworkerp
        listen_id ← ok_or (unknown_server listen item.name) (get listen ids)
        process_id ← ok_or (unknown_server item.jobworkerp item.name) (get item.jobworkerp ids)
        t' ← inserted (
            insert_row handler_kind (generate_id n) t (
              some (record {
                id = generate_id n;
                name = item.name;
                listen_jobworkerp_server_id = listen_id;
                listen_worker_name = worker_name;
                process_jobworkerp_server_id = process_id;
                target = listener_columns item;
                enabled = true;
                description = none;
                created_at = now;
                updated_at = now;
                args = item.args;
              })))
        import_listeners (n + 1) rest t'

    -- The statements of the transaction, from the database that it begins with.
    unfoldable pub import_items : ℕ → WorkflowSettingFile → Database → Result TransferError Database
    unfolding import_servers import_schedulers import_listeners server_map
    import_items n file db = do
      servers ← import_servers n file.jobworkerp db.servers
      let ids = server_map servers []
      let n' = n + length file.jobworkerp
      crons ← import_schedulers ids n' (or_none file.schedulers) db.crons
      handlers ←
          import_listeners ids (n' + length (or_none file.schedulers)) (or_none file.listeners)
            db.handlers
      ok (record db { servers = servers; crons = crons; handlers = handlers })

    unfoldable pub import_valid :
        ℕ → Bool → WorkflowSettingFile → Database → Result TransferError Database
    unfolding import_items clear_all_configs validate_toml_config
    import_valid n overwrite file db = do
      validate_toml_config urls file
      import_items n file (if overwrite then clear_all_configs db else db)

    -- The counts, and the database after the commit or the roll back.
    unfoldable pub commit :
        WorkflowSettingFile
        → Database
        → Result TransferError Database
        → Result TransferError (ℕ × ℕ × ℕ) × Database
    commit file db (err e) = (err e, db)
    commit file db (ok db') = (
      ok (
        length file.jobworkerp,
        length (or_none file.schedulers),
        length (or_none file.listeners),
      ),
      db',
    )

    unfoldable pub import_toml_config :
        ℕ → Bool → WorkflowSettingFile → Database → Result TransferError (ℕ × ℕ × ℕ) × Database
    unfolding import_valid commit
    import_toml_config n overwrite file db = commit file db (import_valid n overwrite file db)
