-- ===== src/Admin/Rows/Handler.antt =====
-- The row of a result handler (api/infra/src/infra/worker_result_handler/rows.rs and rdb.rs).
use mathlib.Core.Option
use jobworkerp_conductor.Prelude.{ℕ, String, Bool, Option, some, String-HasEq, and_then}
use jobworkerp_conductor.Proto.{WorkerResultHandler, WorkerResultHandlerData, JobworkerpServerId}
use jobworkerp_conductor.Admin.Rows.Targets.{Columns, target_of_columns, flatten_execution_target}

pub record WorkerResultHandlerRow : Type 0 where
  pub id : ℕ
  pub name : String
  pub listen_jobworkerp_server_id : JobworkerpServerId
  pub listen_worker_name : String
  pub process_jobworkerp_server_id : JobworkerpServerId
  pub target : Columns
  pub enabled : Bool
  pub description : Option String
  pub created_at : ℕ
  pub updated_at : ℕ
  pub args : Option String

unfoldable pub handler_to_proto : WorkerResultHandlerRow → WorkerResultHandler
unfolding target_of_columns
handler_to_proto r = record {
  id = some r.id;
  payload = some (record {
    name = r.name;
    listen_jobworkerp_server_id = some r.listen_jobworkerp_server_id;
    listen_worker_name = r.listen_worker_name;
    process_jobworkerp_server_id = some r.process_jobworkerp_server_id;
    workflow_url = r.target.workflow_url;
    channel = r.target.channel;
    enabled = r.enabled;
    description = r.description;
    created_at = r.created_at;
    updated_at = r.updated_at;
    args = r.args;
    execution_target = target_of_columns r.target;
  });
}

-- The bound columns of an INSERT: none, if NULL is bound to a column that is NOT NULL.
unfoldable pub handler_row : ℕ → WorkerResultHandlerData → Option WorkerResultHandlerRow
unfolding flatten_execution_target
handler_row id d = and_then d.listen_jobworkerp_server_id (λ listen_id.
    Option.map
      (λ process_id. record {
        id = id;
        name = d.name;
        listen_jobworkerp_server_id = listen_id;
        listen_worker_name = d.listen_worker_name;
        process_jobworkerp_server_id = process_id;
        target = flatten_execution_target d.execution_target d.workflow_url d.channel;
        enabled = d.enabled;
        description = d.description;
        created_at = d.created_at;
        updated_at = d.updated_at;
        args = d.args;
      })
      d.process_jobworkerp_server_id)
