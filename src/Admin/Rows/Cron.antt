-- ===== src/Admin/Rows/Cron.antt =====
-- The row of a cron scheduler (api/infra/src/infra/cron_scheduler/rows.rs and rdb.rs).
use mathlib.Core.Option
use jobworkerp_conductor.Prelude.{ℕ, String, Bool, Option, some, String-HasEq}
use jobworkerp_conductor.Proto.{CronScheduler, CronSchedulerData, JobworkerpServerId}
use jobworkerp_conductor.Admin.Rows.Targets.{Columns, target_of_columns, flatten_execution_target}

pub record CronSchedulerRow : Type 0 where
  pub id : ℕ
  pub name : String
  pub jobworkerp_server_id : JobworkerpServerId
  pub target : Columns
  pub crontab : String
  pub enabled : Bool
  pub description : Option String
  pub created_at : ℕ
  pub updated_at : ℕ
  pub args : Option String

unfoldable pub cron_to_proto : CronSchedulerRow → CronScheduler
unfolding target_of_columns
cron_to_proto r = record {
  id = some r.id;
  payload = some (record {
    name = r.name;
    jobworkerp_server_id = some r.jobworkerp_server_id;
    workflow_url = r.target.workflow_url;
    channel = r.target.channel;
    crontab = r.crontab;
    enabled = r.enabled;
    description = r.description;
    created_at = r.created_at;
    updated_at = r.updated_at;
    args = r.args;
    execution_target = target_of_columns r.target;
  });
}

-- The bound columns of an INSERT: none, if NULL is bound to a column that is NOT NULL.
unfoldable pub cron_row : ℕ → CronSchedulerData → Option CronSchedulerRow
unfolding flatten_execution_target
cron_row id d =
    Option.map
      (λ server_id. record {
        id = id;
        name = d.name;
        jobworkerp_server_id = server_id;
        target = flatten_execution_target d.execution_target d.workflow_url d.channel;
        crontab = d.crontab;
        enabled = d.enabled;
        description = d.description;
        created_at = d.created_at;
        updated_at = d.updated_at;
        args = d.args;
      })
      d.jobworkerp_server_id
