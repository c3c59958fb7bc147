-- ===== src/Admin/Rows/Targets.antt =====
-- The columns that an execution target is stored in (`flatten_execution_target` of
-- api/infra/src/infra/*/rdb.rs, and the first part of `to_proto` in */rows.rs).
use jobworkerp_conductor.Prelude.{
  String, Bool, true, false, Option, none, some, if◌then◌else◌, String-HasEq,
}
use jobworkerp_conductor.Proto.{ExecutionTarget, workflow, worker}
use jobworkerp_conductor.Execution.Target.{is_empty, non_empty}

-- The four columns that an execution target is stored in.
pub record TargetColumns (Channel : Type 0) : Type 0 where
  pub workflow_url : String
  pub channel : Channel
  pub worker_name : Option String
  pub using : Option String

abbrev pub Columns : Type 0
Columns = TargetColumns (Option String)

abbrev pub worker_mode : Option String → Bool
worker_mode none = false
worker_mode (some name) = if is_empty name then false else true

abbrev pub or_default : Option String → String
or_default none = ""
or_default (some s) = s

-- The target that `to_proto` builds from the columns.
unfoldable pub target_of_columns : Columns → Option ExecutionTarget
target_of_columns c =
    if worker_mode c.worker_name
    then some (worker (record { worker_name = or_default c.worker_name; using = c.using }))
    else if is_empty c.workflow_url
    then none
    else some (workflow (record { workflow_url = c.workflow_url; channel = c.channel }))

-- `flatten_execution_target` of the cron schedulers and of the result handlers.
unfoldable pub flatten_execution_target : Option ExecutionTarget → String → Option String → Columns
flatten_execution_target (some (workflow wf)) url channel = record {
  workflow_url = wf.workflow_url;
  channel = wf.channel;
  worker_name = none;
  using = none;
}
flatten_execution_target (some (worker w)) url channel = record {
  workflow_url = "";
  channel = none;
  worker_name = some w.worker_name;
  using = non_empty w.using;
}
flatten_execution_target none url channel = record {
  workflow_url = url;
  channel = channel;
  worker_name = none;
  using = none;
}

-- `flatten_execution_target` of the Slack event handlers: the channel is no option.
unfoldable pub flatten_slack_target :
    Option ExecutionTarget → String → String → TargetColumns String
flatten_slack_target (some (workflow wf)) url channel = record {
  workflow_url = wf.workflow_url;
  channel = or_default wf.channel;
  worker_name = none;
  using = none;
}
flatten_slack_target (some (worker w)) url channel = record {
  workflow_url = "";
  channel = "";
  worker_name = some w.worker_name;
  using = non_empty w.using;
}
flatten_slack_target none url channel = record {
  workflow_url = url;
  channel = channel;
  worker_name = none;
  using = none;
}
