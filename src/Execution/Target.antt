-- ===== src/Execution/Target.antt =====
-- The endpoint and the execution target of a configured source: the validation of
-- shared/src/validation.rs, the resolution of shared/src/triggered_execution.rs and
-- slack-event-handler/src/handler_executor.rs, and `server_endpoint` of
-- api/app/src/app/execution_status.rs.
use Prim.Native.String.{◌++◌ as append}
use jobworkerp_conductor.Prelude.{
  String, ◌≡◌, ◌↔◌, arith, Bool, false, Option, none, some, Result, ok, err, if◌then◌else◌, ◌==◌,
  String-HasEq,
}
use jobworkerp_conductor.Proto.{
  ExecutionTarget, workflow, worker, JobworkerpServerData, SlackEventHandlerData,
}

abbrev pub is_empty : String → Bool
is_empty s = s == ""

-- `format!("{}://{}:{}", protocol, host, port)`
unfoldable pub server_endpoint : JobworkerpServerData → String
server_endpoint d =
    append (if d.ssl_enabled then "https" else "http")
      (append "://" (append d.host (append ":" d.port)))

pub data ResolvedTarget : Type 0 where
  worker_target : (worker_name : String) → (using : Option String) → ResolvedTarget
  workflow_target : (workflow_url : String) → (channel : Option String) → ResolvedTarget

-- `filter(|c| !c.is_empty())`
abbrev pub non_empty : Option String → Option String
non_empty none = none
non_empty (some c) = if is_empty c then none else some c

unfoldable pub from_cron_target :
    Option ExecutionTarget → String → Option String → Option ResolvedTarget
from_cron_target (some (worker w)) url channel = some (worker_target w.worker_name w.using)
from_cron_target (some (workflow wf)) url channel =
    some (workflow_target wf.workflow_url wf.channel)
from_cron_target none url channel =
    if is_empty url then none else some (workflow_target url (non_empty channel))

unfoldable pub resolve_slack : Option ExecutionTarget → String → String → Option ResolvedTarget
resolve_slack (some (worker w)) url channel = some (worker_target w.worker_name w.using)
resolve_slack (some (workflow wf)) url channel = some (workflow_target wf.workflow_url wf.channel)
resolve_slack none url channel =
    if is_empty url
    then none
    else some (workflow_target url (if is_empty channel then none else some channel))

unfoldable pub resolve_slack_target : SlackEventHandlerData → Option ResolvedTarget
unfolding resolve_slack
resolve_slack_target d = resolve_slack d.execution_target d.workflow_url d.channel

pub data TargetError : Type 0 where
  empty_workflow_url empty_worker_name missing_target : TargetError

unfoldable pub validate_execution_target :
    Option ExecutionTarget → String → Result TargetError (Unit {0})
validate_execution_target (some (workflow wf)) url =
    if is_empty wf.workflow_url then err empty_workflow_url else ok tt
validate_execution_target (some (worker w)) url =
    if is_empty w.worker_name then err empty_worker_name else ok tt
validate_execution_target none url = if is_empty url then err missing_target else ok tt

-- Something to run, under a name or a URL that is not empty.
abbrev pub IsRunnable : Option ResolvedTarget → Type 0
IsRunnable none = ⊥
IsRunnable (some (worker_target name using)) = is_empty name ≡ false
IsRunnable (some (workflow_target url channel)) = is_empty url ≡ false

-- A configuration passes `validate_execution_target` exactly when the cron path and the Slack path
-- resolve it, whatever its channel, to a worker or a workflow whose name or URL is not empty.
pub validate_execution_target_iff :
    (target : Option ExecutionTarget) (url : String) (cron_channel : Option String)
    (slack_channel : String)
    → ((validate_execution_target target url ≡ ok tt)
        ↔ IsRunnable (from_cron_target target url cron_channel))
      × ((validate_execution_target target url ≡ ok tt)
          ↔ IsRunnable (resolve_slack target url slack_channel))
unfolding validate_execution_target from_cron_target resolve_slack
validate_execution_target_iff none url c s = ground arith
validate_execution_target_iff (some (workflow wf)) url c s = ground arith
validate_execution_target_iff (some (worker w)) url c s = ground arith
