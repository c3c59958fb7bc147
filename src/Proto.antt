-- ===== src/Proto.antt =====
-- The messages of proto/protobuf/jobworkerp_conductor/data: the configured entities that the
-- conductor keeps, and the execution target that they share. An i64 or i32 value that the program
-- only copies and compares stands as a number; a typed id is its value.
use jobworkerp_conductor.Prelude.{ℕ, String, Bool, Option}

-- `CronSchedulerId`, `WorkerResultHandlerId`, `JobworkerpServerId`, `SlackEventHandlerId`.
abbrev pub CronSchedulerId : Type 0
CronSchedulerId = ℕ

abbrev pub WorkerResultHandlerId : Type 0
WorkerResultHandlerId = ℕ

abbrev pub JobworkerpServerId : Type 0
JobworkerpServerId = ℕ

abbrev pub SlackEventHandlerId : Type 0
SlackEventHandlerId = ℕ

pub record WorkflowExecution : Type 0 where
  pub workflow_url : String
  pub channel : Option String

pub record WorkerExecution : Type 0 where
  pub worker_name : String
  pub using : Option String

pub data ExecutionTarget : Type 0 where
  workflow : WorkflowExecution → ExecutionTarget
  worker : WorkerExecution → ExecutionTarget

-- A message of the form `{ id, data }`: both parts are optional in protobuf.
pub record Entity (D : Type 0) : Type 0 where
  pub id : Option ℕ
  pub payload : Option D

pub record CronSchedulerData : Type 0 where
  pub name : String
  pub jobworkerp_server_id : Option JobworkerpServerId
  pub workflow_url : String
  pub channel : Option String
  pub crontab : String
  pub enabled : Bool
  pub description : Option String
  pub created_at : ℕ
  pub updated_at : ℕ
  pub args : Option String
  pub execution_target : Option ExecutionTarget

pub record WorkerResultHandlerData : Type 0 where
  pub name : String
  pub listen_jobworkerp_server_id : Option JobworkerpServerId
  pub listen_worker_name : String
  pub process_jobworkerp_server_id : Option JobworkerpServerId
  pub workflow_url : String
  pub channel : Option String
  pub enabled : Bool
  pub description : Option String
  pub created_at : ℕ
  pub updated_at : ℕ
  pub args : Option String
  pub execution_target : Option ExecutionTarget

pub record JobworkerpServerData : Type 0 where
  pub name : String
  pub host : String
  pub port : String
  pub ssl_enabled : Bool
  pub description : Option String
  pub enabled : Bool
  pub created_at : ℕ
  pub updated_at : ℕ

-- `reaction_operation` is the i32 of the enum field: it may hold a value that no variant has.
pub record SlackEventHandlerData : Type 0 where
  pub name : String
  pub description : String
  pub enabled : Bool
  pub slack_channel_id : Option String
  pub message_pattern : Option String
  pub mention_required : Bool
  pub reaction_names : Option String
  pub reaction_operation : ℕ
  pub reaction_user_filter : Option String
  pub jobworkerp_server_id : Option JobworkerpServerId
  pub workflow_url : String
  pub channel : String
  pub timeout_sec : Option ℕ
  pub args : Option String
  pub created_at : ℕ
  pub updated_at : ℕ
  pub execution_target : Option ExecutionTarget

abbrev pub CronScheduler : Type 0
CronScheduler = Entity CronSchedulerData

abbrev pub WorkerResultHandler : Type 0
WorkerResultHandler = Entity WorkerResultHandlerData

abbrev pub JobworkerpServer : Type 0
JobworkerpServer = Entity JobworkerpServerData

abbrev pub SlackEventHandler : Type 0
SlackEventHandler = Entity SlackEventHandlerData
