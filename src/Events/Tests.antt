-- ===== src/Events/Tests.antt =====
-- A round of events, read back.
use jobworkerp_conductor.Prelude.{some, none, []}
use jobworkerp_conductor.Events.{
  created, updated, deleted, EntityId, create_cron_scheduler_created, create_cron_scheduler_updated,
  create_cron_scheduler_deleted, create_worker_result_handler_created,
  create_worker_result_handler_updated, create_worker_result_handler_deleted,
  create_jobworkerp_server_created, create_jobworkerp_server_updated,
  create_jobworkerp_server_deleted, create_slack_event_handler_created,
  create_slack_event_handler_updated, create_slack_event_handler_deleted,
}
use jobworkerp_conductor.Events.Reading.{
  Reads, cron_kind, result_kind, server_kind, slack_kind, create-Reads,
}

create-Reads_example :
    Reads created "nightly"
      (some (EntityId.cron_scheduler 3))
      cron_kind
      (create_cron_scheduler_created 10 "nightly" (some 3) none none)
    × Reads updated "nightly"
        (some (EntityId.cron_scheduler 3))
        cron_kind
        (create_cron_scheduler_updated 10 "nightly" (some 3) none none)
    × Reads deleted "nightly"
        (some (EntityId.cron_scheduler 3))
        cron_kind
        (create_cron_scheduler_deleted 10 "nightly" (some 3))
    × Reads created "nightly"
        (some (EntityId.worker_result_handler 3))
        result_kind
        (create_worker_result_handler_created 10 "nightly" (some 3) none [])
    × Reads updated "nightly"
        (some (EntityId.worker_result_handler 3))
        result_kind
        (create_worker_result_handler_updated 10 "nightly" (some 3) none [])
    × Reads deleted "nightly"
        (some (EntityId.worker_result_handler 3))
        result_kind
        (create_worker_result_handler_deleted 10 "nightly" (some 3) none [])
    × Reads created "nightly"
        (some (EntityId.jobworkerp_server 3))
        server_kind
        (create_jobworkerp_server_created 10 "nightly" 3 none)
    × Reads updated "nightly"
        (some (EntityId.jobworkerp_server 3))
        server_kind
        (create_jobworkerp_server_updated 10 "nightly" 3 none)
    × Reads deleted "nightly"
        (some (EntityId.jobworkerp_server 3))
        server_kind
        (create_jobworkerp_server_deleted 10 "nightly" 3 none)
    × Reads created "nightly"
        (some (EntityId.slack_event_handler 3))
        slack_kind
        (create_slack_event_handler_created 10 "nightly" (some 3) none none)
    × Reads updated "nightly"
        (some (EntityId.slack_event_handler 3))
        slack_kind
        (create_slack_event_handler_updated 10 "nightly" (some 3) none none)
    × Reads deleted "nightly"
        (some (EntityId.slack_event_handler 3))
        slack_kind
        (create_slack_event_handler_deleted 10 "nightly" (some 3))
create-Reads_example = create-Reads 10 "nightly" 3 none none none none none []
