-- ===== src/Admin/Rows.antt =====
-- The rows of the four tables: the columns bound by an INSERT, and `to_proto`
-- (api/infra/src/infra/*/rows.rs, and `flatten_execution_target` and `create` of */rdb.rs).
pub mod Targets
pub mod Cron
pub mod Handler
pub mod Server
pub mod Slack
pub mod RoundTrip
pub mod SlackRoundTrip
