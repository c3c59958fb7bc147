-- ===== src/Admin/Slack.antt =====
-- The service of the Slack event handlers (api/app/src/app/slack_event_handler.rs).
pub mod Validation
pub mod Conditions
pub mod Bounds
pub mod Accepted
pub mod Service
pub mod Answers
mod Tests
