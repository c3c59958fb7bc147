-- ===== src/Slack.antt =====
-- The Slack event handler (slack-event-handler/src): the cache of compiled conditions and the
-- matching of events to handlers.
pub mod Names
pub mod Cache
pub mod Matcher
pub mod Current
pub mod Retry
pub mod Manager
mod Tests
