-- ===== src/Conductor.antt =====
-- The conductor (jobworkerp-conductor/src): the managers of running cron jobs and of running result
-- listeners, and the handling of configuration changes.
pub mod Scheduler
pub mod Listener
pub mod Changes
pub mod Server
pub mod Tests
