-- ===== src/Admin.antt =====
-- The administration of the configuration (api/infra/src/infra, api/app/src/app): the database rows of
-- the four kinds of entity, their repositories and the services over them.
pub mod Rows
pub mod Table
pub mod Service
pub mod Slack
pub mod Transfer
pub mod Tests
