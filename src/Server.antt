-- ===== src/Server.antt =====
-- crossbridge-server: the server of one repository.
pub mod Paths
pub mod Slug
pub mod Attachment
pub mod Handler
pub mod Supervisor
pub mod Listeners
pub mod Session
pub mod Run
