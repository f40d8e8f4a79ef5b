-- ===== src/Client.antt =====
-- crossbridge-client: the command-line client.
pub mod Labels
pub mod Peers
pub mod Slug
pub mod Commands
pub mod Run
