-- ===== src/Tests.antt =====
-- The programs' definitions at concrete inputs, and the theorems applied there.
pub mod Memory
mod Codecs
mod Protocol
mod Supervisor
mod Directories
mod Schedule
mod Presence
mod Handshake
mod Answers
mod Startup
mod Run
mod Orphans
mod Exchange
mod Returns
mod Root
mod Handler
mod Client
mod Server
