-- ===== src/Protocol.antt =====
-- The requests that travel between the command line, the daemon and the automation agent.
pub mod Automate
pub mod Connect
pub mod Errors
