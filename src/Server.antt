-- ===== src/Server.antt =====
-- The server crate: the route of the inbox.
pub mod Inbox
