-- ===== src/Attach.antt =====
-- internal/attach: the requests to a JVM's attach listener and its replies.
pub mod Request
pub mod Commands
pub mod Handshake
pub mod Reply
pub mod Properties
