-- ===== src/Sending.antt =====
-- src/lib/conversation-service.ts: composing and sending a pending message.
pub mod Mail
pub mod Addresses
pub mod Service
pub mod Alone
pub mod Stored
pub mod Shown
pub mod Recovery
