-- ===== src/Examples.antt =====
-- Concrete tables, and the theorems applied to them.
pub mod Data
mod Conversations
mod Sends
mod Files
mod Mails
mod Merges
mod Sending
mod Requests
