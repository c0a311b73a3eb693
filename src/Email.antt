-- ===== src/Email.antt =====
-- src/lib/email: addresses, subjects and references of mails.
pub mod Routing
pub mod Threading
pub mod Merging
pub mod Conversations
pub mod Hydration
