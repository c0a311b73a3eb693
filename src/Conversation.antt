-- ===== src/Conversation.antt =====
-- Conversations: their states and the events that record their history.
pub mod State
pub mod Events
