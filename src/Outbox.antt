-- ===== src/Outbox.antt =====
-- Queued sends. `Batches` is the lane that sends whole batches, `Attachments` the lane that sends one
-- message at a time because it carries attachments; `Policy` is what both decide by.
pub mod Policy
pub mod Batches
pub mod Attachments
pub mod Scheduler
