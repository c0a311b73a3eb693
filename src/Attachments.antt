-- ===== src/Attachments.antt =====
-- src/lib/attachments: binding uploads to messages, fetching received files, deleting objects.
pub mod Claim
pub mod Reaper
pub mod Ingest
