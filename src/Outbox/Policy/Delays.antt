-- ===== src/Outbox/Policy/Delays.antt =====
-- How long a failed send of the outboxes waits.
