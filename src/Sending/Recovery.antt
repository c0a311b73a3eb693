-- ===== src/Sending/Recovery.antt =====
-- Recovering a pending message: what it returns, and what it leaves of the other messages.
use resend_conversation_serv.Sending.Alone.{Alone}
use resend_conversation_serv.Sending.Stored.{IsStored, Shown}
use resend_conversation_serv.Prelude.{ℕ, ◌≡◌, Outcome, done}
use resend_conversation_serv.Database.{Db, Message, Fault}

-- The action returns a row that agrees with the one stored under the identifier, and changes the send
-- state of no other message.
abbrev pub Recovers : ℕ → Db → Outcome Fault Message × Db → Type 0
Recovers id db (r, db') = (m : Message) × (r ≡ done m) × IsStored id db' m × Alone id db db'
