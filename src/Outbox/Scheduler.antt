-- ===== src/Outbox/Scheduler.antt =====
-- src/lib/outbox-drain-scheduler.ts: one scheduled tick, which drains both outboxes in turn until they
-- come back empty or the cap is reached.
pub mod Rounds
pub mod Batches
pub mod Singles
use resend_conversation_serv.Prelude.{
  ℕ, Bool, true, false, ◌&&◌, List, [], ◌∷◌, ◌==◌, if◌then◌else◌, Action, Outcome, done, threw,
  pure, ◌>>=◌,
}
use resend_conversation_serv.Prelude.Text.{Text}
use resend_conversation_serv.Database.{Db, Sink, Fault}
use resend_conversation_serv.Attachments.Claim.{Storage}
use resend_conversation_serv.Outbox.Batches.{ClaimInput}
use resend_conversation_serv.Outbox.Batches.Settle.{Readings}
use resend_conversation_serv.Outbox.Batches.Drain.{Provider, drain_email_outbox}
use resend_conversation_serv.Outbox.Attachments.{SingleProvider}
use resend_conversation_serv.Outbox.Attachments.Drain.{Turn, drain_attachment_outbox}

-- One round of the loop: the inputs of the two drains.
pub record Round : Type 0 where
  pub claim : ClaimInput
  pub at : Readings
  pub meanwhile : Db → Db
  pub turns : List Turn

-- Both providers, and the configuration.
pub record Services : Type 0 where
  pub sinks : List Sink
  pub name : Fault → Text
  pub batch_provider : Provider
  pub single_provider : SingleProvider
  pub enabled : Bool
  pub storage : Storage

-- The number of messages that the attachment lane has claimed.
unfoldable pub attachment_claimed : Services → List Turn → Action Db Fault ℕ
attachment_claimed s turns =
    if s.enabled
    then (drain_attachment_outbox s.sinks s.name s.single_provider s.enabled s.storage turns
        >>= λ r. pure r.claimed)
    else pure 0

abbrev pub after_round : Action Db Fault (Unit {0}) → ℕ → ℕ → Action Db Fault (Unit {0})
after_round continue claimed attachments =
    if claimed == 0 && attachments == 0 then pure tt else continue

-- maxBatches rounds at most; the list has one for each.
unfoldable pub run_scheduled_drain : Services → List Round → Action Db Fault (Unit {0})
unfolding attachment_claimed
run_scheduled_drain s [] = pure tt
run_scheduled_drain s (round ∷ rounds) =
    drain_email_outbox s.sinks s.batch_provider round.claim round.at round.meanwhile >>= λ r.
    attachment_claimed s round.turns >>= λ n. after_round (run_scheduled_drain s rounds) r.claimed n
