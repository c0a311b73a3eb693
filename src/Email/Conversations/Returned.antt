-- ===== src/Email/Conversations/Returned.antt =====
-- The row that recording a message identifier returns.
use resend_conversation_serv.Prelude.{
  ℕ, String, ◌≡◌, refl, sym, ap, ◌∙◌, Option, none, some, List, Bool-cases, inl, inr, done,
  bind_pure-done, transaction-same, find,
}
use resend_conversation_serv.Database.{Db, Message, Conversation, Sink, is_outbound}
use resend_conversation_serv.Email.Merging.{is_conversation_kind}
use resend_conversation_serv.Conversation.Events.{has_id}
use resend_conversation_serv.Delivery.{update_messages}
use resend_conversation_serv.Email.Conversations.{
  Linked, link, link_at, link_found, sent_message, with_sent, record_sent, record_outbound,
  record_outbound_internet_message_id, reconcile_children, message_has_id,
}

link_found-message :
    (m : Message) (o : Option Conversation) (l : Linked) → link_found m o ≡ some l → l.message ≡ m
link_found-message m none l h = cc
link_found-message m (some c) l h = elim (Bool-cases (is_conversation_kind m.kind)) [
  | inl e ↦ let k : some (record { message = m; conversation = c }) ≡ some l = rw e at h in cc
  | inr e ↦ let k : none ≡ some l = rw e at h in cc
]

link_at-message :
    (cs : List Conversation) (m : Message) (o : Option ℕ) (l : Linked)
    → link_at cs m o ≡ some l
    → l.message ≡ m
link_at-message cs m none l h = cc
link_at-message cs m (some id) l h = link_found-message m (find (has_id id) cs) l h

sent_message-message :
    (cs : List Conversation) (m : Message) (l : Linked) → sent_message cs m ≡ some l → l.message ≡ m
sent_message-message cs m l h = elim (Bool-cases (is_outbound m.direction)) [
  | inl e ↦ link_at-message cs m m.conversation_id l (let k : link cs m ≡ some l = rw e at h in k)
  | inr e ↦ let k : none ≡ some l = rw e at h in cc
]

module _ (sinks : List Sink) (now : ℕ) (internet_message_id : String) (at : Option ℕ) (db : Db)
    (r : Message) where
  record_sent-row :
      (m : Message) (o : Option Linked)
      → ((l : Linked) → o ≡ some l → l.message ≡ m)
      → (record_sent sinks now internet_message_id at o db).0 ≡ done r
      → r ≡ with_sent internet_message_id at m
  record_sent-row m none k h = cc
  record_sent-row m (some l) k h =
      bind_pure-done (reconcile_children sinks now internet_message_id l)
        (with_sent internet_message_id at l.message) r
        (update_messages (message_has_id l.message.id) (with_sent internet_message_id at) db).1 h
      ∙ ap (with_sent internet_message_id at) (k l refl)

  -- The row that recording returns is the message's, with its new identifier.
  pub record_outbound-row :
      (id : ℕ) (m : Message)
      → find (message_has_id id) db.messages ≡ some m
      → (record_outbound_internet_message_id sinks now id internet_message_id at db).0 ≡ done r
      → r ≡ with_sent internet_message_id at m
  unfolding record_outbound_internet_message_id
  record_outbound-row id m found h =
      record_sent-row m (sent_message db.conversations m) (sent_message-message db.conversations m)
        (let k : (record_outbound sinks now id internet_message_id at db).0 ≡ done r =
            sym (transaction-same (record_outbound sinks now id internet_message_id at) db) ∙ h in
          rw found at k)
