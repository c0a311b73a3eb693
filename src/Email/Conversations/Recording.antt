-- ===== src/Email/Conversations/Recording.antt =====
-- Recording the message identifier of a sent mail.
use resend_conversation_serv.Prelude.{
  ℕ, String, ◌≡◌, refl, ap, subst, ==_iff, Option, none, some, List, Bool-cases, inl, inr, pure,
  ◌>>◌, find, find-holds, All₂-update, Within, Within-bind, related-transaction,
}
use resend_conversation_serv.Database.{Db, Message, Conversation, Sink, is_outbound}
use resend_conversation_serv.Conversation.Events.{has_id}
use resend_conversation_serv.Delivery.{update_messages}
use resend_conversation_serv.Email.Conversations.{
  Linked, link, link_at, link_found, children_in, foreign_ids, reconcile_children, with_sent,
  message_has_id, record_sent, sent_message, record_found, record_outbound,
  record_outbound_internet_message_id,
}
use resend_conversation_serv.Email.Merging.{is_conversation_kind}
use resend_conversation_serv.Email.Conversations.Joining.{join_children-Keeps, foreign-is_in}
use resend_conversation_serv.Email.Conversations.Kept.{
  Joined, Joined-refl, Keeps, Keeps-refl, Keeps-trans,
}

-- A linked message stands in the conversation that it is linked to.
link_found-conversation :
    (m : Message) (id : ℕ) (o : Option Conversation) (l : Linked)
    → ((c : Conversation) → o ≡ some c → c.id ≡ id)
    → link_found m o ≡ some l
    → l.conversation.id ≡ id
link_found-conversation m id none l f h = cc
link_found-conversation m id (some c) l f h = elim (Bool-cases (is_conversation_kind m.kind)) [
  | inl e ↦
      let k : some (record { message = m; conversation = c }) ≡ some l = rw e at h in
      subst (λ (x : Linked). x.conversation.id ≡ id) (made k) (f c refl)
  | inr e ↦ let k : none ≡ some l = rw e at h in cc
]
  where
    made :
        some (record { message = m; conversation = c }) ≡ some l
        → record { message = m; conversation = c } ≡ l
    made k = cc

link-conversation :
    (cs : List Conversation) (m : Message) (l : Linked)
    → link cs m ≡ some l
    → some l.conversation.id ≡ m.conversation_id
link-conversation cs m l h = go m.conversation_id h
  where
    go : (o : Option ℕ) → link_at cs m o ≡ some l → some l.conversation.id ≡ o
    go none k = cc
    go (some id) k = ap some (
        link_found-conversation m id (find (has_id id) cs) l
          (λ c e. (==_iff c.id id).0 (find-holds (has_id id) cs c e)) k)

reconcile-Keeps :
    (sinks : List Sink) (now : ℕ) (internet_message_id : String) (outbound : Linked)
    → Within
        (Keeps (some outbound.conversation.id))
        (reconcile_children sinks now internet_message_id outbound)
reconcile-Keeps sinks now internet_message_id outbound db =
    let children = children_in internet_message_id outbound.conversation.participant_address db in
    let target = outbound.conversation.id in
    join_children-Keeps sinks now outbound children (foreign_ids target children)
      (foreign-is_in target children) db

sent-Joined :
    (target : Option ℕ) (internet_message_id : String) (at : Option ℕ) (m : Message)
    → Joined target m (with_sent internet_message_id at m)
sent-Joined target internet_message_id none m = record {
  id = refl;
  kind = refl;
  direction = refl;
  state = refl;
  resend_email_id = refl;
  idempotency_key = refl;
  conversation = inl refl;
}
sent-Joined target internet_message_id (some t) m = record {
  id = refl;
  kind = refl;
  direction = refl;
  state = refl;
  resend_email_id = refl;
  idempotency_key = refl;
  conversation = inl refl;
}

module _ (sinks : List Sink) (now : ℕ) (internet_message_id : String) (at : Option ℕ) where
  record_sent-Keeps :
      (outbound : Linked)
      → Within
          (Keeps (some outbound.conversation.id))
          (record_sent sinks now internet_message_id at (some outbound))
  record_sent-Keeps outbound =
      let target = some outbound.conversation.id in
      Within-bind (Keeps target) (Keeps-trans target)
        (update_messages (message_has_id outbound.message.id) (with_sent internet_message_id at))
        (λ _.
          reconcile_children sinks now internet_message_id outbound
          >> pure (with_sent internet_message_id at outbound.message))
        (λ db.
          All₂-update (Joined target) (message_has_id outbound.message.id)
            (with_sent internet_message_id at) db.messages
            (λ m _. sent-Joined target internet_message_id at m) (Joined-refl target))
        (λ _.
          Within-bind (Keeps target) (Keeps-trans target)
            (reconcile_children sinks now internet_message_id outbound)
            (λ _. pure (with_sent internet_message_id at outbound.message))
            (reconcile-Keeps sinks now internet_message_id outbound) (λ _. Keeps-refl target))

  record_found-Keeps :
      (cs : List Conversation) (m : Message)
      → Within (Keeps m.conversation_id) (record_found sinks now internet_message_id at cs (some m))
  record_found-Keeps cs m = go (sent_message cs m) refl
    where
      sent-link : (l : Linked) → sent_message cs m ≡ some l → link cs m ≡ some l
      sent-link l h = elim (Bool-cases (is_outbound m.direction)) [
        | inl e ↦ let k : link cs m ≡ some l = rw e at h in k
        | inr e ↦ let k : none ≡ some l = rw e at h in cc
      ]

      go :
          (o : Option Linked)
          → sent_message cs m ≡ o
          → Within (Keeps m.conversation_id) (record_sent sinks now internet_message_id at o)
      go none e = Keeps-refl m.conversation_id
      go (some l) e =
          subst (λ t. Within (Keeps t) (record_sent sinks now internet_message_id at (some l)))
            (link-conversation cs m l (sent-link l e)) (record_sent-Keeps l)

-- Recording the message identifier of a message that is there loses no message, whether it succeeds or throws:
-- each row is still there, with its identifier, kind, direction, send state, provider identifier and
-- idempotency key, in its conversation or in that of the recorded message.
pub record_outbound-Keeps :
    (sinks : List Sink) (now message_id : ℕ) (internet_message_id : String) (at : Option ℕ)
    (db : Db)
    → (m : Message) → find (message_has_id message_id) db.messages ≡ some m
    → Keeps m.conversation_id db
        (record_outbound_internet_message_id sinks now message_id internet_message_id at db).1
unfolding record_outbound_internet_message_id
record_outbound-Keeps sinks now message_id internet_message_id at db m found =
    related-transaction (Keeps m.conversation_id)
      (record_outbound sinks now message_id internet_message_id at) db
      (Keeps-refl m.conversation_id db)
      (rw found (record_found-Keeps sinks now internet_message_id at db.conversations m db))
