-- ===== src/Conversation/Events/Numbering.antt =====
-- The sequence numbers of a conversation's events.
use resend_conversation_serv.Prelude.{
  ℕ, suc, ◌≤◌, ◌≡◌, ◌≢◌, refl, Option, none, some, List, [], ◌∷◌, ◌++◌, arith, ◌==◌, All, All-mono,
  All-append, All-update, All-update_cases, AllPairs, AllPairs-snoc, AllPairs-update, update, find,
  find-All, find-holds, Bool-cases, sym, inl, inr,
}
use resend_conversation_serv.Database.{Db, Conversation, ConversationEvent, Sink, Payload}
use resend_conversation_serv.Conversation.Events.{
  EventInput, has_id, event_has_id, set_payload, event_payload, next_sequence, event_row,
  write_event, record_event, append_conversation_event,
}

abbrev pub SameSequence : ConversationEvent → ConversationEvent → Type 0
SameSequence a b = (a.conversation_id ≡ b.conversation_id) × (a.sequence ≡ b.sequence)

-- An event of a conversation that is still there is numbered at most by its counter.
abbrev pub Counted : List Conversation → ConversationEvent → Type 0
Counted cs e = All (λ c. c.id ≡ e.conversation_id → e.sequence ≤ c.event_sequence) cs

pub record Numbered (db : Db) : Type 0 where
  pub one_row : AllPairs (λ a b. a.id ≢ b.id) db.conversations
  pub counted : All (Counted db.conversations) db.events
  pub distinct : AllPairs (λ a b. ¬ SameSequence a b) db.events

-- In a table with unique identifiers a row that is found is the only one with its identifier.
found_only :
    (id : ℕ) (cs : List Conversation) (c : Conversation)
    → AllPairs (λ a b. a.id ≢ b.id) cs
    → find (has_id id) cs ≡ some c
    → All (λ x. x.id ≡ id → x ≡ c) cs
found_only id [] c u h = tt
found_only id (x ∷ cs) c u h = elim (Bool-cases (x.id == id)) [
  | inl e ↦ (λ _. ground arith, All-mono (λ y n i. absurd (n (ground arith))) cs u.0)
  | inr e ↦ (λ i. ground arith, found_only id cs c u.1 (rw e at h))
]

Counted-next :
    (id : ℕ) (e : ConversationEvent) (cs : List Conversation)
    → Counted cs e
    → Counted (update (has_id id) next_sequence cs) e
Counted-next id e cs h =
    All-update (has_id id) next_sequence cs (λ c _ k i. let b = k i in omega arith) h

module _ (sinks : List Sink) (input : EventInput) (db : Db) (c : Conversation) where
  Counted-row :
      (id now : ℕ) (cs : List Conversation)
      → c.id ≡ input.conversation_id
      → All (λ x. x.id ≡ input.conversation_id → x ≡ c) cs
      → Counted
          (update (has_id input.conversation_id) next_sequence cs)
          (event_row input (next_sequence c) id now)
  Counted-row id now cs same only =
      All-update_cases {Q = λ x. x.id ≡ c.id → suc c.event_sequence ≤ x.event_sequence}
        (has_id input.conversation_id) next_sequence cs
        (λ x e o i. let same_row = o (ground arith) in ground arith)
        (λ x e o i. absurd (ground arith)) only

  distinct-row :
      (id now : ℕ) (es : List ConversationEvent)
      → All (λ e. c.id ≡ e.conversation_id → e.sequence ≤ c.event_sequence) es
      → All (λ e. ¬ SameSequence e (event_row input (next_sequence c) id now)) es
  distinct-row id now es h =
      All-mono (λ e b s. let le = b (sym s.0) in absurd (omega (arith, s.1))) es h

  write-Numbered :
      Numbered db
      → find (has_id input.conversation_id) db.conversations ≡ some c
      → Numbered (write_event sinks input (next_sequence c) db).1
  unfolding write_event
  write-Numbered n found = record {
    one_row =
        AllPairs-update (λ a b. a.id ≢ b.id) (has_id input.conversation_id) next_sequence
          db.conversations (λ a b h. h) (λ a b h. h) n.one_row;
    counted =
        All-update {P = Counted later} (event_has_id id) (set_payload payload)
          (db.events ++ row ∷ []) (λ e _ h. h)
          (All-append (Counted later) db.events (row ∷ [])
            (All-mono (λ e h. Counted-next input.conversation_id e db.conversations h) db.events
              n.counted)
            (
              Counted-row id db.now db.conversations
                  (ground
                    (arith, find-holds (has_id input.conversation_id) db.conversations c found))
                  (found_only input.conversation_id db.conversations c n.one_row found),
              tt,
            ));
    distinct =
        AllPairs-update (λ a b. ¬ SameSequence a b) (event_has_id id) (set_payload payload)
          (db.events ++ row ∷ []) (λ a b h. h) (λ a b h. h)
          (AllPairs-snoc (λ a b. ¬ SameSequence a b) db.events row n.distinct
            (distinct-row id db.now db.events (
              All-mono
                (λ e h.
                  find-All (λ x. x.id ≡ e.conversation_id → e.sequence ≤ x.event_sequence)
                    (has_id input.conversation_id) db.conversations c found h)
                db.events n.counted)));
  }
    where
      id : ℕ
      id = db.uuid db.drawn

      payload : Payload
      payload = event_payload input (next_sequence c) id

      row : ConversationEvent
      row = event_row input (next_sequence c) id db.now

      later : List Conversation
      later = update (has_id input.conversation_id) next_sequence db.conversations

append_cases :
    (sinks : List Sink) (input : EventInput) (db : Db) (o : Option Conversation)
    → Numbered db
    → find (has_id input.conversation_id) db.conversations ≡ o
    → Numbered (record_event sinks input o db).1
append_cases sinks input db none n e = n
append_cases sinks input db (some c) n e = write-Numbered sinks input db c n e

-- Whatever event is appended, and whether or not its conversation exists: if conversations have
-- distinct identifiers, no two events of a conversation share a number, and no number passes the
-- conversation's counter, then that still holds afterwards.
pub append-Numbered :
    (sinks : List Sink) (input : EventInput) (db : Db)
    → Numbered db
    → Numbered (append_conversation_event sinks input db).1
unfolding append_conversation_event
append-Numbered [] input db n = n
append-Numbered (sink ∷ sinks) input db n = append_cases (sink ∷ sinks) input db _ n refl
