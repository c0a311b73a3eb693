-- ===== src/Conversation/State/Transitions.antt =====
-- What the automatic transitions do to a conversation.
use resend_conversation_serv.Prelude.{
  ℕ, get_elem?, get_elem?-All, some, Bool, ◌⊎◌, inl, inr, if◌then◌else◌, ◌≡◌, ◌≢◌, refl, sym, ap,
  ◌∙◌, update, true, false, List, [], ◌∷◌, arith, All, All₂, All₂-refl, All₂-trans, All₂-update,
}
use resend_conversation_serv.Database.{
  Db, Conversation, ConversationState, awaiting_us, awaiting_participant, terminated,
}
use resend_conversation_serv.Conversation.State.{
  stamp, automatic_where, terminated_where, mark_awaiting_us, mark_awaiting_participant,
  mark_terminated,
}

-- The three transitions that the service makes by itself.
pub data Mark : Type 0 where
  to_us to_participant to_terminated : ℕ → ℕ → Mark

unfoldable pub mark : Mark → Db → Db
mark (to_us id at) db = (mark_awaiting_us id at db).1
mark (to_participant id at) db = (mark_awaiting_participant id at db).1
mark (to_terminated id at) db = (mark_terminated id at db).1

unfoldable pub marks : List Mark → Db → Db
unfolding mark
marks [] db = db
marks (m ∷ ms) db = marks ms (mark m db)

-- A row keeps its state and its timestamp, or it leaves a state that is not TERMINATED.
pub record Kept (before after : Conversation) : Type 0 where
  pub id : after.id ≡ before.id
  pub absorbing : before.state ≡ terminated → after ≡ before
  pub topic : after.topic_type ≡ before.topic_type
  pub sequence : after.event_sequence ≡ before.event_sequence

Kept-refl : (c : Conversation) → Kept c c
Kept-refl c = record { id = refl; absorbing = λ _. refl; topic = refl; sequence = refl }

Kept-trans : (a b c : Conversation) → Kept a b → Kept b c → Kept a c
Kept-trans a b c h k = record {
  id = k.id ∙ h.id;
  absorbing =
      λ t. let e = h.absorbing t in k.absorbing (ap (λ (x : Conversation). x.state) e ∙ t) ∙ e;
  topic = k.topic ∙ h.topic;
  sequence = k.sequence ∙ h.sequence;
}

automatic-Kept :
    (id : ℕ) (state : ConversationState) (at : ℕ) (a : Conversation)
    → automatic_where id state a ≡ true
    → Kept a (stamp state at a)
automatic-Kept id state at a h = record {
  id = refl;
  absorbing = λ t. ground arith;
  topic = refl;
  sequence = refl;
}

terminated-Kept :
    (id at : ℕ) (a : Conversation) → terminated_where id a ≡ true → Kept a (stamp terminated at a)
terminated-Kept id at a h = record {
  id = refl;
  absorbing = λ t. ground arith;
  topic = refl;
  sequence = refl;
}

mark-Kept : (m : Mark) (db : Db) → All₂ Kept db.conversations (mark m db).conversations
unfolding mark mark_awaiting_us mark_awaiting_participant mark_terminated
mark-Kept (to_us id at) db =
    All₂-update Kept _ _ db.conversations (automatic-Kept id awaiting_us at) Kept-refl
mark-Kept (to_participant id at) db =
    All₂-update Kept _ _ db.conversations (automatic-Kept id awaiting_participant at) Kept-refl
mark-Kept (to_terminated id at) db =
    All₂-update Kept _ _ db.conversations (terminated-Kept id at) Kept-refl

-- After any sequence of automatic transitions every conversation is still there with its identifier,
-- its topic and its event counter, and one that was TERMINATED is unchanged, timestamp included.
pub marks-Kept : (ms : List Mark) (db : Db) → All₂ Kept db.conversations (marks ms db).conversations
unfolding marks
marks-Kept [] db = All₂-refl Kept Kept-refl db.conversations
marks-Kept (m ∷ ms) db =
    All₂-trans Kept Kept-trans _ _ _ (mark-Kept m db) (marks-Kept ms (mark m db))

abbrev IsTerminatedAt : ℕ → Conversation → Type 0
IsTerminatedAt id c = c.id ≡ id → c.state ≡ terminated

Kept-IsTerminatedAt :
    (id : ℕ) (a b : Conversation) → Kept a b → IsTerminatedAt id a → IsTerminatedAt id b
Kept-IsTerminatedAt id a b k h e =
    let t = h (sym k.id ∙ e) in ap (λ (c : Conversation). c.state) (k.absorbing t) ∙ t

All-Kept :
    {P : Conversation → Type 0}
    → ((a b : Conversation) → Kept a b → P a → P b)
    → (xs ys : List Conversation) → All₂ Kept xs ys
    → All P xs
    → All P ys
All-Kept f [] [] k h = tt
All-Kept f [] (y ∷ ys) k h = absurd k
All-Kept f (x ∷ xs) [] k h = absurd k
All-Kept f (x ∷ xs) (y ∷ ys) k h = (f x y k.0 h.0, All-Kept f xs ys k.1 h.1)

All-mark_terminated :
    (id at : ℕ) (cs : List Conversation)
    → All (IsTerminatedAt id) (update (terminated_where id) (stamp terminated at) cs)
All-mark_terminated id at [] = tt
All-mark_terminated id at (c ∷ cs) = (λ e. ground arith, All-mark_terminated id at cs)

-- Once a hard delivery failure has marked a conversation, whatever automatic transitions follow,
-- every row with its identifier is in the TERMINATED state.
pub terminated_for_good :
    (id at : ℕ) (ms : List Mark) (db : Db) (n : ℕ) (c : Conversation)
    → get_elem? (marks ms (mark (to_terminated id at) db)).conversations n ≡ some c
    → c.id ≡ id
    → c.state ≡ terminated
terminated_for_good id at ms db n c found =
    get_elem?-All (IsTerminatedAt id) (marks ms (mark (to_terminated id at) db)).conversations n c
      found
      (All-Kept (Kept-IsTerminatedAt id) _ _ (marks-Kept ms (mark (to_terminated id at) db))
        (unfold mark mark_terminated in All-mark_terminated id at db.conversations))

-- The target of a transition, its time, and whether its state may still be left.
abbrev pub target : Mark → ConversationState
target (to_us id at) = awaiting_us
target (to_participant id at) = awaiting_participant
target (to_terminated id at) = terminated

abbrev pub addressee : Mark → ℕ
addressee (to_us id at) = id
addressee (to_participant id at) = id
addressee (to_terminated id at) = id

abbrev pub moment : Mark → ℕ
moment (to_us id at) = at
moment (to_participant id at) = at
moment (to_terminated id at) = at

-- The independent description of one transition of one row.
pub data Turn (m : Mark) (before after : Conversation) : Type 0 where
  other : before.id ≢ addressee m → after ≡ before → Turn m before after
  stays : before.state ≡ target m → after ≡ before → Turn m before after
  final : before.state ≡ terminated → after ≡ before → Turn m before after
  moves :
      before.id ≡ addressee m
      → before.state ≢ target m
      → before.state ≢ terminated
      → after.state ≡ target m
      → after.state_changed_at ≡ moment m
      → Turn m before after

turn_where :
    (m : Mark) (c : Conversation) (b : Bool)
    → (b ≡ true → (c.id ≡ addressee m) × (c.state ≢ target m) × (c.state ≢ terminated))
    → (b ≡ false → (c.id ≢ addressee m) ⊎ (c.state ≡ target m) ⊎ (c.state ≡ terminated))
    → Turn m c (if b then stamp (target m) (moment m) c else c)
turn_where m c true yes_case no_case = let h = yes_case refl in moves h.0 h.1 h.2 refl refl
turn_where m c false yes_case no_case = elim (no_case refl) [
  | inl e ↦ other e refl
  | inr (inl e) ↦ stays e refl
  | inr (inr e) ↦ final e refl
]

update-Turn :
    (m : Mark) (p : Conversation → Bool)
    → ((c : Conversation)
        → p c ≡ true
        → (c.id ≡ addressee m) × (c.state ≢ target m) × (c.state ≢ terminated))
    → ((c : Conversation)
        → p c ≡ false
        → (c.id ≢ addressee m) ⊎ (c.state ≡ target m) ⊎ (c.state ≡ terminated))
    → (cs : List Conversation) → All₂ (Turn m) cs (update p (stamp (target m) (moment m)) cs)
update-Turn m p f g [] = tt
update-Turn m p f g (c ∷ cs) = (turn_where m c (p c) (f c) (g c), update-Turn m p f g cs)

-- Each automatic transition changes exactly the rows of its conversation that are neither
-- TERMINATED nor already in the target state, and gives them the target state and the time of the
-- transition; every other row, with its timestamp, is unchanged.
pub mark-Turn : (m : Mark) (db : Db) → All₂ (Turn m) db.conversations (mark m db).conversations
unfolding mark mark_awaiting_us mark_awaiting_participant mark_terminated
mark-Turn (to_us id at) db =
    update-Turn (to_us id at) _ (λ c h. ground arith) (λ c h. ground arith) db.conversations
mark-Turn (to_participant id at) db =
    update-Turn (to_participant id at) _ (λ c h. ground arith) (λ c h. ground arith)
      db.conversations
mark-Turn (to_terminated id at) db =
    update-Turn (to_terminated id at) _ (λ c h. ground arith) (λ c h. ground arith) db.conversations
