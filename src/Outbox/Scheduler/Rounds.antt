-- ===== src/Outbox/Scheduler/Rounds.antt =====
-- The rounds of a scheduled tick, and how it ends.
use resend_conversation_serv.Prelude.{
  ℕ, suc, ◌+◌, ◌-◌, ◌≡◌, ◌⊎◌, inl, inr, refl, ap, subst, ◌∙◌, Bool, true, false, ◌&&◌, ◌==◌, List,
  [], ◌∷◌, ◌++◌, arith, Outcome, done, threw, pure, Action, ◌>>=◌, Bool-cases, if◌then◌else◌,
}
use resend_conversation_serv.Database.{Db, Fault}
use resend_conversation_serv.Outbox.Batches.Settle.{DrainResult}
use resend_conversation_serv.Outbox.Batches.Drain.{drain_email_outbox}
use resend_conversation_serv.Outbox.Attachments.Drain as Single
use resend_conversation_serv.Outbox.Attachments.Drain.{Turn, drain_attachment_outbox}
use resend_conversation_serv.Outbox.Scheduler.{
  Round, Services, attachment_claimed, after_round, run_scheduled_drain,
}
use resend_conversation_serv.Outbox.Scheduler.Batches.{NoBatchDue, EmptyBatch, drain-NoBatchDue}
use resend_conversation_serv.Outbox.Scheduler.Singles.{
  NoTurnDue, MayClean, drain-NoTurnDue, clean-NoBatchDue,
}

module _ (s : Services) where
  abbrev pub email_lane : Round → Action Db Fault DrainResult
  email_lane r = drain_email_outbox s.sinks s.batch_provider r.claim r.at r.meanwhile

  -- How many messages the two lanes claim in a round together.
  abbrev pub round_claims : Round → Action Db Fault ℕ
  round_claims r = email_lane r >>= λ d. attachment_claimed s r.turns >>= λ n. pure (d.claimed + n)

  -- Rounds that each claim a message, one after the other.
  abbrev pub Busy : List Round → Db → Db → Type 0
  Busy [] a b = b ≡ a
  Busy (r ∷ rs) a b =
      (n : ℕ) × (mid : Db) × (round_claims r a ≡ (done (suc n), mid)) × Busy rs mid b

  -- The attachment lane is off, or nothing is due for the first turn of its drain.
  abbrev pub NoAttachmentDue : Round → Db → Type 0
  NoAttachmentDue r db = (s.enabled ≡ false) ⊎ NoTurnDue r.turns db

  -- A round that claims nothing and leaves nothing due; or its batch lane has claimed a batch that has no
  -- messages.
  pub record Idle (r : Round) (a b : Db) : Type 0 where
    pub claims : round_claims r a ≡ (done 0, b)
    pub batches : NoBatchDue r.claim b ⊎ EmptyBatch r.claim a
    pub attachments : NoAttachmentDue r b

  -- How a tick ends that has so many rounds left: its cap is reached, the next round is idle, or the
  -- next round throws.
  abbrev pub Ending : List Round → Db → Outcome Fault (Unit {0}) × Db → Type 0
  Ending [] a result = result ≡ (done tt, a)
  Ending (r ∷ rs) a result =
      ((b : Db) × Idle r a b × (result ≡ (done tt, b)))
      ⊎ ((e : Fault) × (b : Db) × (round_claims r a ≡ (threw e, b)) × (result ≡ (threw e, b)))

  -- The rounds are busy ones and then those that are left.
  pub record Ends (rounds : List Round) (db : Db) (result : Outcome Fault (Unit {0}) × Db)
      : Type 0 where
    pub ran : List Round
    pub left : List Round
    pub after : Db
    pub rounds_are : rounds ≡ ran ++ left
    pub busy : Busy ran db after
    pub ending : Ending left after result

  attachment-NoAttachmentDue :
      (r : Round) (db : Db)
      → (attachment_claimed s r.turns db).0 ≡ done 0
      → NoAttachmentDue r (attachment_claimed s r.turns db).1
        × MayClean db (attachment_claimed s r.turns db).1
  unfolding attachment_claimed
  attachment-NoAttachmentDue r db h = either s.enabled refl h
    where
      lane : Action Db Fault Single.DrainResult
      lane = drain_attachment_outbox s.sinks s.name s.single_provider s.enabled s.storage r.turns

      counted : Outcome Fault Single.DrainResult → Outcome Fault ℕ × Db
      counted o = ((λ _. (o, (lane db).1)) >>= λ d. pure d.claimed) db

      go :
          (o : Outcome Fault Single.DrainResult)
          → (lane db).0 ≡ o
          → (counted o).0 ≡ done 0
          → NoAttachmentDue r (counted o).1 × MayClean db (counted o).1
      go (threw e) k q = absurd (ground arith)
      go (done d) k q =
          let quiet =
            drain-NoTurnDue s.sinks s.name s.single_provider s.enabled s.storage r.turns db d k
              (ground arith) in
          (inr quiet.0, quiet.1)

      either :
          (b : Bool)
          → s.enabled ≡ b
          → ((if b then (lane >>= λ d. pure d.claimed) else pure 0) db).0 ≡ done 0
          → NoAttachmentDue r ((if b then (lane >>= λ d. pure d.claimed) else pure 0) db).1
            × MayClean db ((if b then (lane >>= λ d. pure d.claimed) else pure 0) db).1
      either true k q = go (lane db).0 refl q
      either false k q = (inl k, inl refl)

  next_round :
      (r : Round) (rs : List Round) (db mid : Db) (n : ℕ) (result : Outcome Fault (Unit {0}) × Db)
      → round_claims r db ≡ (done (suc n), mid)
      → Ends rs mid result
      → Ends (r ∷ rs) db result
  next_round r rs db mid n result h k = record {
    ran = r ∷ k.ran;
    left = k.left;
    after = k.after;
    rounds_are = ap (◌∷◌ r) k.rounds_are;
    busy = (n, mid, h, k.busy);
    ending = k.ending;
  }

  last_round :
      (r : Round) (rs : List Round) (db : Db) (result : Outcome Fault (Unit {0}) × Db)
      → Ending (r ∷ rs) db result
      → Ends (r ∷ rs) db result
  last_round r rs db result h = record {
    ran = [];
    left = r ∷ rs;
    after = db;
    rounds_are = refl;
    busy = refl;
    ending = h;
  }

  abbrev single_lane : Round → Action Db Fault ℕ
  single_lane r = attachment_claimed s r.turns

  -- What follows the batch lane, and what follows both.
  abbrev after_email : Round → List Round → DrainResult → Action Db Fault (Unit {0})
  after_email r rs d = single_lane r >>= λ n. after_round (run_scheduled_drain s rs) d.claimed n

  both-Ends :
      (r : Round) (rs : List Round) (db mid b : Db) (d : DrainResult) (n : ℕ)
      → email_lane r db ≡ (done d, mid)
      → single_lane r mid ≡ (done n, b)
      → Ends rs b (run_scheduled_drain s rs b)
      → Ends (r ∷ rs) db (after_round (run_scheduled_drain s rs) d.claimed n b)
  both-Ends r rs db mid b d n h k ih = elim (Bool-cases (d.claimed == 0 && n == 0)) [
    | inl e ↦ rw e (idle e)
    | inr e ↦ rw e (busy e)
  ]
    where
      counted : round_claims r db ≡ (done (d.claimed + n), b)
      counted = rw (h, k) refl

      idle : (d.claimed == 0 && n == 0) ≡ true → Ends (r ∷ rs) db (done tt, b)
      idle e =
          let first : d.claimed ≡ 0 = ground arith in
          let second : n ≡ 0 = ground arith in
          let sum : d.claimed + n ≡ 0 = omega arith in
          let quiet =
            attachment-NoAttachmentDue r mid
              (ap (λ (x : Outcome Fault ℕ × Db). x.0) k ∙ ap done second) in
          let same : (single_lane r mid).1 ≡ b = ap (λ (x : Outcome Fault ℕ × Db). x.1) k in
          last_round r rs db (done tt, b)
            (inl (
              b,
              record {
                claims = counted ∙ ap (λ i. (done i, b)) sum;
                batches = batches_after (subst (MayClean mid) same quiet.1) (
                    drain-NoBatchDue s.sinks s.batch_provider r.claim r.at r.meanwhile db d
                      (ap (λ (x : Outcome Fault DrainResult × Db). x.0) h) first);
                attachments = subst (NoAttachmentDue r) same quiet.0;
              },
              refl,
            ))
        where
          batches_after :
              MayClean mid b
              → NoBatchDue r.claim (email_lane r db).1 ⊎ EmptyBatch r.claim db
              → NoBatchDue r.claim b ⊎ EmptyBatch r.claim db
          batches_after c (inr x) = inr x
          batches_after c (inl x) = inl (
              clean-NoBatchDue r.claim mid b c
                (subst (NoBatchDue r.claim) (ap (λ (x : Outcome Fault DrainResult × Db). x.1) h) x))

      busy : (d.claimed == 0 && n == 0) ≡ false → Ends (r ∷ rs) db (run_scheduled_drain s rs b)
      busy e =
          let sum : d.claimed + n ≡ suc (d.claimed + n - 1) = ground arith in
          next_round r rs db b (d.claimed + n - 1) (run_scheduled_drain s rs b)
            (counted ∙ ap (λ i. (done i, b)) sum) ih

  throws-Ends :
      (r : Round) (rs : List Round) (db b : Db) (e : Fault)
      → round_claims r db ≡ (threw e, b)
      → Ends (r ∷ rs) db (threw e, b)
  throws-Ends r rs db b e h = last_round r rs db (threw e, b) (inr (e, b, h, refl))

  round-Ends :
      (r : Round) (rs : List Round) (db : Db)
      → ((b : Db) → Ends rs b (run_scheduled_drain s rs b))
      → Ends (r ∷ rs) db ((email_lane r >>= after_email r rs) db)
  round-Ends r rs db ih = go (email_lane r db).0 (email_lane r db).1 refl
    where
      second :
          (d : DrainResult) (mid : Db)
          → email_lane r db ≡ (done d, mid)
          → (o : Outcome Fault ℕ) (b : Db) → single_lane r mid ≡ (o, b)
          → Ends
              (r ∷ rs)
              db
              (((λ _. (o, b)) >>= λ n. after_round (run_scheduled_drain s rs) d.claimed n) mid)
      second d mid h (threw e) b k = throws-Ends r rs db b e (rw (h, k) refl)
      second d mid h (done n) b k = both-Ends r rs db mid b d n h k (ih b)

      go :
          (o : Outcome Fault DrainResult) (mid : Db)
          → email_lane r db ≡ (o, mid)
          → Ends (r ∷ rs) db (((λ _. (o, mid)) >>= after_email r rs) db)
      go (threw e) mid h = throws-Ends r rs db mid e (rw h refl)
      go (done d) mid h = second d mid h (single_lane r mid).0 (single_lane r mid).1 refl

  -- A scheduled tick runs rounds that each claim a message in one of the lanes, until its cap is
  -- reached, a round throws, or a round is idle. An idle round claims nothing in either lane and ends
  -- the tick without an exception; after it no batch is ready and no message is queued for a new one, at
  -- the time, limit and locks of its claim (or it has claimed a batch without messages), and no entry of
  -- the attachment lane is due at its first turn (or that lane is off, or has no turns).
  pub run_scheduled_drain-Ends :
      (rounds : List Round) (db : Db) → Ends rounds db (run_scheduled_drain s rounds db)
  unfolding run_scheduled_drain
  run_scheduled_drain-Ends [] db = record {
    ran = [];
    left = [];
    after = db;
    rounds_are = refl;
    busy = refl;
    ending = refl;
  }
  run_scheduled_drain-Ends (r ∷ rs) db = round-Ends r rs db (λ b. run_scheduled_drain-Ends rs b)
