-- ===== src/Outbox/Batches/Exclusive.antt =====
-- What a claim of a batch keeps from another claim while its lease lasts.
use resend_conversation_serv.Prelude.{
  ℕ, suc, ◌+◌, ◌<◌, ◌≤◌, ◌≡◌, ◌≢◌, refl, sym, ap, subst, ◌∙◌, true, false, not, Option, none, some,
  List, [], ◌∷◌, arith, Bool-cases, inl, inr, done, All, All-mono, All-append, select, order_by-All,
  select-holds, select-All_of, find, find-holds, any, ==_iff, update,
}
use resend_conversation_serv.Database.{Db, Message, Batch, Entry, is_pending}
use resend_conversation_serv.Outbox.Policy.{outbox_lease_ms}
use resend_conversation_serv.Outbox.Batches.{
  ClaimedBatch, ClaimInput, is_ready, head?, retryable_batch, queued_entries, delete_stale,
  new_batch, lease_batch, batch_has_id, lease_existing_or_new, lease_tables, checked_batch,
  read_batch, read_claimed, entry_messages, batch_entries, claim_outbox_batch,
}

-- The identifiers that the database has yet to generate are new.
pub record Fresh (db : Db) : Type 0 where
  pub unused : (n : ℕ) → db.drawn ≤ n → All (λ b. b.id ≢ db.uuid n) db.batches
  pub injective : (m n : ℕ) → db.uuid m ≡ db.uuid n → m ≡ n

head-All : (P : Batch → Type 0) (bs : List Batch) (b : Batch) → head? bs ≡ some b → All P bs → P b
head-All P [] b e h = cc
head-All P (x ∷ bs) b e h = subst P (ground arith) h.0

-- The row to lease satisfies the WHERE clause, and whatever all rows satisfy.
retryable-All :
    (P : Batch → Type 0) (i : ClaimInput) (rows : List Batch) (b : Batch)
    → retryable_batch i rows ≡ some b
    → All P rows
    → (is_ready i b ≡ true) × P b
unfolding retryable_batch
retryable-All P i rows b e h = (
  head-All (λ x. is_ready i x ≡ true) _ b e
      (order_by-All (λ x. is_ready i x ≡ true) _ (select (is_ready i) rows)
        (select-holds (is_ready i) rows)),
  head-All P _ b e
      (order_by-All P _ (select (is_ready i) rows) (select-All_of P (is_ready i) rows h)),
)

abbrev LeasedAs : ℕ → ℕ → Batch → Type 0
LeasedAs x t b = b.id ≡ x → b.lease_until ≡ some t

-- What a claim of the batch leaves behind.
record Leased (x t : ℕ) (db : Db) : Type 0 where
  rows : All (LeasedAs x t) db.batches
  not_new : x ≢ db.uuid db.drawn

update-LeasedAs :
    (i : ClaimInput) (x : ℕ) (rows : List Batch)
    → All (LeasedAs x (i.now + outbox_lease_ms)) (update (batch_has_id x) (lease_batch i) rows)
update-LeasedAs i x [] = tt
update-LeasedAs i x (b ∷ rows) = elim (Bool-cases (batch_has_id x b)) [
  | inl e ↦ rw e ((λ _. refl), update-LeasedAs i x rows)
  | inr e ↦ rw e ((λ q. absurd (ground arith)), update-LeasedAs i x rows)
]

lease-Leased :
    (i : ClaimInput) (o : Option Batch) (chosen : List Entry) (db : Db) (x : ℕ)
    → Fresh db
    → ((b : Batch) → o ≡ some b → b.id ≢ db.uuid db.drawn)
    → (lease_existing_or_new i o chosen db).0 ≡ some x
    → Leased x (i.now + 120000) (lease_existing_or_new i o chosen db).1
lease-Leased i (some b) chosen db x f k q =
    let same : b.id ≡ x = ground arith in
    record {
      rows =
          subst
            (λ y.
              All (LeasedAs x (i.now + 120000))
                (update (batch_has_id y) (lease_batch i) db.batches))
            (sym same) (update-LeasedAs i x db.batches);
      not_new = λ e. k b refl (same ∙ e);
    }
lease-Leased i none [] db x f k q = cc
lease-Leased i none (e ∷ es) db x f k q =
    let same : db.uuid db.drawn ≡ x = ground arith in
    record {
      rows =
          All-append (LeasedAs x (i.now + 120000)) db.batches
            (new_batch i (db.uuid db.drawn) db.now ∷ [])
            (All-mono (λ b d e. absurd (d (e ∙ sym same))) db.batches
              (f.unused db.drawn (omega arith)))
            ((λ _. refl), tt);
      not_new = λ e. let n = f.injective db.drawn (suc db.drawn) (same ∙ e) in omega arith;
    }

claim-Leased :
    (i : ClaimInput) (db : Db) (x : ℕ)
    → Fresh db
    → (lease_tables i db).0 ≡ some x
    → Leased x (i.now + 120000) (lease_tables i db).1
unfolding lease_tables
claim-Leased i db x f q =
    lease-Leased i (retryable_batch i db.batches) (queued_entries i (delete_stale db))
      (delete_stale db) x (record { unused = f.unused; injective = f.injective })
      (λ b e.
        (retryable-All (λ b. b.id ≢ db.uuid db.drawn) i db.batches b e
          (f.unused db.drawn (omega arith))).1)
      q

lease-other :
    (j : ClaimInput) (o : Option Batch) (chosen : List Entry) (db : Db) (x : ℕ)
    → x ≢ db.uuid db.drawn
    → ((b : Batch) → o ≡ some b → b.id ≢ x)
    → (lease_existing_or_new j o chosen db).0 ≢ some x
lease-other j (some b) chosen db x d k q = k b refl (ground arith)
lease-other j none [] db x d k q = cc
lease-other j none (e ∷ es) db x d k q = d (ground arith)

claim-other :
    (j : ClaimInput) (db : Db) (x t : ℕ)
    → Leased x t db
    → j.now < t
    → (lease_tables j db).0 ≢ some x
unfolding lease_tables
claim-other j db x t h before =
    lease-other j (retryable_batch j db.batches) (queued_entries j (delete_stale db))
      (delete_stale db) x h.not_new
      (λ b e same.
        let r = retryable-All (LeasedAs x t) j db.batches b e h.rows in
        let past = r.0 in let held = r.1 same in ground arith)

-- The identifier that a claim returns is the one that it leased.
checked-id :
    (i : ClaimInput) (b : Batch) (first : Option ℕ) (messages : List Message) (a : ClaimedBatch)
    → checked_batch i b first messages ≡ done (some a)
    → (a.id ≡ b.id)
      × (a.messages ≡ messages)
      × (any (λ m. not (is_pending m.state)) messages ≡ false)
checked-id i b none messages a q = cc
checked-id i b (some first) messages a q = ground arith

read-id :
    (i : ClaimInput) (db : Db) (b : Option Batch) (a : ClaimedBatch)
    → read_batch i db b ≡ done (some a)
    → ((c : Batch) × (b ≡ some c) × (a.id ≡ c.id))
      × (any (λ m. not (is_pending m.state)) a.messages ≡ false)
read-id i db none a q = cc
read-id i db (some b) a q =
    let h =
      checked-id i b b.first_attempt_at (entry_messages db.messages (batch_entries b.id db.entries))
        a q in
    ((b, refl, h.0), ap (any (λ m. not (is_pending m.state))) h.1 ∙ h.2)

claimed-id :
    (i : ClaimInput) (x : Option ℕ) (db : Db) (a : ClaimedBatch)
    → read_claimed i (x, db) ≡ done (some a)
    → (x ≡ some a.id) × (any (λ m. not (is_pending m.state)) a.messages ≡ false)
claimed-id i none db a q = cc
claimed-id i (some x) db a q =
    let h = read-id i db (find (batch_has_id x) db.batches) a q in
    let found = find-holds (batch_has_id x) db.batches h.0.0 h.0.1 in
    let same : h.0.0.id ≡ x = (==_iff h.0.0.id x).0 found in (ap some (sym same ∙ sym h.0.2), h.1)

-- Where the identifiers still to be generated are new and distinct: while the lease of a claimed
-- batch lasts and nothing else writes to the database, no other claim takes the same batch.
pub claim-exclusive :
    (i j : ClaimInput) (db : Db) (a b : ClaimedBatch)
    → Fresh db
    → j.now < i.now + 120000
    → (claim_outbox_batch i db).0 ≡ done (some a)
    → (claim_outbox_batch j (claim_outbox_batch i db).1).0 ≡ done (some b)
    → a.id ≢ b.id
unfolding claim_outbox_batch
claim-exclusive i j db a b f before p q same =
    let leased = (claimed-id i (lease_tables i db).0 (lease_tables i db).1 a p).0 in
    let again =
      (claimed-id j (lease_tables j (lease_tables i db).1).0
        (lease_tables j (lease_tables i db).1).1 b q).0 in
    claim-other j (lease_tables i db).1 a.id (i.now + 120000) (claim-Leased i db a.id f leased)
      before (again ∙ ap some (sym same))
