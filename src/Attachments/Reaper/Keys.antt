-- ===== src/Attachments/Reaper/Keys.antt =====
-- Which objects the reaper queues, and what a claim of tombstones keeps from another while its lease
-- lasts.
use resend_conversation_serv.Prelude.{
  ℕ, ◌+◌, ◌-◌, ◌<◌, String, ◌≡◌, ◌⊎◌, inl, inr, refl, subst, Bool, true, false, List, [], ◌∷◌, ◌++◌,
  arith, Bool-cases, All, All-mono, any, delete, is_among, due-excludes, lease-Held, eq_iff, ltb,
  is_null, some, none, Option, ◌&&◌,
}
use resend_conversation_serv.Database.{Db, Attachment, Tombstone, AttachmentSource, inbound, upload}
use resend_conversation_serv.Attachments.Claim.{is_upload}
use resend_conversation_serv.Attachments.Reaper.{
  LeaseInput, lease_ms, batch_size, is_due, due_first, due_tombstones, lease_tombstone,
  claim_tombstones, has_key, new_tombstone, delete_stored_object, is_expired, tombstone_rows,
  expire_unreferenced_uploads,
}

-- Once a reaper has claimed tombstones, a claim made before its lease ends, while nothing else
-- writes to the table, takes none of them.
pub claim_tombstones-excludes :
    (i j : LeaseInput) (db : Db)
    → j.now < i.now + 60000
    → All
        (λ t. is_among (λ x. x.id) (due_tombstones i db.tombstones) t.id ≡ false)
        (due_tombstones j (claim_tombstones i db).1.tombstones)
unfolding claim_tombstones due_tombstones
claim_tombstones-excludes i j db before =
    due-excludes (λ t. t.id) (λ t. t.lease_until) due_first (is_due j) batch_size j.now
      (i.now + lease_ms) (due_tombstones i db.tombstones) (claim_tombstones i db).1.tombstones
      (λ t h. ground arith) before
      (lease-Held (λ t. t.id) (λ t. t.lease_until) (lease_tombstone i)
        (due_tombstones i db.tombstones) (i.now + lease_ms) db.tombstones (λ t. refl))

snoc-any :
    (k : String) (rows : List Tombstone) (t : Tombstone)
    → any (has_key k) rows ≡ true
    → any (has_key k) (rows ++ t ∷ []) ≡ true
snoc-any k [] t h = absurd (ground arith)
snoc-any k (x ∷ rows) t h = elim (Bool-cases (has_key k x)) [
  | inl e ↦ rw e refl
  | inr e ↦
      let r : any (has_key k) rows ≡ true = rw e at h in
      let ih = snoc-any k rows t r in ground arith
]

snoc-new :
    (k : String) (rows : List Tombstone) (id now : ℕ)
    → any (has_key k) (rows ++ new_tombstone id now k ∷ []) ≡ true
snoc-new k [] id now = let e = (eq_iff k k).1 refl in rw e refl
snoc-new k (x ∷ rows) id now = let ih = snoc-new k rows id now in ground arith

-- Queueing an object queues it, and removes no other from the queue.
delete_stored_object-queues :
    (k : String) (db : Db) → any (has_key k) (delete_stored_object k db).tombstones ≡ true
unfolding delete_stored_object
delete_stored_object-queues k db = elim (Bool-cases (any (has_key k) db.tombstones)) [
  | inl e ↦ rw e e
  | inr e ↦ rw e (snoc-new k db.tombstones (db.uuid db.drawn) db.now)
]

delete_stored_object-keeps :
    (k l : String) (db : Db)
    → any (has_key k) db.tombstones ≡ true
    → any (has_key k) (delete_stored_object l db).tombstones ≡ true
unfolding delete_stored_object
delete_stored_object-keeps k l db h = elim (Bool-cases (any (has_key l) db.tombstones)) [
  | inl e ↦ rw e h
  | inr e ↦ rw e (snoc-any k db.tombstones (new_tombstone (db.uuid db.drawn) db.now l) h)
]

tombstone_rows-expired :
    (p : Attachment → Bool) (a : Attachment) (rows : List Attachment) (db : Db)
    → p a ≡ true
    → tombstone_rows p rows (delete_stored_object a.storage_key db) ≡ tombstone_rows p (a ∷ rows) db
unfolding tombstone_rows
tombstone_rows-expired p a rows db e = rw e refl

tombstone_rows-other :
    (p : Attachment → Bool) (a : Attachment) (rows : List Attachment) (db : Db)
    → p a ≡ false
    → tombstone_rows p rows db ≡ tombstone_rows p (a ∷ rows) db
unfolding tombstone_rows
tombstone_rows-other p a rows db e = rw e refl

abbrev Queued : String → Db → Type 0
Queued k db = any (has_key k) db.tombstones ≡ true

tombstone_rows-keeps :
    (k : String) (p : Attachment → Bool) (rows : List Attachment) (db : Db)
    → Queued k db
    → Queued k (tombstone_rows p rows db)
unfolding tombstone_rows
tombstone_rows-keeps k p [] db h = h
tombstone_rows-keeps k p (a ∷ rows) db h = elim (Bool-cases (p a)) [
  | inl e ↦ subst (Queued k) (tombstone_rows-expired p a rows db e) (
      tombstone_rows-keeps k p rows (delete_stored_object a.storage_key db)
        (delete_stored_object-keeps k a.storage_key db h))
  | inr e ↦
      subst (Queued k) (tombstone_rows-other p a rows db e) (tombstone_rows-keeps k p rows db h)
]

abbrev AllQueued : (Attachment → Bool) → List Attachment → Db → Type 0
AllQueued p rows db = All (λ a. (p a ≡ false) ⊎ Queued a.storage_key db) rows

tombstone_rows-queues :
    (p : Attachment → Bool) (rows : List Attachment) (db : Db)
    → AllQueued p rows (tombstone_rows p rows db)
tombstone_rows-queues p [] db = tt
tombstone_rows-queues p (a ∷ rows) db = elim (Bool-cases (p a)) [
  | inl e ↦ subst (AllQueued p (a ∷ rows)) (tombstone_rows-expired p a rows db e) (
    inr (
        tombstone_rows-keeps a.storage_key p rows (delete_stored_object a.storage_key db)
          (delete_stored_object-queues a.storage_key db)),
    tombstone_rows-queues p rows (delete_stored_object a.storage_key db),
  )
  | inr e ↦
      subst (AllQueued p (a ∷ rows)) (tombstone_rows-other p a rows db e)
        (inl e, tombstone_rows-queues p rows db)
]

-- An attachment that the expiry may delete: an upload that no message uses, a day old.
abbrev pub Abandoned : ℕ → Attachment → Type 0
Abandoned now a = (a.source ≡ upload) × (a.message_id ≡ none) × (a.created_at + 86400000 < now)

is_expired-Abandoned : (now : ℕ) (a : Attachment) → is_expired now a ≡ true → Abandoned now a
is_expired-Abandoned now a h = go a.source a.message_id a.created_at h
  where
    go :
        (s : AttachmentSource) (m : Option ℕ) (t : ℕ)
        → (is_upload s && is_null m && ltb t (now - 86400000)) ≡ true
        → (s ≡ upload) × (m ≡ none) × (t + 86400000 < now)
    go upload none t h = (refl, refl, ground arith)
    go upload (some m) t h = absurd (ground arith)
    go inbound m t h = absurd (ground arith)

-- The row is in the table.
abbrev pub Row : Attachment → List Attachment → Type 0
Row a [] = ⊥
Row a (x ∷ rows) = (x ≡ a) ⊎ Row a rows

abbrev Kept : ℕ → List Attachment → List Tombstone → Attachment → Type 0
Kept now rows queue a = Row a rows ⊎ (Abandoned now a × (any (has_key a.storage_key) queue ≡ true))

Kept-more :
    (now : ℕ) (x : Attachment) (rows : List Attachment) (queue : List Tombstone) (a : Attachment)
    → Kept now rows queue a
    → Kept now (x ∷ rows) queue a
Kept-more now x rows queue a (inl h) = inl (inr h)
Kept-more now x rows queue a (inr h) = inr h

Kept-or_queued :
    (now : ℕ) (rows : List Attachment) (queue : List Tombstone)
    → All (λ a. (is_expired now a ≡ false) ⊎ (any (has_key a.storage_key) queue ≡ true)) rows
    → All (Kept now (delete (is_expired now) rows) queue) rows
Kept-or_queued now [] queue h = tt
Kept-or_queued now (a ∷ rows) queue h = elim (Bool-cases (is_expired now a)) [
  | inl e ↦
      subst (λ r. All (Kept now r queue) (a ∷ rows)) (deleted-row e)
        (inr (is_expired-Abandoned now a e, queued h.0 e), Kept-or_queued now rows queue h.1)
  | inr e ↦
      subst (λ r. All (Kept now r queue) (a ∷ rows)) (kept-row e)
        (
          inl (inl refl),
          All-mono (λ b. Kept-more now a (delete (is_expired now) rows) queue b) rows
              (Kept-or_queued now rows queue h.1),
        )
]
  where
    deleted-row :
        is_expired now a ≡ true → delete (is_expired now) rows ≡ delete (is_expired now) (a ∷ rows)
    deleted-row e = rw e refl

    kept-row :
        is_expired now a ≡ false
        → (a ∷ delete (is_expired now) rows) ≡ delete (is_expired now) (a ∷ rows)
    kept-row e = rw e refl

    queued :
        (is_expired now a ≡ false) ⊎ (any (has_key a.storage_key) queue ≡ true)
        → is_expired now a ≡ true
        → any (has_key a.storage_key) queue ≡ true
    queued (inl n) y = cc
    queued (inr q) y = q

-- Expiring uploads never loses an object: every row that was in the table is either still there, or
-- was an upload that no message used, created more than a day before, and its storage key is queued
-- for deletion.
pub expire-queues :
    (now : ℕ) (db : Db)
    → All
        (λ a.
          (Row a (expire_unreferenced_uploads now db).1.attachments)
          ⊎ (Abandoned now a
              × (any (has_key a.storage_key) (expire_unreferenced_uploads now db).1.tombstones
                  ≡ true)))
        db.attachments
unfolding expire_unreferenced_uploads
expire-queues now db =
    Kept-or_queued now db.attachments (tombstone_rows (is_expired now) db.attachments db).tombstones
      (tombstone_rows-queues (is_expired now) db.attachments db)
