-- ===== src/Attachments/Claim/Exclusive.antt =====
-- What a claim of uploads keeps from a later claim.
use resend_conversation_serv.Prelude.{
  ℕ, ◌+◌, ◌<◌, ◌≤◌, String, ◌≡◌, ◌≢◌, inl, inr, refl, sym, Bool, true, false, ◌&&◌, Option, none,
  some, List, [], ◌∷◌, arith, Bool-cases, All, All-update, AllPairs, AllPairs-update, update, count,
  length, ◌==◌, done, threw, str_eq, ltb,
}
use resend_conversation_serv.Database.{Db, Attachment, attachment_claim_refused}
use resend_conversation_serv.Attachments.Claim.{
  AttachmentRef, AttachmentConfig, is_requested, is_free, is_claimable, bind_to, belongs_to,
  make_inline, set_content_id, set_content_ids, bind_rows, check_size, bind_claimed,
  claim_attachments_for_message, total_size,
}

-- Rows have distinct identifiers.
abbrev pub Distinct : Attachment → Attachment → Type 0
Distinct a b = a.id ≢ b.id

abbrev is_free_one : ℕ → Attachment → Bool
is_free_one id a = id == a.id && is_free a

abbrev NotFree : ℕ → Attachment → Type 0
NotFree id a = is_free_one id a ≡ false

none-counted :
    (id : ℕ) (rows : List Attachment) → All (NotFree id) rows → count (is_free_one id) rows ≡ 0
none-counted id [] h = refl
none-counted id (a ∷ rows) h = let ih = none-counted id rows h.1 in let e = h.0 in rw e ih

other-NotFree :
    (id : ℕ) (a : Attachment) (rows : List Attachment)
    → id ≡ a.id
    → All (Distinct a) rows
    → All (NotFree id) rows
other-NotFree id a [] e h = tt
other-NotFree id a (b ∷ rows) e h = ((let d = h.0 in ground arith), other-NotFree id a rows e h.1)

one-counted :
    (id : ℕ) (rows : List Attachment) → AllPairs Distinct rows → count (is_free_one id) rows ≤ 1
one-counted id [] h = omega arith
one-counted id (a ∷ rows) h = elim (Bool-cases (is_free_one id a)) [
  | inl e ↦
      rw e
        (let k = none-counted id rows (other-NotFree id a rows (ground arith) h.0) in omega arith)
  | inr e ↦ rw e (one-counted id rows h.1)
]

split-count :
    (r : AttachmentRef) (refs : List AttachmentRef) (rows : List Attachment)
    → count (is_claimable (r ∷ refs)) rows
      ≤ count (is_free_one r.id) rows + count (is_claimable refs) rows
split-count r refs [] = omega arith
split-count r refs (a ∷ rows) = let ih = split-count r refs rows in ground arith

count-length :
    (refs : List AttachmentRef) (rows : List Attachment)
    → AllPairs Distinct rows
    → count (is_claimable refs) rows ≤ length refs
count-length [] rows h = none_requested rows
  where
    none_requested : (rows : List Attachment) → count (is_claimable []) rows ≤ 0
    none_requested [] = omega arith
    none_requested (a ∷ rows) = none_requested rows
count-length (r ∷ refs) rows h =
    let s = split-count r refs rows in
    let o = one-counted r.id rows h in let ih = count-length refs rows h in omega arith

-- Fewer rows than references match where one of the requested uploads is not free.
count-length_lt :
    (id : ℕ) (refs : List AttachmentRef) (rows : List Attachment)
    → AllPairs Distinct rows
    → All (NotFree id) rows
    → is_requested refs id ≡ true
    → count (is_claimable refs) rows < length refs
count-length_lt id [] rows h k q = cc
count-length_lt id (r ∷ refs) rows h k q = elim (Bool-cases (r.id == id)) [
  | inl e ↦
      let same : r.id ≡ id = ground arith in
      let z : count (is_free_one r.id) rows ≡ 0 = rw same (none-counted id rows k) in
      let s = split-count r refs rows in let o = count-length refs rows h in omega arith
  | inr e ↦
      let s = split-count r refs rows in
      let o = one-counted r.id rows h in
      let ih = count-length_lt id refs rows h k (rw e at q) in omega arith
]

unrequested :
    (id : ℕ) (refs : List AttachmentRef) (a : Attachment)
    → is_requested refs id ≡ true
    → is_claimable refs a ≡ false
    → NotFree id a
unrequested id refs a q e = elim (Bool-cases (id == a.id)) [
  | inl i ↦
      let same : id ≡ a.id = ground arith in
      let q' : is_requested refs a.id ≡ true = rw (sym same) q in ground arith
  | inr i ↦ rw i refl
]

bound-NotFree :
    (id m : ℕ) (refs : List AttachmentRef) (rows : List Attachment)
    → is_requested refs id ≡ true
    → All (NotFree id) (update (is_claimable refs) (bind_to m) rows)
bound-NotFree id m refs [] q = tt
bound-NotFree id m refs (a ∷ rows) q = elim (Bool-cases (is_claimable refs a)) [
  | inl e ↦ rw e ((ground arith), bound-NotFree id m refs rows q)
  | inr e ↦ rw e (unrequested id refs a q e, bound-NotFree id m refs rows q)
]

-- What holds of the bound rows, whatever their content identifiers.
abbrev Bound : ℕ → List Attachment → Type 0
Bound id rows = All (NotFree id) rows × AllPairs Distinct rows

inline-Bound :
    (id m k : ℕ) (c : String) (rows : List Attachment)
    → Bound id rows
    → Bound id (update (λ a. a.id == k && belongs_to m a) (make_inline c) rows)
inline-Bound id m k c rows h = (
  All-update (λ a. a.id == k && belongs_to m a) (make_inline c) rows (λ a e x. x) h.0,
  AllPairs-update Distinct (λ a. a.id == k && belongs_to m a) (make_inline c) rows (λ a b x. x)
      (λ a b x. x) h.1,
)

content_id-Bound :
    (id m k : ℕ) (c : Option String) (rows : List Attachment)
    → Bound id rows
    → Bound id (set_content_id m k c rows)
content_id-Bound id m k none rows h = h
content_id-Bound id m k (some c) rows h = elim (Bool-cases (str_eq c "")) [
  | inl e ↦ rw e h
  | inr e ↦ rw e (inline-Bound id m k c rows h)
]

content_ids-Bound :
    (id m : ℕ) (refs : List AttachmentRef) (rows : List Attachment)
    → Bound id rows
    → Bound id (set_content_ids m refs rows)
unfolding set_content_ids
content_ids-Bound id m [] rows h = h
content_ids-Bound id m (r ∷ refs) rows h =
    content_ids-Bound id m refs (set_content_id m r.id r.content_id rows)
      (content_id-Bound id m r.id r.content_id rows h)

bind_rows-Bound :
    (id m : ℕ) (refs : List AttachmentRef) (rows : List Attachment)
    → AllPairs Distinct rows
    → is_requested refs id ≡ true
    → Bound id (bind_rows m refs rows)
unfolding bind_rows
bind_rows-Bound id m refs rows h q =
    content_ids-Bound id m refs (update (is_claimable refs) (bind_to m) rows) (
      bound-NotFree id m refs rows q,
      AllPairs-update Distinct (is_claimable refs) (bind_to m) rows (λ a b x. x) (λ a b x. x) h,
    )

-- A claim that succeeds ran with attachments enabled and leaves the bound rows.
claim-done :
    (config : AttachmentConfig) (m : ℕ) (r : AttachmentRef) (refs : List AttachmentRef) (db : Db)
    (n : ℕ)
    → (claim_attachments_for_message config m (r ∷ refs) db).0 ≡ done n
    → (config.enabled ≡ true)
      × ((claim_attachments_for_message config m (r ∷ refs) db).1.attachments
          ≡ bind_rows m (r ∷ refs) db.attachments)
unfolding claim_attachments_for_message
claim-done config m r refs db n h = elim (Bool-cases config.enabled) [
  | inr e ↦ absurd (ground arith)
  | inl e ↦
      (e, rw e (bind_claimed-done (count (is_claimable (r ∷ refs)) db.attachments) (rw e at h)))
]
  where
    check_size-done :
        (k : ℕ) (db' : Db) → (check_size config m k db').1.attachments ≡ db'.attachments
    check_size-done k db' =
        elim (Bool-cases (ltb config.max_total_bytes (total_size m db'.attachments))) [
          | inl e ↦ rw e refl
          | inr e ↦ rw e refl
        ]

    bind_claimed-done :
        (k : ℕ)
        → (bind_claimed config m (r ∷ refs) k db).0 ≡ done n
        → (bind_claimed config m (r ∷ refs) k db).1.attachments
          ≡ bind_rows m (r ∷ refs) db.attachments
    bind_claimed-done k h = elim (Bool-cases (k == length (r ∷ refs))) [
      | inl e ↦ rw e (check_size-done k _)
      | inr e ↦ absurd (ground arith)
    ]

claim-refused :
    (config : AttachmentConfig) (m id : ℕ) (refs : List AttachmentRef) (db : Db)
    → config.enabled ≡ true
    → Bound id db.attachments
    → is_requested refs id ≡ true
    → (claim_attachments_for_message config m refs db).0 ≡ threw attachment_claim_refused
unfolding claim_attachments_for_message
claim-refused config m id [] db e h q = cc
claim-refused config m id (r ∷ refs) db e h q =
    let lt = count-length_lt id (r ∷ refs) db.attachments h.1 h.0 q in
    let ne : (count (is_claimable (r ∷ refs)) db.attachments == length (r ∷ refs)) ≡ false =
      ground arith in
    rw (e, ne) refl

-- Where the rows have distinct identifiers: once a send has claimed an upload, a claim of the same
-- upload by any message, alone or among others, is refused.
pub claim-excludes :
    (config : AttachmentConfig) (m m' id : ℕ) (refs refs' : List AttachmentRef) (db : Db) (n : ℕ)
    → AllPairs Distinct db.attachments
    → (claim_attachments_for_message config m refs db).0 ≡ done n
    → is_requested refs id ≡ true
    → is_requested refs' id ≡ true
    → (claim_attachments_for_message config m' refs'
        (claim_attachments_for_message config m refs db).1).0
      ≡ threw attachment_claim_refused
claim-excludes config m m' id [] refs' db n d h q q' = cc
claim-excludes config m m' id (r ∷ refs) refs' db n d h q q' =
    let k = claim-done config m r refs db n h in
    claim-refused config m' id refs' (claim_attachments_for_message config m (r ∷ refs) db).1 k.0
      (rw k.1 (bind_rows-Bound id m (r ∷ refs) db.attachments d q)) q'
