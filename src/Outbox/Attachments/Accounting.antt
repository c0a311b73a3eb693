-- ===== src/Outbox/Attachments/Accounting.antt =====
-- What a drain of the lane of single sends reports.
use resend_conversation_serv.Prelude.{
  ℕ, suc, ◌+◌, ◌≤◌, ◌≡◌, refl, ap, subst, ◌∙◌, Bool, Option, none, some, List, [], ◌∷◌, ◌++◌, arith,
  Action, Outcome, done, threw, pure, ◌>>=◌, length,
}
use resend_conversation_serv.Prelude.Text.{Text}
use resend_conversation_serv.Database.{Db, Sink, Fault}
use resend_conversation_serv.Attachments.Claim.{Storage}
use resend_conversation_serv.Outbox.Batches.Settle.{DrainState, DrainEntry}
use resend_conversation_serv.Outbox.Attachments.{ClaimedEntry, SingleProvider, claim_entry}
use resend_conversation_serv.Outbox.Attachments.Drain.{
  DrainResult, empty_result, add_outcome, one_if_accepted, one_if_failed, one_if_pending,
  one_if_indeterminate, Turn, deliver_turn, drain_claimed, drain_turns, drain_attachment_outbox,
}

-- The counters add up to the number of claimed messages, one entry each.
pub record Accounted (r : DrainResult) : Type 0 where
  pub counters : r.accepted + r.failed + r.retry_scheduled + r.indeterminate ≡ r.claimed
  pub entries : length r.results ≡ r.claimed

length-snoc : (xs : List DrainEntry) (x : DrainEntry) → length (xs ++ x ∷ []) ≡ suc (length xs)
length-snoc [] x = refl
length-snoc (y ∷ xs) x = ap suc (length-snoc xs x)

one-state :
    (s : DrainState)
    → one_if_accepted s + one_if_failed s + one_if_pending s + one_if_indeterminate s ≡ 1
one-state DrainState.accepted = refl
one-state DrainState.failed = refl
one-state DrainState.pending = refl
one-state DrainState.indeterminate = refl

add-Accounted : (r : DrainResult) (e : DrainEntry) → Accounted r → Accounted (add_outcome r e)
unfolding add_outcome
add-Accounted r e h = record {
  counters = (let o = one-state e.state in let c = h.counters in omega arith);
  entries = length-snoc r.results e ∙ ap suc h.entries;
}

add-claimed :
    (r : DrainResult) (e : DrainEntry) (n : ℕ) → (add_outcome r e).claimed + n ≡ r.claimed + suc n
unfolding add_outcome
add-claimed r e n = omega arith

-- A run that returns returns an accounted result, with so many claims at most.
abbrev Returns : ℕ → Action Db Fault DrainResult → Type 0
Returns n m = (db : Db) (r : DrainResult) → (m db).0 ≡ done r → Accounted r × (r.claimed ≤ n)

bind-Returns :
    {A : Type 0} (n : ℕ) (m : Action Db Fault A) (f : A → Action Db Fault DrainResult)
    → ((a : A) → Returns n (f a))
    → Returns n (m >>= f)
bind-Returns {A} n m f h db r q = go (m db).0 (m db).1 q
  where
    go :
        (o : Outcome Fault A) (s : Db)
        → (((λ _. (o, s)) >>= f) db).0 ≡ done r
        → Accounted r × (r.claimed ≤ n)
    go (done a) s q = h a s r q
    go (threw x) s q = absurd (ground arith)

pure-Returns : (n : ℕ) (r : DrainResult) → Accounted r → r.claimed ≤ n → Returns n (pure r)
pure-Returns n r h k db r' q = subst (λ x. Accounted x × (x.claimed ≤ n)) (ground arith) (h, k)

module _ (sinks : List Sink) (name : Fault → Text) (provider : SingleProvider) (enabled : Bool)
    (storage : Storage) where
  claimed-Returns :
      (turn : Turn) (n : ℕ) (continue : DrainResult → Action Db Fault DrainResult)
      → ((r : DrainResult) → Accounted r → Returns (r.claimed + n) (continue r))
      → (r : DrainResult) → Accounted r
      → (o : Option ClaimedEntry)
      → Returns
          (r.claimed + suc n)
          (drain_claimed sinks name provider enabled storage turn continue r o)
  claimed-Returns turn n continue next r h none = pure-Returns (r.claimed + suc n) r h (omega arith)
  claimed-Returns turn n continue next r h (some entry) =
      bind-Returns (r.claimed + suc n) (deliver_turn sinks name provider enabled storage turn entry)
        (λ e. continue (add_outcome r e))
        (λ e.
          subst (λ k. Returns k (continue (add_outcome r e))) (add-claimed r e n)
            (next (add_outcome r e) (add-Accounted r e h)))

  turns-Returns :
      (turns : List Turn) (r : DrainResult)
      → Accounted r
      → Returns (r.claimed + length turns) (drain_turns sinks name provider enabled storage turns r)
  unfolding drain_turns
  turns-Returns [] r h = pure-Returns (r.claimed + 0) r h (omega arith)
  turns-Returns (turn ∷ turns) r h =
      bind-Returns (r.claimed + suc (length turns)) (claim_entry turn.claim)
        (drain_claimed sinks name provider enabled storage turn
          (λ r'. drain_turns sinks name provider enabled storage turns r') r)
        (claimed-Returns turn (length turns)
          (λ r'. drain_turns sinks name provider enabled storage turns r') (turns-Returns turns) r
          h)

-- If a drain returns a result, it has claimed at most as many messages as its limit, the length of
-- the list of turns, its counters of accepted, failed, rescheduled and indeterminate messages add up
-- to the number of claimed ones, and it has one entry for each.
pub drain-Accounted :
    (sinks : List Sink) (name : Fault → Text) (provider : SingleProvider) (enabled : Bool)
    (storage : Storage) (turns : List Turn) (db : Db) (r : DrainResult)
    → (drain_attachment_outbox sinks name provider enabled storage turns db).0 ≡ done r
    → Accounted r × (r.claimed ≤ length turns)
unfolding drain_attachment_outbox
drain-Accounted sinks name provider enabled storage turns db r q =
    let h =
      turns-Returns sinks name provider enabled storage turns empty_result
        (record { counters = refl; entries = refl }) db r q in
    (h.0, let k = h.1 in omega arith)
