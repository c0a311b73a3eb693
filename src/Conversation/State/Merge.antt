-- ===== src/Conversation/State/Merge.antt =====
-- The state of a merged conversation, described without the loop.
use resend_conversation_serv.Prelude.{
  ℕ, ◌≤◌, ◌≡◌, ◌≢◌, refl, true, false, ◌&&◌, Option, none, some, List, [], ◌∷◌, arith, ◌==◌, leb,
  if◌then◌else◌, Bool, Bool-cases, ◌⊎◌, inl, inr, subst, sym, ap, ◌↔◌, All, any, find, select,
}
use resend_conversation_serv.Database.{
  ConversationState, awaiting_us, awaiting_participant, concluded, terminated,
}
use resend_conversation_serv.Conversation.State.{
  StateRow, state_eq, is_present, earliest, merge_precedence, stamp_winner, rows_in, merge_winner,
  merge_conversation_state,
}

-- Lower is stronger.
abbrev pub rank : ConversationState → ℕ
rank terminated = 0
rank awaiting_us = 1
rank awaiting_participant = 2
rank concluded = 3

-- `w` is one of the rows.
abbrev pub Among : StateRow → List StateRow → Type 0
Among w rows =
    any (λ r. state_eq r.state w.state && r.state_changed_at == w.state_changed_at) rows ≡ true

-- `w` is a row, no row has a stronger state, and no row of its state is earlier.
pub record IsWinner (rows : List StateRow) (w : StateRow) : Type 0 where
  pub among : Among w rows
  pub strongest : (r : StateRow) → Among r rows → rank w.state ≤ rank r.state
  pub earliest_one :
      (r : StateRow) → Among r rows → r.state ≡ w.state → w.state_changed_at ≤ r.state_changed_at

state_eq_sound : (s t : ConversationState) → state_eq s t ≡ true → s ≡ t
state_eq_sound s t h = ground arith

state_eq_refl : (s : ConversationState) → state_eq s s ≡ true
state_eq_refl s = ground arith

rank-injective : (s t : ConversationState) → rank s ≡ rank t → s ≡ t
rank-injective s t h = ground arith

row_eq :
    (r w : StateRow)
    → (state_eq r.state w.state && r.state_changed_at == w.state_changed_at) ≡ true
    → r ≡ w
row_eq r w h = ground (arith, state_eq_sound r.state w.state)

All-Among :
    (P : StateRow → Type 0) (rows : List StateRow) (w : StateRow) → All P rows → Among w rows → P w
All-Among P [] w a m = cc
All-Among P (r ∷ rows) w a m =
    elim (Bool-cases (state_eq r.state w.state && r.state_changed_at == w.state_changed_at)) [
      | inl e ↦ subst P (row_eq r w e) a.0
      | inr e ↦ All-Among P rows w a.1 (rw e at m)
    ]

-- The reducer from an accumulator: a lower bound that is attained.
earliest-some :
    (t : ℕ) (rows : List StateRow)
    → (u : ℕ) × (earliest (some t) rows ≡ some u)
      × (u ≤ t)
      × All (λ r. u ≤ r.state_changed_at) rows
      × ((u ≡ t) ⊎ (any (λ r. r.state_changed_at == u) rows ≡ true))
earliest-some t [] = (t, refl, omega arith, tt, inl refl)
earliest-some t (r ∷ rows) =
    let (u, e, le, all, attained) =
      earliest-some (if leb t r.state_changed_at then t else r.state_changed_at) rows in
    (u, e, ground arith, (ground arith, all), ground arith)

earliest-lem :
    (rows : List StateRow) (u : ℕ)
    → earliest none rows ≡ some u
    → All (λ r. u ≤ r.state_changed_at) rows × (any (λ r. r.state_changed_at == u) rows ≡ true)
earliest-lem [] u h = cc
earliest-lem (r ∷ rows) u h =
    let (v, e, le, all, attained) = earliest-some r.state_changed_at rows in
    let same : v ≡ u = ground arith in
    subst
      (λ k.
        All (λ r. k ≤ r.state_changed_at) (r ∷ rows)
        × (any (λ r. r.state_changed_at == k) (r ∷ rows) ≡ true))
      same ((le, all), ground arith)

select-any :
    (p q : StateRow → Bool) (rows : List StateRow)
    → any q (select p rows) ≡ true
    → any (λ r. p r && q r) rows ≡ true
select-any p q [] h = cc
select-any p q (r ∷ rows) h = ground (arith, select-any p q rows)

select-All :
    (p : StateRow → Bool) (P : StateRow → Type 0) (rows : List StateRow)
    → All P (select p rows)
    → All (λ r. p r ≡ true → P r) rows
select-All p P [] h = tt
select-All p P (r ∷ rows) h = elim (Bool-cases (p r)) [
  | inl e ↦
      let h' : P r × All P (select p rows) = rw e at h in (λ _. h'.0, select-All p P rows h'.1)
  | inr e ↦ (λ e'. cc, select-All p P rows (rw e at h))
]

first_present :
    (f : ConversationState → Bool) (w : ConversationState)
    → find f merge_precedence ≡ some w
    → (f w ≡ true) × ((s : ConversationState) → f s ≡ true → rank w ≤ rank s)
first_present f w h = (ground arith, λ s e. ground arith)

Among-present :
    (r : StateRow) (rows : List StateRow) → Among r rows → is_present rows r.state ≡ true
Among-present r [] m = cc
Among-present r (x ∷ rows) m = ground (arith, Among-present r rows)

stamp_parts :
    (s : ConversationState) (t : Option ℕ) (w : StateRow)
    → stamp_winner s t ≡ some w
    → (s ≡ w.state) × (t ≡ some w.state_changed_at)
stamp_parts s none w h = cc
stamp_parts s (some t) w h = (ground arith, ground arith)

winner_parts :
    (rows : List StateRow) (o : Option ConversationState) (w : StateRow)
    → merge_winner rows o ≡ some w
    → (o ≡ some w.state) × (earliest none (rows_in w.state rows) ≡ some w.state_changed_at)
winner_parts rows none w h = cc
winner_parts rows (some s) w h =
    let (same, at) = stamp_parts s (earliest none (rows_in s rows)) w h in
    (ap some same, subst (λ x. earliest none (rows_in x rows) ≡ some w.state_changed_at) same at)

merge_parts :
    (rows : List StateRow) (w : StateRow)
    → merge_conversation_state rows ≡ some w
    → (find (is_present rows) merge_precedence ≡ some w.state)
      × (earliest none (rows_in w.state rows) ≡ some w.state_changed_at)
unfolding merge_conversation_state
merge_parts rows w h = winner_parts rows _ w h

earliest-none : (rows : List StateRow) → earliest none rows ≡ none → rows ≡ []
earliest-none [] h = refl
earliest-none (r ∷ rows) h =
    let (u, e, le, all, attained) = earliest-some r.state_changed_at rows in cc (e, h)

rows_in-present :
    (rows : List StateRow) (s : ConversationState) → is_present rows s ≡ true → rows_in s rows ≢ []
rows_in-present [] s h e = cc
rows_in-present (r ∷ rows) s h e = ground (arith, rows_in-present rows s)

stamp_winner-none : (s : ConversationState) (t : Option ℕ) → stamp_winner s t ≡ none → t ≡ none
stamp_winner-none s none h = refl
stamp_winner-none s (some t) h = cc

no_winner :
    (rows : List StateRow) (o : Option ConversationState)
    → find (is_present rows) merge_precedence ≡ o
    → merge_winner rows o ≡ none
    → o ≡ none
no_winner rows none e h = refl
no_winner rows (some s) e h = absurd (
    rows_in-present rows s (first_present (is_present rows) s e).0
      (earliest-none _ (stamp_winner-none s _ h)))

none_present :
    (f : ConversationState → Bool) (s : ConversationState)
    → find f merge_precedence ≡ none
    → f s ≡ false
none_present f s h = ground arith

-- A merged state is one of the rows, of the strongest state that any row has, at the earliest time
-- at which a row of that state changed.
pub merge-IsWinner :
    (rows : List StateRow) (w : StateRow) → merge_conversation_state rows ≡ some w → IsWinner rows w
merge-IsWinner rows w h =
    let (present, early) = merge_parts rows w h in
    let (low, attained) = earliest-lem _ _ early in
    record {
      among = select-any _ _ rows attained;
      strongest =
          λ r m. (first_present (is_present rows) _ present).1 r.state (Among-present r rows m);
      earliest_one = λ r m e.
          All-Among (λ x. state_eq x.state w.state ≡ true → w.state_changed_at ≤ x.state_changed_at)
            rows r (select-All _ _ rows low) m (ground (arith, state_eq_refl w.state));
    }

-- Only the empty list of rows has no merged state.
pub merge-none : (rows : List StateRow) → merge_conversation_state rows ≡ none → rows ≡ []
unfolding merge_conversation_state
merge-none [] h = refl
merge-none (r ∷ rows) h =
    let absent : is_present (r ∷ rows) r.state ≡ false =
      none_present (is_present (r ∷ rows)) r.state (no_winner (r ∷ rows) _ refl h) in
    ground (arith, state_eq_refl r.state)

IsWinner-unique :
    (rows : List StateRow) (v w : StateRow) → IsWinner rows v → IsWinner rows w → v ≡ w
IsWinner-unique rows v w a b =
    let same : v.state ≡ w.state =
      rank-injective v.state w.state
        (omega (arith, a.strongest w b.among, b.strongest v a.among)) in
    let at : v.state_changed_at ≡ w.state_changed_at =
      omega (arith, a.earliest_one w b.among (sym same), b.earliest_one v a.among same) in
    ground arith

IsWinner-same :
    (rows others : List StateRow) (w : StateRow)
    → ((v : StateRow) → Among v rows ↔ Among v others)
    → IsWinner others w
    → IsWinner rows w
IsWinner-same rows others w same h = record {
  among = (same w).1 h.among;
  strongest = λ r m. h.strongest r ((same r).0 m);
  earliest_one = λ r m. h.earliest_one r ((same r).0 m);
}

not-Among-nil : (rows : List StateRow) (w : StateRow) → rows ≡ [] → Among w rows → ⊥
not-Among-nil [] w e m = cc
not-Among-nil (r ∷ rows) w e m = cc

agree :
    (rows others : List StateRow) (o o' : Option StateRow)
    → ((v : StateRow) → Among v rows ↔ Among v others)
    → merge_conversation_state rows ≡ o
    → merge_conversation_state others ≡ o'
    → o ≡ o'
agree rows others none none same e e' = refl
agree rows others none (some w) same e e' =
    absurd
      (not-Among-nil rows w (merge-none rows e) ((same w).1 (merge-IsWinner others w e').among))
agree rows others (some v) none same e e' =
    absurd
      (not-Among-nil others v (merge-none others e') ((same v).0 (merge-IsWinner rows v e).among))
agree rows others (some v) (some w) same e e' = ap some (
    IsWinner-unique rows v w (merge-IsWinner rows v e)
      (IsWinner-same rows others w same (merge-IsWinner others w e')))

-- Two lists of the same rows, in whatever order and however often, merge to the same state.
pub merge_order_irrelevant :
    (rows others : List StateRow)
    → ((w : StateRow) → Among w rows ↔ Among w others)
    → merge_conversation_state rows ≡ merge_conversation_state others
merge_order_irrelevant rows others same = agree rows others _ _ same refl refl
