-- ===== src/Email/Threading/Subjects.antt =====
-- The subject of a reply: the loop over prefixes, and replies to replies.
use mathlib.Core.List.{reverse, reverse-append, append_assoc}
use resend_conversation_serv.Prelude.{
  ℕ, zero, suc, ◌+◌, ◌≤◌, ◌<◌, ◌≡◌, refl, sym, ap, subst, ◌∙◌, true, false, Option, none, some, [],
  ◌∷◌, ◌++◌, ◌==◌, arith, Bool-cases, inl, inr, length,
}
use resend_conversation_serv.Prelude.Text.{Text, codes, is_space, trim, trim_start, lower}
use resend_conversation_serv.Prelude.Text.Search.{is_empty}
use resend_conversation_serv.Prelude.Text.Chars.{
  first_visible, first_visible-trim_start, trim_start-first_visible, trim_start-suffix,
  first_visible-prefix, first_visible-append, is_empty-reverse, has_ends, trim_keeps, trim-has_ends,
}
use resend_conversation_serv.Email.Threading.{
  after_tag, skip_colon, after_colon, or_else, strip_prefix, strip_round, strip_prefixes, stripped,
  normalize_subject, create_reply_subject,
}

-- `r` is what remains of `s`: a shorter text at its end, without white space in front.
record Remains (s r : Text) : Type 0 where
  before : Text
  whole : s ≡ before ++ r
  visible : first_visible r ≡ true
  shorter : length r < length s

after_tag-suffix : (tag s r : Text) → after_tag tag s ≡ some r → (p : Text) × (s ≡ p ++ r)
after_tag-suffix [] s r h = ([], ground arith)
after_tag-suffix (c ∷ tag) [] r h = cc
after_tag-suffix (c ∷ tag) (d ∷ s) r h = elim (Bool-cases (lower d == c)) [
  | inl e ↦ let k = after_tag-suffix tag s r (rw e at h) in (d ∷ k.0, ap (◌∷◌ d) k.1)
  | inr e ↦ let h' : none ≡ some r = rw e at h in cc
]

length-append : (s t : Text) → length (s ++ t) ≡ length s + length t
length-append [] t = omega arith
length-append (c ∷ s) t = let ih = length-append s t in omega arith

skip_colon-Remains : (s r : Text) → skip_colon s ≡ some r → Remains s r
skip_colon-Remains [] r h = cc
skip_colon-Remains (c ∷ s) r h = elim (Bool-cases (c == b':')) [
  | inr e ↦ let h' : none ≡ some r = rw e at h in cc
  | inl e ↦
      let same : trim_start s ≡ r =
        let h' : some (trim_start s) ≡ some r = rw e at h in ground arith in
      let cut = trim_start-suffix s in
      subst (Remains (c ∷ s)) same (record {
        before = c ∷ cut.0;
        whole = ap (◌∷◌ c) cut.1;
        visible = trim_start-first_visible s;
        shorter =
            (let l : length s ≡ length cut.0 + length (trim_start s) =
                ap length cut.1 ∙ length-append cut.0 (trim_start s) in
              omega arith);
      })
]

-- A text that remains after more has been cut off in front.
Remains-append : (p s r : Text) → Remains s r → Remains (p ++ s) r
Remains-append p s r h = record {
  before = p ++ h.before;
  whole = ap (λ x. p ++ x) h.whole ∙ sym (append_assoc p h.before r);
  visible = h.visible;
  shorter = (let l = length-append p s in let k = h.shorter in omega arith);
}

after_colon-Remains :
    (s r : Text) (o : Option Text)
    → ((t : Text) → o ≡ some t → (p : Text) × (s ≡ p ++ t))
    → after_colon o ≡ some r
    → Remains s r
after_colon-Remains s r none f h = cc
after_colon-Remains s r (some t) f h =
    let cut = f t refl in
    let cut' = trim_start-suffix t in
    subst (λ x. Remains x r) (sym cut.1)
      (Remains-append cut.0 t r (
        subst (λ x. Remains x r) (sym cut'.1)
          (Remains-append cut'.0 (trim_start t) r (skip_colon-Remains (trim_start t) r h))))

either-Remains :
    (s r : Text) (o p : Option Text)
    → (o ≡ some r → Remains s r)
    → (p ≡ some r → Remains s r)
    → or_else o p ≡ some r
    → Remains s r
either-Remains s r none p f g h = g h
either-Remains s r (some x) p f g h = f h

strip_prefix-Remains : (s r : Text) → strip_prefix s ≡ some r → Remains s r
unfolding strip_prefix
strip_prefix-Remains s r h =
    let cut = trim_start-suffix s in
    let t = trim_start s in
    subst (λ x. Remains x r) (sym cut.1)
      (Remains-append cut.0 t r (
        either-Remains t r (after_colon (after_tag (codes "re") t))
          (or_else (after_colon (after_tag (codes "fw") t))
            (after_colon (after_tag (codes "fwd") t)))
          (after_colon-Remains t r (after_tag (codes "re") t)
            (λ x e. after_tag-suffix (codes "re") t x e))
          (either-Remains t r (after_colon (after_tag (codes "fw") t))
            (after_colon (after_tag (codes "fwd") t))
            (after_colon-Remains t r (after_tag (codes "fw") t)
              (λ x e. after_tag-suffix (codes "fw") t x e))
            (after_colon-Remains t r (after_tag (codes "fwd") t)
              (λ x e. after_tag-suffix (codes "fwd") t x e)))
          h))

strip-empty : strip_prefix [] ≡ none
unfolding strip_prefix trim_start
strip-empty = refl

strip_prefixes-none : (n : ℕ) (s : Text) → strip_prefix s ≡ none → strip_prefixes n s ≡ s
unfolding strip_prefixes
strip_prefixes-none zero s h = refl
strip_prefixes-none (suc n) s h = rw h refl

-- What the loop leaves: the end of the subject, which begins with no prefix.
record Rest (s r : Text) : Type 0 where
  front : Text
  whole : s ≡ front ++ r
  visible : first_visible s ≡ true → first_visible r ≡ true
  none_left : strip_prefix r ≡ none

Rest-same : (s : Text) → strip_prefix s ≡ none → Rest s s
Rest-same s h = record { front = []; whole = refl; visible = λ v. v; none_left = h }

Rest-after : (s m r : Text) → Remains s m → Rest m r → Rest s r
Rest-after s m r h k = record {
  front = h.before ++ k.front;
  whole = h.whole ∙ ap (λ x. h.before ++ x) k.whole ∙ sym (append_assoc h.before k.front r);
  visible = λ v. k.visible h.visible;
  none_left = k.none_left;
}

strip_prefixes-Rest : (n : ℕ) (s : Text) → length s ≤ n → Rest s (strip_prefixes n s)
unfolding strip_prefixes
strip_prefixes-Rest zero [] l = Rest-same [] strip-empty
strip_prefixes-Rest zero (c ∷ s) l = absurd (omega arith)
strip_prefixes-Rest (suc n) s l =
    go (strip_prefix s) refl (λ m k. strip_prefixes-Rest n m (omega arith))
  where
    go :
        (o : Option Text)
        → strip_prefix s ≡ o
        → ((m : Text) → length m < length s → Rest m (strip_prefixes n m))
        → Rest s (strip_round s o (λ r. strip_prefixes n r))
    go none e f = Rest-same s e
    go (some m) e f =
        let h = strip_prefix-Remains s m e in Rest-after s m (strip_prefixes n m) h (f m h.shorter)

stripped-Rest : (s : Text) → Rest (trim s) (stripped s)
unfolding stripped
stripped-Rest s = strip_prefixes-Rest (length (trim s)) (trim s) (omega arith)

-- No prefix is left when the loop of the subject ends: the fuel that it is given is enough.
pub strip_prefix-stripped : (subject : Text) → strip_prefix (stripped subject) ≡ none
strip_prefix-stripped subject = (stripped-Rest subject).none_left

stripped-has_ends : (subject : Text) → has_ends (stripped subject) ≡ true
stripped-has_ends subject =
    let ends = trim-has_ends subject in
    let rest = stripped-Rest subject in
    let front = rest.visible (ground arith) in
    let back = first_visible-prefix (reverse (stripped subject)) (reverse rest.front) (
      subst (λ x. first_visible x ≡ true)
        (ap reverse rest.whole ∙ reverse-append rest.front (stripped subject)) (ground arith)) in
    rw (front, back) refl

-- A subject behind one prefix.
module _ (s : Text) (e : is_empty s ≡ false) (h : has_ends s ≡ true)
    (none_left : strip_prefix s ≡ none) where
  trim-reply : trim (codes "Re: " ++ s) ≡ codes "Re: " ++ s
  trim-reply = trim_keeps (codes "Re: " ++ s) (
      rw
        (
          reverse-append (codes "Re: ") s,
          first_visible-append (reverse s) (reverse (codes "Re: ")) (is_empty-reverse s e)
              (ground arith),
        )
        (unfold first_visible is_space in refl))

  strip_prefix-reply : strip_prefix (codes "Re: " ++ s) ≡ some s
  unfolding strip_prefix trim_start lower is_space
  strip_prefix-reply = ap some (first_visible-trim_start s (ground arith))

  stripped-reply : stripped (codes "Re: " ++ s) ≡ s
  unfolding stripped strip_prefixes
  stripped-reply =
      rw (trim-reply, strip_prefix-reply)
        (strip_prefixes-none (suc (suc (suc (length s)))) s none_left)

-- A reply to a reply has the same subject, where something remains of the subject without its
-- prefixes.
pub create_reply_subject-create_reply_subject :
    (subject : Text)
    → is_empty (stripped subject) ≡ false
    → create_reply_subject (create_reply_subject subject) ≡ create_reply_subject subject
unfolding create_reply_subject normalize_subject
create_reply_subject-create_reply_subject subject e =
    rw
      (
        e,
        stripped-reply (stripped subject) e (stripped-has_ends subject)
            (strip_prefix-stripped subject),
        e,
      )
      refl
