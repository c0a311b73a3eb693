-- ===== src/Email/Routing/RoundTrip.antt =====
-- Reading back the Reply-To address that was built for a conversation.
use resend_conversation_serv.Email.Routing.Bases.{IsBase, parse-IsBase}
use mathlib.Core.List.{append_assoc, append-nil}
use resend_conversation_serv.Prelude.{
  ℕ, ◌≡◌, refl, ap, subst, ◌∙◌, true, false, not, Option, none, some, [], ◌∷◌, ◌++◌, ◌==◌, arith,
  Bool-cases, inl, inr,
}
use resend_conversation_serv.Prelude.Text.{
  Text, codes, text_eq_refl, trim, to_lower, lower, every, is_space,
}
use resend_conversation_serv.Prelude.Text.Search.{
  not-includes, is_empty, includes, split_last, split_marker, split_last-append, split_marker-none,
  split_marker-append,
}
use resend_conversation_serv.Prelude.Text.Chars.{
  is_visible, is_lower, every-append, every_mono, trim-same, to_lower-same,
}
use resend_conversation_serv.Email.Routing.Dashes.{strip_dashes-dashed}
use resend_conversation_serv.Email.Routing.{
  MailboxParts, is_hex, is_token, is_local_char, parse_base_mailbox, is_valid_reply_to_base_address,
  strip_dashes, tagged, reply_to_for, build_conversation_reply_to, dashed, token_after,
  extract_routing_tokens, extract_routing_candidates, candidate_at,
}
use resend_conversation_serv.Email.Routing.Chars.{
  is_plain, is_domain_char, local_plain, local_other, domain_plain, domain_other, hex_plain,
  hex_other, mailbox-parts,
}

module _ (b : MailboxParts) (v : IsBase b) where
  local_chars : every is_local_char b.local ≡ true
  local_chars = (mailbox-parts b.local b.domain v.mailbox).0

  domain_chars : every is_domain_char b.domain ≡ true
  domain_chars = (mailbox-parts b.local b.domain v.mailbox).1

  domain-no_at : every (λ d. not (d == b'@')) b.domain ≡ true
  domain-no_at =
      every_mono is_domain_char (λ d. not (d == b'@')) b.domain
        (λ c h. let k = domain_other c h in ground arith) domain_chars

  -- A text between the local part and the domain, all plain.
  whole_plain :
      (mid : Text)
      → every is_plain mid ≡ true
      → every is_plain ((b.local ++ mid) ++ b'@' ∷ b.domain) ≡ true
  whole_plain mid h =
      every-append is_plain (b.local ++ mid) (b'@' ∷ b.domain)
        (every-append is_plain b.local mid
          (every_mono is_local_char is_plain b.local local_plain local_chars) h)
        (every-append is_plain (b'@' ∷ []) b.domain (unfold every is_space lower in refl)
          (every_mono is_domain_char is_plain b.domain domain_plain domain_chars))

  whole_same :
      (mid : Text)
      → every is_plain mid ≡ true
      → to_lower (trim ((b.local ++ mid) ++ b'@' ∷ b.domain)) ≡ (b.local ++ mid) ++ b'@' ∷ b.domain
  whole_same mid h =
      let p = whole_plain mid h in
      ap to_lower (
        trim-same ((b.local ++ mid) ++ b'@' ∷ b.domain) (
          every_mono is_plain is_visible ((b.local ++ mid) ++ b'@' ∷ b.domain) (λ c k. ground arith)
            p))
      ∙ to_lower-same ((b.local ++ mid) ++ b'@' ∷ b.domain) (
          every_mono is_plain is_lower ((b.local ++ mid) ++ b'@' ∷ b.domain) (λ c k. ground arith)
            p)

  whole_split :
      (mid : Text)
      → every is_plain mid ≡ true
      → split_last b'@' (to_lower (trim ((b.local ++ mid) ++ b'@' ∷ b.domain)))
        ≡ some (b.local ++ mid, b.domain)
  whole_split mid h =
      ap (split_last b'@') (whole_same mid h)
      ∙ split_last-append b'@' (b.local ++ mid) b.domain domain-no_at

  abbrev canonical : Text
  canonical = b.local ++ b'@' ∷ b.domain

  canonical-same : to_lower (trim canonical) ≡ canonical
  canonical-same =
      subst (λ x. to_lower (trim (x ++ b'@' ∷ b.domain)) ≡ x ++ b'@' ∷ b.domain)
        (append-nil b.local) (whole_same [] (unfold every in refl))

  canonical-split : split_last b'@' canonical ≡ some (b.local, b.domain)
  canonical-split = split_last-append b'@' b.local b.domain domain-no_at

  canonical-no :
      (c : ℕ)
      → ((d : ℕ) → is_local_char d ≡ true → not (d == c) ≡ true)
      → ((d : ℕ) → is_domain_char d ≡ true → not (d == c) ≡ true)
      → not (b'@' == c) ≡ true
      → includes c canonical ≡ false
  canonical-no c l d a = not-includes c canonical (
      every-append (λ x. not (x == c)) b.local (b'@' ∷ b.domain)
        (every_mono is_local_char (λ x. not (x == c)) b.local l local_chars)
        (every-append (λ x. not (x == c)) (b'@' ∷ []) b.domain (unfold every in ground arith)
          (every_mono is_domain_char (λ x. not (x == c)) b.domain d domain_chars)))

  -- The canonical address of a base mailbox is parsed as that mailbox.
  parse-canonical : parse_base_mailbox canonical ≡ some b
  unfolding parse_base_mailbox
  parse-canonical =
      let less =
        canonical-no b'<' (λ d h. let k = local_other d h in ground arith)
          (λ d h. let k = domain_other d h in ground arith) refl in
      let more =
        canonical-no b'>' (λ d h. let k = local_other d h in ground arith)
          (λ d h. let k = domain_other d h in ground arith) refl in
      let plus = not-includes b'+' b.local (
        every_mono is_local_char (λ x. not (x == b'+')) b.local
          (λ d h. let k = local_other d h in ground arith) local_chars) in
      let x = v.local_some in
      let y = v.domain_some in
      rw (canonical-same, canonical-split, x, y, less, more, plus, v.mailbox) refl

  valid-canonical : is_valid_reply_to_base_address canonical ≡ true
  unfolding is_valid_reply_to_base_address
  valid-canonical = rw parse-canonical refl

  module _ (token : Text) (ok : is_token token ≡ true) where
    hex_chars : every is_hex token ≡ true
    hex_chars = unfold is_token in ground arith

    mid_plain : every is_plain (codes "+c_" ++ token) ≡ true
    mid_plain =
        every-append is_plain (codes "+c_") token (unfold every is_space lower in refl)
          (every_mono is_hex is_plain token hex_plain hex_chars)

    marker-split :
        split_marker (codes "+c_") (b.local ++ (codes "+c_" ++ token)) ≡ some (b.local, token)
    marker-split = split_marker-append (codes "+c_") b.local token (
        unfold split_marker in
        rw
          (split_marker-none b'+' (codes "c_") token (
            every_mono is_hex (λ d. not (d == b'+')) token
              (λ d h. let k = hex_other d h in ground arith) hex_chars))
          refl)

    tagged-candidate :
        candidate_at (split_last b'@' (to_lower (trim (tagged b token))))
        ≡ some (record { routing_token = dashed token; base_address = canonical })
    tagged-candidate =
        let nonempty : is_empty (b.local ++ (codes "+c_" ++ token)) ≡ false = not_empty b.local in
        rw
          (
            whole_split (codes "+c_" ++ token) mid_plain,
            nonempty,
            marker-split,
            v.local_some,
            ok,
            valid-canonical,
          )
          refl
      where
        not_empty : (l : Text) → is_empty (l ++ (codes "+c_" ++ token)) ≡ false
        not_empty [] = refl
        not_empty (c ∷ l) = refl

    tagged-split :
        split_last b'@' (to_lower (trim (tagged b token)))
        ≡ some (b.local ++ (codes "+c_" ++ token), b.domain)
    tagged-split = whole_split (codes "+c_" ++ token) mid_plain

token_after-append : (p s : Text) → token_after p (p ++ s) ≡ some s
token_after-append [] s = refl
token_after-append (c ∷ p) s = let ih = token_after-append p s in ground arith

nonempty-append : (l m : Text) → is_empty m ≡ false → is_empty (l ++ m) ≡ false
nonempty-append [] m h = h
nonempty-append (c ∷ l) m h = refl

-- What a built address is.
build-parts :
    (a t address : Text)
    → build_conversation_reply_to a t ≡ some address
    → (b : MailboxParts) × (parse_base_mailbox a ≡ some b)
      × (is_token (to_lower (strip_dashes t)) ≡ true)
      × (tagged b (to_lower (strip_dashes t)) ≡ address)
unfolding build_conversation_reply_to
build-parts a t address h = go (parse_base_mailbox a) refl h
  where
    go :
        (o : Option MailboxParts)
        → parse_base_mailbox a ≡ o
        → reply_to_for o (to_lower (strip_dashes t)) ≡ some address
        → (b : MailboxParts) × (parse_base_mailbox a ≡ some b)
          × (is_token (to_lower (strip_dashes t)) ≡ true)
          × (tagged b (to_lower (strip_dashes t)) ≡ address)
    go none e k = cc
    go (some b) e k = elim (Bool-cases (is_token (to_lower (strip_dashes t)))) [
      | inl ok ↦ (b, e, ok, ground arith)
      | inr f ↦ absurd (ground arith)
    ]

build-candidates :
    (base_address routing_token address : Text)
    → build_conversation_reply_to base_address routing_token ≡ some address
    → (base : MailboxParts) × (parse_base_mailbox base_address ≡ some base)
      × (extract_routing_candidates (address ∷ [])
          ≡ record {
            routing_token = dashed (to_lower (strip_dashes routing_token));
            base_address = base.local ++ b'@' ∷ base.domain;
          }
            ∷ [])
unfolding extract_routing_candidates
build-candidates a t address h =
    let (b, parsed, ok, same) = build-parts a t address h in
    (
      b,
      parsed,
      rw (← same, tagged-candidate b (parse-IsBase a b parsed) (to_lower (strip_dashes t)) ok) refl,
    )

token-same : (token : Text) → is_token token ≡ true → to_lower (strip_dashes (dashed token)) ≡ token
unfolding is_token
token-same token h =
    ap to_lower (strip_dashes-dashed token h)
    ∙ to_lower-same token (
        every_mono is_hex is_lower token (λ c k. let p = hex_plain c k in ground arith)
          (hex-every token h))
  where
    hex-every : (t : Text) → is_token t ≡ true → every is_hex t ≡ true
    hex-every t k = ground arith

-- Where a Reply-To address is built for a token, 32 hexadecimal digits in the form of a uuid, the
-- base address parses as a mailbox, and the candidates that are extracted from the address are one:
-- the same token, together with that mailbox.
pub build-extract_candidates :
    (base_address token address : Text)
    → is_token token ≡ true
    → build_conversation_reply_to base_address (dashed token) ≡ some address
    → (base : MailboxParts) × (parse_base_mailbox base_address ≡ some base)
      × (extract_routing_candidates (address ∷ [])
          ≡ record { routing_token = dashed token; base_address = base.local ++ b'@' ∷ base.domain }
            ∷ [])
build-extract_candidates a t address ok h =
    let (base, parsed, found) = build-candidates a (dashed t) address h in
    (
      base,
      parsed,
      found
          ∙ ap
              (λ x.
                record { routing_token = dashed x; base_address = base.local ++ b'@' ∷ base.domain }
                ∷ [])
              (token-same t ok),
    )

-- Where a Reply-To address is built for a conversation, the tokens that are extracted from it for the
-- same base address are one: the conversation's token in the form of a uuid.
pub build-extract_tokens :
    (base_address routing_token address : Text)
    → build_conversation_reply_to base_address routing_token ≡ some address
    → extract_routing_tokens (address ∷ []) base_address
      ≡ some (dashed (to_lower (strip_dashes routing_token)) ∷ [])
unfolding extract_routing_tokens
build-extract_tokens a t address h =
    let (b, parsed, ok, same) = build-parts a t address h in
    let token = to_lower (strip_dashes t) in
    let after : token_after (b.local ++ codes "+c_") (b.local ++ (codes "+c_" ++ token))
        ≡ some token =
      rw (← append_assoc b.local (codes "+c_") token)
        (token_after-append (b.local ++ codes "+c_") token) in
    rw
      (
        parsed,
        ← same,
        tagged-split b (parse-IsBase a b parsed) token ok,
        nonempty-append b.local (codes "+c_" ++ token) refl,
        text_eq_refl b.domain,
        after,
        ok,
      )
      refl
