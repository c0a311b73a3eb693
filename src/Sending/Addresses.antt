-- ===== src/Sending/Addresses.antt =====
-- Formatting addresses for a mail, and reading them back.
use mathlib.Core.List.{reverse, reverse-append, reverse-reverse, append_assoc}
use resend_conversation_serv.Prelude.{
  ℕ, ◌≡◌, refl, sym, ap, subst, ◌∙◌, arith, Bool, true, false, ◌&&◌, not, Option, none, some, [],
  ◌∷◌, ◌++◌, ◌==◌, Bool-cases, inl, inr,
}
use resend_conversation_serv.Prelude.Text.{Text, every, some_char, trim, trim_start, is_space}
use resend_conversation_serv.Prelude.Text.Search.{
  is_empty, split_last, split_last-append, not-includes,
}
use resend_conversation_serv.Prelude.Text.Chars.{
  is_visible, has_ends, first_visible-append, first_visible, first_visible-trim_start, trim_keeps,
  trim-same, every_mono, every-reverse,
}
use resend_conversation_serv.Email.Threading.{
  is_line_end, trim_end, drop_first_quote, drop_last_quote, parse_reversed, parse_address,
}
use resend_conversation_serv.Sending.Mail.{is_phrase, escape, quoted, bracketed, format_address}

-- The characters of an address: no white space and no angle brackets.
abbrev pub is_plain_address_char : ℕ → Bool
is_plain_address_char c = is_visible c && not (c == b'<') && not (c == b'>')

-- The characters of a name: no quotes, backslashes or ends of lines.
abbrev pub is_plain_name_char : ℕ → Bool
is_plain_name_char c = not (c == b'"') && not (c == b'\\') && not (is_line_end c)

escape-same : (d : ℕ) (s : Text) → every (λ c. not (c == d)) s ≡ true → escape d s ≡ s
unfolding every
escape-same d [] h = refl
escape-same d (c ∷ s) h =
    let e : (c == d) ≡ false = ground arith in rw e (ap (◌∷◌ c) (escape-same d s (ground arith)))

quoted-plain : (s : Text) → every is_plain_name_char s ≡ true → quoted s ≡ b'"' ∷ (s ++ b'"' ∷ [])
quoted-plain s h =
    let a =
      escape-same b'\\' s
        (every_mono is_plain_name_char (λ c. not (c == b'\\')) s (λ c k. ground arith) h) in
    let b =
      escape-same b'"' s
        (every_mono is_plain_name_char (λ c. not (c == b'"')) s (λ c k. ground arith) h) in
    rw (a, b) refl

drop_first-plain : (s : Text) → every is_plain_name_char s ≡ true → drop_first_quote s ≡ s
unfolding every
drop_first-plain [] h = refl
drop_first-plain (c ∷ s) h = let e : (c == b'"') ≡ false = ground arith in rw e refl

drop_last-plain : (s : Text) → every is_plain_name_char s ≡ true → drop_last_quote s ≡ s
drop_last-plain s h =
    ap reverse (drop_first-plain (reverse s) (every-reverse is_plain_name_char s h))
    ∙ reverse-reverse s

drop_last-quote : (s : Text) → drop_last_quote (s ++ b'"' ∷ []) ≡ s
drop_last-quote s = rw (reverse-append s (b'"' ∷ [])) (reverse-reverse s)

no_line_end : (s : Text) → every is_plain_name_char s ≡ true → some_char is_line_end s ≡ false
unfolding some_char every
no_line_end [] h = refl
no_line_end (c ∷ s) h = let ih = no_line_end s (ground arith) in ground arith

some_char-append :
    (p : ℕ → Bool) (s t : Text)
    → some_char p s ≡ false
    → some_char p t ≡ false
    → some_char p (s ++ t) ≡ false
unfolding some_char
some_char-append p [] t h k = k
some_char-append p (c ∷ s) t h k = let ih = some_char-append p s t (ground arith) k in ground arith

no_line_end_quoted :
    (s : Text)
    → every is_plain_name_char s ≡ true
    → some_char is_line_end (b'"' ∷ (s ++ b'"' ∷ [])) ≡ false
no_line_end_quoted s h =
    some_char-append is_line_end (b'"' ∷ []) (s ++ b'"' ∷ []) (unfold some_char in refl)
      (some_char-append is_line_end s (b'"' ∷ []) (no_line_end s h) (unfold some_char in refl))

first-not : (c : ℕ) (u : Text) → every (λ d. not (d == b'>')) (c ∷ u) ≡ true → (c == b'>') ≡ false
unfolding every
first-not c u h = ground arith

trim_end-space : (s : Text) → first_visible (reverse s) ≡ true → trim_end (s ++ b' ' ∷ []) ≡ s
trim_end-space s h =
    rw (reverse-append s (b' ' ∷ []), space (reverse s), first_visible-trim_start (reverse s) h)
      (reverse-reverse s)
  where
    space : (u : Text) → trim_start (b' ' ∷ u) ≡ trim_start u
    space u = unfold trim_start is_space in refl

-- A name in front of an address in angle brackets; `s` is the name without its quotes.
module _ (name address s : Text) (filled : is_empty address ≡ false)
    (plain : every is_plain_address_char address ≡ true) (named : is_empty name ≡ false)
    (ends : has_ends name ≡ true) (one_line : some_char is_line_end name ≡ false)
    (unquoted : drop_last_quote (drop_first_quote name) ≡ s) (some_name : is_empty s ≡ false) where
  abbrev front : Text
  front = name ++ (b' ' ∷ b'<' ∷ address)

  bracketed-front : bracketed name address ≡ front ++ b'>' ∷ []
  bracketed-front = sym (append_assoc name (b' ' ∷ b'<' ∷ address) (b'>' ∷ []))

  reverse-bracketed : reverse (bracketed name address) ≡ b'>' ∷ reverse front
  reverse-bracketed = ap reverse bracketed-front ∙ reverse-append front (b'>' ∷ [])

  trim-bracketed : trim (bracketed name address) ≡ bracketed name address
  trim-bracketed = trim_keeps (bracketed name address) (
      rw
        (
          first_visible-append name (b' ' ∷ b'<' ∷ (address ++ b'>' ∷ [])) named (ground arith),
          reverse-bracketed,
        )
        (unfold first_visible is_space in refl))

  split-front : split_last b'<' (reverse (reverse front)) ≡ some (name ++ b' ' ∷ [], address)
  split-front =
      ap (split_last b'<')
        (reverse-reverse front ∙ sym (append_assoc name (b' ' ∷ []) (b'<' ∷ address)))
      ∙ split_last-append b'<' (name ++ b' ' ∷ []) address (
          every_mono is_plain_address_char (λ c. not (c == b'<')) address (λ c k. ground arith)
            plain)

  parse-bracketed :
      parse_address (bracketed name address) ≡ record { address = address; name = some s }
  unfolding parse_address
  parse-bracketed =
      let more = not-includes b'>' address (
        every_mono is_plain_address_char (λ c. not (c == b'>')) address (λ c k. ground arith)
          plain) in
      let whole =
        trim-same address
          (every_mono is_plain_address_char is_visible address (λ c k. ground arith) plain) in
      let spaced = trim_end-space name (ground arith) in
      rw
        (
          trim-bracketed,
          reverse-bracketed,
          split-front,
          filled,
          more,
          spaced,
          one_line,
          whole,
          trim_keeps name ends,
          unquoted,
          some_name,
        )
        refl

-- A name that is neither empty nor surrounded by white space, without quotes, backslashes and ends
-- of lines.
pub record IsPlainName (s : Text) : Type 0 where
  pub filled : is_empty s ≡ false
  pub ends : has_ends s ≡ true
  pub plain : every is_plain_name_char s ≡ true

pub record IsPlainAddress (a : Text) : Type 0 where
  pub filled : is_empty a ≡ false
  pub plain : every is_plain_address_char a ≡ true

module _ (address s : Text) (a : IsPlainAddress address) (v : IsPlainName s) where
  parse-phrase : parse_address (bracketed s address) ≡ record { address = address; name = some s }
  parse-phrase =
      parse-bracketed s address s a.filled a.plain v.filled v.ends (no_line_end s v.plain)
        (ap drop_last_quote (drop_first-plain s v.plain) ∙ drop_last-plain s v.plain) v.filled

  quoted-same : quoted s ≡ b'"' ∷ (s ++ b'"' ∷ [])
  quoted-same = quoted-plain s v.plain

  quoted-ends : has_ends (b'"' ∷ (s ++ b'"' ∷ [])) ≡ true
  quoted-ends = rw (reverse-append (b'"' ∷ s) (b'"' ∷ [])) (unfold first_visible is_space in refl)

  quoted-one_line : some_char is_line_end (b'"' ∷ (s ++ b'"' ∷ [])) ≡ false
  quoted-one_line = no_line_end_quoted s v.plain

  parse-quoted :
      parse_address (bracketed (quoted s) address) ≡ record { address = address; name = some s }
  parse-quoted =
      subst (λ q. parse_address (bracketed q address) ≡ record { address = address; name = some s })
        (sym quoted-same)
        (parse-bracketed (b'"' ∷ (s ++ b'"' ∷ [])) address s a.filled a.plain refl quoted-ends
          quoted-one_line (drop_last-quote s) v.filled)

address-ends :
    (address : Text)
    → IsPlainAddress address
    → parse_address address ≡ record { address = address; name = none }
unfolding parse_address
address-ends address a =
    let plain =
      every_mono is_plain_address_char (λ c. not (c == b'>')) address (λ c k. ground arith)
        a.plain in
    let whole =
      trim-same address
        (every_mono is_plain_address_char is_visible address (λ c k. ground arith) a.plain) in
    rw whole (unended (reverse address) (every-reverse (λ c. not (c == b'>')) address plain))
  where
    unended :
        (u : Text)
        → every (λ c. not (c == b'>')) u ≡ true
        → parse_reversed address u ≡ record { address = address; name = none }
    unended [] h = refl
    unended (c ∷ u) h = let e : (c == b'>') ≡ false = first-not c u h in rw e refl

abbrev pub IsPlainOption : Option Text → Type 0
IsPlainOption none = Unit {0}
IsPlainOption (some s) = IsPlainName s

-- An address without white space and angle brackets, formatted with no name or with a name without
-- quotes, backslashes and ends of lines that is not empty nor surrounded by white space, is parsed
-- as the same address and name.
pub parse_address-format_address :
    (address : Text) (name : Option Text)
    → IsPlainAddress address
    → IsPlainOption name
    → parse_address (format_address address name) ≡ record { address = address; name = name }
unfolding format_address
parse_address-format_address address none a v = address-ends address a
parse_address-format_address address (some s) a v = elim (Bool-cases (is_phrase s)) [
  | inl e ↦ rw (v.filled, e) (parse-phrase address s a v)
  | inr e ↦ rw (v.filled, e) (parse-quoted address s a v)
]
