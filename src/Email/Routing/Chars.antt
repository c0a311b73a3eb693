-- ===== src/Email/Routing/Chars.antt =====
-- What the parts of a mailbox are made of.
use resend_conversation_serv.Prelude.{
  ℕ, ◌≡◌, refl, Bool, true, ◌&&◌, ◌||◌, not, List, [], ◌∷◌, ◌==◌, arith, leb, if◌then◌else◌,
}
use resend_conversation_serv.Prelude.Text.{Text, lower, every, is_space}
use resend_conversation_serv.Prelude.Text.Search.{split_on, push_first}
use resend_conversation_serv.Prelude.Text.Chars.{is_visible, is_lower}
use resend_conversation_serv.Email.Routing.{
  is_hex, is_alphanumeric, is_local_char, is_label_char, is_label, is_local, is_domain, all_labels,
  is_mailbox,
}

-- What the address may be made of: visible, in lower case.
abbrev pub is_plain : ℕ → Bool
is_plain c = is_visible c && is_lower c

abbrev pub is_domain_char : ℕ → Bool
is_domain_char c = is_label_char c || c == b'.'

-- Printable ASCII without the capital letters.
abbrev pub in_range : ℕ → Bool
in_range c = (leb 33 c && leb c 64) || (leb 91 c && leb c 126)

pub range_visible : (c : ℕ) → in_range c ≡ true → is_visible c ≡ true
unfolding is_space
range_visible c h = ground arith

pub range_lower : (c : ℕ) → in_range c ≡ true → is_lower c ≡ true
unfolding lower
range_lower c h = ground arith

pub range_plain : (c : ℕ) → in_range c ≡ true → is_plain c ≡ true
range_plain c h = rw (range_visible c h, range_lower c h) refl

pub local_range : (c : ℕ) → is_local_char c ≡ true → in_range c ≡ true
unfolding is_local_char is_alphanumeric
local_range c h = ground arith

pub local_plain : (c : ℕ) → is_local_char c ≡ true → is_plain c ≡ true
local_plain c h = range_plain c (local_range c h)

pub local_other :
    (c : ℕ)
    → is_local_char c ≡ true
    → (not (c == b'<') && not (c == b'>') && not (c == b'+') && not (c == b'@')) ≡ true
unfolding is_local_char is_alphanumeric
local_other c h = ground arith

pub domain_range : (c : ℕ) → is_domain_char c ≡ true → in_range c ≡ true
unfolding is_label_char is_alphanumeric
domain_range c h = ground arith

pub domain_plain : (c : ℕ) → is_domain_char c ≡ true → is_plain c ≡ true
domain_plain c h = range_plain c (domain_range c h)

pub domain_other :
    (c : ℕ)
    → is_domain_char c ≡ true
    → (not (c == b'<') && not (c == b'>') && not (c == b'@')) ≡ true
unfolding is_label_char is_alphanumeric
domain_other c h = ground arith

pub hex_range : (c : ℕ) → is_hex c ≡ true → in_range c ≡ true
unfolding is_hex
hex_range c h = ground arith

pub hex_plain : (c : ℕ) → is_hex c ≡ true → is_plain c ≡ true
hex_plain c h = range_plain c (hex_range c h)

pub hex_other : (c : ℕ) → is_hex c ≡ true → (not (c == b'+') && not (c == b'@')) ≡ true
unfolding is_hex
hex_other c h = ground arith

abbrev pub all_label_chars : List Text → Bool
all_label_chars [] = true
all_label_chars (l ∷ ls) = every is_label_char l && all_label_chars ls

pub labels-chars : (ls : List Text) → all_labels ls ≡ true → all_label_chars ls ≡ true
unfolding is_label
labels-chars [] h = refl
labels-chars (l ∷ ls) h = let ih = labels-chars ls (ground arith) in ground arith

pub split-chars :
    (s : Text) → all_label_chars (split_on b'.' s) ≡ true → every is_domain_char s ≡ true
unfolding split_on every
split-chars [] h = refl
split-chars (x ∷ s) h = go (split_on b'.' s) h (split-chars s)
  where
    go :
        (ps : List Text)
        → all_label_chars (if x == b'.' then [] ∷ ps else push_first x ps) ≡ true
        → (all_label_chars ps ≡ true → every is_domain_char s ≡ true)
        → every is_domain_char (x ∷ s) ≡ true
    go [] k ih = let r = ih refl in ground arith
    go (p ∷ ps) k ih = let r = ih (ground arith) in ground arith

pub labels-every : (s : Text) → all_labels (split_on b'.' s) ≡ true → every is_domain_char s ≡ true
labels-every s h = split-chars s (labels-chars (split_on b'.' s) h)

pub mailbox-parts :
    (local domain : Text)
    → is_mailbox local domain ≡ true
    → (every is_local_char local ≡ true) × (every is_domain_char domain ≡ true)
unfolding is_local is_domain
mailbox-parts local domain h = (ground arith, labels-every domain (ground arith))
