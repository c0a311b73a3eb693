-- ===== src/Email/Routing.antt =====
-- src/lib/email/routing.ts: the Reply-To address of a conversation, base+c_<token>@domain, and the
-- tokens that are read back from the addresses of an inbound mail.
mod Chars
mod Bases
mod Dashes
pub mod RoundTrip
use resend_conversation_serv.Prelude.{
  ℕ, ◌+◌, ◌*◌, Bool, true, false, ◌&&◌, ◌||◌, not, Option, none, some, List, [], ◌∷◌, ◌++◌, map,
  ◌==◌, leb, ltb, if◌then◌else◌, length, any, take, is_null,
}
use resend_conversation_serv.Prelude.Text.{Text, codes, text_eq, trim, to_lower, every, some_char}
use resend_conversation_serv.Prelude.Text.Search.{
  drop, slice, is_empty, includes, starts_with, ends_in, split_last, split_marker, split_on,
}

abbrev pub routing_tag_prefix : Text
routing_tag_prefix = codes "c_"

abbrev pub routing_token_length : ℕ
routing_token_length = 32

unfoldable pub is_hex : ℕ → Bool
is_hex c = (leb b'0' c && leb c b'9') || (leb b'a' c && leb c b'f')

-- TOKEN_PATTERN
unfoldable pub is_token : Text → Bool
unfolding is_hex
is_token t = length t == routing_token_length && every is_hex t

pub record MailboxParts : Type 0 where
  pub local : Text
  pub domain : Text

pub record RoutingCandidate : Type 0 where
  pub routing_token : Text
  pub base_address : Text

unfoldable pub is_alphanumeric : ℕ → Bool
is_alphanumeric c = (leb b'a' c && leb c b'z') || (leb b'0' c && leb c b'9')

-- [a-z0-9.!#$%&'*/=?^_`{|}~-]
unfoldable pub is_local_char : ℕ → Bool
unfolding is_alphanumeric
is_local_char c = is_alphanumeric c || any (λ d. d == c) (codes ".!#$%&'*/=?^_`{|}~-")

unfoldable pub is_label_char : ℕ → Bool
unfolding is_alphanumeric
is_label_char c = is_alphanumeric c || c == b'-'

abbrev pub first_is : (ℕ → Bool) → Text → Bool
first_is p [] = false
first_is p (c ∷ s) = p c

abbrev pub last_is : (ℕ → Bool) → Text → Bool
last_is p [] = false
last_is p (c ∷ []) = p c
last_is p (c ∷ d ∷ s) = last_is p (d ∷ s)

-- A domain label: at most 63 letters, digits and hyphens, no hyphen at either end.
unfoldable pub is_label : Text → Bool
unfolding is_label_char
is_label s =
    leb (length s) 63
    && first_is is_alphanumeric s
    && last_is is_alphanumeric s
    && every is_label_char s

abbrev pub has_double_dot : Text → Bool
has_double_dot [] = false
has_double_dot (c ∷ s) = starts_with (codes "..") (c ∷ s) || has_double_dot s

unfoldable pub is_local : Text → Bool
unfolding is_local_char
is_local s =
    every is_local_char s
    && not (starts_with (codes ".") s)
    && not (ends_in b'.' s)
    && not (has_double_dot s)

abbrev pub all_labels : List Text → Bool
all_labels [] = true
all_labels (l ∷ ls) = is_label l && all_labels ls

unfoldable pub is_domain : Text → Bool
unfolding is_label
is_domain s = leb (length s) 253 && leb 2 (length (split_on b'.' s)) && all_labels (split_on b'.' s)

abbrev pub generated_local_length : Text → ℕ
generated_local_length local = length local + 1 + 2 + routing_token_length

abbrev pub is_mailbox : Text → Text → Bool
is_mailbox local domain =
    is_local local
    && leb (generated_local_length local) 64
    && is_domain domain
    && leb (generated_local_length local + length domain + 1) 254

abbrev pub base_of : Text → Option (Text × Text) → Option MailboxParts
base_of normalized none = none
base_of normalized (some (local, domain)) =
    if is_empty local
      || is_empty domain
      || includes b'<' normalized
      || includes b'>' normalized
      || includes b'+' local
    then none
    else if is_mailbox local domain
    then some (record { local = local; domain = domain })
    else none

unfoldable pub parse_base_mailbox : Text → Option MailboxParts
unfolding is_local is_domain
parse_base_mailbox address =
    let normalized = to_lower (trim address) in base_of normalized (split_last b'@' normalized)

unfoldable pub is_valid_reply_to_base_address : Text → Bool
unfolding parse_base_mailbox
is_valid_reply_to_base_address address = not (is_null (parse_base_mailbox address))

-- `replaceAll('-', '')`
abbrev pub strip_dashes : Text → Text
strip_dashes [] = []
strip_dashes (c ∷ s) = let rest = strip_dashes s in if c == b'-' then rest else c ∷ rest

abbrev pub tagged : MailboxParts → Text → Text
tagged base token = (base.local ++ (codes "+c_" ++ token)) ++ b'@' ∷ base.domain

abbrev pub reply_to_for : Option MailboxParts → Text → Option Text
reply_to_for none token = none
reply_to_for (some base) token = if is_token token then some (tagged base token) else none

-- `none` where the configuration is refused.
unfoldable pub build_conversation_reply_to : Text → Text → Option Text
unfolding parse_base_mailbox is_token
build_conversation_reply_to base_address routing_token =
    reply_to_for (parse_base_mailbox base_address) (to_lower (strip_dashes routing_token))

-- A token in the form of a uuid.
unfoldable pub dashed : Text → Text
dashed t =
    slice 0 8 t
    ++ b'-' ∷ slice 8 12 t
    ++ b'-' ∷ slice 12 16 t
    ++ b'-' ∷ slice 16 20 t
    ++ b'-' ∷ drop 20 t

-- A Set keeps the first of equal elements.
abbrev pub add_token : Text → List Text → List Text
add_token t ts = if any (text_eq t) ts then ts else ts ++ t ∷ []

abbrev pub token_after : Text → Text → Option Text
token_after [] s = some s
token_after (c ∷ p) [] = none
token_after (c ∷ p) (d ∷ s) = let rest = token_after p s in if c == d then rest else none

abbrev pub collect_token : Option Text → List Text → List Text
collect_token none ts = ts
collect_token (some token) ts = if is_token token then add_token (dashed token) ts else ts

abbrev pub collect_local : MailboxParts → Option (Text × Text) → List Text → List Text
collect_local base none ts = ts
collect_local base (some (local, domain)) ts =
    if is_empty local || not (text_eq domain base.domain)
    then ts
    else collect_token (token_after (base.local ++ codes "+c_") local) ts

abbrev pub collect_tokens : MailboxParts → List Text → List Text → List Text
collect_tokens base [] ts = ts
collect_tokens base (a ∷ addresses) ts =
    collect_tokens base addresses (collect_local base (split_last b'@' (to_lower (trim a))) ts)

abbrev pub tokens_for : Option MailboxParts → List Text → Option (List Text)
tokens_for none addresses = none
tokens_for (some base) addresses = some (collect_tokens base addresses [])

unfoldable pub extract_routing_tokens : List Text → Text → Option (List Text)
unfolding parse_base_mailbox is_token dashed
extract_routing_tokens addresses base_address =
    tokens_for (parse_base_mailbox base_address) addresses

abbrev pub same_candidate : RoutingCandidate → RoutingCandidate → Bool
same_candidate a b =
    text_eq a.routing_token b.routing_token && text_eq a.base_address b.base_address

-- The keys of the Map are the two fields, joined.
abbrev pub add_candidate : RoutingCandidate → List RoutingCandidate → List RoutingCandidate
add_candidate c cs = if any (same_candidate c) cs then cs else cs ++ c ∷ []

abbrev pub candidate_of : Text → Text → Text → Option RoutingCandidate
candidate_of local token domain =
    if is_token token && is_valid_reply_to_base_address (local ++ b'@' ∷ domain)
    then some (record { routing_token = dashed token; base_address = local ++ b'@' ∷ domain })
    else none

abbrev pub candidate_in : Text → Option (Text × Text) → Option RoutingCandidate
candidate_in domain none = none
candidate_in domain (some (local, token)) =
    if is_empty local then none else candidate_of local token domain

abbrev pub candidate_at : Option (Text × Text) → Option RoutingCandidate
candidate_at none = none
candidate_at (some (before, after)) =
    if is_empty before then none else candidate_in after (split_marker (codes "+c_") before)

abbrev pub collect_candidate :
    Option RoutingCandidate → List RoutingCandidate → List RoutingCandidate
collect_candidate none cs = cs
collect_candidate (some c) cs = add_candidate c cs

abbrev pub collect_candidates : List Text → List RoutingCandidate → List RoutingCandidate
collect_candidates [] cs = cs
collect_candidates (a ∷ addresses) cs =
    collect_candidates addresses
      (collect_candidate (candidate_at (split_last b'@' (to_lower (trim a)))) cs)

unfoldable pub extract_routing_candidates : List Text → List RoutingCandidate
unfolding is_valid_reply_to_base_address is_token dashed
extract_routing_candidates addresses = collect_candidates addresses []
