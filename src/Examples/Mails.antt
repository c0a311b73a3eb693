-- ===== src/Examples/Mails.antt =====
-- The theorems on addresses and subjects, at concrete mails.
use resend_conversation_serv.Prelude.{◌≡◌, refl, none, some, [], ◌∷◌, ◌++◌, false, true}
use resend_conversation_serv.Prelude.Text.{Text, codes, trim, to_lower, every, lower}
use resend_conversation_serv.Prelude.Text.Search.{is_empty, includes, split_last, split_on}
use resend_conversation_serv.Email.Routing.{
  MailboxParts, parse_base_mailbox, build_conversation_reply_to, dashed, is_token,
  extract_routing_candidates, extract_routing_tokens,
}
use resend_conversation_serv.Email.Routing.RoundTrip.{build-extract_candidates}
use resend_conversation_serv.Email.Threading.{
  extract_message_ids, strip_prefix, stripped, create_reply_subject, parse_address,
  build_references, scan_ids,
}
use resend_conversation_serv.Email.Threading.Subjects.{
  strip_prefix-stripped, create_reply_subject-create_reply_subject,
}

abbrev base_address : Text
base_address = codes " Team@Example.com "

abbrev token : Text
token = codes "0123abcd0123456789ab0123456789ab"

token-IsToken : is_token token ≡ true
unfolding is_token every
token-IsToken = refl

abbrev reply_address : Text
reply_address = codes "team+c_0123abcd0123456789ab0123456789ab@example.com"

built : build_conversation_reply_to base_address (dashed token) ≡ some reply_address
unfolding build_conversation_reply_to dashed split_last to_lower trim includes every split_on
built = refl

extracted :
    extract_routing_tokens (reply_address ∷ []) base_address
    ≡ some (codes "0123abcd-0123-4567-89ab-0123456789ab" ∷ [])
unfolding extract_routing_tokens split_last to_lower trim includes every split_on
extracted = refl

build-extract_candidates_example :
    (base : MailboxParts) × (parse_base_mailbox base_address ≡ some base)
    × (extract_routing_candidates (reply_address ∷ [])
        ≡ record { routing_token = dashed token; base_address = base.local ++ b'@' ∷ base.domain }
          ∷ [])
build-extract_candidates_example =
    build-extract_candidates base_address token reply_address token-IsToken built

abbrev subject : Text
subject = codes "  RE : fwd:Re:Order 66 "

normalized : stripped subject ≡ codes "Order 66"
unfolding stripped lower
normalized = refl

strip_prefix-stripped_example : strip_prefix (stripped subject) ≡ none
strip_prefix-stripped_example = strip_prefix-stripped subject

remains : is_empty (stripped subject) ≡ false
unfolding stripped lower
remains = refl

create_reply_subject-create_reply_subject_example :
    create_reply_subject (create_reply_subject subject) ≡ create_reply_subject subject
create_reply_subject-create_reply_subject_example =
    create_reply_subject-create_reply_subject subject remains

identifiers :
    extract_message_ids (some (codes "<a@b> x <c <d e> <f>>")) ≡ codes "<a@b>" ∷ codes "<f>" ∷ []
unfolding scan_ids
identifiers = refl

parsed :
    parse_address (codes " \"Ann Lee\"  <ann@x.org> ")
    ≡ record { address = codes "ann@x.org"; name = some (codes "Ann Lee") }
unfolding parse_address split_last includes
parsed = refl

referenced :
    build_references (codes "<a>" ∷ codes "<b>" ∷ codes "<a>" ∷ []) (codes "<b>")
    ≡ codes "<a>" ∷ codes "<b>" ∷ []
unfolding build_references
referenced = refl
