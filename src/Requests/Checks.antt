-- ===== src/Requests/Checks.antt =====
-- The result of a validation, and the checks of src/lib/api.ts.
use resend_conversation_serv.Prelude.{
  ℕ, zero, suc, ◌≡◌, refl, Bool, true, false, ◌&&◌, ◌||◌, not, Option, none, some, List, [], ◌∷◌,
  ltb, leb, ◌==◌, if◌then◌else◌, length,
}
use resend_conversation_serv.Prelude.Text.{Text, is_space, lower, some_char, every, trim}
use resend_conversation_serv.Prelude.Text.Search.{is_empty}
use resend_conversation_serv.Email.Routing.{is_hex}
use resend_conversation_serv.Requests.Json.{Json, as_text}

-- `{ value } | { error }`
pub data Checked (A : Type 0) : Type 0 where
  accepted : A → Checked A
  refused : Text → Checked A

infixl 5 ◌>>=◌ ◌>>◌
abbrev pub ◌>>=◌ : {A B : Type 0} → Checked A → (A → Checked B) → Checked B
accepted a >>= f = f a
refused e >>= f = refused e

abbrev pub ◌>>◌ : {A : Type 0} → Checked (Unit {0}) → Checked A → Checked A
m >> k = m >>= λ _. k

abbrev pub guard : Bool → Text → Checked (Unit {0})
guard true e = accepted tt
guard false e = refused e

abbrev pub require : {A : Type 0} → Option A → Text → Checked A
require none e = refused e
require (some a) e = accepted a

pub accepted-eq : {A : Type 0} {a b : A} → accepted a ≡ accepted b → a ≡ b
accepted-eq h = cc

-- What an accepted chain consists of.
pub >>=-accepted :
    {A B : Type 0} (m : Checked A) (f : A → Checked B) (b : B)
    → (m >>= f) ≡ accepted b
    → (a : A) × (m ≡ accepted a) × (f a ≡ accepted b)
>>=-accepted (accepted a) f b h = (a, refl, h)
>>=-accepted (refused e) f b h = cc

pub guard-accepted :
    {B : Type 0} (c : Bool) (e : Text) (k : Checked B) (b : B)
    → (guard c e >> k) ≡ accepted b
    → (c ≡ true) × (k ≡ accepted b)
guard-accepted true e k b h = (refl, h)
guard-accepted false e k b h = cc

pub require-accepted :
    {A B : Type 0} (o : Option A) (e : Text) (f : A → Checked B) (b : B)
    → (require o e >>= f) ≡ accepted b
    → (a : A) × (o ≡ some a) × (f a ≡ accepted b)
require-accepted none e f b h = cc
require-accepted (some a) e f b h = (a, refl, h)

-- The length limits.
abbrev pub max_title_length : ℕ
max_title_length = 255

abbrev pub max_subject_length : ℕ
max_subject_length = 255

abbrev pub max_name_length : ℕ
max_name_length = 256

abbrev pub max_body_length : ℕ
max_body_length = 1048576

unfoldable pub is_control : ℕ → Bool
is_control c = ltb c 32 || c == 127

unfoldable pub is_header_safe_text : Text → ℕ → Bool
unfolding is_control
is_header_safe_text s max_length = leb (length s) max_length && not (some_char is_control s)

-- The guard and the text that it lets through, `undefined` included.
abbrev pub safe_within : ℕ → Option Text → Option Text
safe_within max_length none = none
safe_within max_length (some s) = if is_header_safe_text s max_length then some s else none

abbrev pub header_safe : Option Json → ℕ → Option Text
header_safe value max_length = safe_within max_length (as_text value)

-- [^\s@]
unfoldable pub is_address_char : ℕ → Bool
unfolding is_space
is_address_char c = not (is_space c) && not (c == b'@')

-- A dot that is not the last character.
abbrev pub dot_before_end : Text → Bool
dot_before_end [] = false
dot_before_end (c ∷ []) = false
dot_before_end (c ∷ d ∷ s) = c == b'.' || dot_before_end (d ∷ s)

abbrev pub is_address_domain : Text → Bool
is_address_domain [] = false
is_address_domain (c ∷ s) = every is_address_char (c ∷ s) && dot_before_end s

-- /^[^\s@]+@[^\s@]+\.[^\s@]+$/; the flag says whether the local part has a character.
unfoldable pub has_mailbox : Bool → Text → Bool
unfolding is_address_char every
has_mailbox begun [] = false
has_mailbox begun (c ∷ s) =
    let rest = has_mailbox true s in
    if c == b'@' then begun && is_address_domain s else is_address_char c && rest

unfoldable pub is_email_address : Text → Bool
unfolding has_mailbox
is_email_address s = leb (length s) 320 && has_mailbox false s

abbrev pub if_email : Option Text → Option Text
if_email none = none
if_email (some s) = if is_email_address s then some s else none

abbrev pub email_address : Option Json → Option Text
email_address value = if_email (as_text value)

-- The classes of a UUID, letters of either case.
abbrev pub hex_class : ℕ → Bool
hex_class c = is_hex (lower c)

abbrev pub dash_class : ℕ → Bool
dash_class c = c == b'-'

abbrev pub version_class : ℕ → Bool
version_class c = leb b'1' c && leb c b'8'

abbrev pub variant_class : ℕ → Bool
variant_class c = lower c == b'8' || lower c == b'9' || lower c == b'a' || lower c == b'b'

abbrev pub hexes : ℕ → List (ℕ → Bool) → List (ℕ → Bool)
hexes zero ps = ps
hexes (suc n) ps = hex_class ∷ hexes n ps

abbrev pub uuid_classes : List (ℕ → Bool)
uuid_classes = hexes 8 (
    dash_class
    ∷ hexes 4 (
        dash_class
        ∷ version_class
        ∷ hexes 3 (dash_class ∷ variant_class ∷ hexes 3 (dash_class ∷ hexes 12 []))))

abbrev pub matches : List (ℕ → Bool) → Text → Bool
matches [] [] = true
matches [] (c ∷ s) = false
matches (p ∷ ps) [] = false
matches (p ∷ ps) (c ∷ s) = p c && matches ps s

unfoldable pub is_uuid : Text → Bool
unfolding is_hex lower
is_uuid s = matches uuid_classes s

-- /[<>]/
abbrev pub is_bracket : ℕ → Bool
is_bracket c = c == b'<' || c == b'>'

abbrev pub is_blank : Text → Bool
is_blank s = is_empty (trim s)

-- `value.trim() || undefined`
abbrev pub trimmed : Option Text → Option Text
trimmed none = none
trimmed (some s) = if is_blank s then none else some (trim s)
