-- ===== src/Email/Threading.antt =====
-- src/lib/email/threading.ts: message identifiers, headers, subjects and addresses of mails.
pub mod Subjects
use mathlib.Core.List.{reverse}
use resend_conversation_serv.Prelude.{
  ℕ, zero, suc, Bool, true, false, ◌&&◌, ◌||◌, not, Option, none, some, List, [], ◌∷◌, ◌++◌, ◌==◌,
  if◌then◌else◌, length, any, is_null,
}
use resend_conversation_serv.Prelude.Text.{
  Text, codes, text_eq, is_space, trim, trim_start, to_lower, lower, some_char,
}
use resend_conversation_serv.Prelude.Text.Search.{is_empty, includes, split_last, ends_in}

-- /<[^<>\s]+>/g, as a scan. The pending text is what follows the last `<`, in reverse; `none` where
-- no match can have begun.
abbrev pub close_id : Text → List Text → List Text
close_id [] ids = ids
close_id (c ∷ s) ids = (b'<' ∷ reverse (c ∷ s) ++ b'>' ∷ []) ∷ ids

abbrev pub extend_id : ℕ → Option Text → Option Text
extend_id c none = none
extend_id c (some s) = some (c ∷ s)

abbrev pub found_ids : Option Text → List Text → List Text
found_ids none ids = ids
found_ids (some s) ids = close_id s ids

unfoldable pub scan_ids : Option Text → Text → List Text
unfolding is_space
scan_ids pending [] = []
scan_ids pending (c ∷ s) =
    let opened = scan_ids (some []) s in
    let closed = scan_ids none s in
    let extended = scan_ids (extend_id c pending) s in
    if c == b'<'
    then opened
    else if c == b'>'
    then found_ids pending closed
    else if is_space c
    then closed
    else extended

abbrev pub extract_message_ids : Option Text → List Text
extract_message_ids none = []
extract_message_ids (some value) = scan_ids none value

abbrev pub find_header : List (Text × Text) → Text → Option Text
find_header [] target = none
find_header ((name, value) ∷ headers) target =
    let rest = find_header headers target in
    if text_eq (to_lower name) target then some value else rest

unfoldable pub get_header : Option (List (Text × Text)) → Text → Option Text
get_header none name = none
get_header (some headers) name = find_header headers (to_lower name)

-- The rest of a text after a tag, letters of either case.
abbrev pub after_tag : Text → Text → Option Text
after_tag [] s = some s
after_tag (c ∷ tag) [] = none
after_tag (c ∷ tag) (d ∷ s) = let rest = after_tag tag s in if lower d == c then rest else none

-- \s*:\s*
abbrev pub skip_colon : Text → Option Text
skip_colon [] = none
skip_colon (c ∷ s) = if c == b':' then some (trim_start s) else none

abbrev pub after_colon : Option Text → Option Text
after_colon none = none
after_colon (some s) = skip_colon (trim_start s)

abbrev pub or_else : Option Text → Option Text → Option Text
or_else none o = o
or_else (some s) o = some s

-- What SUBJECT_PREFIX_PATTERN leaves of a subject, where it matches.
unfoldable pub strip_prefix : Text → Option Text
strip_prefix subject =
    let s = trim_start subject in
    or_else (after_colon (after_tag (codes "re") s))
      (or_else (after_colon (after_tag (codes "fw") s)) (after_colon (after_tag (codes "fwd") s)))

-- The loop. Each round removes characters, so the length of the subject is enough fuel.
abbrev pub strip_round : Text → Option Text → (Text → Text) → Text
strip_round s none next = s
strip_round s (some rest) next = next rest

unfoldable pub strip_prefixes : ℕ → Text → Text
unfolding strip_prefix
strip_prefixes zero s = s
strip_prefixes (suc fuel) s = strip_round s (strip_prefix s) (λ rest. strip_prefixes fuel rest)

unfoldable pub stripped : Text → Text
unfolding strip_prefixes trim
stripped subject = strip_prefixes (length (trim subject)) (trim subject)

unfoldable pub normalize_subject : Text → Text
unfolding stripped
normalize_subject subject = if is_empty (stripped subject) then trim subject else stripped subject

unfoldable pub create_reply_subject : Text → Text
unfolding normalize_subject
create_reply_subject subject = codes "Re: " ++ normalize_subject subject

-- `[...new Set(…)]`
unfoldable pub distinct_from : List Text → List Text → List Text
distinct_from seen [] = []
distinct_from seen (t ∷ ts) =
    let skipped = distinct_from seen ts in
    let taken = distinct_from (t ∷ seen) ts in if any (text_eq t) seen then skipped else t ∷ taken

unfoldable pub build_references : List Text → Text → List Text
unfolding distinct_from
build_references references parent = distinct_from [] (references ++ parent ∷ [])

pub record ParsedAddress : Type 0 where
  pub address : Text
  pub name : Option Text

-- LineTerminator, which `.` does not match.
abbrev pub is_line_end : ℕ → Bool
is_line_end c = c == 10 || c == 13 || c == 8232 || c == 8233

abbrev pub trim_end : Text → Text
trim_end s = reverse (trim_start (reverse s))

abbrev pub drop_first_quote : Text → Text
drop_first_quote [] = []
drop_first_quote (c ∷ s) = if c == b'"' then s else c ∷ s

abbrev pub drop_last_quote : Text → Text
drop_last_quote s = reverse (drop_first_quote (reverse s))

abbrev pub name_of : Text → Option Text
name_of s = if is_empty s then none else some s

-- The text between the last `<` and the closing `>`, and what precedes it.
abbrev pub bracketed : Text → Option (Text × Text) → ParsedAddress
bracketed value none = record { address = value; name = none }
bracketed value (some (before, inside)) =
    if is_empty inside || includes b'>' inside || some_char is_line_end (trim_end before)
    then record { address = value; name = none }
    else record {
      address = trim inside;
      name = name_of (drop_last_quote (drop_first_quote (trim (trim_end before))));
    }

-- `reversed` is the value, trimmed and reversed.
abbrev pub parse_reversed : Text → Text → ParsedAddress
parse_reversed value [] = record { address = value; name = none }
parse_reversed value (c ∷ reversed) =
    if c == b'>'
    then bracketed value (split_last b'<' (reverse reversed))
    else record { address = value; name = none }

unfoldable pub parse_address : Text → ParsedAddress
unfolding trim
parse_address value = parse_reversed (trim value) (reverse (trim value))
