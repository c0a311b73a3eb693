-- ===== src/Email/Routing/Bases.antt =====
-- What a parsed base mailbox is.
use resend_conversation_serv.Prelude.{
  ◌≡◌, subst, true, false, ◌||◌, Option, none, some, arith, Bool-cases, inl, inr,
}
use resend_conversation_serv.Prelude.Text.{Text, trim, to_lower}
use resend_conversation_serv.Prelude.Text.Search.{is_empty, includes, split_last}
use resend_conversation_serv.Email.Routing.{MailboxParts, is_mailbox, base_of, parse_base_mailbox}

-- A mailbox as `parse_base_mailbox` returns it.
pub record IsBase (b : MailboxParts) : Type 0 where
  pub local_some : is_empty b.local ≡ false
  pub domain_some : is_empty b.domain ≡ false
  pub mailbox : is_mailbox b.local b.domain ≡ true

pub base_of-IsBase :
    (n : Text) (o : Option (Text × Text)) (b : MailboxParts) → base_of n o ≡ some b → IsBase b
base_of-IsBase n none b h = cc
base_of-IsBase n (some (l, d)) b h =
    elim (Bool-cases
      (is_empty l || is_empty d || includes b'<' n || includes b'>' n || includes b'+' l)) [
        | inl e ↦ let h' : none ≡ some b = rw e at h in cc
        | inr e ↦ elim (Bool-cases (is_mailbox l d)) [
          | inr f ↦ let h' : none ≡ some b = rw (e, f) at h in cc
          | inl f ↦
              let same : some (record { local = l; domain = d }) ≡ some b = rw (e, f) at h in
              subst IsBase (ground arith)
                (record { local_some = ground arith; domain_some = ground arith; mailbox = f })
        ]
      ]

pub parse-IsBase : (a : Text) (b : MailboxParts) → parse_base_mailbox a ≡ some b → IsBase b
unfolding parse_base_mailbox
parse-IsBase a b h = base_of-IsBase (to_lower (trim a)) (split_last b'@' (to_lower (trim a))) b h
