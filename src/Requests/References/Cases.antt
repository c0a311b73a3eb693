-- ===== src/Requests/References/Cases.antt =====
-- The form of a UUID and the case of its letters.
use resend_conversation_serv.Prelude.{
  ℕ, zero, suc, ◌≡◌, refl, arith, Bool, true, false, not, List, [], ◌∷◌, All,
}
use resend_conversation_serv.Prelude.Text.{Text, to_lower, lower}
use resend_conversation_serv.Prelude.Text.Chars.{lower-lower}
use resend_conversation_serv.Requests.Checks.{
  dash_class, hexes, is_uuid, matches, uuid_classes, hex_class, version_class, variant_class,
}

-- Changing the case of a text changes no class of a UUID.
abbrev IgnoresCase : (ℕ → Bool) → Type 0
IgnoresCase p = (c : ℕ) → p c ≡ true → p (lower c) ≡ true

matches-to_lower :
    (ps : List (ℕ → Bool)) (s : Text)
    → All IgnoresCase ps
    → matches ps s ≡ true
    → matches ps (to_lower s) ≡ true
unfolding to_lower
matches-to_lower [] [] v h = refl
matches-to_lower [] (c ∷ s) v h = cc
matches-to_lower (p ∷ ps) [] v h = cc
matches-to_lower (p ∷ ps) (c ∷ s) v h =
    let first = v.0 c (ground arith) in
    let ih = matches-to_lower ps s v.1 (ground arith) in ground arith

hex_case : IgnoresCase hex_class
hex_case c h = rw (lower-lower c) h

variant_case : IgnoresCase variant_class
variant_case c h = rw (lower-lower c) h

version_case : IgnoresCase version_class
unfolding lower
version_case c h = ground arith

dash_case : IgnoresCase dash_class
unfolding lower
dash_case c h = ground arith

hexes_case : (n : ℕ) (ps : List (ℕ → Bool)) → All IgnoresCase ps → All IgnoresCase (hexes n ps)
hexes_case zero ps v = v
hexes_case (suc n) ps v = (hex_case, hexes_case n ps v)

abbrev last_classes : List (ℕ → Bool)
last_classes = dash_class ∷ hexes 12 []

abbrev variant_classes : List (ℕ → Bool)
variant_classes = dash_class ∷ variant_class ∷ hexes 3 last_classes

abbrev version_classes : List (ℕ → Bool)
version_classes = dash_class ∷ version_class ∷ hexes 3 variant_classes

uuid_case : All IgnoresCase uuid_classes
uuid_case =
    let last : All IgnoresCase last_classes = (dash_case, hexes_case 12 [] tt) in
    let variant : All IgnoresCase variant_classes =
      (dash_case, (variant_case, hexes_case 3 last_classes last)) in
    let version : All IgnoresCase version_classes =
      (dash_case, (version_case, hexes_case 3 variant_classes variant)) in
    hexes_case 8 (dash_class ∷ hexes 4 version_classes)
      (dash_case, hexes_case 4 version_classes version)

pub not-true : (b : Bool) → not b ≡ true → b ≡ false
not-true true h = cc
not-true false h = refl

pub is_uuid-to_lower : (s : Text) → is_uuid s ≡ true → is_uuid (to_lower s) ≡ true
unfolding is_uuid
is_uuid-to_lower s h = matches-to_lower uuid_classes s uuid_case h
