-- ===== src/Requests/Json.antt =====
-- The body of a request as `JSON.parse` returns it, and how the validation reads it. A property that
-- is absent is `none`.
use resend_conversation_serv.Prelude.{
  Bool, true, false, Option, none, some, List, [], ◌∷◌, String, if◌then◌else◌,
}
use resend_conversation_serv.Prelude.Text.{Text, codes, text_eq}

mutual
  pub data Json : Type 0 where
    null : Json
    boolean : Bool → Json
    number : Text → Json
    text : Text → Json
    array : Items → Json
    object : Properties → Json

  pub data Items : Type 0 where
    nil : Items
    item : Json → Items → Items

  pub data Properties : Type 0 where
    end : Properties
    property : Text → Json → Properties → Properties

abbrev pub listed : Items → List (Option Json)
listed nil = []
listed (item j js) = some j ∷ listed js

abbrev pub lookup : Text → Properties → Option Json
lookup name end = none
lookup name (property key j fields) =
    let rest = lookup name fields in if text_eq key name then some j else rest

-- `value.name`
abbrev pub get : Properties → String → Option Json
get fields name = lookup (codes name) fields

-- `isRecord`
abbrev pub as_record : Option Json → Option Properties
as_record (some (object fields)) = some fields
as_record _ = none

-- `typeof value === 'string' ? value : undefined`
abbrev pub as_text : Option Json → Option Text
as_text (some (text s)) = some s
as_text _ = none

-- `Array.isArray`
abbrev pub as_array : Option Json → Option (List (Option Json))
as_array (some (array items)) = some (listed items)
as_array _ = none

abbrev pub is_undefined : Option Json → Bool
is_undefined none = true
is_undefined (some j) = false

-- `value === undefined || value === null`
abbrev pub is_nullish : Option Json → Bool
is_nullish none = true
is_nullish (some null) = true
is_nullish _ = false
