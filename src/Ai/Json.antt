-- ===== src/Ai/Json.antt =====
-- JSON values, as the answers of the AI service are read: `x?.name`, `x ?? y`, `x?.[0]` and the tests
-- by `typeof`. A number is an integer in the unit of the column that takes it. `none` is `undefined`.
use money_management_app.Prelude.{
  zero, Bool, true, false, not, Option, none, some, String, List, [], ◌∷◌, if◌then◌else◌, str_eq,
}
use money_management_app.Prelude.Int.{ℤ, pos}

mutual
  pub data Json : Type 0 where
    null : Json
    bool : Bool → Json
    num : ℤ → Json
    str : String → Json
    arr : Items → Json
    obj : Fields → Json

  pub data Items : Type 0 where
    nil : Items
    cons : Json → Items → Items

  pub data Fields : Type 0 where
    end : Fields
    field : String → Json → Fields → Fields

-- The last field of a name counts.
abbrev pub lookup : String → Fields → Option Json
lookup name Fields.end = none
lookup name (Fields.field key value rest) =
    let later = lookup name rest in
    elim later [ some v ↦ some v | none ↦ if str_eq key name then some value else none ]

-- `x?.name`
abbrev pub member : Option Json → String → Option Json
member (some (Json.obj fields)) name = lookup name fields
member _ name = none

-- `x?.[0]`
abbrev pub first_item : Option Json → Option Json
first_item (some (Json.arr (Items.cons x rest))) = some x
first_item _ = none

-- `x ?? y`: null counts as missing.
abbrev pub coalesce : Option Json → Option Json → Option Json
coalesce none y = y
coalesce (some Json.null) y = y
coalesce (some j) y = some j

-- `x === undefined || x === null`
abbrev pub is_nullish : Option Json → Bool
is_nullish none = true
is_nullish (some Json.null) = true
is_nullish _ = false

-- `typeof x === 'number' ? x : undefined`
abbrev pub as_number : Option Json → Option ℤ
as_number (some (Json.num n)) = some n
as_number _ = none

-- `typeof x === 'boolean' ? x : undefined`
abbrev pub as_bool : Option Json → Option Bool
as_bool (some (Json.bool b)) = some b
as_bool _ = none

-- `typeof x === 'string' ? x : undefined`
abbrev pub as_string : Option Json → Option String
as_string (some (Json.str s)) = some s
as_string _ = none

-- `if (x)`
abbrev pub is_truthy : Option Json → Bool
is_truthy none = false
is_truthy (some Json.null) = false
is_truthy (some (Json.bool b)) = b
is_truthy (some (Json.num (pos zero))) = false
is_truthy (some (Json.str s)) = not (str_eq s "")
is_truthy _ = true

-- `String(x)`; the text of a value that is not a string is a parameter.
abbrev pub to_text : (Json → String) → Json → String
to_text text (Json.str s) = s
to_text text j = text j

-- `x ?? undefined`, kept as its text.
abbrev pub text_option : (Json → String) → Option Json → Option String
text_option text none = none
text_option text (some Json.null) = none
text_option text (some j) = some (to_text text j)

-- `Array.isArray(x) ? x : []`
abbrev pub list_of : Items → List Json
list_of Items.nil = []
list_of (Items.cons x xs) = x ∷ list_of xs

abbrev pub as_list : Option Json → List Json
as_list (some (Json.arr xs)) = list_of xs
as_list _ = []
