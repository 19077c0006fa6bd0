-- ===== src/Store/Json.antt =====
-- JSON objects as the workflow tables hold them. A stored text is represented by what
-- `JSON.parse` makes of it.
use eutxo_l2_interop.Base.{
  ℕ, String, ◌≡◌, refl, Bool, List, [], ◌∷◌, Option, none, some, str_eq, if◌then◌else◌, trim,
  eq_iff, arith,
}

-- The values that the code writes; `other` stands for any value that it only passes along.
pub data Value : Type 0 where
  null : Value
  flag : Bool → Value
  num : ℕ → Value
  str : String → Value
  strs : List String → Value
  other : ℕ → Value

abbrev pub JsonObj : Type 0
JsonObj = List (String × Value)

-- A text in a JSON column: not JSON, JSON but no object, or an object.
pub data JsonText : Type 0 where
  malformed : JsonText
  scalar : JsonText
  object : JsonObj → JsonText

-- `obj[key]`; a missing key is `undefined`, here `none`.
unfoldable pub get : String → JsonObj → Option Value
get key [] = none
get key ((k, v) ∷ obj) = if str_eq k key then some v else get key obj

-- `{ ...obj, key: value }`.
unfoldable pub put : String → Value → JsonObj → JsonObj
put key v [] = (key, v) ∷ []
put key v ((k, w) ∷ obj) = if str_eq k key then (key, v) ∷ obj else (k, w) ∷ put key v obj

pub get-put :
    (key j : String) (v : Value) (obj : JsonObj)
    → get j (put key v obj) ≡ (if str_eq key j then some v else get j obj)
unfolding get put
get-put key j v [] = refl
get-put key j v ((k, w) ∷ obj) =
    ground (arith, eq_iff key j, eq_iff k key, eq_iff k j, get-put key j v obj)

-- `typeof v === "string" ? v : ""`.
abbrev pub text_of : Option Value → String
text_of none = ""
text_of (some (str s)) = s
text_of (some _) = ""

-- `typeof v === "string" ? v.trim() : ""`.
abbrev pub trimmed : Option Value → String
trimmed v = trim (text_of v)

-- `parseJsonObject` of lib/workflows.ts.
unfoldable pub parse_json_object : Option JsonText → JsonObj
parse_json_object none = []
parse_json_object (some malformed) = []
parse_json_object (some scalar) = []
parse_json_object (some (object obj)) = obj
