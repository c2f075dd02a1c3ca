-- ===== src/Json.antt =====
-- `JsonBuild` and `JsonGet` of src/internal/json_helpers.h. A position in the text is modelled by
-- what stands behind it.
pub mod RoundTrip
use sdk_windows.Prelude.{
  ℕ, ◌+◌, ◌-◌, Bool, true, false, ◌&&◌, ◌||◌, List, [], ◌∷◌, ◌++◌, Text, codes, text_eq, is_empty,
  Option, none, some, ◌==◌, if◌then◌else◌,
}

-- The text behind `part` where the text begins with it.
unfoldable pub strip : Text → Text → Option Text
strip [] text = some text
strip (p ∷ part) [] = none
strip (p ∷ part) (t ∷ text) = if p == t then strip part text else none

-- What stands behind the first occurrence of a part that is not empty.
unfoldable pub find_behind : Text → Text → Option Text
find_behind part [] = none
find_behind part (t ∷ text) = elim (strip part (t ∷ text)) [
  | some rest ↦ some rest
  | none ↦ find_behind part text
]

-- A value that is embedded verbatim.
unfoldable pub begins_nested : Text → Bool
begins_nested [] = false
begins_nested (c ∷ cs) = c == b'{' || c == b'['

unfoldable pub is_verbatim : Text → Bool
unfolding begins_nested
is_verbatim value =
    begins_nested value
    || text_eq value (codes "true")
    || text_eq value (codes "false")
    || text_eq value (codes "null")

unfoldable pub escape : Text → Text
escape [] = []
escape (c ∷ cs) =
    let rest = escape cs in
    if c == b'"'
    then b'\\' ∷ b'"' ∷ rest
    else if c == b'\\'
    then b'\\' ∷ b'\\' ∷ rest
    else if c == b'\n'
    then b'\\' ∷ b'n' ∷ rest
    else c ∷ rest

unfoldable pub json_value : Text → Text
json_value value = if is_verbatim value then value else b'"' ∷ (escape value ++ b'"' ∷ [])

abbrev pub quoted : Text → Text
quoted key = b'"' ∷ (key ++ b'"' ∷ [])

-- The fields in the order of the map.
unfoldable pub put_fields : Bool → List (Text × Text) → Text
put_fields first [] = []
put_fields first ((key, value) ∷ fields) =
    (if first then [] else b',' ∷ [])
    ++ (quoted key ++ (b':' ∷ (json_value value ++ put_fields false fields)))

unfoldable pub json_build : List (Text × Text) → Text
json_build fields = b'{' ∷ (put_fields true fields ++ b'}' ∷ [])

unfoldable pub skip_blanks : Text → Text
skip_blanks [] = []
skip_blanks (c ∷ cs) = let rest = skip_blanks cs in if c == b' ' || c == b'\t' then rest else c ∷ cs

-- The loop over a string, behind its opening quote.
unfoldable pub read_string : Text → Text
read_string [] = []
read_string (c ∷ []) = if c == b'"' then [] else c ∷ []
read_string (c ∷ d ∷ cs) =
    let behind_escape = read_string cs in
    let behind_plain = read_string (d ∷ cs) in
    if c == b'"'
    then []
    else if c == b'\\'
    then (if d == b'n' then b'\n' else d) ∷ behind_escape
    else c ∷ behind_plain

-- The loop over a number, a word, or a nested object or array.
unfoldable pub read_nested : ℕ → Text → Text
read_nested depth [] = []
read_nested depth (c ∷ cs) =
    let deeper = read_nested (depth + 1) cs in
    let shallower = read_nested (depth - 1) cs in
    let same = read_nested depth cs in
    if c == b'{' || c == b'['
    then c ∷ deeper
    else if c == b'}' || c == b']'
    then (if depth == 0 then [] else c ∷ shallower)
    else if depth == 0 && (c == b',' || c == b'}')
    then []
    else c ∷ same

unfoldable pub read_value : Text → Text
read_value [] = []
read_value (c ∷ cs) = if c == b'"' then read_string cs else read_nested 0 (c ∷ cs)

unfoldable pub value_behind_colon : Option Text → Text
value_behind_colon none = []
value_behind_colon (some rest) = read_value (skip_blanks rest)

unfoldable pub value_behind_key : Option Text → Text
value_behind_key none = []
value_behind_key (some rest) = value_behind_colon (find_behind (b':' ∷ []) rest)

unfoldable pub json_get : Text → Text → Text
json_get json key = value_behind_key (find_behind (quoted key) json)
