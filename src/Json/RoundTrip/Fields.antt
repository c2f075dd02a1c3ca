-- ===== src/Json/RoundTrip/Fields.antt =====
-- Lemmas on the fields behind the first one, as `JsonGet` searches them
-- (src/internal/json_helpers.h).
use sdk_windows.Prelude.{
  ℕ, ◌≡◌, refl, sym, ap, ◌∙◌, Bool, true, false, List, [], ◌∷◌, ◌++◌, append_assoc, Text, none,
  some, if◌then◌else◌,
}
use sdk_windows.Json.{
  strip, find_behind, is_verbatim, escape, json_value, quoted, put_fields, json_build,
  value_behind_colon, value_behind_key, json_get,
}
use sdk_windows.Json.RoundTrip.{find_behind-here, json_value-string, value_behind_colon-string}

-- At no place of `front` does the text `front ++ rest` begin with the part.
abbrev pub Misses : Text → Text → Text → Type 0
Misses part [] rest = Unit
Misses part (t ∷ front) rest = (strip part (t ∷ (front ++ rest)) ≡ none) × Misses part front rest

find_behind-miss :
    (part : Text) (t : ℕ) (text : Text)
    → strip part (t ∷ text) ≡ none
    → find_behind part (t ∷ text) ≡ find_behind part text
unfolding find_behind
find_behind-miss part t text e = rw (find_behind, e) refl

find_behind-Misses :
    (part front rest : Text)
    → Misses part front rest
    → find_behind part (front ++ rest) ≡ find_behind part rest
find_behind-Misses part [] rest m = refl
find_behind-Misses part (t ∷ front) rest (here, later) =
    find_behind-miss part t (front ++ rest) here ∙ find_behind-Misses part front rest later

-- The text of the fields ahead of another one, with the comma behind them.
abbrev pub ahead : Bool → List (Text × Text) → Text
ahead first [] = if first then [] else b',' ∷ []
ahead first ((key, value) ∷ fields) =
    (if first then [] else b',' ∷ [])
    ++ (quoted key ++ (b':' ∷ (json_value value ++ ahead false fields)))

put_fields-ahead :
    (first : Bool) (before : List (Text × Text)) (key value : Text) (fields : List (Text × Text))
    → put_fields first (before ++ (key, value) ∷ fields)
      ≡ ahead first before ++ (quoted key ++ (b':' ∷ (json_value value ++ put_fields false fields)))
unfolding put_fields
put_fields-ahead first [] key value fields = refl
put_fields-ahead first ((k, v) ∷ before) key value fields =
    let rest = quoted key ++ (b':' ∷ (json_value value ++ put_fields false fields)) in
    let sep : Text = if first then [] else b',' ∷ [] in
    let lead = ahead false before in
    ap (λ (x : Text). sep ++ (quoted k ++ (b':' ∷ (json_value v ++ x))))
      (put_fields-ahead false before key value fields)
    ∙ sym (
        append_assoc sep (quoted k ++ (b':' ∷ (json_value v ++ lead))) rest
        ∙ ap (λ (x : Text). sep ++ x)
            (append_assoc (quoted k) (b':' ∷ (json_value v ++ lead)) rest
              ∙ ap (λ (x : Text). quoted k ++ (b':' ∷ x)) (append_assoc (json_value v) lead rest)))

-- A value that is written as a string is read back as it was from any place of an object, whatever
-- characters it has and whatever fields follow, as long as the quoted key does not occur in the text
-- ahead of its field. Quotes, backslashes and line feeds in the value are escaped and restored.
pub json_get-json_build :
    (before : List (Text × Text)) (key value : Text) (fields : List (Text × Text))
    → is_verbatim value ≡ false
    → Misses
        (quoted key)
        (b'{' ∷ ahead true before)
        (quoted key ++ (b':' ∷ (json_value value ++ (put_fields false fields ++ b'}' ∷ []))))
    → json_get (json_build (before ++ (key, value) ∷ fields)) key ≡ value
unfolding json_get json_build value_behind_key
json_get-json_build before key value fields h missed =
    let after : Text = put_fields false fields ++ b'}' ∷ [] in
    let text : Text = b'"' ∷ (escape value ++ b'"' ∷ after) in
    let field : Text = quoted key ++ (b':' ∷ (json_value value ++ put_fields false fields)) in
    let found : Text = quoted key ++ (b':' ∷ (json_value value ++ after)) in
    let closed : field ++ b'}' ∷ [] ≡ found =
      append_assoc (quoted key) (b':' ∷ (json_value value ++ put_fields false fields)) (b'}' ∷ [])
      ∙ ap (λ (x : Text). quoted key ++ (b':' ∷ x))
          (append_assoc (json_value value) (put_fields false fields) (b'}' ∷ [])) in
    let written : json_build (before ++ (key, value) ∷ fields)
        ≡ b'{' ∷ (ahead true before ++ found) =
      ap (λ (x : Text). b'{' ∷ (x ++ b'}' ∷ [])) (put_fields-ahead true before key value fields)
      ∙ ap (◌∷◌ b'{') (
          append_assoc (ahead true before) field (b'}' ∷ [])
          ∙ ap (λ (x : Text). ahead true before ++ x) closed) in
    ap (λ (x : Text). value_behind_key (find_behind (quoted key) x)) written
    ∙ ap value_behind_key (
        find_behind-Misses (quoted key) (b'{' ∷ ahead true before) found missed
        ∙ find_behind-here b'"' (key ++ b'"' ∷ []) (b':' ∷ (json_value value ++ after)))
    ∙ ap value_behind_colon (
        find_behind-here b':' [] (json_value value ++ after)
        ∙ ap some (json_value-string value after h))
    ∙ value_behind_colon-string value after
