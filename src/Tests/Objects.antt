-- ===== src/Tests/Objects.antt =====
-- Flat objects (src/internal/json_helpers.h).
use sdk_windows.Prelude.{true, ◌++◌, ◌≡◌, refl, [], ◌∷◌, Text, codes, text_eq}
use sdk_windows.Json.{
  strip, find_behind, is_verbatim, escape, json_value, put_fields, quoted, json_build, skip_blanks,
  read_string, read_nested, read_value, value_behind_colon, value_behind_key, json_get,
}
use sdk_windows.Json.RoundTrip.Fields.{Misses, ahead, json_get-json_build}

abbrev field : Text → Text → Text × Text
field key value = (key, value)

-- Behind another field, with a quote, a backslash and a line feed in the value.
abbrev ahead_of_id : Text
ahead_of_id = b'{' ∷ ahead true (field (codes "a") (codes "b") ∷ [])

id_missed : (rest : Text) → Misses (quoted (codes "id")) ahead_of_id (quoted (codes "id") ++ rest)
unfolding strip json_value is_verbatim text_eq escape
id_missed rest = (refl, (refl, (refl, (refl, (refl, (refl, (refl, (refl, (refl, tt)))))))))

json_get-json_build_example :
    json_get
      (json_build (
        field (codes "a") (codes "b")
        ∷ field (codes "id") (codes "a\"b\\c\n")
        ∷ field (codes "list") (codes "[1,2]")
        ∷ []))
      (codes "id")
    ≡ codes "a\"b\\c\n"
unfolding is_verbatim text_eq
json_get-json_build_example =
    json_get-json_build (field (codes "a") (codes "b") ∷ []) (codes "id") (codes "a\"b\\c\n")
      (field (codes "list") (codes "[1,2]") ∷ []) refl (id_missed _)

list_found :
    json_get
      (json_build (field (codes "id") (codes "7") ∷ field (codes "list") (codes "[1,[2]]") ∷ []))
      (codes "list")
    ≡ codes "[1,[2]]"
unfolding json_get value_behind_key value_behind_colon find_behind strip json_build put_fields
    json_value is_verbatim text_eq escape skip_blanks read_value read_string read_nested
list_found = refl

-- A value that is spelled like the key is taken for the key.
value_taken_for_key :
    json_get
      (json_build (
        field (codes "a") (codes "nonce")
        ∷ field (codes "b") (codes "x")
        ∷ field (codes "nonce") (codes "v")
        ∷ []))
      (codes "nonce")
    ≡ codes "x"
unfolding json_get value_behind_key value_behind_colon find_behind strip json_build put_fields
    json_value is_verbatim text_eq escape skip_blanks read_value read_string read_nested
value_taken_for_key = refl
