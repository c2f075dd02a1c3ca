-- ===== src/Json/RoundTrip.antt =====
-- A value that `JsonBuild` writes, as `JsonGet` reads it (src/internal/json_helpers.h).
pub mod Fields
use mathlib.Core.List.{append_assoc}
use sdk_windows.Prelude.{
  ℕ, ◌≡◌, refl, sym, ap, ◌∙◌, arith, false, List, [], ◌∷◌, ◌++◌, Text, some, ◌==◌, ==-refl,
  if◌then◌else◌, Bool-cases, inl, inr,
}
use sdk_windows.Json.{
  strip, find_behind, is_verbatim, escape, json_value, quoted, put_fields, json_build, skip_blanks,
  read_string, read_value, value_behind_colon, value_behind_key, json_get,
}

strip-append : (part rest : Text) → strip part (part ++ rest) ≡ some rest
unfolding strip
strip-append [] rest = refl
strip-append (p ∷ part) rest = rw (==-refl p) (strip-append part rest)

read_string-plain :
    (c : ℕ) (cs : Text)
    → (c == b'"') ≡ false
    → (c == b'\\') ≡ false
    → read_string (c ∷ cs) ≡ c ∷ read_string cs
unfolding read_string
read_string-plain c [] a b = rw a refl
read_string-plain c (d ∷ cs) a b = rw (a, b) refl

read_string-escaped :
    (d : ℕ) (cs : Text)
    → read_string (b'\\' ∷ d ∷ cs) ≡ (if d == b'n' then b'\n' else d) ∷ read_string cs
unfolding read_string
read_string-escaped d cs = refl

read_string-quote : (rest : Text) → read_string (b'"' ∷ rest) ≡ []
unfolding read_string
read_string-quote [] = refl
read_string-quote (r ∷ rest) = refl

-- The loop reads back one character, however it was escaped.
read_string-char :
    (c d : ℕ) (cs text rest : Text)
    → c ≡ (if d == b'n' then b'\n' else d)
    → text ≡ b'\\' ∷ d ∷ rest
    → read_string rest ≡ cs
    → read_string text ≡ c ∷ cs
read_string-char c d cs text rest same e later =
    rw e (read_string-escaped d rest ∙ rw later (ap (λ (x : ℕ). x ∷ cs) (sym same)))

read_string-escape : (value rest : Text) → read_string (escape value ++ b'"' ∷ rest) ≡ value
unfolding escape
read_string-escape [] rest = read_string-quote rest
read_string-escape (c ∷ cs) rest =
    let later = read_string-escape cs rest in
    elim (Bool-cases (c == b'"')) [
      | inl e ↦ rw e (read_string-char c b'"' cs _ _ (ground arith) refl later)
      | inr a ↦ rw a (elim (Bool-cases (c == b'\\')) [
        | inl e ↦ rw e (read_string-char c b'\\' cs _ _ (ground arith) refl later)
        | inr b ↦ rw b (elim (Bool-cases (c == b'\n')) [
          | inl e ↦ rw e (read_string-char c b'n' cs _ _ (ground arith) refl later)
          | inr n ↦ rw n (read_string-plain c (escape cs ++ b'"' ∷ rest) a b ∙ ap (◌∷◌ c) later)
        ])
      ])
    ]

pub find_behind-here :
    (p : ℕ) (part rest : Text) → find_behind (p ∷ part) (p ∷ (part ++ rest)) ≡ some rest
unfolding find_behind
find_behind-here p part rest = rw (find_behind, strip-append (p ∷ part) rest) refl

pub json_value-string :
    (value after : Text)
    → is_verbatim value ≡ false
    → json_value value ++ after ≡ b'"' ∷ (escape value ++ b'"' ∷ after)
unfolding json_value
json_value-string value after h =
    rw h (ap (◌∷◌ b'"') (append_assoc (escape value) (b'"' ∷ []) after))

pub value_behind_colon-string :
    (value after : Text) → value_behind_colon (some (b'"' ∷ (escape value ++ b'"' ∷ after))) ≡ value
unfolding value_behind_colon read_value skip_blanks
value_behind_colon-string value after = read_string-escape value after
