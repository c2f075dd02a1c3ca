-- ===== src/Prelude/Strings.antt =====
-- Text as the list of its bytes, as a `std::string` holds it.
use Prim.Native.Nat.{ℕ, zero, suc, ◌+◌, ◌/◌, ◌%◌}
use Prim.Native.Char.{code}
use Prim.Native.String.{String}
use mathlib.Core.Path.{◌≡◌}
use mathlib.Core.Logic.{◌↔◌}
use mathlib.Core.Bool.{Bool, true, false, ◌&&◌, ◌||◌}
use mathlib.Core.List.{List, [], ◌∷◌}
use native.Mathlib.Omega.{arith}
use sdk_windows.Prelude.Tests.{◌==◌, ltb, if◌then◌else◌}

abbrev pub Bytes : Type 0
Bytes = List ℕ

abbrev pub Text : Type 0
Text = List ℕ

-- The bytes of an ASCII literal.
abbrev pub codes : String → Text
codes String.[] = []
codes (String.◌∷◌ c s) = code c ∷ codes s

-- `operator==` of two byte strings.
unfoldable pub text_eq : Text → Text → Bool
text_eq [] [] = true
text_eq (x ∷ xs) (y ∷ ys) = x == y && text_eq xs ys
text_eq _ _ = false

pub text_eq_iff : (a b : Text) → (text_eq a b ≡ true) ↔ (a ≡ b)
unfolding text_eq
text_eq_iff (x ∷ a) (y ∷ b) = ground (arith, text_eq_iff a b)
text_eq_iff _ _ = ground arith

-- `text` begins with `part`.
unfoldable pub begins_with : Text → Text → Bool
begins_with text [] = true
begins_with [] (p ∷ part) = false
begins_with (t ∷ text) (p ∷ part) = t == p && begins_with text part

-- `text.find(part) != npos`.
unfoldable pub contains : Text → Text → Bool
unfolding begins_with
contains [] part = begins_with [] part
contains (t ∷ text) part = begins_with (t ∷ text) part || contains text part

abbrev pub is_empty : Text → Bool
is_empty [] = true
is_empty (c ∷ cs) = false

-- The decimal digits of `std::to_string`, on fuel; a number has no more digits than its value + 1.
decimal : ℕ → ℕ → Text → Text
decimal zero n digits = digits
decimal (suc f) n digits =
    let rest = decimal f (n / 10) ((b'0' + n % 10) ∷ digits) in
    if ltb n 10 then (b'0' + n) ∷ digits else rest

unfoldable pub to_string : ℕ → Text
unfolding decimal
to_string n = decimal (suc n) n []
