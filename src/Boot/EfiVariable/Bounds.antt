-- ===== src/Boot/EfiVariable/Bounds.antt =====
-- Lemmas on the accesses to a record and on its spans (src/boot/efi_variable.h).
use sdk_windows.Prelude.{
  ℕ, zero, suc, ◌+◌, ◌*◌, ◌≤◌, ◌≡◌, arith, [], ◌∷◌, ◌++◌, Bytes, Text, length, length-append,
  Option, none, some, ok, Returns, returns, Returns->>=, Returns-weaken, ltb, leb, ◌==◌,
  if◌then◌else◌, false, ap, ◌&&◌, Bool-cases, inl, inr,
}
use sdk_windows.Wire.{read_u64_le}
use sdk_windows.Wire.Reads.{read_u16_le-Returns, read_u64_le-Returns}
use sdk_windows.Boot.EfiVariable.{
  EfiVariableData, check_spans, try_parse_efi_variable_data, name_loop, efi_variable_name,
  header_bytes, max_efi_variable_name_chars,
}

-- Both spans of an accepted record lie inside the buffer, behind the header.
pub record IsInside (size : ℕ) (var : EfiVariableData) : Type 0 where
  pub name_behind : header_bytes ≤ var.name_utf16
  pub name_inside : var.name_utf16 + 2 * var.name_chars ≤ var.contents
  pub data_inside : var.contents + var.data_bytes ≤ size
  pub name_bounded : var.name_chars ≤ max_efi_variable_name_chars

abbrev pub InsideIfSome : ℕ → Option EfiVariableData → Type 0
InsideIfSome size none = Unit
InsideIfSome size (some var) = IsInside size var

check_spans-Inside : (size n d : ℕ) → header_bytes ≤ size → InsideIfSome size (check_spans size n d)
unfolding check_spans
check_spans-Inside size n d h = ground arith

-- On every buffer the parser returns, with no read outside of it, and both spans of a record that
-- it accepts lie inside the buffer: the name behind the header, the data behind the name.
pub try_parse_efi_variable_data-Inside :
    (raw : Bytes) → Returns (InsideIfSome (length raw)) (try_parse_efi_variable_data raw)
unfolding try_parse_efi_variable_data
try_parse_efi_variable_data-Inside raw = elim (Bool-cases (ltb (length raw) header_bytes)) [
  | inl short ↦ rw short (returns tt)
  | inr long ↦
      let fits : header_bytes ≤ length raw = ground arith in
      rw long (
        Returns->>= (read_u64_le-Returns raw 16 (omega arith)) λ n _.
          Returns->>= (read_u64_le-Returns raw 24 (omega arith))
            λ d _. returns (check_spans-Inside (length raw) n d fits))
]

-- The plain form of the checks, in exact arithmetic.
abbrev pub spans_of : ℕ → ℕ → ℕ → Option EfiVariableData
spans_of size n d =
    if leb n max_efi_variable_name_chars && leb (header_bytes + 2 * n + d) size
    then some (record {
      name_utf16 = header_bytes;
      name_chars = n;
      contents = header_bytes + 2 * n;
      data_bytes = d;
    })
    else none

check_spans_lem : (size n d : ℕ) → header_bytes ≤ size → check_spans size n d ≡ spans_of size n d
unfolding check_spans
check_spans_lem size n d h = ground arith

-- The checks in subtraction form decide the plain bound: with the lengths `n` and `d` in its
-- header, a record of at least 32 bytes is accepted exactly when the name has at most 1024
-- characters and header, name and data together fit into the buffer, in exact arithmetic; the
-- name then starts behind the header and the data behind the name.
pub try_parse_efi_variable_data_lem :
    (raw : Bytes) (n d : ℕ)
    → header_bytes ≤ length raw
    → read_u64_le raw 16 ≡ ok n
    → read_u64_le raw 24 ≡ ok d
    → try_parse_efi_variable_data raw ≡ ok (spans_of (length raw) n d)
unfolding try_parse_efi_variable_data
try_parse_efi_variable_data_lem raw n d h hn hd =
    let long : ltb (length raw) header_bytes ≡ false = ground arith in
    rw (long, hn, hd) (ap ok (check_spans_lem (length raw) n d h))

name_loop-Returns :
    (raw : Bytes) (chars at : ℕ) (name : Text)
    → at + 2 * chars ≤ length raw
    → Returns (λ (s : Text). length s ≤ length name + chars) (name_loop raw at chars name)
unfolding name_loop
name_loop-Returns raw zero at name h = returns (omega arith)
name_loop-Returns raw (suc chars) at name h =
    Returns->>= (read_u16_le-Returns raw at (omega arith)) λ ch _.
      let shown : Text = name ++ (if ltb ch 128 then ch else b'?') ∷ [] in
      elim (Bool-cases (ch == 0)) [
        | inl nul ↦ rw nul (returns (omega arith))
        | inr more ↦ rw more (
            Returns-weaken
              (λ s k. omega (arith, length-append name ((if ltb ch 128 then ch else b'?') ∷ [])))
              (name_loop-Returns raw chars (at + 2) shown (omega arith)))
      ]

-- The name of an accepted record is read inside the buffer and has no more characters than the
-- record states.
pub efi_variable_name-Returns :
    (raw : Bytes) (var : EfiVariableData)
    → IsInside (length raw) var
    → Returns (λ (s : Text). length s ≤ var.name_chars) (efi_variable_name raw var)
unfolding efi_variable_name
efi_variable_name-Returns raw var h =
    Returns-weaken (λ s k. omega arith)
      (name_loop-Returns raw var.name_chars var.name_utf16 [] (omega arith))
