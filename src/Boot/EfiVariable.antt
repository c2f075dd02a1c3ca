-- ===== src/Boot/EfiVariable.antt =====
-- `TryParseEfiVariableData` and `EfiVariableName` of src/boot/efi_variable.h. The spans that the
-- code keeps as pointers are offsets into the record's buffer.
pub mod Bounds
use sdk_windows.Prelude.{
  ℕ, zero, suc, ◌+◌, ◌-◌, ◌*◌, ◌/◌, ◌%◌, List, [], ◌∷◌, ◌++◌, Bytes, Text, length, Option, none,
  some, Outcome, ok, ◌>>=◌, ltb, leb, ◌==◌, if◌then◌else◌,
}
use sdk_windows.Wire.{size_mod, read_u16_le, read_u64_le}

abbrev pub max_efi_variable_name_chars : ℕ
max_efi_variable_name_chars = 1024

abbrev pub header_bytes : ℕ
header_bytes = 32

pub record EfiVariableData : Type 0 where
  pub name_utf16 : ℕ
  pub name_chars : ℕ
  pub contents : ℕ
  pub data_bytes : ℕ

-- `a - b` on `size_t`.
abbrev pub sub_size : ℕ → ℕ → ℕ
sub_size a b = if leb b a then a - b else a + size_mod - b

-- `a * b` on `size_t`.
abbrev pub mul_size : ℕ → ℕ → ℕ
mul_size a b = (a * b) % size_mod

-- The bounds checks on the two lengths, once they are read.
check_spans : ℕ → ℕ → ℕ → Option EfiVariableData
check_spans size name_chars data_bytes =
    let after_header = sub_size size header_bytes in
    let name_bytes = mul_size name_chars 2 in
    if ltb max_efi_variable_name_chars name_chars
    then none
    else if ltb (after_header / 2) name_chars
    then none
    else if ltb (sub_size after_header name_bytes) data_bytes
    then none
    else some (record {
      name_utf16 = header_bytes;
      name_chars = name_chars;
      contents = header_bytes + name_bytes;
      data_bytes = data_bytes;
    })

-- `none` is the result false.
unfoldable pub try_parse_efi_variable_data : Bytes → Outcome (Option EfiVariableData)
unfolding check_spans
try_parse_efi_variable_data raw = if ltb (length raw) header_bytes then ok none else do
  name_chars ← read_u64_le raw 16
  data_bytes ← read_u64_le raw 24
  ok (check_spans (length raw) name_chars data_bytes)

-- The loop of `EfiVariableName` with `chars` characters left at the offset `at`.
name_loop : Bytes → ℕ → ℕ → Text → Outcome Text
name_loop raw at zero name = ok name
name_loop raw at (suc chars) name = do
  ch ← read_u16_le raw at
  if ch == 0
      then ok name
      else name_loop raw (at + 2) chars (name ++ (if ltb ch 128 then ch else b'?') ∷ [])

unfoldable pub efi_variable_name : Bytes → EfiVariableData → Outcome Text
unfolding name_loop
efi_variable_name raw var = name_loop raw var.name_utf16 var.name_chars []
