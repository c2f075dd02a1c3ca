-- ===== src/Boot/EventLog/Describe.antt =====
-- The helpers of src/boot/event_log_parser.cpp that read one entry's event data. The loops run on
-- fuel, a round for each byte.
use sdk_windows.Prelude.{
  ℕ, zero, suc, ◌+◌, Bool, false, not, ◌&&◌, ◌||◌, [], ◌∷◌, ◌++◌, Bytes, Text, codes, text_eq,
  contains, is_empty, length, Option, none, some, Outcome, ok, stuck, ◌>>=◌, ltb, leb, ◌==◌,
  if◌then◌else◌,
}
use sdk_windows.Wire.{read_u8, read_u16_le}
use sdk_windows.Boot.EfiVariable.{EfiVariableData, try_parse_efi_variable_data, efi_variable_name}

-- `ExtractEfiVariableName`, and `ExtractVarName` of secureboot_validator.cpp.
unfoldable pub name_of_parsed : Bytes → Option EfiVariableData → Outcome Text
name_of_parsed raw none = ok []
name_of_parsed raw (some var) = efi_variable_name raw var

unfoldable pub extract_efi_variable_name : Bytes → Outcome Text
unfolding name_of_parsed
extract_efi_variable_name raw = do
  parsed ← try_parse_efi_variable_data raw
  name_of_parsed raw parsed

-- One round of the loop in `ExtractBootAppPath`: it returns, or goes on with a new `result`.
pub data PathStep : Type 0 where
  found : Text → PathStep
  go_on : Text → PathStep

abbrev is_path_char : ℕ → Bool
is_path_char ch =
    ch == b'\\'
    || ch == b'/'
    || (leb b'A' ch && leb ch b'z')
    || ch == b'.'
    || ch == b'-'
    || ch == b'_'

is_whole_path : Text → Bool
is_whole_path result =
    ltb 4 (length result)
    && (contains result (codes ".efi")
        || contains result (codes ".EFI")
        || contains result (codes "\\"))

unfoldable pub path_step : ℕ → Text → PathStep
unfolding is_whole_path
path_step ch result =
    if is_path_char ch
    then go_on (if ltb ch 128 then result ++ ch ∷ [] else result)
    else if ch == 0 && not (is_empty result)
    then (if is_whole_path result then found result else go_on [])
    else go_on []

unfoldable pub path_loop : ℕ → Bytes → ℕ → Text → Outcome Text
path_loop zero raw i result = stuck
path_loop (suc fuel) raw i result =
    let round : Outcome Text = do
      ch ← read_u16_le raw i
      elim (path_step ch result) [
        | found path ↦ ok path
        | go_on next ↦ path_loop fuel raw (i + 2) next
      ]
    in if ltb (i + 1) (length raw)
      then round
      else ok (if is_empty result then codes "(binary device path)" else result)

unfoldable pub extract_boot_app_path : Bytes → Outcome Text
unfolding path_loop
extract_boot_app_path raw =
    if ltb (length raw) 32 then ok (codes "(unknown path)") else path_loop (length raw) raw 32 []

-- The loop over an EV_S_CRTM_VERSION string.
unfoldable pub version_loop : ℕ → Bytes → ℕ → Text → Outcome Text
version_loop zero raw i version = stuck
version_loop (suc fuel) raw i version =
    let round : Outcome Text = do
      ch ← read_u16_le raw i
      let rest = version_loop fuel raw (i + 2) (if ltb ch 128 then version ++ ch ∷ [] else version)
      if ch == 0 then ok version else rest
    in if ltb (i + 1) (length raw) then round else ok version

unfoldable pub crtm_version : Bytes → Outcome Text
unfolding version_loop
crtm_version raw = version_loop (suc (length raw)) raw 0 []

-- `IsSecureBootEnabled` once the record is parsed.
unfoldable pub enabled_of_parsed : Bytes → Option EfiVariableData → Outcome Bool
enabled_of_parsed raw none = ok false
enabled_of_parsed raw (some var) =
    if ltb var.data_bytes 1 then ok false else do b ← read_u8 raw var.contents; ok (b == 1)

unfoldable pub is_secure_boot_enabled : Text → Bytes → Outcome Bool
unfolding enabled_of_parsed
is_secure_boot_enabled name raw =
    if not (text_eq name (codes "SecureBoot"))
    then ok false
    else if ltb (length raw) 33
    then ok false
    else do parsed ← try_parse_efi_variable_data raw; enabled_of_parsed raw parsed
