-- ===== src/Tpm/Nv/Der.antt =====
-- The readers of NV responses and of DER lengths (src/tpm/tpm_commands.cpp).
use sdk_windows.Prelude.{
  ℕ, zero, suc, ◌+◌, ◌*◌, ◌/◌, ◌%◌, ◌||◌, not, Bytes, length, Outcome, ok, ◌>>=◌, ltb, leb, ◌==◌,
  if◌then◌else◌,
}
use sdk_windows.Wire.{read_u8, read_u16, slice}
use sdk_windows.Tpm.{Result, success, failure, rh_e_malformed_response}

-- The dataSize of TPMS_NV_PUBLIC, behind nvIndex(4) nameAlg(2) attributes(4) authPolicy(TPM2B).
unfoldable pub parse_nv_public : Bytes → Outcome (Result ℕ)
parse_nv_public resp = if ltb (length resp) 12 then ok (failure rh_e_malformed_response) else do
  public_size ← read_u16 resp 10
  if ltb (length resp) (12 + public_size) || ltb (length resp) 24
      then ok (failure rh_e_malformed_response)
      else do
        policy_size ← read_u16 resp 22
        if ltb (length resp) (24 + policy_size + 2)
            then ok (failure rh_e_malformed_response)
            else do
              data_size ← read_u16 resp (24 + policy_size)
              if data_size == 0
                  then ok (failure rh_e_malformed_response)
                  else ok (success data_size)

-- TPM2B_MAX_NV_BUFFER, behind header(10) and parameterSize(4).
unfoldable pub parse_nv_buffer : Bytes → Outcome (Result Bytes)
parse_nv_buffer resp = if ltb (length resp) 16 then ok (failure rh_e_malformed_response) else do
  got ← read_u16 resp 14
  if got == 0 || ltb (length resp) (16 + got)
      then ok (failure rh_e_malformed_response)
      else (do contents ← slice resp 16 got; ok (success contents))

-- `length = (length << 8) | data[i]` over the length bytes.
unfoldable pub long_length : ℕ → Bytes → ℕ → ℕ → Outcome ℕ
long_length zero stream at total = ok total
long_length (suc n) stream at total = do
  b ← read_u8 stream at
  long_length n stream (at + 1) (total * 256 + b)

abbrev fitting : Bytes → ℕ → ℕ → ℕ
fitting stream offset total = if leb (offset + total) (length stream) then total else 0

unfoldable pub long_form : Bytes → ℕ → ℕ → Outcome ℕ
long_form stream offset n =
    if n == 0 || ltb 4 n
    then ok 0
    else if ltb (length stream) (offset + 2 + n)
    then ok 0
    else do size ← long_length n stream (offset + 2) 0; ok (fitting stream offset (2 + n + size))

-- 0 where no well-formed SEQUENCE that fits starts at `offset`. The bit 0x80 of the length byte is
-- read by division.
unfoldable pub der_object_size : Bytes → ℕ → Outcome ℕ
unfolding long_form
der_object_size stream offset = if ltb (length stream) (offset + 2) then ok 0 else do
  tag ← read_u8 stream offset
  length_byte ← read_u8 stream (offset + 1)
  if not (tag == 0x30)
      then ok 0
      else if length_byte / 128 % 2 == 0
      then ok (fitting stream offset (2 + length_byte))
      else long_form stream offset (length_byte % 128)
