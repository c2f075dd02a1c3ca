-- ===== src/Tpm/Replies.antt =====
-- The readers of the responses of TPM2_PCR_Read, TPM2_Quote and TPM2_CreatePrimary
-- (src/tpm/tpm_commands.cpp), behind the check of the response code. Offsets are from the start of
-- the response, whose length is at most that of a vector, so that their sums do not wrap.
use sdk_windows.Prelude.{
  ℕ, zero, suc, ◌+◌, ◌&&◌, [], Bytes, length, drop, Option, none, some, Outcome, ok, ◌>>=◌, ltb,
  leb, if◌then◌else◌,
}
use sdk_windows.Wire.{read_u8, read_u16, read_u32, slice}
use sdk_windows.Tpm.{Result, success, failure, rh_e_malformed_response}

-- The loop over the returned TPML_PCR_SELECTION: the offset behind it, or a reply too short.
unfoldable pub skip_selections : ℕ → Bytes → ℕ → Outcome (Option ℕ)
skip_selections zero resp offset = ok (some offset)
skip_selections (suc count) resp offset =
    let round : Outcome (Option ℕ) = do
      select_size ← read_u8 resp (offset + 2)
      skip_selections count resp (offset + 2 + (1 + select_size))
    in if leb (length resp) (offset + 2) then ok none else round

-- The first digest of the TPML_DIGEST at `offset`.
unfoldable pub parse_digest : Bytes → ℕ → Outcome (Result Bytes)
parse_digest resp offset =
    if ltb (length resp) (offset + 4) then ok (failure rh_e_malformed_response) else do
      count ← read_u32 resp offset
      if ltb 0 count && leb (offset + 6) (length resp)
          then (do
            size ← read_u16 resp (offset + 4)
            if leb (offset + 6 + size) (length resp)
                then (do digest ← slice resp (offset + 6) size; ok (success digest))
                else ok (failure rh_e_malformed_response))
          else ok (failure rh_e_malformed_response)

unfoldable pub digest_behind : Bytes → Option ℕ → Outcome (Result Bytes)
digest_behind resp none = ok (failure rh_e_malformed_response)
digest_behind resp (some offset) = parse_digest resp offset

unfoldable pub parse_pcr_read : Bytes → Outcome (Result Bytes)
parse_pcr_read resp = if ltb (length resp) 18 then ok (failure rh_e_malformed_response) else do
  count ← read_u32 resp 14
  behind ← skip_selections count resp 18
  digest_behind resp behind

-- TPM2B_ATTEST, and the signature as the remainder.
unfoldable pub parse_quote : Bytes → Outcome (Result (Bytes × Bytes))
parse_quote resp =
    if ltb (length resp) 14
    then ok (failure rh_e_malformed_response)
    else if ltb (length resp) 16
    then ok (failure rh_e_malformed_response)
    else do
      size ← read_u16 resp 14
      if ltb (length resp) (16 + size)
          then ok (failure rh_e_malformed_response)
          else do quoted ← slice resp 16 size; ok (success (quoted, drop (16 + size) resp))

-- The TPM2B_PUBLIC, empty where the response does not hold one.
unfoldable pub parse_public_area : Bytes → Outcome Bytes
parse_public_area resp = if ltb (length resp) 20 then ok [] else do
  param_size ← read_u32 resp 14
  if ltb 0 param_size && leb (18 + param_size) (length resp)
      then (do
        pub_size ← read_u16 resp 18
        if ltb 0 pub_size && leb (20 + pub_size) (length resp)
            then slice resp 18 (2 + pub_size)
            else ok [])
      else ok []
