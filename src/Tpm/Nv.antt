-- ===== src/Tpm/Nv.antt =====
-- `ReadNvData`, `DerObjectSize` and `ReadIntelOdcaIntermediates` of src/tpm/tpm_commands.cpp. The
-- NV loop runs on fuel, a round for each value of its 16-bit offset.
pub mod Der
pub mod Cut
pub mod Formats
pub mod Contents
pub mod Slots
pub mod Safety
use sdk_windows.Prelude.{
  ℕ, zero, suc, ◌+◌, ◌-◌, ◌%◌, ◌^◌, Bool, true, false, ◌||◌, List, [], ◌∷◌, ◌++◌, Bytes, is_empty,
  length, Outcome, ok, fault, stuck, ltb, leb, ◌==◌, if◌then◌else◌,
}
use sdk_windows.Prelude
use sdk_windows.Wire.{u16_mod}
use sdk_windows.Tpm.{
  Tbs, Tpm, Run, Result, success, failure, ◌>>=◌, return, throw, rh_e_malformed_response,
}
use sdk_windows.Tpm.Marshal.{nv_read_public_command, nv_read_command}
use sdk_windows.Tpm.Commands.{transact, parsed}
use Der.{parse_nv_public, parse_nv_buffer}
use Cut.{cut_chain}

abbrev pub chunk : ℕ
chunk = 1024

-- How much the next TPM2_NV_Read asks for.
abbrev pub want_of : ℕ → ℕ → ℕ
want_of data_size offset =
    if ltb chunk (data_size - offset) then chunk else (data_size - offset) % u16_mod

unfoldable pub read_chunk : {tbs : Tbs} → ℕ → ℕ → ℕ → Run tbs Bytes
read_chunk index want offset = do
  resp ← transact 10 (nv_read_command index want offset)
  parsed (parse_nv_buffer resp)

unfoldable pub finish : {tbs : Tbs} → Bytes → Run tbs Bytes
finish [] = throw rh_e_malformed_response
finish (b ∷ bs) = return (b ∷ bs)

-- A failed chunk clears the data.
unfoldable pub nv_loop : {tbs : Tbs} → ℕ → ℕ → ℕ → ℕ → Bytes → Run tbs Bytes
unfolding finish
nv_loop zero index data_size offset contents = λ t. stuck
nv_loop (suc fuel) index data_size offset contents =
    let round = do
      got ← read_chunk index (want_of data_size offset) offset
      nv_loop fuel index data_size ((offset + length got) % u16_mod) (contents ++ got)
    in if ltb offset data_size then round else finish contents

unfoldable pub read_nv_data : {tbs : Tbs} → ℕ → ℕ → Run tbs Bytes
read_nv_data fuel index = do
  resp ← transact 10 (nv_read_public_command index)
  data_size ← parsed (parse_nv_public resp)
  nv_loop fuel index data_size 0 []

-- One slot's result: a failed or empty read adds nothing.
abbrev slot_bytes : Result Bytes → Bytes
slot_bytes (success contents) = contents
slot_bytes (failure hr) = []

unfoldable pub collect_slots : {tbs : Tbs} → ℕ → ℕ → Bytes → Tpm tbs → Outcome (Bytes × Tpm tbs)
collect_slots zero i stream t = ok (stream, t)
collect_slots (suc n) i stream t =
    Prelude.◌>>=◌ (read_nv_data u16_mod (0x01C00100 + i) t)
      (λ (r, t'). collect_slots n (i + 1) (stream ++ slot_bytes r) t')

unfoldable pub read_intel_odca_intermediates :
    {tbs : Tbs} → List Bytes → Tpm tbs → Outcome (List Bytes × Tpm tbs)
read_intel_odca_intermediates certificates t =
    Prelude.◌>>=◌ (collect_slots 16 0 [] t)
      (λ (stream, t'). Prelude.◌>>=◌ (cut_chain 9 stream 0 certificates) (λ cut. ok (cut, t')))
