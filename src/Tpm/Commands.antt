-- ===== src/Tpm/Commands.antt =====
-- The operations of class `TpmCommands` (src/tpm/tpm_commands.cpp) but for the activation and the NV
-- reads. An operation runs on the object's state and returns it with its result.
pub mod Errors
use sdk_windows.Prelude.{
  ℕ, Bool, true, false, not, List, [], Bytes, length, Outcome, ok, ltb, ◌==◌, ◌||◌, fault, stuck,
  if◌then◌else◌,
}
use sdk_windows.Wire.{read_u32}
use sdk_windows.Tpm.{
  Reply, refused, replied, Tbs, Tpm, Run, Result, success, failure, ◌>>=◌, ◌>>◌, return, lift,
  guard_not, failed, s_ok, rh_e_malformed_response, rh_e_not_open, hr_from_tbs, hr_from_tpm_rc,
}
use sdk_windows.Tpm.Replies.{parse_pcr_read, parse_quote, parse_public_area}
use sdk_windows.Tpm.Marshal.{
  patch_size, pcr_read_command, quote_command, flush_command, create_primary_command,
  write_ak_template, write_ek_template, read_public_command, evict_command, tpm_rh_endorsement,
}

-- The HRESULT of `SendCommand` and the response that it leaves.
unfoldable pub answer : {tbs : Tbs} → Reply × tbs.Device → Outcome (Result (ℕ × Bytes) × Tpm tbs)
answer (refused result, d) =
    ok (success (hr_from_tbs result, []), record { is_open = true; device = d })
answer (replied response, d) = ok (success (s_ok, response), record { is_open = true; device = d })

unfoldable pub send_command : {tbs : Tbs} → Bytes → Run tbs (ℕ × Bytes)
unfolding answer
send_command {tbs} cmd t =
    if not t.is_open
    then ok (success (rh_e_not_open, []), t)
    else answer (tbs.submit t.device (patch_size cmd))

-- What the operations do first: submit, and check HRESULT, length and response code.
unfoldable pub transact : {tbs : Tbs} → ℕ → Bytes → Run tbs Bytes
transact min cmd = do
  (hr, resp) ← send_command cmd
  guard_not (failed hr) hr
  guard_not (ltb (length resp) min) rh_e_malformed_response
  rc ← lift (read_u32 resp 6)
  guard_not (not (rc == 0)) (hr_from_tpm_rc rc)
  return resp

unfoldable pub flush_context : {tbs : Tbs} → ℕ → Run tbs ℕ
flush_context handle = do (hr, resp) ← send_command (flush_command handle); return hr

abbrev pub parsed : {tbs : Tbs} {A : Type 0} → Outcome (Result A) → Run tbs A
parsed (ok (success a)) t = ok (success a, t)
parsed (ok (failure hr)) t = ok (failure hr, t)
parsed fault t = fault
parsed stuck t = stuck

unfoldable pub pcr_read : {tbs : Tbs} → ℕ → Run tbs Bytes
pcr_read index = do resp ← transact 10 (pcr_read_command index); parsed (parse_pcr_read resp)

unfoldable pub quote : {tbs : Tbs} → ℕ → Bytes → List ℕ → Run tbs (Bytes × Bytes)
quote ak nonce pcrs = do resp ← transact 10 (quote_command ak nonce pcrs); parsed (parse_quote resp)

-- The handle and the public area.
unfoldable pub create_and_load_ak : {tbs : Tbs} → ℕ → Run tbs (ℕ × Bytes)
create_and_load_ak parent = do
  resp ← transact 14 (create_primary_command parent write_ak_template)
  handle ← lift (read_u32 resp 10)
  area ← lift (parse_public_area resp)
  return (handle, area)

unfoldable pub create_ek : {tbs : Tbs} → Run tbs ℕ
create_ek = do
  resp ← transact 14 (create_primary_command tpm_rh_endorsement write_ek_template)
  lift (read_u32 resp 10)

unfoldable pub answers_success : {tbs : Tbs} → ℕ → Bytes → Run tbs Bool
answers_success hr resp =
    if failed hr || ltb (length resp) 10
    then return false
    else do rc ← lift (read_u32 resp 6); return (rc == 0)

unfoldable pub is_persistent_present : {tbs : Tbs} → ℕ → Run tbs Bool
unfolding answers_success
is_persistent_present handle = do
  (hr, resp) ← send_command (read_public_command handle)
  answers_success hr resp

-- An occupied slot is cleared first.
unfoldable pub clear_slot : {tbs : Tbs} → Bool → ℕ → Run tbs (Unit {0})
clear_slot present persistent =
    if present
    then (do resp ← transact 10 (evict_command persistent persistent); return tt)
    else return tt

unfoldable pub evict_control : {tbs : Tbs} → ℕ → ℕ → Run tbs (Unit {0})
unfolding clear_slot
evict_control transient persistent = do
  present ← is_persistent_present persistent
  clear_slot present persistent
  resp ← transact 10 (evict_command transient persistent)
  return tt
