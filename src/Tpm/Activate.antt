-- ===== src/Tpm/Activate.antt =====
-- `TpmCommands::ActivateCredential` of src/tpm/tpm_commands.cpp.
pub mod Session
use sdk_windows.Prelude.{ℕ, ◌+◌, Bytes, length, Outcome, ok, fault, stuck, ltb, ◌==◌, if◌then◌else◌}
use sdk_windows.Wire.{read_u16, read_u32, slice}
use sdk_windows.Tpm.{
  Tbs, Tpm, Run, Result, success, failure, ◌>>=◌, ◌>>◌, lift, guard_not, rh_e_malformed_response,
}
use sdk_windows.Tpm.Marshal.{
  start_session_command, policy_secret_command, activate_command, tpm2_st_sessions,
}
use sdk_windows.Tpm.Commands.{transact, flush_context}

-- The tag tells where the session handle stands.
abbrev pub handle_offset : ℕ → ℕ
handle_offset tag = if tag == tpm2_st_sessions then 14 else 10

unfoldable pub start_session : {tbs : Tbs} → Run tbs ℕ
start_session = do
  resp ← transact 14 start_session_command
  tag ← lift (read_u16 resp 0)
  guard_not (ltb (length resp) (handle_offset tag + 4)) rh_e_malformed_response
  lift (read_u32 resp (handle_offset tag))

-- The policy, the activation and the secret, in the session.
unfoldable pub activate_in : {tbs : Tbs} → ℕ → ℕ → ℕ → Bytes → Bytes → Run tbs Bytes
activate_in session ak ek blob encrypted = do
  policy ← transact 10 (policy_secret_command session)
  resp ← transact 10 (activate_command session ak ek blob encrypted)
  guard_not (ltb (length resp) 16) rh_e_malformed_response
  param_size ← lift (read_u32 resp 10)
  guard_not (ltb param_size 2) rh_e_malformed_response
  secret_size ← lift (read_u16 resp 14)
  guard_not (ltb (length resp) (16 + secret_size)) rh_e_malformed_response
  lift (slice resp 16 secret_size)

-- A result kept across the flush.
unfoldable pub kept :
    {tbs : Tbs} → Result Bytes → Outcome (Result ℕ × Tpm tbs) → Outcome (Result Bytes × Tpm tbs)
kept r (ok (flushed, t)) = ok (r, t)
kept r fault = fault
kept r stuck = stuck

-- `if (sessionHandle) FlushContext(sessionHandle); return hr;`
unfoldable pub flush_after :
    {tbs : Tbs} → ℕ → Outcome (Result Bytes × Tpm tbs) → Outcome (Result Bytes × Tpm tbs)
unfolding kept
flush_after session (ok (r, t)) =
    if session == 0 then ok (r, t) else kept r (flush_context session t)
flush_after session fault = fault
flush_after session stuck = stuck

unfoldable pub activate_started :
    {tbs : Tbs}
    → ℕ
    → ℕ
    → Bytes
    → Bytes
    → Outcome (Result ℕ × Tpm tbs)
    → Outcome (Result Bytes × Tpm tbs)
activate_started ak ek blob encrypted (ok (success session, t)) =
    flush_after session (activate_in session ak ek blob encrypted t)
activate_started ak ek blob encrypted (ok (failure hr, t)) = ok (failure hr, t)
activate_started ak ek blob encrypted fault = fault
activate_started ak ek blob encrypted stuck = stuck

unfoldable pub activate_credential : {tbs : Tbs} → ℕ → ℕ → Bytes → Bytes → Run tbs Bytes
unfolding activate_started
activate_credential ak ek blob encrypted t = activate_started ak ek blob encrypted (start_session t)
