-- ===== src/Tpm/Commands/Errors.antt =====
-- The operations of `TpmCommands` (src/tpm/tpm_commands.cpp) on a TPM in failure mode, which answers
-- every command with one error.
use sdk_windows.Prelude.{
  ℕ, ◌<◌, ◌≡◌, ◌≢◌, refl, arith, true, false, List, [], ◌++◌, Bytes, ok, Returns, returns, ◌==◌,
}
use sdk_windows.Wire.{read_u32, write_u16, write_u32, u32_mod}
use sdk_windows.Wire.Reads.{read_u32-write_u32}
use sdk_windows.Tpm.{
  Tbs, Tpm, replied, Result, success, failure, rh_e_malformed_response, hr_from_tpm_rc,
}
use sdk_windows.Tpm.Marshal.{
  patch_size, read_public_command, pcr_read_command, quote_command, create_primary_command,
  tpm_rh_endorsement, write_ek_template, write_ak_template, evict_command,
}
use sdk_windows.Tpm.Commands.{
  answer, send_command, transact, pcr_read, quote, create_and_load_ak, create_ek, answers_success,
  is_persistent_present, clear_slot, evict_control,
}

-- An error response is a header: its tag, its size, and the response code.
abbrev pub error_reply : ℕ → Bytes
error_reply rc = write_u16 0x8001 ++ (write_u32 10 ++ write_u32 rc)

pub record IsRefusing (tbs : Tbs) (rc : ℕ) : Type 0 where
  pub rc_fits : rc < u32_mod
  pub rc_error : rc ≢ 0
  pub refusal :
      (d : tbs.Device) (cmd : Bytes)
      → (d' : tbs.Device) × (tbs.submit d cmd ≡ (replied (error_reply rc), d'))

abbrev pub FailsWith : {tbs : Tbs} {A : Type 0} → ℕ → Result A × Tpm tbs → Type 0
FailsWith hr out = out.0 ≡ failure hr

module _ {tbs : Tbs} {rc : ℕ} (refusing : IsRefusing tbs rc) (t : Tpm tbs)
    (h : t.is_open ≡ true) where
  code_read : read_u32 (error_reply rc) 6 ≡ ok rc
  unfolding write_u16 write_u32
  code_read = read_u32-write_u32 (error_reply rc) 6 rc [] refl refusing.rc_fits

  transact-code :
      (cmd : Bytes) → (t' : Tpm tbs) × (transact 10 cmd t ≡ ok (failure (hr_from_tpm_rc rc), t'))
  unfolding transact send_command answer write_u16 write_u32
  transact-code cmd =
      let (d, sent) = refusing.refusal t.device (patch_size cmd) in
      let bad : (rc == 0) ≡ false = let e = refusing.rc_error in ground arith in
      (record { is_open = true; device = d }, rw (h, sent, code_read, bad) refl)

  transact-short :
      (cmd : Bytes)
      → (t' : Tpm tbs) × (transact 14 cmd t ≡ ok (failure rh_e_malformed_response, t'))
  unfolding transact send_command answer write_u16 write_u32
  transact-short cmd =
      let (d, sent) = refusing.refusal t.device (patch_size cmd) in
      (record { is_open = true; device = d }, rw (h, sent) refl)

  pcr_read-Fails : (index : ℕ) → Returns (FailsWith (hr_from_tpm_rc rc)) (pcr_read index t)
  unfolding pcr_read
  pcr_read-Fails index = let (t', e) = transact-code (pcr_read_command index) in rw e (returns refl)

  quote-Fails :
      (ak : ℕ) (nonce : Bytes) (pcrs : List ℕ)
      → Returns (FailsWith (hr_from_tpm_rc rc)) (quote ak nonce pcrs t)
  unfolding quote
  quote-Fails ak nonce pcrs =
      let (t', e) = transact-code (quote_command ak nonce pcrs) in rw e (returns refl)

  create_ek-Fails : Returns (FailsWith rh_e_malformed_response) (create_ek t)
  unfolding create_ek
  create_ek-Fails =
      let (t', e) = transact-short (create_primary_command tpm_rh_endorsement write_ek_template) in
      rw e (returns refl)

  create_and_load_ak-Fails :
      (parent : ℕ) → Returns (FailsWith rh_e_malformed_response) (create_and_load_ak parent t)
  unfolding create_and_load_ak
  create_and_load_ak-Fails parent =
      let (t', e) = transact-short (create_primary_command parent write_ak_template) in
      rw e (returns refl)

  is_persistent_present-absent :
      (handle : ℕ)
      → (t' : Tpm tbs) × (is_persistent_present handle t ≡ ok (success false, t'))
        × (t'.is_open ≡ true)
  unfolding is_persistent_present answers_success send_command answer write_u16 write_u32
  is_persistent_present-absent handle =
      let (d, sent) = refusing.refusal t.device (patch_size (read_public_command handle)) in
      let bad : (rc == 0) ≡ false = let e = refusing.rc_error in ground arith in
      (record { is_open = true; device = d }, rw (h, sent, code_read, bad) refl, refl)

evict_control-Fails :
    {tbs : Tbs} {rc : ℕ} (refusing : IsRefusing tbs rc) (t : Tpm tbs)
    → t.is_open ≡ true
    → (transient persistent : ℕ)
    → Returns (FailsWith (hr_from_tpm_rc rc)) (evict_control transient persistent t)
unfolding evict_control clear_slot
evict_control-Fails refusing t h transient persistent =
    let (t1, absent, h1) = is_persistent_present-absent refusing t h persistent in
    let (t2, e) = transact-code refusing t1 h1 (evict_command transient persistent) in
    rw (absent, e) (returns refl)

-- What each operation returns for the error `rc`.
pub record AllFail {tbs : Tbs} (rc : ℕ) (t : Tpm tbs) : Type 0 where
  pub pcr_read_fails : (index : ℕ) → Returns (FailsWith (hr_from_tpm_rc rc)) (pcr_read index t)
  pub quote_fails :
      (ak : ℕ) (nonce : Bytes) (pcrs : List ℕ)
      → Returns (FailsWith (hr_from_tpm_rc rc)) (quote ak nonce pcrs t)
  pub evict_control_fails :
      (transient persistent : ℕ)
      → Returns (FailsWith (hr_from_tpm_rc rc)) (evict_control transient persistent t)
  pub create_ek_fails : Returns (FailsWith rh_e_malformed_response) (create_ek t)
  pub create_and_load_ak_fails :
      (parent : ℕ) → Returns (FailsWith rh_e_malformed_response) (create_and_load_ak parent t)

-- On a TPM that answers every command with the error `rc`, in a response of 10 bytes, `PcrRead`,
-- `Quote` and `EvictControl` return the HRESULT of `rc`; `CreateEk` and `CreateAndLoadAk` do not:
-- they return RH_E_MALFORMED_RESPONSE, whatever `rc` is.
pub operations-AllFail :
    (tbs : Tbs) (rc : ℕ) (t : Tpm tbs) → IsRefusing tbs rc → t.is_open ≡ true → AllFail rc t
operations-AllFail tbs rc t refusing h = record {
  pcr_read_fails = pcr_read-Fails refusing t h;
  quote_fails = quote-Fails refusing t h;
  evict_control_fails = evict_control-Fails refusing t h;
  create_ek_fails = create_ek-Fails refusing t h;
  create_and_load_ak_fails = create_and_load_ak-Fails refusing t h;
}
