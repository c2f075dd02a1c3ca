-- ===== src/Tpm.antt =====
-- TPM 2.0 commands over TBS (src/tpm/tpm_commands.cpp) and the attestation key's life cycle
-- (src/tpm/tbs_key_provider.cpp). The TPM behind TBS is the parameter `Tbs`: a state and a function
-- from a submitted command to its reply, with the TBS_RESULT of a new context and what closing one
-- does. `Marshal` builds the commands, `Commands`, `Activate` and
-- `Nv` send them and read the replies, `KeyProvider` is the class `TbsKeyProvider`.
pub mod Marshal
pub mod Replies
pub mod Commands
pub mod Activate
pub mod Nv
pub mod KeyProvider
pub mod Safety
pub mod Contexts
use sdk_windows.Prelude.{
  ℕ, ◌+◌, ◌%◌, ◌^◌, Bool, true, false, Bytes, Outcome, ok, fault, stuck, leb, ◌==◌, if◌then◌else◌,
}

-- `Tbsip_Submit_Command`: a TBS_RESULT other than TBS_SUCCESS, or the bytes of the response.
pub data Reply : Type 0 where
  refused : ℕ → Reply
  replied : Bytes → Reply

pub record Tbs : Type 1 where
  pub Device : Type 0
  pub submit : Device → Bytes → Reply × Device
  pub create_context : Device → ℕ × Device
  pub close_context : Device → Device

-- HRESULTs are their 32-bit patterns (internal/win_status.h).
abbrev pub s_ok : ℕ
s_ok = 0

abbrev pub e_fail : ℕ
e_fail = 0x80004005

abbrev pub rh_e_malformed_response : ℕ
rh_e_malformed_response = 0x8007000D

-- E_NOT_VALID_STATE.
abbrev pub rh_e_not_open : ℕ
rh_e_not_open = 0x8007139F

-- `FAILED(hr)`: the sign bit.
abbrev pub failed : ℕ → Bool
failed hr = leb (2 ^ 31) hr

unfoldable pub hr_from_tbs : ℕ → ℕ
hr_from_tbs result = result % 2 ^ 32

unfoldable pub hr_from_security_status : ℕ → ℕ
hr_from_security_status status = status % 2 ^ 32

-- The low half of 0x80290000 is zero, so that the code's `|` adds.
unfoldable pub hr_from_tpm_rc : ℕ → ℕ
hr_from_tpm_rc rc = if rc == 0 then s_ok else 0x80290000 + rc % 2 ^ 16

-- The return S_OK with the values of the out parameters, or another HRESULT; every out parameter is
-- then empty, or 0.
pub data Result {ℓ} (A : Type ℓ) : Type ℓ where
  success : A → Result A
  failure : ℕ → Result A

-- An object of class `TpmCommands`, with the TPM that its context reaches.
pub record Tpm (tbs : Tbs) : Type 0 where
  pub is_open : Bool
  pub device : tbs.Device

abbrev pub Run : Tbs → Type 0 → Type 0
Run tbs A = Tpm tbs → Outcome (Result A × Tpm tbs)

abbrev pub and_then :
    {tbs : Tbs} {A B : Type 0}
    → Outcome (Result A × Tpm tbs)
    → (A → Run tbs B)
    → Outcome (Result B × Tpm tbs)
and_then (ok (success a, t)) f = f a t
and_then (ok (failure hr, t)) f = ok (failure hr, t)
and_then fault f = fault
and_then stuck f = stuck

infixl 5 ◌>>=◌ ◌>>◌
abbrev pub ◌>>=◌ : {tbs : Tbs} {A B : Type 0} → Run tbs A → (A → Run tbs B) → Run tbs B
◌>>=◌ m f t = and_then (m t) f

abbrev pub ◌>>◌ : {tbs : Tbs} {B : Type 0} → Run tbs (Unit {0}) → Run tbs B → Run tbs B
m >> k = m >>= λ _. k

abbrev pub return : {tbs : Tbs} {A : Type 0} → A → Run tbs A
return a t = ok (success a, t)

abbrev pub throw : {tbs : Tbs} {A : Type 0} → ℕ → Run tbs A
throw hr t = ok (failure hr, t)

-- A read in a buffer, which changes no state.
abbrev pub lift : {tbs : Tbs} {A : Type 0} → Outcome A → Run tbs A
lift (ok a) t = ok (success a, t)
lift fault t = fault
lift stuck t = stuck

-- `if (bad) return hr;`
abbrev pub guard_not : {tbs : Tbs} → Bool → ℕ → Run tbs (Unit {0})
guard_not bad hr t = if bad then ok (failure hr, t) else ok (success tt, t)

-- `TpmCommands::Open`, with the TBS_RESULT of `Tbsip_Context_Create`, which gives no context where it
-- fails.
unfoldable pub opened : {tbs : Tbs} → ℕ × tbs.Device → ℕ × Tpm tbs
opened (result, d) =
    if result == 0
    then (s_ok, record { is_open = true; device = d })
    else (hr_from_tbs result, record { is_open = false; device = d })

unfoldable pub open_tpm : {tbs : Tbs} → Tpm tbs → ℕ × Tpm tbs
open_tpm {tbs} t = if t.is_open then (s_ok, t) else opened (tbs.create_context t.device)

-- `TpmCommands::Close`, and the destructor.
unfoldable pub close_tpm : {tbs : Tbs} → Tpm tbs → Tpm tbs
close_tpm {tbs} t =
    if t.is_open then record { is_open = Bool.false; device = tbs.close_context t.device } else t
