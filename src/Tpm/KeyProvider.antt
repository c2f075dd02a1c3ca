-- ===== src/Tpm/KeyProvider.antt =====
-- Class `TbsKeyProvider` of src/tpm/tbs_key_provider.cpp. A method returns its HRESULT and the
-- object's new state.
pub mod Handles
use sdk_windows.Prelude.{
  ℕ, Bool, true, ◌||◌, List, [], ◌∷◌, Bytes, is_empty, Outcome, ok, ◌>>=◌, ◌==◌, if◌then◌else◌,
}
use sdk_windows.Tpm.{
  Tbs, Tpm, Result, success, failure, failed, open_tpm, close_tpm, s_ok, e_fail, rh_e_not_open,
}
use sdk_windows.Tpm.Marshal.{tpm2_rh_owner}
use sdk_windows.Tpm.Commands.{
  flush_context, create_ek, create_and_load_ak, is_persistent_present, evict_control,
}
use sdk_windows.Tpm.Activate.{activate_credential}

pub record Provider (tbs : Tbs) : Type 0 where
  pub tpm : Tpm tbs
  pub persistent_handle : ℕ
  pub ek_handle : ℕ
  pub ak_handle : ℕ
  pub ak_public_area : Bytes

-- `(void)FlushContext(handle)`: the result is dropped.
unfoldable pub drop_handle : {tbs : Tbs} → ℕ → Provider tbs → Outcome (Provider tbs)
drop_handle handle p =
    if handle == 0
    then ok p
    else do (flushed, t) ← flush_context handle p.tpm; ok (record p { tpm = t })

unfoldable pub flush_transients : {tbs : Tbs} → Provider tbs → Outcome (Provider tbs)
flush_transients p = do
  p1 ← drop_handle p.ak_handle p
  let p2 = record p1 { ak_handle = 0 }
  p3 ← drop_handle p2.ek_handle p2
  ok (record p3 { ek_handle = 0 })

unfoldable pub close : {tbs : Tbs} → Provider tbs → Outcome (Provider tbs)
close p = do p' ← flush_transients p; ok (record p' { tpm = close_tpm p'.tpm })

-- `FAILED(hr) ? hr : E_FAIL`.
abbrev pub failing : ℕ → ℕ
failing hr = if failed hr then hr else e_fail

-- A new object over a TPM, with no context yet.
unfoldable pub new_provider : {tbs : Tbs} → ℕ → tbs.Device → Provider tbs
new_provider handle d = record {
  tpm = record { is_open = Bool.false; device = d };
  persistent_handle = handle;
  ek_handle = 0;
  ak_handle = 0;
  ak_public_area = [];
}

unfoldable pub open_provider : {tbs : Tbs} → Provider tbs → ℕ × Provider tbs
open_provider p = let (hr, t) = open_tpm p.tpm in (hr, record p { tpm = t })

-- Behind `CreateAndLoadAk`.
unfoldable pub keep_ak :
    {tbs : Tbs} → Provider tbs → Result (ℕ × Bytes) × Tpm tbs → Outcome (ℕ × Provider tbs)
keep_ak p (failure hr, t) = do
  p' ← flush_transients (record p { tpm = t; ak_handle = 0; ak_public_area = [] })
  ok (failing hr, p')
keep_ak p (success (handle, area), t) =
    let held = record p { tpm = t; ak_handle = handle; ak_public_area = area } in
    if handle == 0 || is_empty area
    then (do p' ← flush_transients held; ok (e_fail, p'))
    else ok (s_ok, held)

-- Behind `CreateEk`.
unfoldable pub keep_ek :
    {tbs : Tbs} → Provider tbs → Result ℕ × Tpm tbs → Outcome (ℕ × Provider tbs)
keep_ek p (failure hr, t) = ok (failing hr, record p { tpm = t; ek_handle = 0 })
keep_ek p (success handle, t) =
    if handle == 0 then ok (e_fail, record p { tpm = t; ek_handle = 0 }) else do
      made ← create_and_load_ak tpm2_rh_owner t
      keep_ak (record p { tpm = t; ek_handle = handle }) made

unfoldable pub create_ak : {tbs : Tbs} → Provider tbs → Outcome (ℕ × Provider tbs)
create_ak p = do
  p1 ← flush_transients p
  let p2 = record p1 { ak_public_area = [] }
  made ← create_ek p2.tpm
  keep_ek p2 made

status_of_present : Result Bool → ℕ
status_of_present (success present) = if present then s_ok else e_fail
status_of_present (failure hr) = e_fail

unfoldable pub load_ak : {tbs : Tbs} → Provider tbs → Outcome (ℕ × Provider tbs)
unfolding status_of_present
load_ak p = do
  (present, t) ← is_persistent_present p.persistent_handle p.tpm
  ok (status_of_present present, record p { tpm = t })

present_of : Result Bool → Bool
present_of (success present) = present
present_of (failure hr) = Bool.false

unfoldable pub ak_exists : {tbs : Tbs} → Provider tbs → Outcome (Bool × Provider tbs)
unfolding present_of
ak_exists p = do
  (present, t) ← is_persistent_present p.persistent_handle p.tpm
  ok (present_of present, record p { tpm = t })

unfoldable pub delete_ak : {tbs : Tbs} → Provider tbs → Outcome (ℕ × Provider tbs)
delete_ak p = do p' ← flush_transients p; ok (s_ok, p')

unfoldable pub activate :
    {tbs : Tbs} → Bytes → Bytes → Provider tbs → Outcome (Result Bytes × Provider tbs)
activate blob encrypted p =
    if p.ak_handle == 0 || p.ek_handle == 0 then ok (failure rh_e_not_open, p) else do
      (secret, t) ← activate_credential p.ak_handle p.ek_handle blob encrypted p.tpm
      ok (secret, record p { tpm = t })

-- Behind `EvictControl`.
unfoldable pub persisted :
    {tbs : Tbs} → Provider tbs → Result (Unit {0}) → Outcome (ℕ × Provider tbs)
persisted p (failure hr) = ok (hr, p)
persisted p (success done) = do p' ← flush_transients p; ok (s_ok, p')

unfoldable pub persist_ak : {tbs : Tbs} → Provider tbs → Outcome (ℕ × Provider tbs)
persist_ak p = if p.ak_handle == 0 then ok (rh_e_not_open, p) else do
  (evicted, t) ← evict_control p.ak_handle p.persistent_handle p.tpm
  persisted (record p { tpm = t }) evicted
