-- ===== src/Client/Enroll.antt =====
-- `RootHeraldEnrollBegin` and `RootHeraldEnrollComplete` of src/client/rootherald_win.cpp, with
-- `g_enrollProvider`, the provider that is held between the two. All contexts of the process reach
-- one TPM, whose state is the field `device`; the copy in a held provider is out of date until
-- `attach`.
pub mod Phases
pub mod Requests
use sdk_windows.Prelude.{
  ℕ, suc, Bool, true, false, not, ◌||◌, List, [], ◌∷◌, ◌++◌, Bytes, Text, codes, is_empty, length,
  Option, none, some, Outcome, ok, ◌>>=◌, ◌==◌, if◌then◌else◌,
}
use sdk_windows.Json.{json_build, json_get}
use sdk_windows.Tpm.{Tbs, Tpm, Result, success, failure, failed}
use sdk_windows.Tpm.KeyProvider.{
  Provider, new_provider, open_provider, close, create_ak, delete_ak, activate, persist_ak,
}
use sdk_windows.Windows.{Windows}
use sdk_windows.Windows.Base64.{base64_encode, base64_decode}
use sdk_windows.Client.Status.{
  RootHeraldStatus, success_status, invalid_arg, tpm_unavailable, not_enrolled, elevation_required,
  ek_read_failed, ak_failed, activation_failed, internal, Answer,
}
use sdk_windows.Client.Fields.{fields_of}
use sdk_windows.Client.Gather.{EkEnrollData, gather_ek_enroll_data, build_enroll_fields}

abbrev pub tbs_ak_persistent_handle : ℕ
tbs_ak_persistent_handle = 0x81029301

pub record State (tbs : Tbs) : Type 0 where
  pub device : tbs.Device
  pub enroll_provider : Option (Provider tbs)

abbrev pub Call : Tbs → Type 0
Call tbs = Outcome (Answer × State tbs)

unfoldable pub is_process_elevated : Windows → Bool
is_process_elevated w =
    if not w.token_opens then false else elim w.elevation [ none ↦ false | some e ↦ not (e == 0) ]

-- The `malloc` of the text and its terminator.
unfoldable pub allocated : Windows → Text → Bool
allocated w json = w.allocates (suc (length json))

abbrev pub attach : {tbs : Tbs} → tbs.Device → Provider tbs → Provider tbs
attach d p = record p { tpm = record p.tpm { device = d } }

-- The destructor of a provider that the code drops.
unfoldable pub discard : {tbs : Tbs} → Provider tbs → Outcome tbs.Device
discard p = do p' ← close p; ok p'.tpm.device

-- A return that drops the new provider and leaves the held one.
unfoldable pub fail_begin :
    {tbs : Tbs} → RootHeraldStatus → Option (Provider tbs) → Provider tbs → Call tbs
fail_begin status held p = do
  d ← discard p
  ok ((status, none), record { device = d; enroll_provider = held })

-- `DeleteAk` ahead of such a return.
unfoldable pub delete_and_fail :
    {tbs : Tbs} → RootHeraldStatus → Option (Provider tbs) → Provider tbs → Call tbs
unfolding fail_begin
delete_and_fail status held p = do (hr, p') ← delete_ak p; fail_begin status held p'

-- `g_enrollProvider = std::move(provider)`: a provider that was held is destroyed.
unfoldable pub replace_held :
    {tbs : Tbs} → Option (Provider tbs) → Provider tbs → Outcome (State tbs)
replace_held none p = ok (record { device = p.tpm.device; enroll_provider = some p })
replace_held (some old) p = do
  d ← discard (attach p.tpm.device old)
  ok (record { device = d; enroll_provider = some p })

unfoldable pub begin_created :
    {tbs : Tbs} → Windows → Option (Provider tbs) → EkEnrollData → ℕ → Provider tbs → Call tbs
unfolding delete_and_fail
begin_created w held ek hr p =
    let json = json_build (build_enroll_fields w.base64 ek p.ak_public_area) in
    if failed hr
    then fail_begin ak_failed held p
    else if is_empty p.ak_public_area
    then delete_and_fail ak_failed held p
    else if not (allocated w json)
    then delete_and_fail internal held p
    else (do s ← replace_held held p; ok ((success_status, some json), s))

unfoldable pub begin_opened :
    {tbs : Tbs} → Windows → Option (Provider tbs) → EkEnrollData → ℕ × Provider tbs → Call tbs
begin_opened w held ek (hr, p) =
    if failed hr
    then fail_begin tpm_unavailable held p
    else do (made, p') ← create_ak p; begin_created w held ek made p'

unfoldable pub begin_gathered :
    {tbs : Tbs} → Windows → Option (Provider tbs) → Option EkEnrollData × tbs.Device → Call tbs
begin_gathered w held (none, d) =
    ok ((ek_read_failed, none), record { device = d; enroll_provider = held })
begin_gathered w held (some ek, d) =
    begin_opened w held ek (open_provider (new_provider tbs_ak_persistent_handle d))

unfoldable pub enroll_begin : {tbs : Tbs} → ℕ → Windows → State tbs → Call tbs
enroll_begin {tbs} fuel w s =
    if not (is_process_elevated w) then ok ((elevation_required, none), s) else do
      gathered ← gather_ek_enroll_data tbs fuel w s.device
      begin_gathered w s.enroll_provider gathered

-- `g_enrollProvider.reset()` and the return.
unfoldable pub end_enrollment : {tbs : Tbs} → Answer → Provider tbs → Call tbs
end_enrollment answer p = do
  d ← discard p
  ok (answer, record { device = d; enroll_provider = none })

unfoldable pub activation_json : Windows → Text → Bytes → Text
activation_json w device_id secret = json_build (
    fields_of (
      (codes "deviceId", device_id)
      ∷ (codes "decryptedSecret", base64_encode w.base64 secret)
      ∷ []))

unfoldable pub activation_answer : Windows → Text → Bytes → Answer
activation_answer w device_id secret =
    let json = activation_json w device_id secret in
    if not (allocated w json) then (internal, none) else (success_status, some json)

-- Behind `PersistAk`.
unfoldable pub complete_persisted :
    {tbs : Tbs} → Windows → Text → Bytes → ℕ × Provider tbs → Call tbs
complete_persisted w device_id secret (hr, p) =
    if failed hr
    then end_enrollment (ak_failed, none) p
    else end_enrollment (activation_answer w device_id secret) p

-- Behind `ActivateCredential`.
unfoldable pub complete_activated :
    {tbs : Tbs} → Windows → Text → Result Bytes × Provider tbs → Call tbs
complete_activated w device_id (success (b ∷ bs), p) = do
  persisted ← persist_ak p
  complete_persisted w device_id (b ∷ bs) persisted
complete_activated w device_id (_, p) = do
  (hr, p') ← delete_ak p
  end_enrollment (activation_failed, none) p'

unfoldable pub complete_held : {tbs : Tbs} → Windows → Text → State tbs → Provider tbs → Call tbs
complete_held w challenge s p =
    let device_id = json_get challenge (codes "deviceId") in
    let blob = json_get challenge (codes "credentialBlob") in
    let encrypted = json_get challenge (codes "encryptedSecret") in
    if is_empty device_id || is_empty blob || is_empty encrypted
    then ok ((invalid_arg, none), s)
    else do
      activated ←
          activate (base64_decode w.base64 blob) (base64_decode w.base64 encrypted)
            (attach s.device p)
      complete_activated w device_id activated

unfoldable pub enroll_complete : {tbs : Tbs} → Windows → Text → State tbs → Call tbs
enroll_complete w challenge s = elim s.enroll_provider [
  | none ↦ ok ((not_enrolled, none), s)
  | some p ↦ complete_held w challenge s p
]
