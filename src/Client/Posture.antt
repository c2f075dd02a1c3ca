-- ===== src/Client/Posture.antt =====
-- `IsAkPersisted` and `RootHeraldCollectLocalPosture` of src/client/rootherald_win.cpp, and
-- `RootHeraldPosture` of common/rootherald.h.
pub mod Readiness
use sdk_windows.Prelude.{
  ℕ, suc, ◌-◌, ◌%◌, ◌^◌, Bool, true, false, not, List, [], ◌∷◌, ◌++◌, Bytes, Text, codes, is_empty,
  take, length, to_string, Outcome, ok, ◌>>=◌, ltb, ◌==◌, if◌then◌else◌,
}
use sdk_windows.Json.{json_build}
use sdk_windows.Boot.EventLog.{EventLogAnalysis}
use sdk_windows.Boot.EventLog.Analysis.{parse_and_analyze_event_log}
use sdk_windows.Boot.SecureBoot.{SecureBootChainReport}
use sdk_windows.Boot.SecureBoot.Chain.{validate_secure_boot_chain}
use sdk_windows.Tpm.{Tbs, failed}
use sdk_windows.Tpm.KeyProvider.{Provider, new_provider, open_provider, ak_exists}
use sdk_windows.Windows.{Windows}
use sdk_windows.Windows.Pcp.{is_available}
use sdk_windows.Windows.Logs.{read_event_log}
use sdk_windows.Certs.Store.{read_ek_cert_from_windows_store}
use sdk_windows.Client.Fields.{Fields, fields_of, put_all, put_field}
use sdk_windows.Client.DeviceId.{derive_local_device_id}
use sdk_windows.Client.Enroll.{tbs_ak_persistent_handle, discard}
use sdk_windows.Client.Evidence.{bool_text}

-- An `int`: a number, or -1 - n.
pub data ℤ : Type 0 where
  pos : ℕ → ℤ
  negsuc : ℕ → ℤ

abbrev pub minus_one : ℤ
minus_one = negsuc 0

abbrev pub int_of_bool : Bool → ℤ
int_of_bool b = if b then pos 1 else pos 0

-- The cast of a size.
abbrev pub int_of_size : ℕ → ℤ
int_of_size n =
    if ltb (n % 2 ^ 32) (2 ^ 31) then pos (n % 2 ^ 32) else negsuc (2 ^ 32 - 1 - n % 2 ^ 32)

-- The text up to its first NUL.
unfoldable pub c_string : Text → Text
c_string [] = []
c_string (c ∷ cs) = let rest = c_string cs in if c == 0 then [] else c ∷ rest

-- `strncpy_s(field, text, _TRUNCATE)` into a field of `size` bytes.
unfoldable pub copied : ℕ → Text → Text
copied size text = take (size - 1) (c_string text)

pub record RootHeraldPosture : Type 0 where
  pub has_tpm : ℤ
  pub is_enrolled : ℤ
  pub ek_cert_present : ℤ
  pub secure_boot : ℤ
  pub oem_keyed : ℤ
  pub oem_name : Text
  pub boot_log_measurements : ℤ
  pub boot_log_revoked : ℤ
  pub device_id : Text
  pub platform_name : Text
  pub detail_json : Text

-- After the `memset`.
abbrev pub zero_posture : RootHeraldPosture
zero_posture = record {
  has_tpm = pos 0;
  is_enrolled = pos 0;
  ek_cert_present = pos 0;
  secure_boot = pos 0;
  oem_keyed = pos 0;
  oem_name = [];
  boot_log_measurements = pos 0;
  boot_log_revoked = pos 0;
  device_id = [];
  platform_name = [];
  detail_json = [];
}

unfoldable pub ak_persisted_in : {tbs : Tbs} → ℕ × Provider tbs → Outcome (Bool × tbs.Device)
ak_persisted_in (hr, p) =
    if failed hr
    then (do d ← discard p; ok (false, d))
    else do (exists, p') ← ak_exists p; d ← discard p'; ok (exists, d)

unfoldable pub is_ak_persisted : (tbs : Tbs) → tbs.Device → Outcome (Bool × tbs.Device)
is_ak_persisted tbs d =
    ak_persisted_in {tbs = tbs} (open_provider (new_provider tbs_ak_persistent_handle d))

unfoldable pub local_device_id : ℕ → Windows → Bool → Outcome Text
local_device_id fuel w has_tpm =
    if has_tpm then (do id ← derive_local_device_id fuel w; ok (copied 129 id)) else ok []

-- The first fields of the detail.
unfoldable pub ready_fields : RootHeraldPosture → Bool → Bool → Bool → Fields
ready_fields p has_tpm enrolled ek_cert = fields_of (
    (codes "hasTpm", bool_text has_tpm)
    ∷ (codes "isEnrolled", bool_text enrolled)
    ∷ (codes "ekCertPresent", bool_text ek_cert)
    ∷ (codes "deviceId", p.device_id)
    ∷ (codes "platform", codes "windows")
    ∷ [])

unfoldable pub boot_fields : SecureBootChainReport → EventLogAnalysis → Fields → Fields
boot_fields report analysis fields =
    put_all
      ((codes "secureBootEnabled", bool_text report.secure_boot_enabled)
        ∷ (codes "pkIsKnownOem", bool_text report.pk_is_known_oem)
        ∷ (codes "pkOemName", report.pk_oem_name)
        ∷ (codes "kekHasMicrosoft", bool_text report.kek_has_microsoft)
        ∷ (codes "dbxHashCount", to_string report.dbx_hash_count)
        ∷ (codes "totalMeasurements", to_string (length analysis.entries))
        ∷ (codes "verifiedCount", to_string analysis.verified_count)
        ∷ (codes "unknownCount", to_string analysis.unknown_count)
        ∷ (codes "verdict", report.verdict)
        ∷ [])
      fields

-- The part that the log decides.
unfoldable pub note_log :
    Windows → Bytes → RootHeraldPosture × Fields → Outcome (RootHeraldPosture × Fields)
note_log w [] (p, fields) = ok (p, put_field (codes "eventLog") (codes "unavailable") fields)
note_log w (b ∷ bs) (p, fields) = do
  report ← validate_secure_boot_chain w.certs (b ∷ bs)
  analysis ← parse_and_analyze_event_log (b ∷ bs)
  ok (
    record p {
      secure_boot = int_of_bool report.secure_boot_enabled;
      oem_keyed = int_of_bool report.pk_is_known_oem;
      oem_name = copied 64 report.pk_oem_name;
      boot_log_measurements = int_of_size (length analysis.entries);
    },
    boot_fields report analysis fields,
  )

-- The snapshot ahead of the log, where the three questions have been answered.
unfoldable pub ready_posture : Bool → Bool → Bool → Text → RootHeraldPosture
ready_posture has_tpm enrolled ek_cert id = record zero_posture {
  platform_name = copied 16 (codes "windows");
  secure_boot = minus_one;
  oem_keyed = minus_one;
  boot_log_measurements = minus_one;
  boot_log_revoked = minus_one;
  has_tpm = int_of_bool has_tpm;
  is_enrolled = int_of_bool enrolled;
  ek_cert_present = int_of_bool ek_cert;
  device_id = id;
}

unfoldable pub collect_local_posture :
    (tbs : Tbs) → ℕ → Windows → tbs.Device → Outcome (RootHeraldPosture × tbs.Device)
collect_local_posture tbs fuel w d = do
  (enrolled, d') ← is_ak_persisted tbs d
  cert ← read_ek_cert_from_windows_store fuel w.ek_store
  id ← local_device_id fuel w (is_available w.ncrypt)
  let ready = ready_posture (is_available w.ncrypt) enrolled (ltb 32 (length cert)) id
  (p, fields) ←
      note_log w (read_event_log w.logs)
        (ready, ready_fields ready (is_available w.ncrypt) enrolled (ltb 32 (length cert)))
  ok (record p { detail_json = copied 2048 (json_build fields) }, d')
