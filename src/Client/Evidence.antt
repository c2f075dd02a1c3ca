-- ===== src/Client/Evidence.antt =====
-- `SelectEnrolledProvider`, `CollectEvidenceFields` and `RootHeraldCollectEvidence` of
-- src/client/rootherald_win.cpp, with the provider's TBS context and the one that quotes.
pub mod Quotes
use sdk_windows.Prelude.{
  ℕ, Bool, true, false, not, ◌||◌, List, [], ◌∷◌, ◌++◌, Bytes, Text, codes, is_empty, length,
  to_string, Option, none, some, Outcome, ok, ◌>>=◌, ltb, ◌==◌, if◌then◌else◌,
}
use sdk_windows.Json.{json_build}
use sdk_windows.Boot.EventLog.{EventLogEntry, EventLogAnalysis}
use sdk_windows.Boot.EventLog.Analysis.{parse_and_analyze_event_log}
use sdk_windows.Boot.SecureBoot.{CertInfo, SecureBootChainReport}
use sdk_windows.Boot.SecureBoot.Chain.{validate_secure_boot_chain}
use sdk_windows.Tpm.{Tbs, Tpm, Result, success, failure, failed, open_tpm, close_tpm}
use sdk_windows.Tpm.Commands.{pcr_read, quote}
use sdk_windows.Tpm.Nv.{read_intel_odca_intermediates}
use sdk_windows.Tpm.KeyProvider.{Provider, new_provider, open_provider, load_ak}
use sdk_windows.Windows.{Windows}
use sdk_windows.Windows.Digests.{bytes_to_hex}
use sdk_windows.Windows.Base64.{base64_encode, base64_decode, der_to_pem}
use sdk_windows.Windows.Logs.{read_event_log}
use sdk_windows.Certs.Store.{read_ek_cert_from_windows_store}
use sdk_windows.Client.Status.{
  RootHeraldStatus, success_status, invalid_arg, tpm_unavailable, not_enrolled, ak_failed,
  quote_failed, internal, Answer,
}
use sdk_windows.Client.Fields.{Fields, fields_of, put_field, put_if_any, put_chain_field}
use sdk_windows.Client.DeviceId.{derive_local_device_id}
use sdk_windows.Client.Enroll.{tbs_ak_persistent_handle, attach, discard, allocated}

-- ROOTHERALD_OK with a value, or another status with its reason.
pub data Collected (A : Type 0) : Type 0 where
  collected : A → Collected A
  rejected : RootHeraldStatus → Text → Collected A

unfoldable pub select_loaded :
    {tbs : Tbs} → ℕ × Provider tbs → Outcome (Option (Provider tbs) × tbs.Device)
select_loaded (hr, p) =
    if failed hr then (do d ← discard p; ok (none, d)) else ok (some p, p.tpm.device)

unfoldable pub select_opened :
    {tbs : Tbs} → ℕ × Provider tbs → Outcome (Option (Provider tbs) × tbs.Device)
select_opened (hr, p) =
    if failed hr
    then (do d ← discard p; ok (none, d))
    else do loaded ← load_ak p; select_loaded loaded

-- `none` for a null pointer.
unfoldable pub select_enrolled_provider :
    (tbs : Tbs) → tbs.Device → Outcome (Option (Provider tbs) × tbs.Device)
select_enrolled_provider tbs d =
    select_opened {tbs = tbs} (open_provider (new_provider tbs_ak_persistent_handle d))

abbrev pub quoted_pcrs : List ℕ
quoted_pcrs = 0 ∷ 1 ∷ 2 ∷ 3 ∷ 4 ∷ 7 ∷ []

-- `FAILED(hr) || pcrValue.empty()` is no value.
unfoldable pub pcr_value : Result Bytes → Option Bytes
pcr_value (success (b ∷ bs)) = some (b ∷ bs)
pcr_value _ = none

-- The text of one PCR, behind a comma but for the first.
unfoldable pub pcr_field : Bool → ℕ → Bytes → Text
pcr_field first index value =
    (if first then [] else codes ",")
    ++ (codes "\"" ++ (to_string index ++ (codes "\":\"" ++ (bytes_to_hex value ++ codes "\""))))

-- The loop over the PCRs; `none` where one is not read.
unfoldable pub pcr_values_loop :
    {tbs : Tbs} → List ℕ → Bool → Text → Tpm tbs → Outcome (Option Text × Tpm tbs)
pcr_values_loop [] first json t = ok (some (json ++ codes "}}"), t)
pcr_values_loop (index ∷ pcrs) first json t = do
  (r, t') ← pcr_read index t
  elim (pcr_value r) [
    | none ↦ ok (none, t')
    | some value ↦ pcr_values_loop pcrs false (json ++ pcr_field first index value) t'
  ]

unfoldable pub quote_json : Windows → Bytes → Bytes × Bytes → Text
quote_json w nonce (quoted, signature) = json_build (
    fields_of (
      (codes "quoted", base64_encode w.base64 quoted)
      ∷ (codes "signature", base64_encode w.base64 signature)
      ∷ (codes "nonce", base64_encode w.base64 nonce)
      ∷ []))

unfoldable pub quoted_of : Windows → Bytes → Text → Result (Bytes × Bytes) → Collected (Text × Text)
quoted_of w nonce values (failure hr) = rejected quote_failed (codes "Quote failed")
quoted_of w nonce values (success q) = collected (values, quote_json w nonce q)

unfoldable pub quote_values :
    {tbs : Tbs}
    → Windows
    → ℕ
    → Bytes
    → Option Text × Tpm tbs
    → Outcome (Collected (Text × Text) × Tpm tbs)
quote_values w ak nonce (none, t) = ok (rejected quote_failed (codes "PCR read failed"), t)
quote_values w ak nonce (some values, t) = do
  (r, t') ← quote ak nonce quoted_pcrs t
  ok (quoted_of w nonce values r, t')

-- The PCR values and the quote over the nonce.
unfoldable pub collect_quote :
    {tbs : Tbs} → Windows → ℕ → Bytes → Tpm tbs → Outcome (Collected (Text × Text) × Tpm tbs)
collect_quote w ak nonce t =
    if is_empty nonce then ok (rejected invalid_arg (codes "Invalid nonce"), t) else do
      values ← pcr_values_loop quoted_pcrs true (codes "{\"sha256\":{") t
      quote_values w ak nonce values

abbrev pub bool_text : Bool → Text
bool_text b = if b then codes "true" else codes "false"

unfoldable pub pk_subject : List CertInfo → Text
pk_subject [] = []
pk_subject (c ∷ cs) = c.subject

unfoldable pub pk_issuer : List CertInfo → Text
pk_issuer [] = []
pk_issuer (c ∷ cs) = c.issuer

unfoldable pub secure_boot_fields : SecureBootChainReport → EventLogAnalysis → Fields
secure_boot_fields report analysis = fields_of (
    (codes "secureBootEnabled", bool_text report.secure_boot_enabled)
    ∷ (codes "pkSubject", pk_subject report.pk_certs)
    ∷ (codes "pkIssuer", pk_issuer report.pk_certs)
    ∷ (codes "pkIsKnownOem", bool_text report.pk_is_known_oem)
    ∷ (codes "pkOemName", report.pk_oem_name)
    ∷ (codes "kekHasMicrosoft", bool_text report.kek_has_microsoft)
    ∷ (
      codes "dbHasMicrosoftUefiCa",
      bool_text (report.db_has_microsoft_uefi_ca_2011 || report.db_has_microsoft_uefi_ca_2023),
    )
    ∷ (codes "dbHasMicrosoftWindowsPca", bool_text report.db_has_windows_pca_2011)
    ∷ (codes "dbxHashCount", to_string report.dbx_hash_count)
    ∷ (codes "totalMeasurements", to_string (length analysis.entries))
    ∷ (codes "verifiedCount", to_string analysis.verified_count)
    ∷ (codes "unknownCount", to_string analysis.unknown_count)
    ∷ (codes "verdict", report.verdict)
    ∷ [])

unfoldable pub secure_boot_json : Windows → Bytes → Outcome Text
secure_boot_json w [] = ok (codes "null")
secure_boot_json w (b ∷ bs) = do
  report ← validate_secure_boot_chain w.certs (b ∷ bs)
  analysis ← parse_and_analyze_event_log (b ∷ bs)
  ok (json_build (secure_boot_fields report analysis))

-- The fields in the order in which they are set.
unfoldable pub evidence_fields :
    Windows → Text × Text → Text → Bytes → Bytes → List Bytes → Text → Fields
evidence_fields w (pcr_values, quote_text) secure_boot log ek_cert chain device_id =
    let base = fields_of (
      (codes "pcrValues", pcr_values)
      ∷ (codes "quote", quote_text)
      ∷ (codes "secureBootChain", secure_boot)
      ∷ []) in
    let logged =
      if is_empty log
      then base
      else put_field (codes "eventLog") (base64_encode w.base64 log) base in
    let certified =
      if ltb 32 (length ek_cert)
      then put_field (codes "ekCertPem") (der_to_pem w.base64 ek_cert) logged
      else logged in
    put_if_any (codes "deviceId") device_id (put_chain_field w.base64 chain certified)

-- Behind the quote.
unfoldable pub collect_rest :
    {tbs : Tbs}
    → ℕ
    → Windows
    → Collected (Text × Text) × Tpm tbs
    → Outcome (Collected Fields × Tpm tbs)
collect_rest fuel w (rejected status reason, t) = ok (rejected status reason, t)
collect_rest fuel w (collected q, t) = do
  secure_boot ← secure_boot_json w (read_event_log w.logs)
  ek_cert ← read_ek_cert_from_windows_store fuel w.ek_store
  (chain, t') ← read_intel_odca_intermediates [] t
  device_id ← derive_local_device_id fuel w
  ok (
    collected (evidence_fields w q secure_boot (read_event_log w.logs) ek_cert chain device_id),
    t',
  )

-- With the context that quotes; it is closed at the end.
unfoldable pub collect_opened :
    {tbs : Tbs} → ℕ → Windows → Bytes → ℕ → ℕ × Tpm tbs → Outcome (Collected Fields × tbs.Device)
collect_opened fuel w nonce ak (hr, t) =
    if failed hr
    then ok (rejected tpm_unavailable (codes "TPM unavailable"), (close_tpm t).device)
    else do
      quoted ← collect_quote w ak nonce t
      (r, t') ← collect_rest fuel w quoted
      ok (r, (close_tpm t').device)

-- With the handle of the provider.
unfoldable pub collect_with :
    (tbs : Tbs) → ℕ → Windows → Bytes → ℕ → tbs.Device → Outcome (Collected Fields × tbs.Device)
collect_with tbs fuel w nonce ak d =
    if ak == 0
    then ok (rejected ak_failed (codes "AK handle unavailable"), d)
    else collect_opened {tbs = tbs} fuel w nonce ak
        (open_tpm (record { is_open = false; device = d }))

-- With the provider, which is destroyed last.
unfoldable pub collect_selected :
    {tbs : Tbs}
    → ℕ
    → Windows
    → Bytes
    → Option (Provider tbs) × tbs.Device
    → Outcome (Collected Fields × tbs.Device)
collect_selected fuel w nonce (none, d) = ok (rejected not_enrolled (codes "Not enrolled"), d)
collect_selected {tbs} fuel w nonce (some p, d) = do
  (r, d') ← collect_with tbs fuel w nonce p.persistent_handle d
  d'' ← discard (attach d' p)
  ok (r, d'')

unfoldable pub collect_evidence_fields :
    (tbs : Tbs) → ℕ → Windows → Text → tbs.Device → Outcome (Collected Fields × tbs.Device)
collect_evidence_fields tbs fuel w nonce d = do
  selected ← select_enrolled_provider tbs d
  collect_selected fuel w (base64_decode w.base64 nonce) selected

unfoldable pub evidence_answer : Windows → Collected Fields → Answer
evidence_answer w (rejected status reason) = (status, none)
evidence_answer w (collected fields) =
    let json = json_build fields in
    if not (allocated w json) then (internal, none) else (success_status, some json)

unfoldable pub collect_evidence :
    (tbs : Tbs) → ℕ → Windows → Text → tbs.Device → Outcome (Answer × tbs.Device)
collect_evidence tbs fuel w nonce d = do
  (r, d') ← collect_evidence_fields tbs fuel w nonce d
  ok (evidence_answer w r, d')
