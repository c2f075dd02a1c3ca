-- ===== src/Boot/SecureBoot/Chain/Verdicts.antt =====
-- The report of the chain check (src/boot/secureboot_validator.cpp), and the databases of the log.
use sdk_windows.Prelude.{
  ℕ, ◌≤◌, ◌≡◌, ◌≢◌, ◌↔◌, refl, arith, Bool, true, false, List, [], ◌∷◌, Bytes, Text, codes, text_eq,
  ok, Returns, returns, Returns->>=, Returns-eq_ok, Returns-weaken, Bool-cases, inl, inr,
  if◌then◌else◌,
}
use sdk_windows.Boot.EventLog.{EventLogEntry, EventLogAnalysis}
use sdk_windows.Boot.EventLog.Analysis.{parse_and_analyze_event_log}
use sdk_windows.Boot.EventLog.Analysis.Counts.{parse_and_analyze_event_log-IsPaid}
use sdk_windows.Boot.EventLog.Safety.{extract_efi_variable_name-Returns}
use sdk_windows.Boot.SecureBoot.{CertApi, CertInfo, SecureBootChainReport, blank_report}
use sdk_windows.Boot.SecureBoot.Signatures.{int_max}
use sdk_windows.Boot.SecureBoot.Signatures.Bounds.{parse_efi_signature_list-Returns}
use sdk_windows.Boot.SecureBoot.Chain.{
  note_database, is_key_event, note_key_event, note_key_events, check_chain, judge, conclude_keyed,
  conclude_chain, validate_secure_boot_chain,
}
use sdk_windows.Boot.SecureBoot.Chain.Databases.{
  Database, MeasuresKeys, Measured, done, passed, measured, any_cert, last_certs, last_digests,
  of_uefi_ca, of_owner, of_microsoft, Notes, noted, all_noted, IsOpen, note_database-IsOpen,
  all_noted-pk, all_noted-revoked, all_noted-owner, all_noted-microsoft, all_noted-uefi_ca,
}

abbrev AreBounded : List Database → Type 0
AreBounded [] = Unit
AreBounded (d ∷ ds) = (d.digests ≤ int_max) × AreBounded ds

last_digests-AreBounded :
    (name : Text) (before : ℕ) (ds : List Database)
    → before ≤ int_max
    → AreBounded ds
    → last_digests name before ds ≤ int_max
last_digests-AreBounded name before [] h u = h
last_digests-AreBounded name before (d ∷ ds) h (k, u) =
    last_digests-AreBounded name (if text_eq d.name name then d.digests else before) ds
      (ground arith) u

-- The databases that are met from a report on, and the report behind them.
record Met (api : CertApi) (b : Bool) (es : List EventLogEntry) (n : Notes)
    (r : SecureBootChainReport) : Type 0 where
  databases : List Database
  met : Measured api es databases
  bounded : AreBounded databases
  open_still : IsOpen b (all_noted databases n) r

module _ (api : CertApi) (b : Bool) where
  note_key_events-Met :
      (es : List EventLogEntry) (n : Notes) (r : SecureBootChainReport)
      → IsOpen b n r
      → Returns (Met api b es n) (note_key_events api es r)
  unfolding note_key_events note_key_event
  note_key_events-Met [] n r h =
      returns (record { databases = []; met = done; bounded = tt; open_still = h })
  note_key_events-Met (e ∷ es) n r h = elim (Bool-cases (is_key_event e)) [
    | inr k ↦
        let other : ¬ MeasuresKeys e = ground arith in
        rw k (
          Returns-weaken
            (λ r' m. record {
              databases = m.databases;
              met = passed other m.met;
              bounded = m.bounded;
              open_still = m.open_still;
            })
            (note_key_events-Met es n r h))
    | inl k ↦
        let keys : MeasuresKeys e = ground arith in
        let (name, named, _) = Returns-eq_ok (extract_efi_variable_name-Returns e.event_data) in
        let ((certs, digests), parsed, fits) =
          Returns-eq_ok (parse_efi_signature_list-Returns api e.event_data) in
        let d : Database = record { name = name; certs = certs; digests = digests } in
        rw (k, named, parsed)
          (Returns-weaken
            (λ r' m. record {
              databases = d ∷ m.databases;
              met = measured keys named parsed m.met;
              bounded = (fits.1, m.bounded);
              open_still = m.open_still;
            })
            (note_key_events-Met es (noted d n) (note_database name certs digests r)
              (note_database-IsOpen b d n r h)))
  ]

-- The verdict by the notes.
record IsJudgedBy (b : Bool) (n : Notes) (r : SecureBootChainReport) : Type 0 where
  valid_iff :
      (r.chain_valid ≡ true)
      ↔ ((b ≡ true) × (n.pk ≢ []) × (n.microsoft ≡ true) × (n.uefi_ca ≡ true))
  errors_iff : (r.errors ≡ []) ↔ (r.chain_valid ≡ true)
  warnings_iff : r.chain_valid ≡ true → (r.warnings ≡ []) ↔ (n.owner ≡ true)
  pk_is : r.pk_certs ≡ n.pk
  revoked_is : r.dbx_hash_count ≡ n.revoked

conclude_keyed-IsJudgedBy :
    (cs : List CertInfo) (n : Notes) (r : SecureBootChainReport)
    → r.pk_certs ≡ cs
    → IsOpen true n r
    → IsJudgedBy true n (conclude_keyed cs r)
unfolding conclude_keyed
conclude_keyed-IsJudgedBy [] n r e h = ground arith
conclude_keyed-IsJudgedBy (c ∷ cs) n r e h = unfold check_chain judge in ground arith

conclude_chain-IsJudgedBy :
    (b : Bool) (n : Notes) (r : SecureBootChainReport)
    → IsOpen b n r
    → IsJudgedBy b n (conclude_chain r)
unfolding conclude_chain
conclude_chain-IsJudgedBy true n r h =
    simp h.enabled_is (conclude_keyed-IsJudgedBy r.pk_certs n r refl h)
conclude_chain-IsJudgedBy false n r h = ground arith

-- The report, by the signature databases that the log measures.
pub record IsReported (api : CertApi) (raw : Bytes) (r : SecureBootChainReport) : Type 0 where
  pub analysis : EventLogAnalysis
  pub analyzed : parse_and_analyze_event_log raw ≡ ok analysis
  pub databases : List Database
  pub all_measured : Measured api analysis.entries databases
  pub valid_iff : (r.chain_valid ≡ true) ↔ (
      (analysis.secure_boot_enabled ≡ true)
      × (last_certs (codes "PK") [] databases ≢ [])
      × (any_cert (codes "KEK") of_microsoft databases ≡ true)
      × (any_cert (codes "db") of_uefi_ca databases ≡ true))
  pub errors_iff : (r.errors ≡ []) ↔ (r.chain_valid ≡ true)
  pub warnings_iff :
      r.chain_valid ≡ true → (r.warnings ≡ []) ↔ (any_cert (codes "PK") of_owner databases ≡ true)
  pub pk_is : r.pk_certs ≡ last_certs (codes "PK") [] databases
  pub revoked_is : r.dbx_hash_count ≡ last_digests (codes "dbx") 0 databases
  pub revoked_fits : r.dbx_hash_count ≤ int_max

abbrev no_notes : Notes
no_notes = record { pk = []; owner = false; microsoft = false; uefi_ca = false; revoked = 0 }

-- On every log and whatever CryptoAPI answers, the check returns, and its report goes by the signature
-- databases that the events of PCR 7 measure. It calls the chain valid exactly when the log has Secure
-- Boot on, the last PK of the log has a certificate, some KEK of the log a Microsoft certificate, and
-- some db of the log a certificate whose subject names one of the UEFI CAs; the last PK of the log
-- counts, but any of its KEKs and dbs. The list of errors is empty exactly on a valid chain, and a valid
-- chain has no warning exactly when some PK of the log has a known owner's certificate. The dbx count is
-- that of the last dbx, and fits into an `int`.
pub validate_secure_boot_chain-IsReported :
    (api : CertApi) (raw : Bytes)
    → Returns (IsReported api raw) (validate_secure_boot_chain api raw)
unfolding validate_secure_boot_chain
validate_secure_boot_chain-IsReported api raw =
    let (a, analyzed, _) = Returns-eq_ok (parse_and_analyze_event_log-IsPaid raw) in
    let start = record blank_report { secure_boot_enabled = a.secure_boot_enabled } in
    rw analyzed (
      Returns->>=
        (note_key_events-Met api a.secure_boot_enabled a.entries no_notes start (record {
          errors_none = refl;
          warnings_none = refl;
          enabled_is = refl;
          not_valid = refl;
          pk_is = refl;
          owner_is = refl;
          microsoft_is = refl;
          uefi_ca_is = refl;
          revoked_is = refl;
        }))
        λ r m. returns (concluded a analyzed r m))
  where
    concluded :
        (a : EventLogAnalysis)
        → parse_and_analyze_event_log raw ≡ ok a
        → (r : SecureBootChainReport) → Met api a.secure_boot_enabled a.entries no_notes r
        → IsReported api raw (conclude_chain r)
    concluded a analyzed r m =
        let ds = m.databases in
        let j =
          conclude_chain-IsJudgedBy a.secure_boot_enabled (all_noted ds no_notes) r m.open_still in
        let counted = rw (all_noted-revoked ds no_notes) at j.revoked_is in
        record {
          analysis = a;
          analyzed = analyzed;
          databases = ds;
          all_measured = m.met;
          valid_iff =
              rw
                (
                  all_noted-pk ds no_notes,
                  all_noted-microsoft ds no_notes,
                  all_noted-uefi_ca ds no_notes,
                )
                at j.valid_iff;
          errors_iff = j.errors_iff;
          warnings_iff = rw (all_noted-owner ds no_notes) at j.warnings_iff;
          pk_is = rw (all_noted-pk ds no_notes) at j.pk_is;
          revoked_is = counted;
          revoked_fits =
              rw counted (last_digests-AreBounded (codes "dbx") 0 ds (omega arith) m.bounded);
        }
