-- ===== src/Boot/SecureBoot/Chain.antt =====
-- `ValidateSecureBootChain` of src/boot/secureboot_validator.cpp.
pub mod Databases
pub mod Verdicts
use sdk_windows.Prelude.{
  ℕ, Bool, true, false, not, ◌&&◌, ◌||◌, List, [], ◌∷◌, ◌++◌, Bytes, Text, codes, text_eq, contains,
  Outcome, ok, ◌>>=◌, ◌==◌, if◌then◌else◌,
}
use sdk_windows.Boot.EventLog.{
  EventLogEntry, EventLogAnalysis, ev_efi_variable_driver_config, ev_efi_variable_boot,
}
use sdk_windows.Boot.EventLog.Analysis.{parse_and_analyze_event_log}
use sdk_windows.Boot.EventLog.Describe.{extract_efi_variable_name}
use sdk_windows.Boot.SecureBoot.{CertApi, CertInfo, SecureBootChainReport, blank_report}
use sdk_windows.Boot.SecureBoot.Signatures.{parse_efi_signature_list}

-- The loops over the certificates of the PK, the KEK and the db.
unfoldable pub note_pk_certs : List CertInfo → SecureBootChainReport → SecureBootChainReport
note_pk_certs [] r = r
note_pk_certs (c ∷ cs) r =
    note_pk_certs cs
      (if c.is_known_oem then record r { pk_is_known_oem = true; pk_oem_name = c.oem_name } else r)

unfoldable pub note_kek_certs : List CertInfo → SecureBootChainReport → SecureBootChainReport
note_kek_certs [] r = r
note_kek_certs (c ∷ cs) r =
    note_kek_certs cs (if c.is_microsoft_cert then record r { kek_has_microsoft = true } else r)

note_db_cert : CertInfo → SecureBootChainReport → SecureBootChainReport
note_db_cert c r = record r {
  db_has_microsoft_uefi_ca_2011 =
      contains c.subject (codes "Microsoft Corporation UEFI CA 2011")
      || r.db_has_microsoft_uefi_ca_2011;
  db_has_microsoft_uefi_ca_2023 =
      contains c.subject (codes "Microsoft UEFI CA 2023")
      || contains c.subject (codes "Windows UEFI CA 2023")
      || r.db_has_microsoft_uefi_ca_2023;
  db_has_windows_pca_2011 =
      contains c.subject (codes "Microsoft Windows Production PCA 2011")
      || r.db_has_windows_pca_2011;
}

unfoldable pub note_db_certs : List CertInfo → SecureBootChainReport → SecureBootChainReport
unfolding note_db_cert
note_db_certs [] r = r
note_db_certs (c ∷ cs) r = note_db_certs cs (note_db_cert c r)

-- One variable, by its name.
unfoldable pub note_database :
    Text → List CertInfo → ℕ → SecureBootChainReport → SecureBootChainReport
note_database name certs sha256_count r =
    if text_eq name (codes "PK")
    then note_pk_certs certs (record r { pk_certs = certs })
    else if text_eq name (codes "KEK")
    then note_kek_certs certs (record r { kek_certs = certs })
    else if text_eq name (codes "db")
    then note_db_certs certs (record r { db_certs = certs })
    else if text_eq name (codes "dbx")
    then record r { dbx_hash_count = sha256_count }
    else r

-- The entries that the loop does not `continue` past.
abbrev pub is_key_event : EventLogEntry → Bool
is_key_event e =
    e.pcr_index == 7
    && (e.event_type == ev_efi_variable_driver_config || e.event_type == ev_efi_variable_boot)

unfoldable pub note_key_event :
    CertApi → EventLogEntry → SecureBootChainReport → Outcome SecureBootChainReport
note_key_event api e r = if not (is_key_event e) then ok r else do
  name ← extract_efi_variable_name e.event_data
  (certs, sha256_count) ← parse_efi_signature_list api e.event_data
  ok (note_database name certs sha256_count r)

unfoldable pub note_key_events :
    CertApi → List EventLogEntry → SecureBootChainReport → Outcome SecureBootChainReport
note_key_events api [] r = ok r
note_key_events api (e ∷ es) r = do r' ← note_key_event api e r; note_key_events api es r'

-- The UTF-8 bytes of the dash in the code's messages.
abbrev em_dash : Text
em_dash = 0xE2 ∷ 0x80 ∷ 0x94 ∷ []

abbrev push_warning : Text → SecureBootChainReport → SecureBootChainReport
push_warning text r = record r { warnings = r.warnings ++ text ∷ [] }

abbrev push_error : Text → SecureBootChainReport → SecureBootChainReport
push_error text r = record r { errors = r.errors ++ text ∷ [] }

first_subject : List CertInfo → Text
first_subject [] = codes "(none)"
first_subject (c ∷ cs) = c.subject

-- The three checks behind the early returns.
unfoldable pub check_chain : SecureBootChainReport → SecureBootChainReport
unfolding first_subject
check_chain r =
    let r1 =
      if not r.pk_is_known_oem
      then push_warning
          (codes "Platform Key issuer not recognized as a known OEM: " ++ first_subject r.pk_certs)
          r
      else r in
    let r2 =
      if not r.kek_has_microsoft
      then push_error
          (codes "KEK does not contain Microsoft's KEK certificate "
            ++ (em_dash ++ codes " boot chain may not be controlled by Microsoft"))
          r1
      else r1 in
    if not r.db_has_microsoft_uefi_ca_2011 && not r.db_has_microsoft_uefi_ca_2023
    then push_error
        (codes "db does not contain Microsoft's UEFI CA "
          ++ (em_dash
              ++ codes " only Microsoft-signed boot components are trusted on standard systems"))
        r2
    else r2

-- The verdict, from the lists of errors and of warnings.
unfoldable pub judge : List Text → List Text → SecureBootChainReport → SecureBootChainReport
judge (e ∷ es) ws r = record r { chain_valid = false; verdict = codes "FAIL: " ++ e }
judge [] (w ∷ ws) r = record r { chain_valid = true; verdict = codes "WARNING: " ++ w }
judge [] [] r = record r {
  chain_valid = true;
  verdict =
      codes "PASS: Secure Boot chain fully validated "
      ++ (em_dash
          ++ (codes " PK from "
              ++ (r.pk_oem_name ++ codes ", Microsoft UEFI CA in db, Microsoft KEK present")));
}

abbrev pub judged : SecureBootChainReport → SecureBootChainReport
judged r = judge r.errors r.warnings r

no_platform_key : SecureBootChainReport → SecureBootChainReport
no_platform_key r = record r {
  errors =
      r.errors
      ++ (codes "No Platform Key (PK) found " ++ (em_dash ++ codes " Secure Boot is in setup mode"))
        ∷ [];
  verdict = codes "FAIL: No Platform Key";
}

conclude_keyed : List CertInfo → SecureBootChainReport → SecureBootChainReport
unfolding no_platform_key
conclude_keyed [] r = no_platform_key r
conclude_keyed (c ∷ cs) r = judged (check_chain r)

unfoldable pub conclude_chain : SecureBootChainReport → SecureBootChainReport
unfolding conclude_keyed
conclude_chain r =
    if not r.secure_boot_enabled
    then record r {
      errors = r.errors ++ codes "Secure Boot is DISABLED" ∷ [];
      verdict = codes "FAIL: Secure Boot disabled";
    }
    else conclude_keyed r.pk_certs r

unfoldable pub validate_secure_boot_chain : CertApi → Bytes → Outcome SecureBootChainReport
validate_secure_boot_chain api raw = do
  analysis ← parse_and_analyze_event_log raw
  r ←
      note_key_events api analysis.entries
        (record blank_report { secure_boot_enabled = analysis.secure_boot_enabled })
  ok (conclude_chain r)
