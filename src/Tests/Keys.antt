-- ===== src/Tests/Keys.antt =====
-- Certificates, signature lists and the chain check (src/boot/secureboot_validator.cpp).
use sdk_windows.Prelude.{
  ◌≡◌, ◌≢◌, ◌↔◌, refl, true, [], ◌∷◌, ◌++◌, Bytes, codes, is_empty, length, replicate, none, some,
  Returns, if◌then◌else◌,
}
use sdk_windows.Boot.EventLog.RoundTrip.Log.{spec_id_header, put_log}
use sdk_windows.Boot.SecureBoot.{
  CertApi, efi_cert_x509_guid, untrusted_pk_markers, firmware_vendor_names, platform_owner_names,
}
use sdk_windows.Boot.SecureBoot.Certificates.{contains_no_case, parse_der_certificate}
use sdk_windows.Boot.SecureBoot.Certificates.Names.{
  Occurs, AnyOccurs, contains_no_case_iff, parse_der_certificate-is_known_oem,
}
use sdk_windows.Boot.SecureBoot.Signatures.{parse_efi_signature_list}
use sdk_windows.Boot.SecureBoot.Signatures.Bounds.{IsBounded, parse_efi_signature_list-Returns}
use sdk_windows.Boot.SecureBoot.Chain.{validate_secure_boot_chain}
use sdk_windows.Boot.SecureBoot.Chain.Verdicts.{IsReported, validate_secure_boot_chain-IsReported}

-- A stand-in for CryptoAPI to which a blob is its own subject, and its own attributes.
abbrev pub toy_api : CertApi
toy_api = record {
  Context = Bytes;
  create_context = λ der. if is_empty der then none else some der;
  subject_name = λ ctx. ctx;
  issuer_name = λ ctx. ctx;
  sha256 = λ der. some (replicate 32 (length der));
  name_attribute = λ ctx oid. ctx;
}

contains_no_case_iff_example :
    (contains_no_case (codes "LENOVO Ltd") (codes "Lenovo") ≡ true)
    ↔ ((codes "Lenovo" ≢ []) × Occurs (codes "Lenovo") (codes "LENOVO Ltd"))
contains_no_case_iff_example = contains_no_case_iff (codes "LENOVO Ltd") (codes "Lenovo")

parse_der_certificate-is_known_oem_example :
    ((parse_der_certificate toy_api (codes "LENOVO Ltd")).is_known_oem ≡ true) ↔ (
      (¬ AnyOccurs untrusted_pk_markers (codes "LENOVO Ltd"))
      × (¬ AnyOccurs untrusted_pk_markers (codes "LENOVO Ltd"))
      × (¬ AnyOccurs firmware_vendor_names (codes "LENOVO Ltd"))
      × AnyOccurs platform_owner_names (codes "LENOVO Ltd"))
parse_der_certificate-is_known_oem_example =
    parse_der_certificate-is_known_oem toy_api (codes "LENOVO Ltd") (codes "LENOVO Ltd") refl

-- A db with one X.509 list of one certificate, the 5 bytes "Dell ".
abbrev db_variable : Bytes
db_variable =
    replicate 16 0xAB
    ++ (2 ∷ 0 ∷ 0 ∷ 0 ∷ 0 ∷ 0 ∷ 0 ∷ 0 ∷ 49 ∷ 0 ∷ 0 ∷ 0 ∷ 0 ∷ 0 ∷ 0 ∷ 0 ∷ 100 ∷ 0 ∷ 98 ∷ 0 ∷ [])
    ++ efi_cert_x509_guid
    ++ (49 ∷ 0 ∷ 0 ∷ 0 ∷ 0 ∷ 0 ∷ 0 ∷ 0 ∷ 21 ∷ 0 ∷ 0 ∷ 0 ∷ [])
    ++ replicate 16 0xCD
    ++ codes "Dell "

parse_efi_signature_list-Returns_example :
    Returns (IsBounded toy_api db_variable) (parse_efi_signature_list toy_api db_variable)
parse_efi_signature_list-Returns_example = parse_efi_signature_list-Returns toy_api db_variable

-- A log with one event, which measures that db.
abbrev db_log : Bytes
db_log =
    spec_id_header 0 (replicate 20 0) (1 ∷ 2 ∷ [])
    ++ put_log
        (record {
          pcr_index = 7;
          event_type = 0x80000001;
          digests = (0x000B, replicate 32 0x22) ∷ [];
          event_data = db_variable;
        }
          ∷ [])
        []

validate_secure_boot_chain-IsReported_example :
    Returns (IsReported toy_api db_log) (validate_secure_boot_chain toy_api db_log)
validate_secure_boot_chain-IsReported_example = validate_secure_boot_chain-IsReported toy_api db_log
