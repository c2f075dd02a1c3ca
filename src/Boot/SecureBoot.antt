-- ===== src/Boot/SecureBoot.antt =====
-- The data of src/boot/secureboot_validator.h and the tables of secureboot_validator.cpp.
-- `Certificates` holds `ParseDerCertificate`, `Signatures` `ParseEfiSignatureList`, and `Chain`
-- `ValidateSecureBootChain`. CryptoAPI is the parameter `CertApi`.
pub mod Certificates
pub mod Signatures
pub mod Chain
use sdk_windows.Prelude.{ℕ, List, [], ◌∷◌, Bytes, Text, codes, Bool, false, Option}

-- The two attributes that the code asks `CertGetNameStringA` for.
pub data Attribute : Type 0 where
  organization_name common_name : Attribute

-- What the code takes from CryptoAPI: a certificate context from DER, the two distinguished names
-- as text, the SHA-256 digest (none where a call fails), and the text of one attribute (empty where
-- it is absent). Windows cuts a name off that does not fit into the buffer that the code gives, of 512
-- bytes for a distinguished name and 256 for an attribute; the functions answer the text as cut.
pub record CertApi : Type 1 where
  pub Context : Type 0
  pub create_context : Bytes → Option Context
  pub subject_name : Context → Text
  pub issuer_name : Context → Text
  pub sha256 : Bytes → Option Bytes
  pub name_attribute : Context → Attribute → Text

pub record CertInfo : Type 0 where
  pub subject : Text
  pub issuer : Text
  pub thumbprint_sha256 : Text
  pub not_before : Text
  pub not_after : Text
  pub is_microsoft_cert : Bool
  pub is_known_oem : Bool
  pub oem_name : Text

abbrev pub blank_cert : CertInfo
blank_cert = record {
  subject = [];
  issuer = [];
  thumbprint_sha256 = [];
  not_before = [];
  not_after = [];
  is_microsoft_cert = false;
  is_known_oem = false;
  oem_name = [];
}

pub record SecureBootChainReport : Type 0 where
  pub secure_boot_enabled : Bool
  pub pk_certs : List CertInfo
  pub pk_is_known_oem : Bool
  pub pk_oem_name : Text
  pub kek_certs : List CertInfo
  pub kek_has_microsoft : Bool
  pub db_certs : List CertInfo
  pub db_has_microsoft_uefi_ca_2011 : Bool
  pub db_has_microsoft_uefi_ca_2023 : Bool
  pub db_has_windows_pca_2011 : Bool
  pub dbx_hash_count : ℕ
  pub chain_valid : Bool
  pub verdict : Text
  pub warnings : List Text
  pub errors : List Text

abbrev pub blank_report : SecureBootChainReport
blank_report = record {
  secure_boot_enabled = false;
  pk_certs = [];
  pk_is_known_oem = false;
  pk_oem_name = [];
  kek_certs = [];
  kek_has_microsoft = false;
  db_certs = [];
  db_has_microsoft_uefi_ca_2011 = false;
  db_has_microsoft_uefi_ca_2023 = false;
  db_has_windows_pca_2011 = false;
  dbx_hash_count = 0;
  chain_valid = false;
  verdict = [];
  warnings = [];
  errors = [];
}

abbrev pub efi_cert_x509_guid : Bytes
efi_cert_x509_guid =
    0xa1 ∷ 0x59 ∷ 0xc0 ∷ 0xa5 ∷ 0xe4 ∷ 0x94 ∷ 0xa7 ∷ 0x4a ∷ 0x87 ∷ 0xb5 ∷ 0xab ∷ 0x15 ∷ 0x5c ∷ 0x2b
    ∷ 0xf0 ∷ 0x72 ∷ []

abbrev pub efi_cert_sha256_guid : Bytes
efi_cert_sha256_guid =
    0x26 ∷ 0x16 ∷ 0xc4 ∷ 0xc1 ∷ 0x4c ∷ 0x50 ∷ 0x92 ∷ 0x40 ∷ 0xac ∷ 0xa9 ∷ 0x41 ∷ 0xf9 ∷ 0x36 ∷ 0x93
    ∷ 0x43 ∷ 0x28 ∷ []

abbrev pub ms_uefi_ca_2011_thumbprint : Text
ms_uefi_ca_2011_thumbprint =
    codes "46DEF63B5CE61CF8BA0DE2E6639C1019D0ED14F3D65B68D78BA2B0461D4C2D65"

abbrev pub ms_win_pca_2011_thumbprint : Text
ms_win_pca_2011_thumbprint =
    codes "580A6F4CC4E4B669B9EBDC1B2B3E087B80D0678D5E2A7BC341A0DC4B50BF2E27"

abbrev pub ms_kek_ca_2011_thumbprint : Text
ms_kek_ca_2011_thumbprint = codes "31590BFD89C9D74ED087DFAC6637B34BCA2028A586CA9CF9B79EF23B2C27A4A8"

abbrev pub ms_uefi_ca_2023_thumbprint : Text
ms_uefi_ca_2023_thumbprint =
    codes "45A0FA32604773C82433C3B7D59E7466B3AC0C7CEEE2B40EA4EE0E14A0925F28"

abbrev pub platform_owner_names : List Text
platform_owner_names =
    codes "Lenovo"
    ∷ codes "Dell"
    ∷ codes "Hewlett-Packard"
    ∷ codes "Hewlett Packard"
    ∷ codes "HP Inc"
    ∷ codes "ASUSTeK"
    ∷ codes "ASUS"
    ∷ codes "Acer"
    ∷ codes "Microsoft"
    ∷ codes "Samsung"
    ∷ codes "Toshiba"
    ∷ codes "Fujitsu"
    ∷ codes "ASRock"
    ∷ codes "Gigabyte"
    ∷ codes "MSI"
    ∷ codes "Micro-Star"
    ∷ codes "Supermicro"
    ∷ codes "Panasonic"
    ∷ codes "Sony"
    ∷ codes "LG Electronics"
    ∷ codes "Razer"
    ∷ codes "Framework"
    ∷ codes "System76"
    ∷ []

abbrev pub firmware_vendor_names : List Text
firmware_vendor_names =
    codes "American Megatrends"
    ∷ codes "AMI"
    ∷ codes "Phoenix"
    ∷ codes "Insyde"
    ∷ codes "Intel"
    ∷ codes "Byosoft"
    ∷ []

abbrev pub untrusted_pk_markers : List Text
untrusted_pk_markers =
    codes "DO NOT TRUST"
    ∷ codes "DO_NOT_TRUST"
    ∷ codes "Test PK"
    ∷ codes "TestPK"
    ∷ codes "Insyde Test"
    ∷ codes "Default PK"
    ∷ codes "Sample"
    ∷ codes "Do Not Ship"
    ∷ []
