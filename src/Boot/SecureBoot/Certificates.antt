-- ===== src/Boot/SecureBoot/Certificates.antt =====
-- `ParseDerCertificate` of src/boot/secureboot_validator.cpp and its helpers.
pub mod Names
use mathlib.Core.List.{map}
use sdk_windows.Prelude.{
  ℕ, zero, suc, ◌+◌, ◌-◌, ◌/◌, ◌%◌, Bool, true, false, ◌&&◌, ◌||◌, List, [], ◌∷◌, ◌++◌, Bytes, Text,
  codes, text_eq, is_empty, length, Option, none, some, ltb, leb, ◌==◌, if◌then◌else◌,
}
use sdk_windows.Boot.SecureBoot.{
  Attribute, organization_name, common_name, CertApi, CertInfo, blank_cert,
  ms_uefi_ca_2011_thumbprint, ms_win_pca_2011_thumbprint, ms_kek_ca_2011_thumbprint,
  ms_uefi_ca_2023_thumbprint, platform_owner_names, firmware_vendor_names, untrusted_pk_markers,
}

-- One character of the table "0123456789ABCDEF".
unfoldable pub hex_upper : ℕ → ℕ
hex_upper d = if ltb d 10 then b'0' + d else b'A' + (d - 10)

unfoldable pub bytes_to_hex_upper : Bytes → Text
unfolding hex_upper
bytes_to_hex_upper [] = []
bytes_to_hex_upper (b ∷ bs) = hex_upper (b / 16) ∷ hex_upper (b % 16) ∷ bytes_to_hex_upper bs

-- `toupper` and `tolower` of the C locale.
abbrev pub upper : ℕ → ℕ
upper c = if leb b'a' c && leb c b'z' then c - 32 else c

abbrev pub lower : ℕ → ℕ
lower c = if leb b'A' c && leb c b'Z' then c + 32 else c

unfoldable pub to_upper : Text → Text
to_upper = map upper

unfoldable pub cert_thumbprint : CertApi → Bytes → Text
cert_thumbprint api der = elim (api.sha256 der) [
  | none ↦ []
  | some digest ↦ bytes_to_hex_upper digest
]

-- `text` begins with `part`, up to the case of letters.
unfoldable pub begins_no_case : Text → Text → Bool
begins_no_case text [] = true
begins_no_case [] (p ∷ part) = false
begins_no_case (t ∷ text) (p ∷ part) = lower t == lower p && begins_no_case text part

-- `std::search` for a part that is not empty.
unfoldable pub search_no_case : Text → Text → Bool
search_no_case [] part = begins_no_case [] part
search_no_case (t ∷ text) part = begins_no_case (t ∷ text) part || search_no_case text part

unfoldable pub contains_no_case : Text → Text → Bool
contains_no_case haystack needle =
    if is_empty needle || ltb (length haystack) (length needle)
    then false
    else search_no_case haystack needle

-- `CertGetNameStringA` counts the terminator, so that an absent attribute gives 1.
unfoldable pub rdn_value : (api : CertApi) → api.Context → Attribute → Text
rdn_value api ctx oid =
    let value = api.name_attribute ctx oid in if ltb 1 (length value + 1) then value else []

unfoldable pub any_contained : List Text → Text → Bool
any_contained [] text = false
any_contained (name ∷ names) text = contains_no_case text name || any_contained names text

-- The loop over the markers looks at the common name and at the organization.
unfoldable pub is_untrusted : List Text → Text → Text → Bool
is_untrusted [] cn org = false
is_untrusted (m ∷ ms) cn org =
    (contains_no_case cn m || contains_no_case org m) || is_untrusted ms cn org

unfoldable pub find_owner : List Text → Text → Option Text
find_owner [] org = none
find_owner (name ∷ names) org =
    if contains_no_case org name then some name else find_owner names org

-- The order of the three tables.
unfoldable pub classify_names : Text → Text → CertInfo → CertInfo
classify_names cn org info =
    if is_untrusted untrusted_pk_markers cn org
    then record info { oem_name = codes "untrusted-default-key" }
    else if any_contained firmware_vendor_names org
    then record info { oem_name = codes "firmware-vendor" }
    else elim (find_owner platform_owner_names org) [
      | none ↦ info
      | some name ↦ record info { is_known_oem = true; oem_name = name }
    ]

unfoldable pub is_microsoft : Text → Text → Bool
is_microsoft thumb org =
    let thumb_upper = to_upper thumb in
    text_eq thumb_upper ms_uefi_ca_2011_thumbprint
    || text_eq thumb_upper ms_win_pca_2011_thumbprint
    || text_eq thumb_upper ms_kek_ca_2011_thumbprint
    || text_eq thumb_upper ms_uefi_ca_2023_thumbprint
    || contains_no_case org (codes "Microsoft Corporation")

-- A blob that is no certificate gives the blank record.
unfoldable pub parse_der_certificate : CertApi → Bytes → CertInfo
parse_der_certificate api der = elim (api.create_context der) [
  | none ↦ blank_cert
  | some ctx ↦
      let org = rdn_value api ctx organization_name in
      let cn = rdn_value api ctx common_name in
      let thumb = cert_thumbprint api der in
      classify_names cn org (record blank_cert {
        subject = api.subject_name ctx;
        issuer = api.issuer_name ctx;
        thumbprint_sha256 = thumb;
        is_microsoft_cert = is_microsoft thumb org;
      })
]
