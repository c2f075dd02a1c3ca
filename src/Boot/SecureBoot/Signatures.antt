-- ===== src/Boot/SecureBoot/Signatures.antt =====
-- `ParseEfiSignatureList` of src/boot/secureboot_validator.cpp: two nested walks over untrusted
-- lengths. `size_t` sums are taken modulo 2^64.
pub mod Bounds
use sdk_windows.Prelude.{
  ℕ, zero, suc, ◌+◌, ◌-◌, ◌*◌, ◌/◌, ◌%◌, ◌^◌, Bool, true, false, ◌&&◌, ◌||◌, List, [], ◌∷◌, ◌++◌,
  Bytes, Text, text_eq, is_empty, length, Option, none, some, Outcome, ok, stuck, ◌>>=◌, ltb, leb,
  ◌==◌, if◌then◌else◌,
}
use sdk_windows.Wire.{read_u32_le, slice, size_mod}
use sdk_windows.Wire.Cursor.{Cursor, advance}
use sdk_windows.Boot.EfiVariable.{EfiVariableData, try_parse_efi_variable_data}
use sdk_windows.Boot.SecureBoot.{CertApi, CertInfo, efi_cert_x509_guid, efi_cert_sha256_guid}
use sdk_windows.Boot.SecureBoot.Certificates.{parse_der_certificate}

abbrev pub int_max : ℕ
int_max = 2 ^ 31 - 1

abbrev pub add_size : ℕ → ℕ → ℕ
add_size a b = (a + b) % size_mod

-- One signature entry whose data is the DER `der`.
unfoldable pub note_certificate : CertApi → Bytes → List CertInfo → List CertInfo
note_certificate api der certs =
    let info = parse_der_certificate api der in
    if is_empty info.subject then certs else certs ++ info ∷ []

-- The walk over the entries of one X.509 list that starts at `base`.
unfoldable pub entries_loop :
    ℕ → CertApi → Bytes → ℕ → ℕ → ℕ → ℕ → List CertInfo → Outcome (List CertInfo)
entries_loop zero api raw base list_size sig_size offset certs = stuck
entries_loop (suc fuel) api raw base list_size sig_size offset certs =
    let cert_len = sig_size - 16 in
    let round : Outcome (List CertInfo) = do
      der ← slice raw (base + offset + 16) cert_len
      entries_loop fuel api raw base list_size sig_size (add_size offset sig_size)
          (if ltb 0 cert_len && ltb cert_len 65536 then note_certificate api der certs else certs)
    in if leb (add_size offset sig_size) list_size then round else ok certs

pub record Found : Type 0 where
  pub certs : List CertInfo
  pub sha256_entries : ℕ

-- The body of the outer walk: the list at `base` with the lengths of its header.
unfoldable pub read_list : CertApi → Bytes → ℕ → ℕ → ℕ → ℕ → Found → Outcome Found
read_list api raw base list_size header_size sig_size s =
    let entries_offset = add_size 28 header_size in
    let walked : Outcome Found = do
      certs ← entries_loop (suc list_size) api raw base list_size sig_size entries_offset s.certs
      ok (record s { certs = certs })
    in do
      type ← slice raw base 16
      if text_eq type efi_cert_x509_guid && ltb 16 sig_size
          then walked
          else if text_eq type efi_cert_sha256_guid
              && ltb 16 sig_size
              && ltb entries_offset list_size
          then ok (record s {
            sha256_entries = add_size s.sha256_entries ((list_size - entries_offset) / sig_size);
          })
          else ok s

unfoldable pub lists_loop : ℕ → CertApi → Bytes → Cursor → Found → Outcome Found
lists_loop zero api raw c s = stuck
lists_loop (suc fuel) api raw c s =
    let round : Outcome Found = do
      list_size ← read_u32_le raw (c.pos + 16)
      header_size ← read_u32_le raw (c.pos + 20)
      sig_size ← read_u32_le raw (c.pos + 24)
      let next : Outcome Found = (do
        s' ← read_list api raw c.pos list_size header_size sig_size s
        c' ← advance c list_size
        lists_loop fuel api raw c' s')
      if list_size == 0 || ltb c.remaining list_size then ok s else next
    in if leb 28 c.remaining then round else ok s

-- The certificates, and `*out_sha256Count`.
unfoldable pub signatures_of_parsed :
    CertApi → Bytes → Option EfiVariableData → Outcome (List CertInfo × ℕ)
signatures_of_parsed api raw none = ok ([], 0)
signatures_of_parsed api raw (some var) = do
  s ←
      lists_loop (suc var.data_bytes) api raw
        (record { pos = var.contents; remaining = var.data_bytes })
        (record { certs = []; sha256_entries = 0 })
  ok (s.certs, if ltb int_max s.sha256_entries then int_max else s.sha256_entries)

unfoldable pub parse_efi_signature_list : CertApi → Bytes → Outcome (List CertInfo × ℕ)
parse_efi_signature_list api raw = do
  parsed ← try_parse_efi_variable_data raw
  signatures_of_parsed api raw parsed
