-- ===== src/Client/Gather.antt =====
-- `GatherEkEnrollData` and `BuildEnrollFields` of src/client/rootherald_win.cpp.
pub mod Merge
pub mod Total
use sdk_windows.Prelude.{
  ℕ, Bool, true, false, List, [], ◌∷◌, ◌++◌, Bytes, Text, codes, is_empty, text_eq, length, take,
  Option, none, some, Outcome, ok, ◌>>=◌, ltb, leb, if◌then◌else◌,
}
use sdk_windows.Tpm.{Tbs, Tpm, Result, success, failure, failed, open_tpm, close_tpm}
use sdk_windows.Tpm.Nv.{read_intel_odca_intermediates}
use sdk_windows.Windows.{Windows, Digest, Base64Api}
use sdk_windows.Windows.Digests.{bcrypt_digest}
use sdk_windows.Windows.Base64.{base64_encode, der_to_pem}
use sdk_windows.Windows.Pcp.{open_pcp, read_ek_public_key, read_ek_certificate}
use sdk_windows.Certs.Store.{read_ek_cert_from_windows_store, read_windows_tpm_intermediate_store}
use sdk_windows.Certs.Amd.{extract_rsa_modulus_from_ek_pub, fetch_amd_aia_ek_cert}
use sdk_windows.Client.Fields.{Fields, fields_of, put_chain_field, put_if_any}

pub record EkEnrollData : Type 0 where
  pub public_key : Bytes
  pub ek_cert_pem : Text
  pub intermediates : List Bytes

-- The certificate that Windows keeps, or the provider's where that one has at most 32 bytes.
unfoldable pub ek_cert_or_nv : Bytes → Result Bytes → Bytes
ek_cert_or_nv stored (success nv) = if leb (length stored) 32 then nv else stored
ek_cert_or_nv stored (failure hr) = stored

unfoldable pub amd_pem : Base64Api → Bytes → Text
amd_pem api [] = []
amd_pem api (b ∷ bs) = der_to_pem api (b ∷ bs)

unfoldable pub fetch_amd_pem : ℕ → Windows → Bytes → Outcome Text
fetch_amd_pem fuel w ek = do
  modulus ← extract_rsa_modulus_from_ek_pub ek
  if is_empty modulus
      then ok []
      else do cert ← fetch_amd_aia_ek_cert fuel w.sha256 w.http modulus; ok (amd_pem w.base64 cert)

unfoldable pub gather_cert_pem : ℕ → Windows → Bytes → Bool → Outcome Text
gather_cert_pem fuel w ek provider = do
  stored ← read_ek_cert_from_windows_store fuel w.ek_store
  let cert = ek_cert_or_nv stored (read_ek_certificate w.ncrypt provider)
  if ltb 32 (length cert) then ok (der_to_pem w.base64 cert) else fetch_amd_pem fuel w ek

abbrev pub max_intermediates : ℕ
max_intermediates = 8

-- `if (!fingerprint.empty()) seen.push_back(fingerprint);`
unfoldable pub note_fingerprint : List Bytes → Bytes → List Bytes
note_fingerprint seen [] = seen
note_fingerprint seen (b ∷ bs) = seen ++ (b ∷ bs) ∷ []

unfoldable pub fingerprints : Digest → List Bytes → List Bytes → List Bytes
fingerprints api [] seen = seen
fingerprints api (c ∷ cs) seen = fingerprints api cs (note_fingerprint seen (bcrypt_digest api c))

unfoldable pub is_seen : List Bytes → Bytes → Bool
is_seen [] fingerprint = false
is_seen (s ∷ seen) fingerprint = if text_eq s fingerprint then true else is_seen seen fingerprint

unfoldable pub merge_loop : Digest → List Bytes → List Bytes → List Bytes → List Bytes
merge_loop api [] seen out = out
merge_loop api (c ∷ cs) seen out =
    let skipped = merge_loop api cs seen out in
    let added = merge_loop api cs (note_fingerprint seen (bcrypt_digest api c)) (out ++ c ∷ []) in
    if leb max_intermediates (length out)
    then out
    else if is_seen seen (bcrypt_digest api c)
    then skipped
    else added

unfoldable pub merge_intermediates : Digest → List Bytes → List Bytes → List Bytes
merge_intermediates api own stored =
    let out = merge_loop api stored (fingerprints api own []) own in
    if ltb max_intermediates (length out) then take max_intermediates out else out

-- The part with a TPM context, empty where there is none. The context ends with the call.
unfoldable pub gather_intermediates :
    {tbs : Tbs} → Windows → ℕ × Tpm tbs → Outcome (List Bytes × tbs.Device)
gather_intermediates {tbs} w (hr, t) = if failed hr then ok ([], (close_tpm t).device) else do
  (own, t') ← read_intel_odca_intermediates [] t
  ok (
    merge_intermediates w.sha256 own
        (read_windows_tpm_intermediate_store w.certs w.constraints w.intermediate_store),
    (close_tpm t').device,
  )

unfoldable pub gather_with_key :
    (tbs : Tbs)
    → ℕ
    → Windows
    → tbs.Device
    → Bool
    → Result Bytes
    → Outcome (Option EkEnrollData × tbs.Device)
gather_with_key tbs fuel w d provider (failure hr) = ok (none, d)
gather_with_key tbs fuel w d provider (success ek) = if is_empty ek then ok (none, d) else do
  pem ← gather_cert_pem fuel w ek provider
  (chain, d') ←
      gather_intermediates w (open_tpm {tbs = tbs} (record { is_open = false; device = d }))
  ok (some (record { public_key = ek; ek_cert_pem = pem; intermediates = chain }), d')

-- `none` where the function returns false.
unfoldable pub gather_ek_enroll_data :
    (tbs : Tbs) → ℕ → Windows → tbs.Device → Outcome (Option EkEnrollData × tbs.Device)
gather_ek_enroll_data tbs fuel w d =
    let (hr, provider) = open_pcp w.ncrypt false in
    if failed hr
    then ok (none, d)
    else gather_with_key tbs fuel w d provider (read_ek_public_key w.ncrypt provider)

unfoldable pub build_enroll_fields : Base64Api → EkEnrollData → Bytes → Fields
build_enroll_fields api ek area = put_chain_field api ek.intermediates (
    put_if_any (codes "ekCertPem") ek.ek_cert_pem (
      fields_of (
        (codes "ekPublicKey", base64_encode api ek.public_key)
        ∷ (codes "akPublicArea", base64_encode api area)
        ∷ (codes "platform", codes "windows")
        ∷ [])))
