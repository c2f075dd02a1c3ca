-- ===== src/Client/Gather/Total.antt =====
-- Lemmas on the outcome of `GatherEkEnrollData` (src/client/rootherald_win.cpp).
use sdk_windows.Prelude.{
  ℕ, ◌≤◌, ◌<◌, ◌≡◌, arith, Bool, false, List, Bytes, Text, codes, ◌++◌, is_empty, length, Option,
  none, some, Option-cases, Returns, returns, Returns->>=, ltb, not, ◌==◌, inl, inr,
}
use sdk_windows.Tpm.{Tbs, Tpm, Result, success, failure, failed, open_tpm}
use sdk_windows.Tpm.Safety.{if-Returns}
use sdk_windows.Tpm.Nv.Safety.{BoundedReads, read_intel_odca_intermediates-Returns}
use sdk_windows.Windows.{Windows}
use sdk_windows.Windows.Digests.{bytes_to_hex}
use sdk_windows.Windows.Http.Responses.{Responds, http_get-Responded}
use sdk_windows.Windows.Pcp.{open_pcp, read_ek_public_key, read_ek_certificate}
use sdk_windows.Certs.Store.Reads.{read_ek_cert_from_windows_store-IsCertOrEmpty}
use sdk_windows.Certs.Amd.{sha256_of, fetch_amd_aia_ek_cert}
use sdk_windows.Certs.Amd.Modulus.{extract_rsa_modulus_from_ek_pub-IsSmall}
use sdk_windows.Client.Gather.{
  EkEnrollData, max_intermediates, ek_cert_or_nv, fetch_amd_pem, gather_cert_pem,
  gather_intermediates, gather_with_key, gather_ek_enroll_data,
}
use sdk_windows.Client.Gather.Merge.{merge_intermediates-take}

-- Windows with an enumeration and responses that end below a number of rounds.
pub record Ends (w : Windows) (rounds : ℕ) : Type 0 where
  pub subkeys : ℕ
  pub store_ends : w.ek_store.enum_key subkeys ≡ none
  pub few_subkeys : subkeys < rounds
  pub response_rounds : Text → ℕ
  pub responds : (url : Text) → Responds w.http url (response_rounds url)
  pub few_rounds : (url : Text) → response_rounds url < rounds

-- The data, where there is any, has a public key and at most 8 certificates of issuers.
abbrev pub IsGathered : Option EkEnrollData → Type 0
IsGathered none = Unit
IsGathered (some ek) =
    (is_empty ek.public_key ≡ false) × (length ek.intermediates ≤ max_intermediates)

module _ {tbs : Tbs} (reads : BoundedReads tbs) (w : Windows) (fuel : ℕ) (ends : Ends w fuel) where
  fetch-Returns :
      (modulus : Bytes)
      → Returns (λ (cert : Bytes). Unit {0}) (fetch_amd_aia_ek_cert fuel w.sha256 w.http modulus)
  unfolding fetch_amd_aia_ek_cert
  fetch-Returns modulus =
      if-Returns (is_empty modulus) (λ _. returns tt)
        λ _. elim (Option-cases (sha256_of w.sha256 modulus)) [
          | inl e ↦ rw e (returns tt)
          | inr (digest, e) ↦
              let url = codes "https://ftpm.amd.com/pki/aia/" ++ bytes_to_hex digest in
              rw e (
                Returns->>=
                  (http_get-Responded w.http url (ends.response_rounds url) fuel (ends.responds url)
                    (ends.few_rounds url))
                  λ response _.
                    if-Returns (not (response.status_code == 200)) (λ _. returns tt)
                      (λ _. returns tt))
        ]

  fetch_amd_pem-Returns :
      (ek : Bytes) → Returns (λ (pem : Text). Unit {0}) (fetch_amd_pem fuel w ek)
  unfolding fetch_amd_pem
  fetch_amd_pem-Returns ek = Returns->>= (extract_rsa_modulus_from_ek_pub-IsSmall ek) λ modulus _.
      if-Returns (is_empty modulus) (λ _. returns tt)
        λ _. Returns->>= (fetch-Returns modulus) λ cert _. returns tt

  gather_cert_pem-Returns :
      (ek : Bytes) (provider : Bool)
      → Returns (λ (pem : Text). Unit {0}) (gather_cert_pem fuel w ek provider)
  unfolding gather_cert_pem
  gather_cert_pem-Returns ek provider =
      Returns->>=
        (read_ek_cert_from_windows_store-IsCertOrEmpty w.ek_store ends.subkeys fuel ends.store_ends
          ends.few_subkeys)
        λ stored _.
          if-Returns
            (ltb 32 (length (ek_cert_or_nv stored (read_ek_certificate w.ncrypt provider))))
            (λ _. returns tt) (λ _. fetch_amd_pem-Returns ek)

  gather_intermediates-Returns :
      (opened : ℕ × Tpm tbs)
      → Returns
          (λ (r : List Bytes × tbs.Device). length r.0 ≤ max_intermediates)
          (gather_intermediates w opened)
  unfolding gather_intermediates
  gather_intermediates-Returns (hr, t) =
      if-Returns (failed hr) (λ _. returns (omega arith))
        λ _.
          Returns->>= (read_intel_odca_intermediates-Returns tbs reads t)
            λ (own, t') few. returns (merge_intermediates-take w.sha256 own _ few).3

  gather_with_key-Returns :
      (d : tbs.Device) (provider : Bool) (r : Result Bytes)
      → Returns
          (λ (g : Option EkEnrollData × tbs.Device). IsGathered g.0)
          (gather_with_key tbs fuel w d provider r)
  unfolding gather_with_key
  gather_with_key-Returns d provider (failure hr) = returns tt
  gather_with_key-Returns d provider (success ek) =
      if-Returns (is_empty ek) (λ _. returns tt)
        λ some_key. Returns->>= (gather_cert_pem-Returns ek provider) λ pem _.
          Returns->>=
            (gather_intermediates-Returns
              (open_tpm {tbs = tbs} (record { is_open = false; device = d })))
            λ (chain, d') few. returns (some_key, few)

-- On a TPM that returns at most as many bytes as a TPM2_NV_Read asks for, with an enumeration of subkeys
-- and HTTP responses that end, GatherEkEnrollData ends, and the data that it returns has a public key
-- that is not empty and at most 8 certificates.
pub gather_ek_enroll_data-IsGathered :
    (tbs : Tbs) (w : Windows) (fuel : ℕ) (d : tbs.Device)
    → BoundedReads tbs
    → Ends w fuel
    → Returns
        (λ (g : Option EkEnrollData × tbs.Device). IsGathered g.0)
        (gather_ek_enroll_data tbs fuel w d)
unfolding gather_ek_enroll_data
gather_ek_enroll_data-IsGathered tbs w fuel d reads ends =
    if-Returns (failed (open_pcp w.ncrypt false).0) (λ _. returns tt)
      (λ _.
        gather_with_key-Returns reads w fuel ends d (open_pcp w.ncrypt false).1
          (read_ek_public_key w.ncrypt (open_pcp w.ncrypt false).1))
