-- ===== src/Certs/Store/Reads.antt =====
-- Lemmas on the loop of `ReadEkCertFromWindowsStore` (src/client/rootherald_win.cpp) over the
-- subkeys.
use sdk_windows.Prelude.{
  ℕ, zero, suc, ◌+◌, ◌≤◌, ◌<◌, ◌≡◌, ◌⊎◌, inl, inr, refl, arith, not, [], Bytes, is_empty, none,
  Option-cases, Returns, returns, ltb, Bool-cases,
}
use sdk_windows.Tpm.Safety.{if-Returns}
use sdk_windows.Windows.{Registry}
use sdk_windows.Certs.Blobs.{extract_der_certificate}
use sdk_windows.Certs.Blobs.Found.{IsFramed, extract_der_certificate-StandsIn}
use sdk_windows.Certs.Store.{read_blob, ek_cert_of, ek_store_loop, read_ek_cert_from_windows_store}

abbrev pub IsCertOrEmpty : Bytes → Type 0
IsCertOrEmpty cert = (cert ≡ []) ⊎ IsFramed cert

extract_der_certificate-IsCertOrEmpty : (raw : Bytes) → IsCertOrEmpty (extract_der_certificate raw)
extract_der_certificate-IsCertOrEmpty raw = elim (extract_der_certificate-StandsIn raw) [
  | inl e ↦ inl e
  | inr (f, s) ↦ inr f
]

ek_cert_of-IsCertOrEmpty : (r : Registry) (name : r.Name) → IsCertOrEmpty (ek_cert_of r name)
unfolding ek_cert_of
ek_cert_of-IsCertOrEmpty r name = elim (Bool-cases (not (r.opens_subkey name))) [
  | inl e ↦ rw e (inl refl)
  | inr e ↦ elim (Option-cases (r.blob_size name)) [
    | inl f ↦ rw (e, f) (inl refl)
    | inr ((type, size), f) ↦ elim (Bool-cases (ltb 0 size)) [
      | inl g ↦ rw (e, f, g) (extract_der_certificate-IsCertOrEmpty (read_blob r name size))
      | inr g ↦ rw (e, f, g) (inl refl)
    ]
  ]
]

ek_store_loop-Returns :
    (r : Registry) (n fuel idx : ℕ)
    → r.enum_key n ≡ none
    → idx ≤ n
    → n < idx + fuel
    → Returns IsCertOrEmpty (ek_store_loop fuel r idx)
unfolding ek_store_loop
ek_store_loop-Returns r n zero idx h inside enough = absurd (omega arith)
ek_store_loop-Returns r n (suc fuel) idx h inside enough = elim (Option-cases (r.enum_key idx)) [
  | inl e ↦ rw (e, ek_store_loop) (returns (inl refl))
  | inr (name, e) ↦ elim (Bool-cases (ltb idx n)) [
    | inl g ↦
        let below : idx < n = ground arith in
        rw (e, ek_store_loop)
          (if-Returns (is_empty (ek_cert_of r name))
            (λ _. ek_store_loop-Returns r n fuel (suc idx) h (omega arith) (omega arith))
            (λ _. returns (ek_cert_of-IsCertOrEmpty r name)))
    | inr g ↦ let last : idx ≡ n = ground arith in cc
  ]
]

-- Where the enumeration of the subkeys ends at some index, the search for the endorsement key's
-- certificate ends with more rounds than that index, whatever the subkeys hold; what it returns is
-- empty, or one SEQUENCE of more than 64 bytes that fills its stated length.
pub read_ek_cert_from_windows_store-IsCertOrEmpty :
    (r : Registry) (n fuel : ℕ)
    → r.enum_key n ≡ none
    → n < fuel
    → Returns IsCertOrEmpty (read_ek_cert_from_windows_store fuel r)
unfolding read_ek_cert_from_windows_store
read_ek_cert_from_windows_store-IsCertOrEmpty r n fuel h enough =
    if-Returns (not r.opens) (λ _. returns (inl refl))
      (λ _. ek_store_loop-Returns r n fuel 0 h (omega arith) (omega arith))
