-- ===== src/Tests/Certificates.antt =====
-- Certificates and what Windows gives (src/certs, src/transport, src/internal/unique_handle.h).
use sdk_windows.Prelude.{
  ◌+◌, ◌≤◌, true, List, ◌≡◌, ◌⊎◌, refl, arith, [], ◌∷◌, ◌++◌, Bytes, codes, length, replicate, ok,
  Returns,
}
use sdk_windows.Tpm.{Tpm}
use sdk_windows.Tpm.Nv.{read_intel_odca_intermediates}
use sdk_windows.Tpm.Nv.Cut.{max_certificates}
use sdk_windows.Tpm.Nv.Safety.{read_intel_odca_intermediates-Returns}
use sdk_windows.Windows.Http.{http_get}
use sdk_windows.Windows.Http.Responses.{Responded, http_get-Responded}
use sdk_windows.Windows.Handles.Ledger.{
  this, other, Op, put, reset, release, assign, construct, count, end_scope, run_ops, empty_ledger,
  end_scope-count,
}
use sdk_windows.Certs.Blobs.{extract_der_certificate}
use sdk_windows.Certs.Blobs.Found.{
  IsFramed, framed, StandsIn, extract_der_certificate-IsHeader, extract_der_certificate-StandsIn,
}
use sdk_windows.Certs.Store.{read_ek_cert_from_windows_store, read_windows_tpm_intermediate_store}
use sdk_windows.Certs.Store.Kept.{
  AllIssuers, IsStore, read_windows_tpm_intermediate_store-AllIssuers,
}
use sdk_windows.Tests.Keys.{toy_api}
use sdk_windows.Certs.Store.Reads.{IsCertOrEmpty, read_ek_cert_from_windows_store-IsCertOrEmpty}
use sdk_windows.Certs.Amd.{extract_rsa_modulus_from_ek_pub, max_modulus_bytes}
use sdk_windows.Certs.Amd.Modulus.{
  rsa_blob, extract_rsa_modulus_from_ek_pub-rsa_blob, extract_rsa_modulus_from_ek_pub-IsSmall,
}
use sdk_windows.Tests.Devices.{toy_tbs}
use sdk_windows.Tests.Machine.{
  toy_windows, toy_certificate, toy_registry, toy_http, toy_http-Responds, toy_tbs-BoundedReads,
}

extract_der_certificate-IsHeader_example :
    extract_der_certificate ((1 ∷ 2 ∷ []) ++ (toy_certificate ++ (0xFF ∷ 0 ∷ []))) ≡ toy_certificate
extract_der_certificate-IsHeader_example =
    extract_der_certificate-IsHeader (1 ∷ 2 ∷ []) toy_certificate (0xFF ∷ 0 ∷ [])
      (λ e. omega (arith, e), (λ e. omega (arith, e), tt))
      (framed 0 61 (replicate 61 7) refl (omega arith))

extract_der_certificate-StandsIn_example :
    (extract_der_certificate (5 ∷ toy_certificate) ≡ [])
    ⊎ (IsFramed (extract_der_certificate (5 ∷ toy_certificate))
        × StandsIn (5 ∷ toy_certificate) (extract_der_certificate (5 ∷ toy_certificate)))
extract_der_certificate-StandsIn_example = extract_der_certificate-StandsIn (5 ∷ toy_certificate)

read_ek_cert_from_windows_store-IsCertOrEmpty_example :
    Returns IsCertOrEmpty (read_ek_cert_from_windows_store 3 toy_registry)
read_ek_cert_from_windows_store-IsCertOrEmpty_example =
    read_ek_cert_from_windows_store-IsCertOrEmpty toy_registry 2 3 refl (omega arith)

extract_rsa_modulus_from_ek_pub-rsa_blob_example :
    extract_rsa_modulus_from_ek_pub (rsa_blob 32 (1 ∷ 0 ∷ 1 ∷ []) (9 ∷ 8 ∷ 7 ∷ 6 ∷ []) (0 ∷ []))
    ≡ ok (9 ∷ 8 ∷ 7 ∷ 6 ∷ [])
extract_rsa_modulus_from_ek_pub-rsa_blob_example =
    extract_rsa_modulus_from_ek_pub-rsa_blob 32 (1 ∷ 0 ∷ 1 ∷ []) (9 ∷ 8 ∷ 7 ∷ 6 ∷ []) (0 ∷ [])
      (omega arith) (omega arith) (omega arith)

extract_rsa_modulus_from_ek_pub-IsSmall_example :
    Returns
      (λ (modulus : Bytes). length modulus ≤ max_modulus_bytes)
      (extract_rsa_modulus_from_ek_pub (replicate 24 0xFF))
extract_rsa_modulus_from_ek_pub-IsSmall_example =
    extract_rsa_modulus_from_ek_pub-IsSmall (replicate 24 0xFF)

http_get-Responded_example :
    Returns (Responded toy_http (codes "https://a/b") 2) (http_get 3 toy_http (codes "https://a/b"))
http_get-Responded_example =
    http_get-Responded toy_http (codes "https://a/b") 2 3 (toy_http-Responds (codes "https://a/b"))
      (omega arith)

abbrev ledger_calls : List Op
ledger_calls =
    put this 5
    ∷ put other 6
    ∷ assign this other
    ∷ assign this this
    ∷ construct other
    ∷ reset this 5
    ∷ release other
    ∷ []

end_scope-count_example :
    count 5 (end_scope (run_ops ledger_calls empty_ledger)).acquired
    ≡ count 5 (end_scope (run_ops ledger_calls empty_ledger)).pair.closed
      + count 5 (end_scope (run_ops ledger_calls empty_ledger)).given
end_scope-count_example = end_scope-count 5 ledger_calls (λ e. omega (arith, e))

read_intel_odca_intermediates-Returns_example :
    Returns
      (λ (r : List Bytes × Tpm toy_tbs). length r.0 ≤ max_certificates)
      (read_intel_odca_intermediates [] (record { is_open = true; device = 0 }))
read_intel_odca_intermediates-Returns_example =
    read_intel_odca_intermediates-Returns toy_tbs toy_tbs-BoundedReads
      (record { is_open = true; device = 0 })

read_windows_tpm_intermediate_store-AllIssuers_example :
    IsStore toy_api toy_windows.constraints toy_registry 2
      (read_windows_tpm_intermediate_store toy_api toy_windows.constraints toy_registry)
    × AllIssuers toy_api toy_windows.constraints
        (read_windows_tpm_intermediate_store toy_api toy_windows.constraints toy_registry)
    × (length (read_windows_tpm_intermediate_store toy_api toy_windows.constraints toy_registry)
        ≤ 2)
read_windows_tpm_intermediate_store-AllIssuers_example =
    read_windows_tpm_intermediate_store-AllIssuers toy_api toy_windows.constraints toy_registry 2
      refl
