-- ===== src/Tests/Clients.antt =====
-- The driver and the ABI (src/client) on a machine of the tests.
use sdk_windows.Prelude.{
  List, Bytes, ℕ, zero, suc, ◌+◌, ◌≤◌, ◌≡◌, refl, arith, [], ◌∷◌, Text, codes, length, take,
  replicate, Option, none, ok, Returns, text_eq, Returns-eq_ok, Returns-weaken,
}
use sdk_windows.Client.Status.{Answer}
use sdk_windows.Client.DeviceId.{derive_local_device_id}
use sdk_windows.Client.DeviceId.Format.{IsBytes, IsDeviceId, derive_local_device_id-IsDeviceId}
use sdk_windows.Client.Gather.{
  EkEnrollData, build_enroll_fields, max_intermediates, merge_intermediates, gather_ek_enroll_data,
}
use sdk_windows.Client.Gather.Merge.{Deduplicated, merge_intermediates-take}
use sdk_windows.Client.Gather.Total.{IsGathered, gather_ek_enroll_data-IsGathered}
use sdk_windows.Json.{begins_nested, is_verbatim, json_build, json_get}
use sdk_windows.Windows.Base64.{trim_end, base64_encode}
use sdk_windows.Windows.Digests.{resize}
use sdk_windows.Client.Enroll.Requests.{build_enroll_fields-area, activation_json-secret}
use sdk_windows.Client.Enroll.{activation_json, State, enroll_begin, enroll_complete}
use sdk_windows.Client.Enroll.Phases.{
  enroll_begin-Begins, enroll_complete-Completes, Begins, Completes,
}
use sdk_windows.Client.Enroll.Phases.Reachable.{
  Implements, Reachable, start, after_use, after_begin, after_complete, given, IsSane,
  enrollment-Implements, enrollment-IsSane,
}
use sdk_windows.Client.Evidence.{collect_evidence}
use sdk_windows.Client.Evidence.Quotes.{IsAnswered, collect_evidence-IsAnswered}
use sdk_windows.Client.Abi.Outs.{AllHandOut, calls-AllHandOut}
use sdk_windows.Client.Contexts.Reports.{AllClose, calls-AllClose}
use sdk_windows.Windows.Digests.{bcrypt_digest}
use sdk_windows.Tests.Devices.{toy_tbs}
use sdk_windows.Tests.Machine.{
  ledger_tbs, ledger_counts, ledger_tbs-BoundedReads, toy_digest, toy_certificate, toy_windows,
  toy_windows-Ends, toy_tbs-BoundedReads,
}

abbrev idle_state : State toy_tbs
idle_state = record { device = 0; enroll_provider = none }

abbrev toy_challenge : Text
toy_challenge = codes "{\"deviceId\":\"d\",\"credentialBlob\":\"b\",\"encryptedSecret\":\"s\"}"

replicate-IsBytes : (n : ℕ) → IsBytes (replicate n 0xAB)
replicate-IsBytes zero = tt
replicate-IsBytes (suc n) = (omega arith, replicate-IsBytes n)

derive_local_device_id-IsDeviceId_example :
    Returns IsDeviceId (derive_local_device_id 3 toy_windows)
derive_local_device_id-IsDeviceId_example =
    derive_local_device_id-IsDeviceId toy_windows 2 3 refl (omega arith)
      (λ contents. replicate-IsBytes 20)

merge_intermediates-take_example :
    (kept : List Bytes) × Deduplicated
      (bcrypt_digest (toy_digest 32))
      (toy_certificate ∷ [])
      (toy_certificate ∷ [])
      kept
    × (merge_intermediates (toy_digest 32) (toy_certificate ∷ []) (toy_certificate ∷ [])
        ≡ take max_intermediates (toy_certificate ∷ kept))
    × (length (merge_intermediates (toy_digest 32) (toy_certificate ∷ []) (toy_certificate ∷ []))
        ≤ max_intermediates)
merge_intermediates-take_example =
    merge_intermediates-take (toy_digest 32) (toy_certificate ∷ []) (toy_certificate ∷ [])
      (omega arith)

gather_ek_enroll_data-IsGathered_example :
    Returns
      (λ (g : Option EkEnrollData × ℕ). IsGathered g.0)
      (gather_ek_enroll_data toy_tbs 3 toy_windows 0)
gather_ek_enroll_data-IsGathered_example =
    gather_ek_enroll_data-IsGathered toy_tbs toy_windows 3 0 toy_tbs-BoundedReads toy_windows-Ends

enrollment-Implements_example : Implements toy_tbs 3 toy_windows
enrollment-Implements_example =
    enrollment-Implements toy_tbs 3 toy_windows toy_tbs-BoundedReads toy_windows-Ends

collect_evidence-IsAnswered_example :
    Returns
      (λ (r : Answer × ℕ). IsAnswered r.0)
      (collect_evidence toy_tbs 3 toy_windows (codes "nonce") 0)
collect_evidence-IsAnswered_example =
    collect_evidence-IsAnswered toy_tbs toy_windows 2 3 (codes "nonce") 0 toy_tbs-BoundedReads refl
      (omega arith)

calls-AllHandOut_example : AllHandOut toy_tbs 3 toy_windows
calls-AllHandOut_example =
    calls-AllHandOut toy_tbs 3 toy_windows toy_tbs-BoundedReads toy_windows-Ends

-- A run: an enrollment is begun, the TPM is used otherwise, and a challenge is answered.
abbrev begun_run :
    (r : Answer × State toy_tbs) × (enroll_begin 3 toy_windows idle_state ≡ ok r)
    × Begins {tbs = toy_tbs} none r
begun_run = Returns-eq_ok (
    enroll_begin-Begins toy_tbs 3 toy_windows idle_state (
      Returns-weaken (λ _ _. tt)
        (gather_ek_enroll_data-IsGathered toy_tbs toy_windows 3 0 toy_tbs-BoundedReads
          toy_windows-Ends)))

abbrev used_state : State toy_tbs
used_state = record begun_run.0.1 { device = 7 }

abbrev completed_run :
    (r : Answer × State toy_tbs) × (enroll_complete toy_windows toy_challenge used_state ≡ ok r)
    × Completes {tbs = toy_tbs} used_state.enroll_provider r
completed_run =
    Returns-eq_ok (enroll_complete-Completes toy_tbs toy_windows toy_challenge used_state)

run-Reachable :
    Reachable toy_tbs (0 + given begun_run.0.0) (0 + given completed_run.0.0) completed_run.0.1
run-Reachable =
    after_complete toy_windows toy_challenge (0 + given begun_run.0.0) 0 used_state completed_run.0
      (after_use (0 + given begun_run.0.0) 0 begun_run.0.1 7
        (after_begin 3 toy_windows 0 0 idle_state begun_run.0 (start 0) begun_run.1))
      completed_run.1

enrollment-IsSane_example :
    IsSane (0 + given begun_run.0.0) (0 + given completed_run.0.0) completed_run.0.1.enroll_provider
enrollment-IsSane_example =
    enrollment-IsSane toy_tbs (0 + given begun_run.0.0) (0 + given completed_run.0.0)
      completed_run.0.1 run-Reachable

abbrev toy_data : EkEnrollData
toy_data = record {
  public_key = codes "key";
  ek_cert_pem = codes "pem";
  intermediates = toy_certificate ∷ [];
}

build_enroll_fields-area_example :
    json_get
      (json_build (build_enroll_fields toy_windows.base64 toy_data (codes "area")))
      (codes "akPublicArea")
    ≡ base64_encode toy_windows.base64 (codes "area")
unfolding base64_encode trim_end resize is_verbatim text_eq begins_nested
build_enroll_fields-area_example =
    build_enroll_fields-area toy_windows.base64 toy_data (codes "area") refl

activation_json-secret_example :
    json_get (activation_json toy_windows (codes "d") (codes "secret")) (codes "decryptedSecret")
    ≡ base64_encode toy_windows.base64 (codes "secret")
unfolding base64_encode trim_end resize is_verbatim text_eq begins_nested
activation_json-secret_example =
    activation_json-secret toy_windows (codes "d") (codes "secret") refl

calls-AllClose_example : AllClose ledger_tbs ledger_counts 3 toy_windows
calls-AllClose_example =
    calls-AllClose ledger_tbs ledger_counts 3 toy_windows ledger_tbs-BoundedReads toy_windows-Ends
