-- ===== src/Client/Status.antt =====
-- `RootHeraldStatus` of common/rootherald.h, and `RootHerald_ErrorString` and the versions of
-- src/client/rootherald_client.cpp.
use sdk_windows.Prelude.{ℕ, Text, codes, Option, ◌==◌, if◌then◌else◌}

pub data RootHeraldStatus : Type 0 where
  success_status invalid_arg tpm_unavailable not_enrolled : RootHeraldStatus
  elevation_required ek_read_failed ak_failed activation_failed : RootHeraldStatus
  quote_failed entitlement_missing internal : RootHeraldStatus

unfoldable pub status_code : RootHeraldStatus → ℕ
status_code success_status = 0
status_code invalid_arg = 1
status_code tpm_unavailable = 2
status_code not_enrolled = 6
status_code elevation_required = 7
status_code ek_read_failed = 8
status_code ak_failed = 9
status_code activation_failed = 10
status_code quote_failed = 11
status_code entitlement_missing = 12
status_code internal = 99

-- What a call returns, with its out parameter.
abbrev pub Answer : Type 0
Answer = RootHeraldStatus × Option Text

-- The switch over the number that the caller passes.
unfoldable pub error_string : ℕ → Text
error_string status =
    if status == 0
    then codes "ok"
    else if status == 1
    then codes "invalid argument"
    else if status == 2
    then codes "no TPM 2.0 or secure enclave is reachable on this host"
    else if status == 6
    then codes "device is not enrolled"
    else if status == 7
    then codes
        "enrollment requires an elevated process; run EnrollBegin/EnrollComplete in an elevated resident worker (the single elevation spans both), then retry"
    else if status == 8
    then codes
        "a TPM is present but its endorsement key could not be read; check the resource manager, device permissions and driver"
    else if status == 9
    then codes "the attestation key could not be created, loaded or persisted; retry enrollment"
    else if status == 10
    then codes
        "the enrollment challenge could not be consumed; it is single-use and now spent, so restart from EnrollBegin"
    else if status == 11
    then codes "reading PCRs or producing the quote failed; retry the attestation, do not re-enroll"
    else if status == 12
    then codes
        "the host executable is not signed with a provisioning profile granting data-protection keychain access"
    else if status == 99
    then codes "internal library error"
    else codes "unknown error"
