-- ===== src/Certs/Store.antt =====
-- `ReadEkCertFromWindowsStore` of src/client/rootherald_win.cpp, and
-- `ReadWindowsTpmIntermediateStore` of src/certs/win_cert_store_intermediates.cpp. The first loop has
-- no bound of its own and runs on fuel.
pub mod Reads
pub mod Kept
use sdk_windows.Prelude.{
  ℕ, zero, suc, ◌+◌, Bool, true, false, not, ◌&&◌, ◌||◌, List, [], ◌∷◌, ◌++◌, Bytes, is_empty,
  Option, none, some, Outcome, ok, stuck, ltb, ◌==◌, if◌then◌else◌,
}
use sdk_windows.Boot.SecureBoot.{CertApi}
use sdk_windows.Windows.{Registry, Constraints}
use sdk_windows.Windows.Digests.{resize}
use sdk_windows.Certs.Blobs.{extract_der_certificate, normalize_blob_to_der}

-- The value "Blob" once its size is known.
unfoldable pub read_blob : (r : Registry) → r.Name → ℕ → Bytes
read_blob r name size = elim (r.blob name size) [
  | none ↦ []
  | some (value, read) ↦ resize read value
]

-- The certificate of one subkey, empty where any step fails.
unfoldable pub ek_cert_of : (r : Registry) → r.Name → Bytes
ek_cert_of r name = if not (r.opens_subkey name) then [] else elim (r.blob_size name) [
  | none ↦ []
  | some (type, size) ↦ if ltb 0 size then extract_der_certificate (read_blob r name size) else []
]

unfoldable pub ek_store_loop : ℕ → Registry → ℕ → Outcome Bytes
ek_store_loop zero r idx = stuck
ek_store_loop (suc fuel) r idx =
    let later = ek_store_loop fuel r (suc idx) in
    elim (r.enum_key idx) [
      | none ↦ ok []
      | some name ↦ if is_empty (ek_cert_of r name) then later else ok (ek_cert_of r name)
    ]

unfoldable pub read_ek_cert_from_windows_store : ℕ → Registry → Outcome Bytes
read_ek_cert_from_windows_store fuel r = if not r.opens then ok [] else ek_store_loop fuel r 0

-- An absent extension is accepted, one that is not decoded is not.
unfoldable pub is_likely_ca_cert : {api : CertApi} → Constraints api → api.Context → Bool
is_likely_ca_cert c ctx = elim (c.basic_constraints ctx) [
  | none ↦ true
  | some decoded ↦ elim decoded [ none ↦ false | some ca ↦ ca ]
]

abbrev pub reg_none : ℕ
reg_none = 0

abbrev pub reg_binary : ℕ
reg_binary = 3

-- The blob of one subkey as DER, empty where any step fails.
unfoldable pub intermediate_der : (r : Registry) → r.Name → Bytes
intermediate_der r name = if not (r.opens_subkey name) then [] else elim (r.blob_size name) [
  | none ↦ []
  | some (type, size) ↦
      if size == 0 || (not (type == reg_binary) && not (type == reg_none))
      then []
      else normalize_blob_to_der (read_blob r name size)
]

-- Whether a DER is kept: CryptoAPI parses it, and it may be a CA's.
unfoldable pub is_kept : (api : CertApi) → Constraints api → Bytes → Bool
is_kept api c der =
    if is_empty der
    then false
    else elim (api.create_context der) [ none ↦ false | some ctx ↦ is_likely_ca_cert c ctx ]

unfoldable pub intermediates_of :
    (api : CertApi) → Constraints api → (r : Registry) → ℕ → List Bytes
intermediates_of api c r idx = elim (r.enum_key idx) [
  | none ↦ []
  | some name ↦ if is_kept api c (intermediate_der r name) then intermediate_der r name ∷ [] else []
]

-- The loop over the indices below the count.
unfoldable pub intermediates_loop :
    ℕ → (api : CertApi) → Constraints api → Registry → ℕ → List Bytes → List Bytes
intermediates_loop zero api c r idx out = out
intermediates_loop (suc n) api c r idx out =
    intermediates_loop n api c r (suc idx) (out ++ intermediates_of api c r idx)

unfoldable pub read_windows_tpm_intermediate_store :
    (api : CertApi) → Constraints api → Registry → List Bytes
read_windows_tpm_intermediate_store api c r =
    if not r.opens
    then []
    else elim r.info [ none ↦ [] | some count ↦ intermediates_loop count api c r 0 [] ]
