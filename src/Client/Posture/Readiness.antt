-- ===== src/Client/Posture/Readiness.antt =====
-- Lemmas on the local posture (src/client/rootherald_win.cpp) and the sizes of its fields.
use sdk_windows.Prelude.{
  ℕ, ◌-◌, ◌<◌, ◌≡◌, refl, arith, Bool, true, false, [], ◌∷◌, Bytes, Text, codes, length,
  length-take, none, Returns, returns, Returns->>=, ltb,
}
use sdk_windows.Json.{json_build}
use sdk_windows.Boot.EventLog.Analysis.Counts.{parse_and_analyze_event_log-IsPaid}
use sdk_windows.Boot.SecureBoot.Chain.Verdicts.{validate_secure_boot_chain-IsReported}
use sdk_windows.Tpm.{Tbs, failed}
use sdk_windows.Tpm.Safety.{if-Returns}
use sdk_windows.Tpm.Safety.Operations.{is_persistent_present-Ensures}
use sdk_windows.Tpm.KeyProvider.{Provider, ak_exists}
use sdk_windows.Windows.{Windows}
use sdk_windows.Windows.Pcp.{is_available}
use sdk_windows.Windows.Logs.{read_event_log}
use sdk_windows.Certs.Store.Reads.{read_ek_cert_from_windows_store-IsCertOrEmpty}
use sdk_windows.Client.Fields.{Fields}
use sdk_windows.Client.Enroll.Phases.{discard-Returns}
use sdk_windows.Client.Evidence.Quotes.{derive_local_device_id-Returns}
use sdk_windows.Client.Posture.{
  ℤ, pos, minus_one, int_of_bool, c_string, copied, RootHeraldPosture, ak_persisted_in,
  is_ak_persisted, local_device_id, ready_posture, note_log, collect_local_posture,
}

length-copied : (size : ℕ) (text : Text) → 0 < size → length (copied size text) < size
unfolding copied
length-copied size text h = omega (arith, length-take (size - 1) (c_string text))

-- 0 or 1.
pub data IsFlag : ℤ → Type 0 where
  off : IsFlag (pos 0)
  on : IsFlag (pos 1)

int_of_bool-IsFlag : (b : Bool) → IsFlag (int_of_bool b)
int_of_bool-IsFlag true = on
int_of_bool-IsFlag false = off

-- What the log decides: nothing is known without one, and both flags with one.
pub data IsLogged : Bytes → ℤ → ℤ → ℤ → Type 0 where
  no_log : IsLogged [] minus_one minus_one minus_one
  logged :
      (b : ℕ) (bs : Bytes) (secure_boot oem_keyed measurements : ℤ)
      → IsFlag secure_boot
      → IsFlag oem_keyed
      → IsLogged (b ∷ bs) secure_boot oem_keyed measurements

-- The three answers are flags, the revocations -1, and each text leaves room for its terminator.
pub record IsReadiness (log : Bytes) (p : RootHeraldPosture) : Type 0 where
  pub tpm_is : IsFlag p.has_tpm
  pub enrolled_is : IsFlag p.is_enrolled
  pub cert_is : IsFlag p.ek_cert_present
  pub revoked_is : p.boot_log_revoked ≡ minus_one
  pub log_is : IsLogged log p.secure_boot p.oem_keyed p.boot_log_measurements
  pub oem_fits : length p.oem_name < 64
  pub id_fits : length p.device_id < 129
  pub platform_fits : length p.platform_name < 16
  pub detail_fits : length p.detail_json < 2048

-- What of it holds ahead of the log.
record IsReadyPosture (p : RootHeraldPosture) : Type 0 where
  tpm_is : IsFlag p.has_tpm
  enrolled_is : IsFlag p.is_enrolled
  cert_is : IsFlag p.ek_cert_present
  revoked_is : p.boot_log_revoked ≡ minus_one
  log_is : IsLogged [] p.secure_boot p.oem_keyed p.boot_log_measurements
  oem_fits : length p.oem_name < 64
  id_fits : length p.device_id < 129
  platform_fits : length p.platform_name < 16

ready_posture-IsReadyPosture :
    (has_tpm enrolled ek_cert : Bool) (id : Text)
    → length id < 129
    → IsReadyPosture (ready_posture has_tpm enrolled ek_cert id)
unfolding ready_posture
ready_posture-IsReadyPosture has_tpm enrolled ek_cert id h = record {
  tpm_is = int_of_bool-IsFlag has_tpm;
  enrolled_is = int_of_bool-IsFlag enrolled;
  cert_is = int_of_bool-IsFlag ek_cert;
  revoked_is = refl;
  log_is = no_log;
  oem_fits = omega arith;
  id_fits = h;
  platform_fits = length-copied 16 (codes "windows") (omega arith);
}

-- With the detail still to come.
abbrev IsNoted : Bytes → RootHeraldPosture × Fields → Type 0
IsNoted log (p, fields) =
    (text : Text) → length text < 2048 → IsReadiness log (record p { detail_json = text })

note_log-IsNoted :
    (w : Windows) (log : Bytes) (p : RootHeraldPosture) (fields : Fields)
    → IsReadyPosture p
    → Returns (IsNoted log) (note_log w log (p, fields))
unfolding note_log
note_log-IsNoted w [] p fields r = returns λ text h. record {
  tpm_is = r.tpm_is;
  enrolled_is = r.enrolled_is;
  cert_is = r.cert_is;
  revoked_is = r.revoked_is;
  log_is = r.log_is;
  oem_fits = r.oem_fits;
  id_fits = r.id_fits;
  platform_fits = r.platform_fits;
  detail_fits = h;
}
note_log-IsNoted w (b ∷ bs) p fields r =
    Returns->>= (validate_secure_boot_chain-IsReported w.certs (b ∷ bs)) λ report _.
      Returns->>= (parse_and_analyze_event_log-IsPaid (b ∷ bs)) λ analysis _. returns λ text h.
        record {
          tpm_is = r.tpm_is;
          enrolled_is = r.enrolled_is;
          cert_is = r.cert_is;
          revoked_is = r.revoked_is;
          log_is =
              logged b bs _ _ _ (int_of_bool-IsFlag report.secure_boot_enabled)
                (int_of_bool-IsFlag report.pk_is_known_oem);
          oem_fits = length-copied 64 report.pk_oem_name (omega arith);
          id_fits = r.id_fits;
          platform_fits = r.platform_fits;
          detail_fits = h;
        }

module _ {tbs : Tbs} where
  ak_exists-Returns :
      (p : Provider tbs) → Returns (λ (r : Bool × Provider tbs). Unit {0}) (ak_exists p)
  unfolding ak_exists
  ak_exists-Returns p =
      Returns->>= ((is_persistent_present-Ensures p.persistent_handle).run p.tpm) λ r _. returns tt

  ak_persisted_in-Returns :
      (hr : ℕ) (p : Provider tbs)
      → Returns (λ (r : Bool × tbs.Device). Unit {0}) (ak_persisted_in (hr, p))
  unfolding ak_persisted_in
  ak_persisted_in-Returns hr p =
      if-Returns (failed hr) (λ _. Returns->>= (discard-Returns p) λ d _. returns tt)
        (λ _.
          Returns->>= (ak_exists-Returns p)
            λ (exists, p') _. Returns->>= (discard-Returns p') λ d _. returns tt)

is_ak_persisted-Returns :
    (tbs : Tbs) (d : tbs.Device)
    → Returns (λ (r : Bool × tbs.Device). Unit {0}) (is_ak_persisted tbs d)
unfolding is_ak_persisted
is_ak_persisted-Returns tbs d = ak_persisted_in-Returns _ _

local_device_id-Returns :
    (w : Windows) (n fuel : ℕ) (has_tpm : Bool)
    → w.ek_store.enum_key n ≡ none
    → n < fuel
    → Returns (λ (id : Text). length id < 129) (local_device_id fuel w has_tpm)
unfolding local_device_id
local_device_id-Returns w n fuel false ends enough = returns (omega arith)
local_device_id-Returns w n fuel true ends enough =
    Returns->>= (derive_local_device_id-Returns w n fuel ends enough)
      λ id _. returns (length-copied 129 id (omega arith))

pub collect_local_posture-IsReadiness :
    (tbs : Tbs) (w : Windows) (n fuel : ℕ) (d : tbs.Device)
    → w.ek_store.enum_key n ≡ none
    → n < fuel
    → Returns
        (λ (r : RootHeraldPosture × tbs.Device). IsReadiness (read_event_log w.logs) r.0)
        (collect_local_posture tbs fuel w d)
unfolding collect_local_posture
collect_local_posture-IsReadiness tbs w n fuel d ends enough =
    Returns->>= (is_ak_persisted-Returns tbs d) λ (enrolled, d') _.
      Returns->>= (read_ek_cert_from_windows_store-IsCertOrEmpty w.ek_store n fuel ends enough)
        λ cert _.
          Returns->>= (local_device_id-Returns w n fuel (is_available w.ncrypt) ends enough)
            λ id fits.
              Returns->>=
                (note_log-IsNoted w (read_event_log w.logs) _ _ (
                  ready_posture-IsReadyPosture (is_available w.ncrypt) enrolled
                    (ltb 32 (length cert)) id fits))
                λ (p, fields) noted. returns (
                  noted (copied 2048 (json_build fields))
                    (length-copied 2048 (json_build fields) (omega arith)))
