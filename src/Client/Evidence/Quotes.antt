-- ===== src/Client/Evidence/Quotes.antt =====
-- Lemmas on the outcome of `RootHeraldCollectEvidence` (src/client/rootherald_win.cpp).
use sdk_windows.Prelude.{
  ℕ, ◌<◌, ◌≡◌, refl, arith, Bool, true, false, not, List, [], ◌∷◌, ◌++◌, Bytes, Text, codes,
  is_empty, Option, none, some, Returns, returns, Returns->>=, Option-cases, Bool-cases, inl, inr,
  ◌∙◌, ◌==◌,
}
use sdk_windows.Json.{json_build}
use sdk_windows.Boot.EventLog.Analysis.Counts.{parse_and_analyze_event_log-IsPaid}
use sdk_windows.Boot.SecureBoot.Chain.Verdicts.{validate_secure_boot_chain-IsReported}
use sdk_windows.Tpm.{Tbs, Tpm, Result, success, failure, failed}
use sdk_windows.Tpm.Safety.{if-Returns}
use sdk_windows.Tpm.Safety.Operations.{
  pcr_read-Ensures, quote-Ensures, is_persistent_present-Ensures,
}
use sdk_windows.Tpm.Nv.Safety.{BoundedReads, read_intel_odca_intermediates-Returns}
use sdk_windows.Tpm.KeyProvider.{Provider, new_provider, open_provider, load_ak}
use sdk_windows.Windows.{Windows}
use sdk_windows.Windows.Base64.{base64_decode}
use sdk_windows.Windows.Logs.{read_event_log}
use sdk_windows.Certs.Store.Reads.{read_ek_cert_from_windows_store-IsCertOrEmpty}
use sdk_windows.Client.Status.{
  RootHeraldStatus, success_status, invalid_arg, tpm_unavailable, not_enrolled, quote_failed,
  internal, Answer,
}
use sdk_windows.Client.Fields.{Fields}
use sdk_windows.Client.DeviceId.{derive_local_device_id}
use sdk_windows.Client.Enroll.{tbs_ak_persistent_handle, attach, allocated}
use sdk_windows.Client.Enroll.Phases.{discard-Returns}
use sdk_windows.Client.Evidence.{
  Collected, collected, rejected, select_loaded, select_opened, select_enrolled_provider,
  quoted_pcrs, pcr_value, pcr_field, pcr_values_loop, quoted_of, collect_with, quote_values,
  collect_quote, secure_boot_json, collect_rest, collect_opened, collect_selected,
  collect_evidence_fields, evidence_answer, collect_evidence,
}

-- The statuses with which no evidence is collected.
pub data IsEvidenceError : RootHeraldStatus → Type 0 where
  no_key : IsEvidenceError not_enrolled
  no_tpm : IsEvidenceError tpm_unavailable
  no_nonce : IsEvidenceError invalid_arg
  no_quote : IsEvidenceError quote_failed
  no_memory : IsEvidenceError internal

-- A value, or one of those statuses.
abbrev IsCollected : {A : Type 0} → Collected A → Type 0
IsCollected (collected a) = Unit
IsCollected (rejected status reason) = IsEvidenceError status

quoted_of-IsCollected :
    (w : Windows) (nonce : Bytes) (values : Text) (r : Result (Bytes × Bytes))
    → IsCollected (quoted_of w nonce values r)
unfolding quoted_of
quoted_of-IsCollected w nonce values (failure hr) = no_quote
quoted_of-IsCollected w nonce values (success q) = tt

secure_boot_json-Returns :
    (w : Windows) (log : Bytes) → Returns (λ (json : Text). Unit {0}) (secure_boot_json w log)
unfolding secure_boot_json
secure_boot_json-Returns w [] = returns tt
secure_boot_json-Returns w (b ∷ bs) =
    Returns->>= (validate_secure_boot_chain-IsReported w.certs (b ∷ bs))
      λ report _. Returns->>= (parse_and_analyze_event_log-IsPaid (b ∷ bs)) λ analysis _. returns tt

module _ {tbs : Tbs} where
  pcr_values_loop-Returns :
      (pcrs : List ℕ) (first : Bool) (json : Text) (t : Tpm tbs)
      → Returns (λ (r : Option Text × Tpm tbs). Unit {0}) (pcr_values_loop pcrs first json t)
  unfolding pcr_values_loop
  pcr_values_loop-Returns [] first json t = returns tt
  pcr_values_loop-Returns (index ∷ pcrs) first json t =
      Returns->>= ((pcr_read-Ensures index).run t) λ (r, t') _. elim (Option-cases (pcr_value r)) [
        | inl e ↦ rw e (returns tt)
        | inr (value, e) ↦
            rw e (pcr_values_loop-Returns pcrs false (json ++ pcr_field first index value) t')
      ]

  quote_values-Returns :
      (w : Windows) (ak : ℕ) (nonce : Bytes) (values : Option Text × Tpm tbs)
      → Returns
          (λ (r : Collected (Text × Text) × Tpm tbs). IsCollected r.0)
          (quote_values w ak nonce values)
  unfolding quote_values
  quote_values-Returns w ak nonce (none, t) = returns no_quote
  quote_values-Returns w ak nonce (some values, t) =
      Returns->>= ((quote-Ensures ak nonce quoted_pcrs).run t)
        λ (r, t') _. returns (quoted_of-IsCollected w nonce values r)

  collect_quote-Returns :
      (w : Windows) (ak : ℕ) (nonce : Bytes) (t : Tpm tbs)
      → Returns
          (λ (r : Collected (Text × Text) × Tpm tbs). IsCollected r.0)
          (collect_quote w ak nonce t)
  unfolding collect_quote
  collect_quote-Returns w ak nonce t =
      if-Returns (is_empty nonce) (λ _. returns no_nonce)
        λ _.
          Returns->>= (pcr_values_loop-Returns quoted_pcrs true (codes "{\"sha256\":{") t)
            λ values _. quote_values-Returns w ak nonce values

  -- What is selected has the one persistent handle.
  abbrev IsSelected : Option (Provider tbs) × tbs.Device → Type 0
  IsSelected (none, d) = Unit
  IsSelected (some p, d) = p.persistent_handle ≡ tbs_ak_persistent_handle

  select_loaded-Returns :
      (hr : ℕ) (p : Provider tbs)
      → p.persistent_handle ≡ tbs_ak_persistent_handle
      → Returns IsSelected (select_loaded (hr, p))
  unfolding select_loaded
  select_loaded-Returns hr p e =
      if-Returns (failed hr) (λ _. Returns->>= (discard-Returns p) λ d _. returns tt)
        (λ _. returns e)

  load_ak-Returns :
      (p : Provider tbs)
      → Returns (λ (r : ℕ × Provider tbs). r.1.persistent_handle ≡ p.persistent_handle) (load_ak p)
  unfolding load_ak
  load_ak-Returns p =
      Returns->>= ((is_persistent_present-Ensures p.persistent_handle).run p.tpm)
        λ r _. returns refl

  select_opened-Returns :
      (hr : ℕ) (p : Provider tbs)
      → p.persistent_handle ≡ tbs_ak_persistent_handle
      → Returns IsSelected (select_opened (hr, p))
  unfolding select_opened
  select_opened-Returns hr p e =
      if-Returns (failed hr) (λ _. Returns->>= (discard-Returns p) λ d _. returns tt)
        (λ _.
          Returns->>= (load_ak-Returns p) λ (hr', p') same. select_loaded-Returns hr' p' (same ∙ e))

select_enrolled_provider-Returns :
    (tbs : Tbs) (d : tbs.Device) → Returns (IsSelected {tbs = tbs}) (select_enrolled_provider tbs d)
unfolding select_enrolled_provider open_provider new_provider
select_enrolled_provider-Returns tbs d = select_opened-Returns _ _ refl

pub derive_local_device_id-Returns :
    (w : Windows) (n fuel : ℕ)
    → w.ek_store.enum_key n ≡ none
    → n < fuel
    → Returns (λ (id : Text). Unit {0}) (derive_local_device_id fuel w)
unfolding derive_local_device_id
derive_local_device_id-Returns w n fuel ends enough =
    Returns->>= (read_ek_cert_from_windows_store-IsCertOrEmpty w.ek_store n fuel ends enough)
      λ cert _. returns tt

module _ {tbs : Tbs} (reads : BoundedReads tbs) (w : Windows) (n fuel : ℕ)
    (ends : w.ek_store.enum_key n ≡ none) (enough : n < fuel) where
  collect_rest-Returns :
      (r : Collected (Text × Text) × Tpm tbs)
      → IsCollected r.0
      → Returns (λ (c : Collected Fields × Tpm tbs). IsCollected c.0) (collect_rest fuel w r)
  unfolding collect_rest
  collect_rest-Returns (rejected status reason, t) h = returns h
  collect_rest-Returns (collected q, t) h =
      Returns->>= (secure_boot_json-Returns w (read_event_log w.logs)) λ secure_boot _.
        Returns->>= (read_ek_cert_from_windows_store-IsCertOrEmpty w.ek_store n fuel ends enough)
          λ ek_cert _.
            Returns->>= (read_intel_odca_intermediates-Returns tbs reads t) λ (chain, t') _.
              Returns->>= (derive_local_device_id-Returns w n fuel ends enough) λ id _. returns tt

  collect_opened-Returns :
      (nonce : Bytes) (ak hr : ℕ) (t : Tpm tbs)
      → Returns
          (λ (c : Collected Fields × tbs.Device). IsCollected c.0)
          (collect_opened fuel w nonce ak (hr, t))
  unfolding collect_opened
  collect_opened-Returns nonce ak hr t =
      if-Returns (failed hr) (λ _. returns no_tpm)
        λ _.
          Returns->>= (collect_quote-Returns w ak nonce t)
            λ quoted h. Returns->>= (collect_rest-Returns quoted h) λ (r, t') h'. returns h'

  collect_with-Returns :
      (nonce : Bytes) (ak : ℕ) (d : tbs.Device)
      → ak ≡ tbs_ak_persistent_handle
      → Returns
          (λ (c : Collected Fields × tbs.Device). IsCollected c.0)
          (collect_with tbs fuel w nonce ak d)
  unfolding collect_with
  collect_with-Returns nonce ak d e =
      let some_handle : (ak == 0) ≡ false = ground arith in
      rw some_handle (collect_opened-Returns nonce ak _ _)

  collect_selected-Returns :
      (nonce : Bytes) (selected : Option (Provider tbs) × tbs.Device)
      → IsSelected selected
      → Returns
          (λ (c : Collected Fields × tbs.Device). IsCollected c.0)
          (collect_selected fuel w nonce selected)
  unfolding collect_selected
  collect_selected-Returns nonce (none, d) h = returns no_key
  collect_selected-Returns nonce (some p, d) h =
      Returns->>= (collect_with-Returns nonce p.persistent_handle d h)
        λ (r, d') h'. Returns->>= (discard-Returns (attach d' p)) λ d'' _. returns h'

-- A status with the text that is handed out.
pub data IsAnswered : Answer → Type 0 where
  given_evidence : (json : Text) → IsAnswered (success_status, some json)
  no_evidence : (status : RootHeraldStatus) → IsEvidenceError status → IsAnswered (status, none)

evidence_answer-IsAnswered :
    (w : Windows) (r : Collected Fields) → IsCollected r → IsAnswered (evidence_answer w r)
unfolding evidence_answer
evidence_answer-IsAnswered w (rejected status reason) h = no_evidence status h
evidence_answer-IsAnswered w (collected fields) h =
    elim (Bool-cases (not (allocated w (json_build fields)))) [
      | inl e ↦ rw e (no_evidence internal no_memory)
      | inr e ↦ rw e (given_evidence (json_build fields))
    ]

-- On a TPM that returns at most as many bytes as a TPM2_NV_Read asks for, with an enumeration of subkeys
-- that ends, collecting evidence comes to an end, whatever else the TPM, the event log and Windows give:
-- with ROOTHERALD_OK and a text, or with NOT_ENROLLED, TPM_UNAVAILABLE, INVALID_ARG, QUOTE_FAILED or
-- INTERNAL and no text; no other status occurs.
pub collect_evidence-IsAnswered :
    (tbs : Tbs) (w : Windows) (n fuel : ℕ) (nonce : Text) (d : tbs.Device)
    → BoundedReads tbs
    → w.ek_store.enum_key n ≡ none
    → n < fuel
    → Returns (λ (r : Answer × tbs.Device). IsAnswered r.0) (collect_evidence tbs fuel w nonce d)
unfolding collect_evidence collect_evidence_fields
collect_evidence-IsAnswered tbs w n fuel nonce d reads ends enough =
    Returns->>=
      (Returns->>= (select_enrolled_provider-Returns tbs d) λ selected h.
        collect_selected-Returns reads w n fuel ends enough (base64_decode w.base64 nonce) selected
          h)
      λ (r, d') h. returns (evidence_answer-IsAnswered w r h)
