-- ===== src/Client/Contexts/Reports.antt =====
-- The evidence and the posture (src/client/rootherald_win.cpp) with their contexts, and all of the calls.
use sdk_windows.Prelude.{
  ℕ, Bool, true, false, List, [], ◌∷◌, ◌++◌, Bytes, Text, codes, is_empty, Option, none, some,
  Option-cases, inl, inr, Outcome, Returns, returns, Returns-weaken, ◌==◌,
}
use sdk_windows.Tpm.{Tbs, Tpm, failed}
use sdk_windows.Tpm.Contexts.{
  Counts, IfOk, if_ok, IfOk-weaken, IfOk->>=, if-IfOk, any_outcome, Same, same, Same-trans,
  read_intel_odca_intermediates-Same, pcr_read-Stays, quote-Stays,
}
use sdk_windows.Tpm.Nv.Safety.{BoundedReads}
use sdk_windows.Tpm.KeyProvider.{Provider, new_provider, open_provider}
use sdk_windows.Windows.{Windows}
use sdk_windows.Windows.Base64.{base64_decode}
use sdk_windows.Windows.Logs.{read_event_log}
use sdk_windows.Windows.Pcp.{is_available}
use sdk_windows.Certs.Store.{read_ek_cert_from_windows_store}
use sdk_windows.Client.Status.{Answer}
use sdk_windows.Client.Fields.{Fields}
use sdk_windows.Client.DeviceId.{derive_local_device_id}
use sdk_windows.Client.Gather.Total.{Ends, gather_ek_enroll_data-IsGathered}
use sdk_windows.Client.Enroll.{State, attach, enroll_begin, enroll_complete}
use sdk_windows.Client.Enroll.Phases.{enroll_begin-Begins, enroll_complete-Completes}
use sdk_windows.Client.Evidence.{
  Collected, collected, rejected, select_loaded, select_opened, select_enrolled_provider,
  quoted_pcrs, pcr_value, pcr_field, pcr_values_loop, quote_values, collect_quote, secure_boot_json,
  collect_rest, collect_opened, collect_with, collect_selected, collect_evidence_fields,
  collect_evidence,
}
use sdk_windows.Client.Evidence.Quotes.{collect_evidence-IsAnswered}
use sdk_windows.Client.Posture.{
  RootHeraldPosture, ak_persisted_in, is_ak_persisted, local_device_id, note_log,
  collect_local_posture,
}
use sdk_windows.Client.Posture.Readiness.{collect_local_posture-IsReadiness}
use sdk_windows.Client.Contexts.{
  open_count, Moves, Moves-trans, Moves-hold, Moves-refl, Same-Moves, opened-Moves, close_tpm-Moves,
  load_ak-Kept, ak_exists-Kept, discard-Moves,
}
use sdk_windows.Client.Contexts.Calls.{held_count, Closes, enroll_begin-Closes, complete_from}

module _ {tbs : Tbs} (c : Counts tbs) where
  pcr_values_loop-Same :
      (pcrs : List ℕ) (first : Bool) (json : Text) (t : Tpm tbs)
      → IfOk (λ (r : Option Text × Tpm tbs). Same c t r.1) (pcr_values_loop pcrs first json t)
  unfolding pcr_values_loop
  pcr_values_loop-Same [] first json t = if_ok (same c t)
  pcr_values_loop-Same (index ∷ pcrs) first json t =
      IfOk->>= ((pcr_read-Stays c index).stays t) λ (r, t') h. elim (Option-cases (pcr_value r)) [
        | inl e ↦ rw e (if_ok h)
        | inr (value, e) ↦ rw e (
            IfOk-weaken (λ out k. Same-trans c h k)
              (pcr_values_loop-Same pcrs false (json ++ pcr_field first index value) t'))
      ]

  quote_values-Same :
      (w : Windows) (ak : ℕ) (nonce : Bytes) (values : Option Text) (t : Tpm tbs)
      → IfOk
          (λ (r : Collected (Text × Text) × Tpm tbs). Same c t r.1)
          (quote_values w ak nonce (values, t))
  unfolding quote_values
  quote_values-Same w ak nonce none t = if_ok (same c t)
  quote_values-Same w ak nonce (some values) t =
      IfOk->>= ((quote-Stays c ak nonce quoted_pcrs).stays t) λ (r, t') h. if_ok h

  collect_quote-Same :
      (w : Windows) (ak : ℕ) (nonce : Bytes) (t : Tpm tbs)
      → IfOk (λ (r : Collected (Text × Text) × Tpm tbs). Same c t r.1) (collect_quote w ak nonce t)
  unfolding collect_quote
  collect_quote-Same w ak nonce t =
      if-IfOk (is_empty nonce) (λ _. if_ok (same c t))
        λ _.
          IfOk->>= (pcr_values_loop-Same quoted_pcrs true (codes "{\"sha256\":{") t)
            λ (values, t') h.
              IfOk-weaken (λ out k. Same-trans c h k) (quote_values-Same w ak nonce values t')

  collect_rest-Same :
      (fuel : ℕ) (w : Windows) (r : Collected (Text × Text)) (t : Tpm tbs)
      → IfOk (λ (out : Collected Fields × Tpm tbs). Same c t out.1) (collect_rest fuel w (r, t))
  unfolding collect_rest
  collect_rest-Same fuel w (rejected status reason) t = if_ok (same c t)
  collect_rest-Same fuel w (collected q) t =
      IfOk->>= (any_outcome (secure_boot_json w (read_event_log w.logs))) λ secure_boot _.
        IfOk->>= (any_outcome (read_ek_cert_from_windows_store fuel w.ek_store)) λ ek_cert _.
          IfOk->>= (read_intel_odca_intermediates-Same c [] t)
            λ (chain, t') h. IfOk->>= (any_outcome (derive_local_device_id fuel w)) λ id _. if_ok h

  collect_opened-Moves :
      (fuel : ℕ) (w : Windows) (nonce : Bytes) (ak hr : ℕ) (t : Tpm tbs)
      → IfOk
          (λ (r : Collected Fields × tbs.Device). Moves c t.device (open_count c t) r.1 0)
          (collect_opened fuel w nonce ak (hr, t))
  unfolding collect_opened
  collect_opened-Moves fuel w nonce ak hr t =
      if-IfOk (failed hr) (λ _. if_ok (close_tpm-Moves c t))
        λ _. IfOk->>= (collect_quote-Same w ak nonce t) λ (q, t1) h.
          IfOk->>= (collect_rest-Same fuel w q t1) λ (r, t2) k.
            if_ok (Moves-trans c (Same-Moves c (Same-trans c h k)) (close_tpm-Moves c t2))

  collect_with-Moves :
      (fuel : ℕ) (w : Windows) (nonce : Bytes) (ak : ℕ) (d : tbs.Device)
      → IfOk
          (λ (r : Collected Fields × tbs.Device). Moves c d 0 r.1 0)
          (collect_with tbs fuel w nonce ak d)
  unfolding collect_with
  collect_with-Moves fuel w nonce ak d =
      if-IfOk (ak == 0) (λ _. if_ok (Moves-refl c))
        λ _.
          IfOk-weaken (λ out m. Moves-trans c (opened-Moves c d) m)
            (collect_opened-Moves fuel w nonce ak _ _)

  -- What is selected holds one's context; without a selection there is none.
  abbrev Selects : tbs.Device → ℕ → Option (Provider tbs) × tbs.Device → Type 0
  Selects d h (none, d') = Moves c d h d' 0
  Selects d h (some p, d') = Moves c d h d' (open_count c p.tpm)

  select_opened-Selects :
      (hr : ℕ) (p : Provider tbs)
      → IfOk (Selects p.tpm.device (open_count c p.tpm)) (select_opened (hr, p))
  unfolding select_opened select_loaded
  select_opened-Selects hr p =
      if-IfOk (failed hr) (λ _. IfOk->>= (discard-Moves c p) λ d m. if_ok m)
        (λ _. IfOk->>= (load_ak-Kept c p) λ (hr', q) s.
          if-IfOk (failed hr')
            (λ _. IfOk->>= (discard-Moves c q) λ d m. if_ok (Moves-trans c (Same-Moves c s) m))
            (λ _. if_ok (Same-Moves c s)))

  collect_selected-Moves :
      (fuel : ℕ) (w : Windows) (nonce : Bytes) (d : tbs.Device) (h : ℕ)
      (selected : Option (Provider tbs) × tbs.Device)
      → Selects d h selected
      → IfOk
          (λ (r : Collected Fields × tbs.Device). Moves c d h r.1 0)
          (collect_selected fuel w nonce selected)
  unfolding collect_selected
  collect_selected-Moves fuel w nonce d h (none, d1) m = if_ok m
  collect_selected-Moves fuel w nonce d h (some p, d1) m =
      IfOk->>= (collect_with-Moves fuel w nonce p.persistent_handle d1) λ (r, d2) n.
        IfOk->>= (discard-Moves c (attach d2 p))
          λ d3 k. if_ok (Moves-trans c m (Moves-trans c (Moves-hold c (open_count c p.tpm) n) k))

  collect_evidence-Moves :
      (fuel : ℕ) (w : Windows) (nonce : Text) (d : tbs.Device)
      → IfOk (λ (r : Answer × tbs.Device). Moves c d 0 r.1 0) (collect_evidence tbs fuel w nonce d)
  unfolding collect_evidence collect_evidence_fields select_enrolled_provider open_provider
      new_provider
  collect_evidence-Moves fuel w nonce d =
      IfOk->>=
        (IfOk->>= (select_opened-Selects _ _)
          λ selected m. collect_selected-Moves fuel w (base64_decode w.base64 nonce) _ _ selected m)
        λ (r, d') m. if_ok (Moves-trans c (opened-Moves c d) m)

  ak_persisted_in-Moves :
      (hr : ℕ) (p : Provider tbs)
      → IfOk
          (λ (r : Bool × tbs.Device). Moves c p.tpm.device (open_count c p.tpm) r.1 0)
          (ak_persisted_in (hr, p))
  unfolding ak_persisted_in
  ak_persisted_in-Moves hr p =
      if-IfOk (failed hr) (λ _. IfOk->>= (discard-Moves c p) λ d m. if_ok m)
        (λ _. IfOk->>= (ak_exists-Kept c p) λ (exists, q) s.
          IfOk->>= (discard-Moves c q) λ d m. if_ok (Moves-trans c (Same-Moves c s) m))

  collect_local_posture-Moves :
      (fuel : ℕ) (w : Windows) (d : tbs.Device)
      → IfOk
          (λ (r : RootHeraldPosture × tbs.Device). Moves c d 0 r.1 0)
          (collect_local_posture tbs fuel w d)
  unfolding collect_local_posture is_ak_persisted open_provider new_provider
  collect_local_posture-Moves fuel w d = IfOk->>= (ak_persisted_in-Moves _ _) λ (enrolled, d') m.
      IfOk->>= (any_outcome (read_ek_cert_from_windows_store fuel w.ek_store)) λ cert _.
        IfOk->>= (any_outcome (local_device_id fuel w (is_available w.ncrypt))) λ id _.
          IfOk->>= (any_outcome (note_log w (read_event_log w.logs) _))
            λ (p, fields) _. if_ok (Moves-trans c (opened-Moves c d) m)

returned : {A : Type 0} {P Q : A → Type 0} {o : Outcome A} → Returns P o → IfOk Q o → Returns Q o
returned (returns p) (if_ok q) = returns q

-- The four calls, from every state.
pub record AllClose (tbs : Tbs) (c : Counts tbs) (fuel : ℕ) (w : Windows) : Type 0 where
  pub begin_closes :
      (s : State tbs)
      → Returns (Closes c s.device (held_count c s.enroll_provider)) (enroll_begin fuel w s)
  pub complete_closes :
      (challenge : Text) (s : State tbs)
      → Returns (Closes c s.device (held_count c s.enroll_provider)) (enroll_complete w challenge s)
  pub evidence_closes :
      (nonce : Text) (d : tbs.Device)
      → Returns
          (λ (r : Answer × tbs.Device). Moves c d 0 r.1 0)
          (collect_evidence tbs fuel w nonce d)
  pub posture_closes :
      (d : tbs.Device)
      → Returns
          (λ (r : RootHeraldPosture × tbs.Device). Moves c d 0 r.1 0)
          (collect_local_posture tbs fuel w d)

-- On a TPM that returns at most as many bytes as a TPM2_NV_Read asks for, with an enumeration of subkeys
-- and HTTP responses that end, the two legs of the enrollment, the evidence and the posture return from
-- every state, and on every path they have closed each TBS context that they opened, and that of a
-- provider that is held no more; the only one that stays open is that of the provider that is held
-- afterwards.
pub calls-AllClose :
    (tbs : Tbs) (c : Counts tbs) (fuel : ℕ) (w : Windows)
    → BoundedReads tbs
    → Ends w fuel
    → AllClose tbs c fuel w
calls-AllClose tbs c fuel w reads ends = record {
  begin_closes = λ s.
      returned
        (enroll_begin-Begins tbs fuel w s (
          Returns-weaken (λ _ _. tt)
            (gather_ek_enroll_data-IsGathered tbs w fuel s.device reads ends)))
        (enroll_begin-Closes c fuel w s);
  complete_closes = λ challenge s.
      returned (enroll_complete-Completes tbs w challenge s)
        (complete_from c w challenge s.device s.enroll_provider);
  evidence_closes = λ nonce d.
      returned
        (collect_evidence-IsAnswered tbs w ends.subkeys fuel nonce d reads ends.store_ends
          ends.few_subkeys)
        (collect_evidence-Moves c fuel w nonce d);
  posture_closes = λ d.
      returned
        (collect_local_posture-IsReadiness tbs w ends.subkeys fuel d ends.store_ends
          ends.few_subkeys)
        (collect_local_posture-Moves c fuel w d);
}
