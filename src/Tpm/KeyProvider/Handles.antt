-- ===== src/Tpm/KeyProvider/Handles.antt =====
-- Lemmas on the transient handles of `TbsKeyProvider` (src/tpm/tbs_key_provider.cpp).
use sdk_windows.Prelude.{
  ℕ, ◌≡◌, ◌≢◌, ◌⊎◌, inl, inr, ◌∙◌, refl, arith, true, false, ◌||◌, [], Bytes, is_empty, Returns,
  returns, Returns->>=, ◌==◌,
}
use sdk_windows.Tpm.{Tbs, Tpm, Result, success, failure, failed, s_ok}
use sdk_windows.Tpm.Marshal.{tpm2_rh_owner}
use sdk_windows.Tpm.Safety.{Sound, failing, if-Returns}
use sdk_windows.Tpm.Safety.Operations.{
  flush_context-Ensures, create_ek-Ensures, create_and_load_ak-Ensures, evict_control-Ensures,
}
use sdk_windows.Tpm.KeyProvider.{
  failing as failing_status, Provider, drop_handle, flush_transients, keep_ak, keep_ek, create_ak,
  persisted, persist_ak,
}

failing-failed : (hr : ℕ) → failed (failing_status hr) ≡ true
failing-failed hr = ground arith

module _ {tbs : Tbs} where
  -- Nothing is held.
  pub record IsIdle (p : Provider tbs) : Type 0 where
    pub no_ak : p.ak_handle ≡ 0
    pub no_ek : p.ek_handle ≡ 0

  -- Both keys and the public area are held.
  pub record IsReady (p : Provider tbs) : Type 0 where
    pub has_ak : p.ak_handle ≢ 0
    pub has_ek : p.ek_handle ≢ 0
    pub has_area : p.ak_public_area ≢ []

  -- Only the TPM's state differs.
  record SameHandles (p q : Provider tbs) : Type 0 where
    ak_same : q.ak_handle ≡ p.ak_handle
    ek_same : q.ek_handle ≡ p.ek_handle
    area_same : q.ak_public_area ≡ p.ak_public_area
    slot_same : q.persistent_handle ≡ p.persistent_handle

  drop_handle-Returns :
      (handle : ℕ) (p : Provider tbs) → Returns (SameHandles p) (drop_handle handle p)
  unfolding drop_handle
  drop_handle-Returns handle p =
      if-Returns (handle == 0)
        (λ _.
          returns (record { ak_same = refl; ek_same = refl; area_same = refl; slot_same = refl }))
        (λ _. Returns->>= ((flush_context-Ensures handle).run p.tpm) λ flushed _.
          returns (record { ak_same = refl; ek_same = refl; area_same = refl; slot_same = refl }))

  -- The slot and the public area stay.
  pub record IsFlushed (p q : Provider tbs) : Type 0 where
    idle : IsIdle q
    area_same : q.ak_public_area ≡ p.ak_public_area
    slot_same : q.persistent_handle ≡ p.persistent_handle

  pub flush_transients-Returns : (p : Provider tbs) → Returns (IsFlushed p) (flush_transients p)
  unfolding flush_transients
  flush_transients-Returns p = Returns->>= (drop_handle-Returns p.ak_handle p) λ p1 s1.
      Returns->>= (drop_handle-Returns p1.ek_handle (record p1 { ak_handle = 0 })) λ p3 s3.
        returns (record {
          idle = record { no_ak = s3.ak_same; no_ek = refl };
          area_same = s3.area_same ∙ s1.area_same;
          slot_same = s3.slot_same ∙ s1.slot_same;
        })

  -- S_OK with both keys and the public area held, or a failing HRESULT with nothing held.
  abbrev pub ReadyOrIdle : ℕ × Provider tbs → Type 0
  ReadyOrIdle (hr, p) = ((hr ≡ s_ok) × IsReady p) ⊎ ((failed hr ≡ true) × IsIdle p)

  keep_ak-Returns :
      (p : Provider tbs) (made : Result (ℕ × Bytes) × Tpm tbs)
      → p.ek_handle ≢ 0
      → Returns ReadyOrIdle (keep_ak p made)
  unfolding keep_ak
  keep_ak-Returns p (failure hr, t) ek =
      Returns->>= (flush_transients-Returns _) λ p' f. returns (inr (failing-failed hr, f.idle))
  keep_ak-Returns p (success (handle, area), t) ek =
      if-Returns (handle == 0 || is_empty area)
        (λ _. Returns->>= (flush_transients-Returns _) λ p' f. returns (inr (refl, f.idle)))
        (λ k. returns (inl (refl, held k)))
    where
      held :
          (handle == 0 || is_empty area) ≡ false
          → IsReady (record p { tpm = t; ak_handle = handle; ak_public_area = area })
      held k = record { has_ak = ground arith; has_ek = ek; has_area = ground arith }

  keep_ek-Returns :
      (p : Provider tbs) (made : Result ℕ × Tpm tbs)
      → p.ak_handle ≡ 0
      → Returns ReadyOrIdle (keep_ek p made)
  unfolding keep_ek
  keep_ek-Returns p (failure hr, t) idle =
      returns (inr (failing-failed hr, record { no_ak = idle; no_ek = refl }))
  keep_ek-Returns p (success handle, t) idle =
      if-Returns (handle == 0) (λ _. returns (inr (refl, record { no_ak = idle; no_ek = refl })))
        (λ k.
          Returns->>= ((create_and_load_ak-Ensures tpm2_rh_owner).run t) λ made _.
            keep_ak-Returns (record p { tpm = t; ek_handle = handle }) made (ground arith))

-- Whatever the TPM answers and whatever the object held before, `CreateAk` ends: with S_OK, and
-- then both handles are non-zero and the public area is not empty, or with a failing HRESULT, and
-- then it holds no transient handle.
pub create_ak-ReadyOrIdle :
    (tbs : Tbs) (p : Provider tbs) → Returns (ReadyOrIdle {tbs = tbs}) (create_ak p)
unfolding create_ak
create_ak-ReadyOrIdle tbs p = Returns->>= (flush_transients-Returns p) λ p1 f.
    Returns->>= (create_ek-Ensures.run p1.tpm)
      λ made _. keep_ek-Returns (record p1 { ak_public_area = [] }) made f.idle.no_ak

failed_of :
    {A S : Type 0} {P : A → Type 0} {hr : ℕ} {s : S} → Sound P (failure hr, s) → failed hr ≡ true
failed_of (failing e) = e

abbrev pub IdleOrSame : {tbs : Tbs} → Provider tbs → ℕ × Provider tbs → Type 0
IdleOrSame p (hr, q) =
    ((hr ≡ s_ok) × (p.ak_handle ≢ 0) × IsIdle q)
    ⊎ ((failed hr ≡ true) × (q.ak_handle ≡ p.ak_handle) × (q.ek_handle ≡ p.ek_handle))

-- `PersistAk` ends: with S_OK, which needs a created AK and leaves no transient handle held, or with
-- a failing HRESULT and the handles as they were, for `DeleteAk` or another attempt.
pub persist_ak-IdleOrSame : (tbs : Tbs) (p : Provider tbs) → Returns (IdleOrSame p) (persist_ak p)
unfolding persist_ak persisted
persist_ak-IdleOrSame tbs p =
    if-Returns (p.ak_handle == 0) (λ _. returns (inr (refl, refl, refl)))
      (λ k.
        Returns->>= ((evict_control-Ensures p.ak_handle p.persistent_handle).run p.tpm)
          (evicted (ground arith)))
  where
    evicted :
        p.ak_handle ≢ 0
        → (made : Result (Unit {0}) × Tpm tbs) → Sound (λ (done : Unit {0}). Unit {0}) made
        → Returns (IdleOrSame p) (persisted (record p { tpm = made.1 }) made.0)
    evicted held (success done, t) s =
        Returns->>= (flush_transients-Returns _) λ p' f. returns (inl (refl, held, f.idle))
    evicted held (failure hr, t) s = returns (inr (failed_of s, refl, refl))
