-- ===== src/Client/Contexts.antt =====
-- The TBS contexts that the calls of src/client/rootherald_win.cpp open and close, counted from the
-- outside: the helpers that the calls share.
pub mod Calls
pub mod Reports
use sdk_windows.Prelude.{
  ℕ, ◌+◌, ◌≡◌, refl, sym, arith, Bool, true, false, not, ◌||◌, List, [], ◌∷◌, Bytes, Text, codes,
  is_empty, Option, none, some, Bool-cases, Option-cases, Outcome, ok, Returns, returns, ◌==◌, inl,
  inr, if◌then◌else◌,
}
use sdk_windows.Prelude
use sdk_windows.Tpm.{Tbs, Tpm, Result, success, failure, failed, opened, open_tpm, close_tpm}
use sdk_windows.Tpm.Marshal.{tpm2_rh_owner}
use sdk_windows.Tpm.Contexts.{
  Counts, IfOk, if_ok, if_fault, if_stuck, IfOk-weaken, IfOk->>=, if-IfOk, any_outcome, Same, same,
  Same-trans, pcr_read-Stays, quote-Stays, flush_context-Stays, create_ek-Stays,
  create_and_load_ak-Stays, is_persistent_present-Stays, evict_control-Stays,
  activate_credential-Stays, read_intel_odca_intermediates-Same,
}
use sdk_windows.Tpm.KeyProvider.{
  Provider, drop_handle, flush_transients, close, new_provider, open_provider, keep_ak, keep_ek,
  create_ak, load_ak, ak_exists, delete_ak, activate, persisted, persist_ak,
}
use sdk_windows.Client.Enroll.{State, attach, discard, fail_begin, delete_and_fail, replace_held}

module _ {tbs : Tbs} (c : Counts tbs) where
  abbrev pub open_count : Tpm tbs → ℕ
  open_count t = if t.is_open then 1 else 0

  -- From a device with so many contexts in one's hands to another.
  pub record Moves (d : tbs.Device) (h : ℕ) (d' : tbs.Device) (h' : ℕ) : Type 0 where
    pub balance : c.made d' + c.closed d + h ≡ c.made d + c.closed d' + h'

  pub Moves-trans :
      {d d1 d2 : tbs.Device} {h h1 h2 : ℕ} → Moves d h d1 h1 → Moves d1 h1 d2 h2 → Moves d h d2 h2
  Moves-trans m n =
      let a = m.balance in let b = n.balance in record { balance = omega (arith, a, b) }

  pub Moves-add :
      {d d' : tbs.Device} {h h' : ℕ} (k : ℕ) → Moves d h d' h' → Moves d (h + k) d' (h' + k)
  Moves-add k m = let a = m.balance in record { balance = omega (arith, a) }

  pub Moves-end : {d d' : tbs.Device} {h : ℕ} (k : ℕ) → Moves d h d' 0 → Moves d (h + k) d' k
  Moves-end k m = let a = m.balance in record { balance = omega (arith, a) }

  pub Moves-hold : {d d' : tbs.Device} (k : ℕ) → Moves d 0 d' 0 → Moves d k d' k
  Moves-hold k m = let a = m.balance in record { balance = omega (arith, a) }

  pub Moves-refl : {d : tbs.Device} {h : ℕ} → Moves d h d h
  Moves-refl = record { balance = omega arith }

  pub Same-Moves :
      {t t' : Tpm tbs} → Same c t t' → Moves t.device (open_count t) t'.device (open_count t')
  Same-Moves {t} {t'} s =
      let a = s.made_same in
      let b = s.closed_same in
      let e : open_count t' ≡ open_count t = rw (s.open_same) refl in
      record { balance = omega (arith, a, b, e) }

  pub opened-Moves :
      (d : tbs.Device)
      → Moves d 0
          (open_tpm {tbs = tbs} (record { is_open = false; device = d })).1.device
          (open_count (open_tpm {tbs = tbs} (record { is_open = false; device = d })).1)
  unfolding open_tpm opened
  opened-Moves d =
      let a = c.create_made d in
      let b = c.create_closed d in
      elim (Bool-cases ((tbs.create_context d).0 == 0)) [
        | inl e ↦
            let a' : c.made (tbs.create_context d).1 ≡ c.made d + 1 = (rw e at a) in
            rw (opened, e) (record { balance = omega (arith, a', b) })
        | inr e ↦
            let a' : c.made (tbs.create_context d).1 ≡ c.made d + 0 = (rw e at a) in
            rw (opened, e) (record { balance = omega (arith, a', b) })
      ]

  pub close_tpm-Moves : (t : Tpm tbs) → Moves t.device (open_count t) (close_tpm t).device 0
  unfolding close_tpm
  close_tpm-Moves t =
      let a = c.close_made t.device in
      let b = c.close_closed t.device in
      elim (Bool-cases t.is_open) [
        | inl e ↦ rw e (record { balance = omega (arith, a, b) })
        | inr e ↦ rw e (record { balance = omega arith })
      ]

  -- A method of the provider keeps its context.
  abbrev Kept : Provider tbs → Provider tbs → Type 0
  Kept p q = Same c p.tpm q.tpm

  drop_handle-Kept : (handle : ℕ) (p : Provider tbs) → IfOk (Kept p) (drop_handle handle p)
  unfolding drop_handle
  drop_handle-Kept handle p =
      if-IfOk (handle == 0) (λ _. if_ok (same c p.tpm))
        λ _. IfOk->>= ((flush_context-Stays c handle).stays p.tpm) λ (flushed, t) h. if_ok h

  flush_transients-Kept : (p : Provider tbs) → IfOk (Kept p) (flush_transients p)
  unfolding flush_transients
  flush_transients-Kept p = IfOk->>= (drop_handle-Kept p.ak_handle p) λ p1 h.
      IfOk->>= (drop_handle-Kept p1.ek_handle (record p1 { ak_handle = 0 }))
        λ p3 k. if_ok (Same-trans c h k)

  abbrev pub KeptAt : Provider tbs → ℕ × Provider tbs → Type 0
  KeptAt p r = Same c p.tpm r.1.tpm

  pub delete_ak-Kept : (p : Provider tbs) → IfOk (KeptAt p) (delete_ak p)
  unfolding delete_ak
  delete_ak-Kept p = IfOk->>= (flush_transients-Kept p) λ p' h. if_ok h

  keep_ak-Kept :
      (p : Provider tbs) (made : Result (ℕ × Bytes) × Tpm tbs)
      → Same c p.tpm made.1
      → IfOk (KeptAt p) (keep_ak p made)
  unfolding keep_ak
  keep_ak-Kept p (failure hr, t) h =
      IfOk->>= (flush_transients-Kept _) λ p' k. if_ok (Same-trans c h k)
  keep_ak-Kept p (success (handle, area), t) h =
      if-IfOk (handle == 0 || is_empty area)
        (λ _. IfOk->>= (flush_transients-Kept _) λ p' k. if_ok (Same-trans c h k)) (λ _. if_ok h)

  keep_ek-Kept :
      (p : Provider tbs) (made : Result ℕ × Tpm tbs)
      → Same c p.tpm made.1
      → IfOk (KeptAt p) (keep_ek p made)
  unfolding keep_ek
  keep_ek-Kept p (failure hr, t) h = if_ok h
  keep_ek-Kept p (success handle, t) h =
      if-IfOk (handle == 0) (λ _. if_ok h)
        λ _. IfOk->>= ((create_and_load_ak-Stays c tpm2_rh_owner).stays t) λ made k.
          IfOk-weaken (λ r g. Same-trans c h g)
            (keep_ak-Kept (record p { tpm = t; ek_handle = handle }) made k)

  pub create_ak-Kept : (p : Provider tbs) → IfOk (KeptAt p) (create_ak p)
  unfolding create_ak
  create_ak-Kept p = IfOk->>= (flush_transients-Kept p) λ p1 h.
      IfOk->>= ((create_ek-Stays c).stays p1.tpm) λ made k.
        IfOk-weaken (λ r g. Same-trans c h g)
          (keep_ek-Kept (record p1 { ak_public_area = [] }) made k)

  pub load_ak-Kept : (p : Provider tbs) → IfOk (KeptAt p) (load_ak p)
  unfolding load_ak
  load_ak-Kept p =
      IfOk->>= ((is_persistent_present-Stays c p.persistent_handle).stays p.tpm) λ r h. if_ok h

  pub ak_exists-Kept :
      (p : Provider tbs) → IfOk (λ (r : Bool × Provider tbs). Same c p.tpm r.1.tpm) (ak_exists p)
  unfolding ak_exists
  ak_exists-Kept p =
      IfOk->>= ((is_persistent_present-Stays c p.persistent_handle).stays p.tpm) λ r h. if_ok h

  pub activate-Kept :
      (blob encrypted : Bytes) (p : Provider tbs)
      → IfOk (λ (r : Result Bytes × Provider tbs). Same c p.tpm r.1.tpm) (activate blob encrypted p)
  unfolding activate
  activate-Kept blob encrypted p =
      if-IfOk (p.ak_handle == 0 || p.ek_handle == 0) (λ _. if_ok (same c p.tpm))
        λ _.
          IfOk->>=
            ((activate_credential-Stays c p.ak_handle p.ek_handle blob encrypted).stays p.tpm)
            λ r h. if_ok h

  persisted-Kept :
      (p : Provider tbs) (t : Tpm tbs) (r : Result (Unit {0}))
      → Same c t p.tpm
      → IfOk (λ (out : ℕ × Provider tbs). Same c t out.1.tpm) (persisted p r)
  unfolding persisted
  persisted-Kept p t (failure hr) h = if_ok h
  persisted-Kept p t (success done) h =
      IfOk->>= (flush_transients-Kept p) λ p' k. if_ok (Same-trans c h k)

  pub persist_ak-Kept : (p : Provider tbs) → IfOk (KeptAt p) (persist_ak p)
  unfolding persist_ak
  persist_ak-Kept p =
      if-IfOk (p.ak_handle == 0) (λ _. if_ok (same c p.tpm))
        λ _.
          IfOk->>= ((evict_control-Stays c p.ak_handle p.persistent_handle).stays p.tpm)
            λ (evicted, t) h. persisted-Kept (record p { tpm = t }) p.tpm evicted h

  close-Moves :
      (p : Provider tbs)
      → IfOk (λ (q : Provider tbs). Moves p.tpm.device (open_count p.tpm) q.tpm.device 0) (close p)
  unfolding close
  close-Moves p =
      IfOk->>= (flush_transients-Kept p)
        λ q h. if_ok (Moves-trans (Same-Moves h) (close_tpm-Moves q.tpm))

  pub discard-Moves :
      (p : Provider tbs)
      → IfOk (λ (d : tbs.Device). Moves p.tpm.device (open_count p.tpm) d 0) (discard p)
  unfolding discard
  discard-Moves p = IfOk->>= (close-Moves p) λ q m. if_ok m
