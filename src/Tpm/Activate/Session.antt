-- ===== src/Tpm/Activate/Session.antt =====
-- Lemmas on the policy session of `ActivateCredential` (src/tpm/tpm_commands.cpp).
use sdk_windows.Prelude.{
  ℕ, ◌+◌, ◌≡◌, ◌≢◌, refl, ap, arith, Bool, true, false, not, Bytes, length, Outcome, ok, fault,
  stuck, Returns, returns, Returns-at, Returns-eq_ok, ltb, ◌==◌,
}
use sdk_windows.Wire.{read_u16, read_u32, slice}
use sdk_windows.Tpm.{
  Tbs, Tpm, Run, Reply, refused, replied, Result, success, failure, and_then, ◌>>=◌, return, lift,
  guard_not, failed, rh_e_malformed_response, hr_from_tpm_rc,
}
use sdk_windows.Tpm.Marshal.{
  patch_size, flush_command, start_session_command, policy_secret_command, activate_command,
}
use sdk_windows.Tpm.Commands.{answer, send_command, transact, flush_context}
use sdk_windows.Tpm.Activate.{
  handle_offset, start_session, activate_in, kept, flush_after, activate_started,
  activate_credential,
}
use sdk_windows.Tpm.Safety.Operations.{activate_in-Ensures}

-- No operation closes the context.
record Keeps {tbs : Tbs} {A : Type 0} (m : Run tbs A) : Type 0 where
  held :
      (t : Tpm tbs) (out : Result A × Tpm tbs)
      → m t ≡ ok out
      → t.is_open ≡ true
      → out.1.is_open ≡ true

module _ {tbs : Tbs} where
  abbrev IsOpen : {A : Type 0} → Result A × Tpm tbs → Type 0
  IsOpen out = out.1.is_open ≡ true

  ends-IsOpen : {A : Type 0} (x out : Result A × Tpm tbs) → ok x ≡ ok out → IsOpen x → IsOpen out
  ends-IsOpen x out e h = Returns-at {P = IsOpen} (returns h) e

  and_then-IsOpen :
      {A B : Type 0} {f : A → Run tbs B} (o : Outcome (Result A × Tpm tbs))
      (out : Result B × Tpm tbs)
      → ((a : A) → Keeps (f a))
      → and_then o f ≡ ok out
      → ((x : Result A × Tpm tbs) → o ≡ ok x → x.1.is_open ≡ true)
      → out.1.is_open ≡ true
  and_then-IsOpen (ok (success a, s)) out k e h = (k a).held s out e (h (success a, s) refl)
  and_then-IsOpen (ok (failure hr, s)) out k e h =
      ends-IsOpen (failure hr, s) out e (h (failure hr, s) refl)
  and_then-IsOpen fault out k e h = cc
  and_then-IsOpen stuck out k e h = cc

  Keeps->>= :
      {A B : Type 0} {m : Run tbs A} {f : A → Run tbs B}
      → Keeps m
      → ((a : A) → Keeps (f a))
      → Keeps (m >>= f)
  Keeps->>= {m} k l = record {
    held = λ t out e h. and_then-IsOpen (m t) out l e (λ x p. k.held t x p h);
  }

  Keeps-return : {A : Type 0} {a : A} → Keeps (return {tbs = tbs} a)
  Keeps-return {a} = record { held = λ t out e h. ends-IsOpen (success a, t) out e h }

  lift-IsOpen :
      {A : Type 0} (o : Outcome A) (t : Tpm tbs) (out : Result A × Tpm tbs)
      → lift o t ≡ ok out
      → t.is_open ≡ true
      → out.1.is_open ≡ true
  lift-IsOpen (ok a) t out e h = ends-IsOpen (success a, t) out e h
  lift-IsOpen fault t out e h = cc
  lift-IsOpen stuck t out e h = cc

  Keeps-lift : {A : Type 0} (o : Outcome A) → Keeps (lift {tbs = tbs} o)
  Keeps-lift o = record { held = lift-IsOpen o }

  guard_not-IsOpen :
      (bad : Bool) (hr : ℕ) (t : Tpm tbs) (out : Result (Unit {0}) × Tpm tbs)
      → guard_not bad hr t ≡ ok out
      → t.is_open ≡ true
      → out.1.is_open ≡ true
  guard_not-IsOpen true hr t out e h = ends-IsOpen (failure hr, t) out e h
  guard_not-IsOpen false hr t out e h = ends-IsOpen (success tt, t) out e h

  Keeps-guard_not : (bad : Bool) (hr : ℕ) → Keeps (guard_not {tbs = tbs} bad hr)
  Keeps-guard_not bad hr = record { held = guard_not-IsOpen bad hr }

  answer-IsOpen :
      (r : Reply × tbs.Device) (out : Result (ℕ × Bytes) × Tpm tbs)
      → answer r ≡ ok out
      → out.1.is_open ≡ true
  unfolding answer
  answer-IsOpen (refused result, d) out e = ends-IsOpen _ out e refl
  answer-IsOpen (replied response, d) out e = ends-IsOpen _ out e refl

  send_command-Keeps : (cmd : Bytes) → Keeps (send_command {tbs = tbs} cmd)
  unfolding send_command
  send_command-Keeps cmd = record {
    held = λ t out e h. answer-IsOpen (tbs.submit t.device (patch_size cmd)) out (rw h at e);
  }

  transact-Keeps : (min : ℕ) (cmd : Bytes) → Keeps (transact {tbs = tbs} min cmd)
  unfolding transact
  transact-Keeps min cmd = Keeps->>= (send_command-Keeps cmd) λ sent.
      Keeps->>= (Keeps-guard_not (failed sent.0) sent.0) λ _.
        Keeps->>= (Keeps-guard_not (ltb (length sent.1) min) rh_e_malformed_response) λ _.
          Keeps->>= (Keeps-lift (read_u32 sent.1 6)) λ rc.
            Keeps->>= (Keeps-guard_not (not (rc == 0)) (hr_from_tpm_rc rc))
              λ _. Keeps-return {a = sent.1}

  start_session-Keeps : Keeps (start_session {tbs = tbs})
  unfolding start_session
  start_session-Keeps = Keeps->>= (transact-Keeps 14 start_session_command) λ resp.
      Keeps->>= (Keeps-lift (read_u16 resp 0)) λ tag.
        Keeps->>=
          (Keeps-guard_not (ltb (length resp) (handle_offset tag + 4)) rh_e_malformed_response)
          λ _. Keeps-lift (read_u32 resp (handle_offset tag))

  activate_in-Keeps :
      (session ak ek : ℕ) (blob encrypted : Bytes)
      → Keeps (activate_in {tbs = tbs} session ak ek blob encrypted)
  unfolding activate_in
  activate_in-Keeps session ak ek blob encrypted =
      Keeps->>= (transact-Keeps 10 (policy_secret_command session)) λ policy.
        Keeps->>= (transact-Keeps 10 (activate_command session ak ek blob encrypted)) λ resp.
          Keeps->>= (Keeps-guard_not (ltb (length resp) 16) rh_e_malformed_response) λ _.
            Keeps->>= (Keeps-lift (read_u32 resp 10)) λ param_size.
              Keeps->>= (Keeps-guard_not (ltb param_size 2) rh_e_malformed_response) λ _.
                Keeps->>= (Keeps-lift (read_u16 resp 14)) λ size.
                  Keeps->>=
                    (Keeps-guard_not (ltb (length resp) (16 + size)) rh_e_malformed_response)
                    λ _. Keeps-lift (slice resp 16 size)

  -- The last command that the TPM got is TPM2_FlushContext of the handle.
  abbrev pub EndsFlushed : ℕ → Result Bytes × Tpm tbs → Type 0
  EndsFlushed handle (r, t) =
      (d : tbs.Device) × (t.device ≡ (tbs.submit d (patch_size (flush_command handle))).1)

  flush_context-Flushes :
      (handle : ℕ) (r : Result Bytes) (t : Tpm tbs)
      → t.is_open ≡ true
      → Returns (EndsFlushed handle) (kept r (flush_context handle t))
  unfolding flush_context send_command answer kept
  flush_context-Flushes handle r t h =
      rw h (answered (tbs.submit t.device (patch_size (flush_command handle))) refl)
    where
      answered :
          (x : Reply × tbs.Device)
          → x ≡ tbs.submit t.device (patch_size (flush_command handle))
          → Returns (EndsFlushed handle) (kept r (and_then (answer x) (λ sent. return sent.0)))
      answered (refused result, d) e = returns (t.device, ap (λ (y : Reply × tbs.Device). y.1) e)
      answered (replied response, d) e = returns (t.device, ap (λ (y : Reply × tbs.Device). y.1) e)

  flush_after-Flushes :
      (session : ℕ) {o : Outcome (Result Bytes × Tpm tbs)} (out : Result Bytes × Tpm tbs)
      → session ≢ 0
      → o ≡ ok out
      → out.1.is_open ≡ true
      → Returns (EndsFlushed session) (flush_after session o)
  unfolding flush_after
  flush_after-Flushes session (r, t) some_session e h =
      let given : (session == 0) ≡ false = ground arith in
      rw (e, given) (flush_context-Flushes session r t h)

-- However the activation goes on once TPM2_StartAuthSession gave a session, with a secret or with
-- any error, `ActivateCredential` returns, and the last command that the TPM gets is
-- TPM2_FlushContext of that session.
pub activate_credential-EndsFlushed :
    (tbs : Tbs) (ak ek : ℕ) (blob encrypted : Bytes) (t t1 : Tpm tbs) (session : ℕ)
    → t.is_open ≡ true
    → start_session t ≡ ok (success session, t1)
    → session ≢ 0
    → Returns (EndsFlushed session) (activate_credential ak ek blob encrypted t)
unfolding activate_credential activate_started
activate_credential-EndsFlushed tbs ak ek blob encrypted t t1 session h e some_session =
    let (out, ran, _) = Returns-eq_ok ((activate_in-Ensures session ak ek blob encrypted).run t1) in
    let open1 = start_session-Keeps.held t (success session, t1) e h in
    rw e (
      flush_after-Flushes session out some_session ran
        ((activate_in-Keeps session ak ek blob encrypted).held t1 out ran open1))
