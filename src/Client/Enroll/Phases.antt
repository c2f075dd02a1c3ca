-- ===== src/Client/Enroll/Phases.antt =====
-- The two phases of an enrollment (src/client/rootherald_win.cpp): what each of the two calls makes of
-- the provider that the process holds, and the abstract machine behind them.
pub mod Reachable
use sdk_windows.Prelude.{
  ℕ, Bool, true, false, not, ◌||◌, ◌≡◌, ◌≢◌, ◌⊎◌, inl, inr, refl, arith, List, [], ◌∷◌, Bytes, Text,
  codes, is_empty, Option, none, some, Outcome, ok, ◌>>=◌, Returns, returns, Returns->>=,
  Returns-weaken, ◌==◌, if◌then◌else◌,
}
use sdk_windows.Json.{json_build, json_get}
use sdk_windows.Tpm.{Tbs, Tpm, Result, success, failure, failed, s_ok}
use sdk_windows.Tpm.Safety.{if-Returns}
use sdk_windows.Tpm.Safety.Operations.{activate_credential-Ensures}
use sdk_windows.Tpm.KeyProvider.{
  Provider, open_provider, new_provider, close, create_ak, delete_ak, activate, persist_ak,
}
use sdk_windows.Tpm.KeyProvider.Handles.{
  IsReady, ReadyOrIdle, flush_transients-Returns, create_ak-ReadyOrIdle, persist_ak-IdleOrSame,
}
use sdk_windows.Windows.{Windows}
use sdk_windows.Windows.Base64.{base64_decode}
use sdk_windows.Client.Status.{
  RootHeraldStatus, success_status, invalid_arg, tpm_unavailable, not_enrolled, elevation_required,
  ek_read_failed, ak_failed, activation_failed, internal, Answer,
}
use sdk_windows.Client.Gather.{EkEnrollData, gather_ek_enroll_data, build_enroll_fields}
use sdk_windows.Client.Enroll.{
  tbs_ak_persistent_handle, State, Call, is_process_elevated, allocated, attach, discard,
  fail_begin, delete_and_fail, replace_held, begin_created, begin_opened, begin_gathered,
  enroll_begin, end_enrollment, activation_json, activation_answer, complete_persisted,
  complete_activated, complete_held, enroll_complete,
}

-- The statuses with which a call fails.
pub data IsBeginError : RootHeraldStatus → Type 0 where
  not_elevated : IsBeginError elevation_required
  no_ek : IsBeginError ek_read_failed
  no_tpm : IsBeginError tpm_unavailable
  no_ak : IsBeginError ak_failed
  no_memory : IsBeginError internal

pub data IsBurned : RootHeraldStatus → Type 0 where
  not_activated : IsBurned activation_failed
  not_persisted : IsBurned ak_failed
  no_memory : IsBurned internal

module _ {tbs : Tbs} where
  -- `EnrollBegin` with what is held before: a request, and then a provider with both keys is held
  -- instead, or an error, and then the same is held.
  pub data Begins (held : Option (Provider tbs)) : Answer × State tbs → Type 0 where
    begun :
        (json : Text) (d : tbs.Device) (p : Provider tbs)
        → IsReady p
        → Begins held ((success_status, some json), record { device = d; enroll_provider = some p })
    begin_failed :
        (status : RootHeraldStatus) (d : tbs.Device)
        → IsBeginError status
        → Begins held ((status, none), record { device = d; enroll_provider = held })

  -- `EnrollComplete` with what is held before: nothing, and then it is refused; or a provider, which
  -- stays held only where the challenge lacks a field.
  pub data Completes : Option (Provider tbs) → Answer × State tbs → Type 0 where
    not_begun :
        (d : tbs.Device)
        → Completes none ((not_enrolled, none), record { device = d; enroll_provider = none })
    refused :
        (d : tbs.Device) (p : Provider tbs)
        → Completes (some p) ((invalid_arg, none), record { device = d; enroll_provider = some p })
    completed :
        (d : tbs.Device) (p : Provider tbs) (json : Text)
        → Completes
            (some p)
            ((success_status, some json), record { device = d; enroll_provider = none })
    burned :
        (d : tbs.Device) (p : Provider tbs) (status : RootHeraldStatus)
        → IsBurned status
        → Completes (some p) ((status, none), record { device = d; enroll_provider = none })

  close-Returns : (p : Provider tbs) → Returns (λ (q : Provider tbs). Unit {0}) (close p)
  unfolding close
  close-Returns p = Returns->>= (flush_transients-Returns p) λ p' _. returns tt

  delete_ak-Returns :
      (p : Provider tbs) → Returns (λ (r : ℕ × Provider tbs). Unit {0}) (delete_ak p)
  unfolding delete_ak
  delete_ak-Returns p = Returns->>= (flush_transients-Returns p) λ p' _. returns tt

  pub discard-Returns : (p : Provider tbs) → Returns (λ (d : tbs.Device). Unit {0}) (discard p)
  unfolding discard
  discard-Returns p = Returns->>= (close-Returns p) λ p' _. returns tt

  fail_begin-Begins :
      (status : RootHeraldStatus) (held : Option (Provider tbs)) (p : Provider tbs)
      → IsBeginError status
      → Returns (Begins held) (fail_begin status held p)
  unfolding fail_begin
  fail_begin-Begins status held p e =
      Returns->>= (discard-Returns p) λ d _. returns (begin_failed status d e)

  delete_and_fail-Begins :
      (status : RootHeraldStatus) (held : Option (Provider tbs)) (p : Provider tbs)
      → IsBeginError status
      → Returns (Begins held) (delete_and_fail status held p)
  unfolding delete_and_fail
  delete_and_fail-Begins status held p e =
      Returns->>= (delete_ak-Returns p) λ (hr, p') _. fail_begin-Begins status held p' e

  replace_held-Returns :
      (held : Option (Provider tbs)) (p : Provider tbs)
      → Returns (λ (s : State tbs). s.enroll_provider ≡ some p) (replace_held held p)
  unfolding replace_held
  replace_held-Returns none p = returns refl
  replace_held-Returns (some old) p =
      Returns->>= (discard-Returns (attach p.tpm.device old)) λ d _. returns refl

  begun_of :
      (held : Option (Provider tbs)) (json : Text) (p : Provider tbs) (s : State tbs)
      → IsReady p
      → s.enroll_provider ≡ some p
      → Begins held ((success_status, some json), s)
  begun_of held json p s r e = rw e (begun json s.device p r)

  begin_created-Begins :
      (w : Windows) (held : Option (Provider tbs)) (ek : EkEnrollData) (hr : ℕ) (p : Provider tbs)
      → ReadyOrIdle (hr, p)
      → Returns (Begins held) (begin_created w held ek hr p)
  unfolding begin_created
  begin_created-Begins w held ek hr p (inr (e, idle)) =
      rw e (fail_begin-Begins ak_failed held p no_ak)
  begin_created-Begins w held ek hr p (inl (e, r)) =
      if-Returns (failed hr) (λ _. fail_begin-Begins ak_failed held p no_ak)
        λ _.
          if-Returns (is_empty p.ak_public_area)
            (λ _. delete_and_fail-Begins ak_failed held p no_ak)
            λ _.
              let json = json_build (build_enroll_fields w.base64 ek p.ak_public_area) in
              if-Returns (not (allocated w json))
                (λ _. delete_and_fail-Begins internal held p IsBeginError.no_memory)
                λ _.
                  Returns->>= (replace_held-Returns held p)
                    λ s kept. returns (begun_of held json p s r kept)

  begin_opened-Begins :
      (w : Windows) (held : Option (Provider tbs)) (ek : EkEnrollData) (opened : ℕ × Provider tbs)
      → Returns (Begins held) (begin_opened w held ek opened)
  unfolding begin_opened
  begin_opened-Begins w held ek (hr, p) =
      if-Returns (failed hr) (λ _. fail_begin-Begins tpm_unavailable held p no_tpm)
        λ _.
          Returns->>= (create_ak-ReadyOrIdle tbs p)
            λ (made, p') r. begin_created-Begins w held ek made p' r

  pub begin_gathered-Begins :
      (w : Windows) (held : Option (Provider tbs)) (gathered : Option EkEnrollData × tbs.Device)
      → Returns (Begins held) (begin_gathered w held gathered)
  unfolding begin_gathered
  begin_gathered-Begins w held (none, d) = returns (begin_failed ek_read_failed d no_ek)
  begin_gathered-Begins w held (some ek, d) = begin_opened-Begins w held ek _

  end_enrollment-Completes :
      (p held : Provider tbs) (answer : Answer)
      → ((d : tbs.Device)
          → Completes (some held) (answer, record { device = d; enroll_provider = none }))
      → Returns (Completes (some held)) (end_enrollment answer p)
  unfolding end_enrollment
  end_enrollment-Completes p held answer h = Returns->>= (discard-Returns p) λ d _. returns (h d)

  activation_answer-Completes :
      (w : Windows) (id : Text) (secret : Bytes) (held : Provider tbs) (d : tbs.Device)
      → Completes
          (some held)
          (activation_answer w id secret, record { device = d; enroll_provider = none })
  unfolding activation_answer
  activation_answer-Completes w id secret held d =
      branch (not (allocated w (activation_json w id secret)))
    where
      branch :
          (b : Bool)
          → Completes (some held) (
            if b then (internal, none) else (success_status, some (activation_json w id secret)),
            record { device = d; enroll_provider = none },
          )
      branch true = burned d held internal IsBurned.no_memory
      branch false = completed d held (activation_json w id secret)

  complete_persisted-Completes :
      (w : Windows) (id : Text) (secret : Bytes) (held : Provider tbs) (made : ℕ × Provider tbs)
      → Returns (Completes (some held)) (complete_persisted w id secret made)
  unfolding complete_persisted
  complete_persisted-Completes w id secret held (hr, p) =
      if-Returns (failed hr)
        (λ _.
          end_enrollment-Completes p held (ak_failed, none)
            (λ d. burned d held ak_failed not_persisted))
        λ _.
          end_enrollment-Completes p held (activation_answer w id secret)
            (activation_answer-Completes w id secret held)

  burn-Completes :
      (held p : Provider tbs)
      → Returns
          (Completes (some held))
          (delete_ak p >>= λ (hr, p'). end_enrollment (activation_failed, none) p')
  burn-Completes held p = Returns->>= (delete_ak-Returns p) λ (hr, p') _.
      end_enrollment-Completes p' held (activation_failed, none)
        (λ d. burned d held activation_failed not_activated)

  complete_activated-Completes :
      (w : Windows) (id : Text) (held : Provider tbs) (activated : Result Bytes × Provider tbs)
      → Returns (Completes (some held)) (complete_activated w id activated)
  unfolding complete_activated
  complete_activated-Completes w id held (failure hr, p) = burn-Completes held p
  complete_activated-Completes w id held (success [], p) = burn-Completes held p
  complete_activated-Completes w id held (success (b ∷ bs), p) =
      Returns->>= (persist_ak-IdleOrSame tbs p)
        λ made _. complete_persisted-Completes w id (b ∷ bs) held made

  activate-Returns :
      (blob encrypted : Bytes) (p : Provider tbs)
      → Returns (λ (a : Result Bytes × Provider tbs). Unit {0}) (activate blob encrypted p)
  unfolding activate
  activate-Returns blob encrypted p =
      if-Returns (p.ak_handle == 0 || p.ek_handle == 0) (λ _. returns tt)
        λ _.
          Returns->>=
            ((activate_credential-Ensures p.ak_handle p.ek_handle blob encrypted).run p.tpm)
            λ a _. returns tt

  completes_from :
      (w : Windows) (challenge : Text) (d : tbs.Device) (held : Option (Provider tbs))
      → Returns
          (Completes held)
          (enroll_complete w challenge (record { device = d; enroll_provider = held }))
  unfolding enroll_complete complete_held
  completes_from w challenge d none = returns (not_begun d)
  completes_from w challenge d (some p) =
      let id = json_get challenge (codes "deviceId") in
      let blob = json_get challenge (codes "credentialBlob") in
      let encrypted = json_get challenge (codes "encryptedSecret") in
      if-Returns (is_empty id || is_empty blob || is_empty encrypted) (λ _. returns (refused d p))
        λ _.
          Returns->>=
            (activate-Returns (base64_decode w.base64 blob) (base64_decode w.base64 encrypted)
              (attach d p))
            λ activated _. complete_activated-Completes w id p activated

-- EnrollComplete ends, whatever the challenge is and whatever the TPM answers. With no enrollment under
-- way it is refused with NOT_ENROLLED; a challenge without one of its three fields is refused with
-- INVALID_ARG and leaves the enrollment under way; in every other case, successful or not, the
-- enrollment is over.
pub enroll_complete-Completes :
    (tbs : Tbs) (w : Windows) (challenge : Text) (s : State tbs)
    → Returns (Completes s.enroll_provider) (enroll_complete w challenge s)
enroll_complete-Completes tbs w challenge s = completes_from w challenge s.device s.enroll_provider

-- EnrollBegin ends where the endorsement key's data is gathered: with a request, and then the process
-- holds a provider with both keys and the public area, instead of one that it may have held before; or
-- with an error and no request, and then it holds what it held before.
pub enroll_begin-Begins :
    (tbs : Tbs) (fuel : ℕ) (w : Windows) (s : State tbs)
    → Returns
        (λ (g : Option EkEnrollData × tbs.Device). Unit {0})
        (gather_ek_enroll_data tbs fuel w s.device)
    → Returns (Begins s.enroll_provider) (enroll_begin fuel w s)
unfolding enroll_begin
enroll_begin-Begins tbs fuel w s gathered =
    if-Returns (not (is_process_elevated w))
      (λ _. returns (begin_failed elevation_required s.device not_elevated))
      λ _. Returns->>= gathered λ g _. begin_gathered-Begins w s.enroll_provider g
