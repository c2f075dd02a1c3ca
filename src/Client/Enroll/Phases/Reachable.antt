-- ===== src/Client/Enroll/Phases/Reachable.antt =====
-- Runs of the process: calls of `EnrollBegin` and `EnrollComplete` in any order, each with what
-- Windows answers then (src/client/rootherald_win.cpp), and the machine of two phases.
use sdk_windows.Prelude.{
  ℕ, ◌+◌, ◌≤◌, ◌≡◌, arith, Text, Option, none, some, Outcome, ok, Returns, returns, fault, stuck,
  not, if◌then◌else◌, ◌>>=◌, Returns-at, Returns-weaken, Bool, true, false,
}
use sdk_windows.Tpm.{Tbs}
use sdk_windows.Tpm.KeyProvider.{Provider}
use sdk_windows.Tpm.KeyProvider.Handles.{IsReady}
use sdk_windows.Windows.{Windows}
use sdk_windows.Client.Status.{
  RootHeraldStatus, success_status, invalid_arg, not_enrolled, elevation_required, Answer,
}
use sdk_windows.Client.Gather.{EkEnrollData, gather_ek_enroll_data}
use sdk_windows.Tpm.Nv.Safety.{BoundedReads}
use sdk_windows.Client.Gather.Total.{Ends, gather_ek_enroll_data-IsGathered}
use sdk_windows.Client.Enroll.{
  State, is_process_elevated, begin_gathered, enroll_begin, enroll_complete,
}
use sdk_windows.Client.Enroll.Phases.{
  IsBeginError, not_elevated, IsBurned, Begins, begun, begin_failed, Completes, not_begun, refused,
  completed, burned, enroll_complete-Completes, begin_gathered-Begins, enroll_begin-Begins,
}

-- The two phases that a caller sees.
pub data Phase : Type 0 where
  idle pending : Phase

pub data Event : Type 0 where
  begins completes : Event

-- What the ABI promises: in a phase, a call gives an answer and leads to a phase.
pub data Step : Phase → Event → Answer → Phase → Type 0 where
  begin_ok : (ph : Phase) (json : Text) → Step ph begins (success_status, some json) pending
  begin_error :
      (ph : Phase) (status : RootHeraldStatus)
      → IsBeginError status
      → Step ph begins (status, none) ph
  complete_idle : Step idle completes (not_enrolled, none) idle
  complete_refused : Step pending completes (invalid_arg, none) pending
  complete_ok : (json : Text) → Step pending completes (success_status, some json) idle
  complete_error :
      (status : RootHeraldStatus) → IsBurned status → Step pending completes (status, none) idle

unfoldable pub phase_of : {tbs : Tbs} → Option (Provider tbs) → Phase
phase_of none = idle
phase_of (some p) = pending

module _ {tbs : Tbs} where
  begins-Step :
      (held : Option (Provider tbs)) (r : Answer × State tbs)
      → Begins held r
      → Step (phase_of held) begins r.0 (phase_of r.1.enroll_provider)
  unfolding phase_of
  begins-Step held _ (begun json d p ready) = begin_ok (phase_of held) json
  begins-Step held _ (begin_failed status d e) = begin_error (phase_of held) status e

  completes-Step :
      (held : Option (Provider tbs)) (r : Answer × State tbs)
      → Completes held r
      → Step (phase_of held) completes r.0 (phase_of r.1.enroll_provider)
  unfolding phase_of
  completes-Step _ _ (not_begun d) = complete_idle
  completes-Step _ _ (refused d p) = complete_refused
  completes-Step _ _ (completed d p json) = complete_ok json
  completes-Step _ _ (burned d p status e) = complete_error status e

-- The two calls against the machine.
pub record Implements (tbs : Tbs) (fuel : ℕ) (w : Windows) : Type 0 where
  pub begin_implements :
      (s : State tbs)
      → Returns
          (λ (r : Answer × State tbs).
            Step (phase_of s.enroll_provider) begins r.0 (phase_of r.1.enroll_provider))
          (enroll_begin fuel w s)
  pub complete_implements :
      (challenge : Text) (s : State tbs)
      → Returns
          (λ (r : Answer × State tbs).
            Step (phase_of s.enroll_provider) completes r.0 (phase_of r.1.enroll_provider))
          (enroll_complete w challenge s)

-- On a TPM that returns at most as many bytes as a TPM2_NV_Read asks for, with an enumeration of subkeys
-- and HTTP responses that end, the two calls return from every state and implement a machine of two
-- phases: EnrollBegin starts an enrollment, also in place of one that is under way, or gives one of its
-- five errors and changes no phase; EnrollComplete gives NOT_ENROLLED where none is under way, stays in it
-- on INVALID_ARG, and otherwise ends it.
pub enrollment-Implements :
    (tbs : Tbs) (fuel : ℕ) (w : Windows) → BoundedReads tbs → Ends w fuel → Implements tbs fuel w
enrollment-Implements tbs fuel w reads ends = record {
  begin_implements = λ s. Returns-weaken (begins-Step s.enroll_provider) (
      enroll_begin-Begins tbs fuel w s (
        Returns-weaken (λ _ _. tt)
          (gather_ek_enroll_data-IsGathered tbs w fuel s.device reads ends)));
  complete_implements = λ challenge s.
      Returns-weaken (completes-Step s.enroll_provider)
        (enroll_complete-Completes tbs w challenge s);
}

-- How many texts an answer hands out.
unfoldable pub given : Answer → ℕ
given (status, none) = 0
given (status, some json) = 1

-- The states that a process reaches by calls one after another, from whichever client: the held provider
-- is the process's, and no lock orders the calls of two clients that overlap. With the requests that `EnrollBegin` handed out so far and the
-- activations that `EnrollComplete` did. Anything else that uses the TPM in between, in this process
-- or another, changes the device.
pub data Reachable (tbs : Tbs) : ℕ → ℕ → State tbs → Type 1 where
  start : (d : tbs.Device) → Reachable tbs 0 0 (record { device = d; enroll_provider = none })
  after_use :
      (m n : ℕ) (s : State tbs) (d : tbs.Device)
      → Reachable tbs m n s
      → Reachable tbs m n (record s { device = d })
  after_begin :
      (fuel : ℕ) (w : Windows) (m n : ℕ) (s : State tbs) (r : Answer × State tbs)
      → Reachable tbs m n s
      → enroll_begin fuel w s ≡ ok r
      → Reachable tbs (m + given r.0) n r.1
  after_complete :
      (w : Windows) (challenge : Text) (m n : ℕ) (s : State tbs) (r : Answer × State tbs)
      → Reachable tbs m n s
      → enroll_complete w challenge s ≡ ok r
      → Reachable tbs m (n + given r.0) r.1

-- A held provider has both keys and the public area.
abbrev pub IsHeldReady : {tbs : Tbs} → Option (Provider tbs) → Type 0
IsHeldReady none = Unit
IsHeldReady (some p) = IsReady p

abbrev pub held_count : {tbs : Tbs} → Option (Provider tbs) → ℕ
held_count none = 0
held_count (some p) = 1

pub record IsSane {tbs : Tbs} (m n : ℕ) (held : Option (Provider tbs)) : Type 0 where
  pub ready : IsHeldReady held
  pub paid : n + held_count held ≤ m

module _ {tbs : Tbs} where
  begins_at :
      (w : Windows) (s : State tbs) (b : Bool)
      (gathered : Outcome (Option EkEnrollData × tbs.Device)) (r : Answer × State tbs)
      → (if b
          then ok ((elevation_required, none), s)
          else gathered >>= λ g. begin_gathered w s.enroll_provider g)
        ≡ ok r
      → Begins s.enroll_provider r
  begins_at w s true gathered r e =
      Returns-at {P = Begins s.enroll_provider}
        (returns (begin_failed elevation_required s.device not_elevated)) e
  begins_at w s false (ok g) r e = Returns-at (begin_gathered-Begins w s.enroll_provider g) e
  begins_at w s false fault r e = cc
  begins_at w s false stuck r e = cc

  enroll_begin-at :
      (fuel : ℕ) (w : Windows) (s : State tbs) (r : Answer × State tbs)
      → enroll_begin fuel w s ≡ ok r
      → Begins s.enroll_provider r
  unfolding enroll_begin
  enroll_begin-at fuel w s r e =
      begins_at w s (not (is_process_elevated w)) (gather_ek_enroll_data tbs fuel w s.device) r e

  begins-IsSane :
      (m n : ℕ) (held : Option (Provider tbs)) (r : Answer × State tbs)
      → IsSane m n held
      → Begins held r
      → IsSane (m + given r.0) n r.1.enroll_provider
  unfolding given
  begins-IsSane m n held _ i (begun json d p ready) =
      let paid = i.paid in record { ready = ready; paid = omega arith }
  begins-IsSane m n held _ i (begin_failed status d e) =
      let paid = i.paid in record { ready = i.ready; paid = omega arith }

  completes-IsSane :
      (m n : ℕ) (held : Option (Provider tbs)) (r : Answer × State tbs)
      → IsSane m n held
      → Completes held r
      → IsSane m (n + given r.0) r.1.enroll_provider
  unfolding given
  completes-IsSane m n _ _ i (not_begun d) =
      let paid = i.paid in record { ready = tt; paid = omega arith }
  completes-IsSane m n _ _ i (refused d p) =
      let paid = i.paid in record { ready = i.ready; paid = omega arith }
  completes-IsSane m n _ _ i (completed d p json) =
      let paid = i.paid in record { ready = tt; paid = omega arith }
  completes-IsSane m n _ _ i (burned d p status e) =
      let paid = i.paid in record { ready = tt; paid = omega arith }

-- In every state that a process reaches by calls one after another, whatever the TPM and Windows answered on the way, a held
-- provider has both keys and the public area, and EnrollComplete has handed out fewer activations than
-- EnrollBegin requests while an enrollment is under way, and at most as many otherwise: no request is
-- completed twice.
pub enrollment-IsSane :
    (tbs : Tbs) (m n : ℕ) (s : State tbs) → Reachable tbs m n s → IsSane m n s.enroll_provider
enrollment-IsSane tbs _ _ _ (start d) = record { ready = tt; paid = omega arith }
enrollment-IsSane tbs m n _ (after_use _ _ s d path) = enrollment-IsSane tbs m n s path
enrollment-IsSane tbs _ n _ (after_begin fuel w m _ s r path e) =
    begins-IsSane m n s.enroll_provider r (enrollment-IsSane tbs m n s path)
      (enroll_begin-at fuel w s r e)
enrollment-IsSane tbs m _ _ (after_complete w challenge _ n s r path e) =
    completes-IsSane m n s.enroll_provider r (enrollment-IsSane tbs m n s path)
      (Returns-at (enroll_complete-Completes tbs w challenge s) e)
