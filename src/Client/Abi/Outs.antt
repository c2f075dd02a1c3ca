-- ===== src/Client/Abi/Outs.antt =====
-- What the calls of the ABI (src/client/rootherald_client.cpp) leave in their out parameters.
use sdk_windows.Prelude.{
  ℕ, ◌<◌, arith, Text, is_empty, Option, none, some, Outcome, Returns, returns, Returns->>=,
  Returns-weaken,
}
use sdk_windows.Tpm.{Tbs}
use sdk_windows.Tpm.Safety.{if-Returns}
use sdk_windows.Tpm.KeyProvider.{Provider}
use sdk_windows.Tpm.Nv.Safety.{BoundedReads}
use sdk_windows.Windows.{Windows}
use sdk_windows.Client.Status.{
  RootHeraldStatus, success_status, invalid_arg, not_enrolled, status_code, Answer,
}
use sdk_windows.Client.Gather.Total.{Ends, gather_ek_enroll_data-IsGathered}
use sdk_windows.Client.Enroll.{State, Call, enroll_begin, enroll_complete}
use sdk_windows.Client.Enroll.Phases.{
  IsBeginError, not_elevated, no_ek, no_tpm, no_ak, IsBurned, not_activated, not_persisted, Begins,
  begun, begin_failed, Completes, not_begun, refused, completed, burned, enroll_begin-Begins,
  enroll_complete-Completes,
}
use sdk_windows.Client.Evidence.Quotes.{
  IsEvidenceError, no_key, no_nonce, no_quote, IsAnswered, given_evidence, no_evidence,
  collect_evidence-IsAnswered,
}
use sdk_windows.Client.Abi.{
  Out, RootHeraldClient, written, enroll_begin_at, enroll_complete_at, collect_evidence_at,
  client_enroll_begin, client_enroll_complete, client_collect_evidence,
}

-- A null out parameter gives INVALID_ARG; one that is not null is left with a text on ROOTHERALD_OK, and
-- null on every other status.
pub data IsHandedOut : RootHeraldStatus × Out → Type 0 where
  null_out : IsHandedOut (invalid_arg, none)
  text_out : (json : Text) → IsHandedOut (success_status, some (some json))
  empty_out : (status : RootHeraldStatus) → 0 < status_code status → IsHandedOut (status, some none)

-- The answer of a call whose out parameter is not null.
IsHandedAnswer : Answer → Type 0
IsHandedAnswer (status, json) = IsHandedOut (status, some json)

handed_begin_error :
    (status : RootHeraldStatus) → IsBeginError status → IsHandedOut (status, some none)
unfolding status_code
handed_begin_error _ not_elevated = empty_out _ (omega arith)
handed_begin_error _ no_ek = empty_out _ (omega arith)
handed_begin_error _ no_tpm = empty_out _ (omega arith)
handed_begin_error _ no_ak = empty_out _ (omega arith)
handed_begin_error _ IsBeginError.no_memory = empty_out _ (omega arith)

handed_burned : (status : RootHeraldStatus) → IsBurned status → IsHandedOut (status, some none)
unfolding status_code
handed_burned _ not_activated = empty_out _ (omega arith)
handed_burned _ not_persisted = empty_out _ (omega arith)
handed_burned _ IsBurned.no_memory = empty_out _ (omega arith)

handed_evidence_error :
    (status : RootHeraldStatus) → IsEvidenceError status → IsHandedOut (status, some none)
unfolding status_code
handed_evidence_error _ no_key = empty_out _ (omega arith)
handed_evidence_error _ IsEvidenceError.no_tpm = empty_out _ (omega arith)
handed_evidence_error _ no_nonce = empty_out _ (omega arith)
handed_evidence_error _ no_quote = empty_out _ (omega arith)
handed_evidence_error _ IsEvidenceError.no_memory = empty_out _ (omega arith)

-- The error of the checks.
handed_invalid : IsHandedOut (invalid_arg, some none)
unfolding status_code
handed_invalid = empty_out invalid_arg (omega arith)

module _ {tbs : Tbs} where
  handed_begin :
      (held : Option (Provider tbs)) (r : Answer × State tbs) → Begins held r → IsHandedAnswer r.0
  unfolding IsHandedAnswer
  handed_begin held _ (begun json d p ready) = text_out json
  handed_begin held _ (begin_failed status d e) = handed_begin_error status e

  handed_complete :
      (held : Option (Provider tbs)) (r : Answer × State tbs)
      → Completes held r
      → IsHandedAnswer r.0
  unfolding IsHandedAnswer status_code
  handed_complete _ _ (not_begun d) = empty_out not_enrolled (omega arith)
  handed_complete _ _ (refused d p) = handed_invalid
  handed_complete _ _ (completed d p json) = text_out json
  handed_complete _ _ (burned d p status e) = handed_burned status e

handed_evidence : (a : Answer) → IsAnswered a → IsHandedAnswer a
unfolding IsHandedAnswer
handed_evidence _ (given_evidence json) = text_out json
handed_evidence _ (no_evidence status e) = handed_evidence_error status e

-- After a call, whatever its pointers are.
abbrev pub HandsOut : (tbs : Tbs) → Outcome ((RootHeraldStatus × Out) × State tbs) → Type 0
HandsOut tbs call = Returns (λ (r : (RootHeraldStatus × Out) × State tbs). IsHandedOut r.0) call

written-HandsOut :
    {tbs : Tbs} (call : Call tbs)
    → Returns (λ (r : Answer × State tbs). IsHandedAnswer r.0) call
    → HandsOut tbs (written call)
unfolding IsHandedAnswer
written-HandsOut call h = Returns->>= h λ ((status, json), s) p. returns p

-- The three calls that hand out a text.
pub record AllHandOut (tbs : Tbs) (fuel : ℕ) (w : Windows) : Type 1 where
  pub begin_hands :
      (client : Option RootHeraldClient) (out : Out) (s : State tbs)
      → HandsOut tbs (client_enroll_begin fuel w client out s)
  pub complete_hands :
      (client : Option RootHeraldClient) (challenge : Option Text) (out : Out) (s : State tbs)
      → HandsOut tbs (client_enroll_complete w client challenge out s)
  pub evidence_hands :
      (text : Option Text) (out : Out) (s : State tbs)
      → HandsOut tbs (client_collect_evidence fuel w text out s)

module _ {tbs : Tbs} (reads : BoundedReads tbs) (w : Windows) (fuel : ℕ) (ends : Ends w fuel) where
  client_enroll_begin-HandsOut :
      (client : Option RootHeraldClient) (out : Out) (s : State tbs)
      → HandsOut tbs (client_enroll_begin fuel w client out s)
  unfolding client_enroll_begin enroll_begin_at
  client_enroll_begin-HandsOut client none s = returns null_out
  client_enroll_begin-HandsOut none (some old) s = returns handed_invalid
  client_enroll_begin-HandsOut (some client) (some old) s =
      written-HandsOut (enroll_begin fuel w s) (
        Returns-weaken (handed_begin s.enroll_provider) (
          enroll_begin-Begins tbs fuel w s (
            Returns-weaken (λ _ _. tt)
              (gather_ek_enroll_data-IsGathered tbs w fuel s.device reads ends))))

  client_enroll_complete-HandsOut :
      (client : Option RootHeraldClient) (challenge : Option Text) (out : Out) (s : State tbs)
      → HandsOut tbs (client_enroll_complete w client challenge out s)
  unfolding client_enroll_complete enroll_complete_at
  client_enroll_complete-HandsOut client challenge none s = returns null_out
  client_enroll_complete-HandsOut (some client) (some challenge) (some old) s =
      if-Returns (is_empty challenge) (λ _. returns handed_invalid)
        λ _. written-HandsOut (enroll_complete w challenge s) (
          Returns-weaken (handed_complete s.enroll_provider)
            (enroll_complete-Completes tbs w challenge s))
  client_enroll_complete-HandsOut (some client) none (some old) s = returns handed_invalid
  client_enroll_complete-HandsOut none challenge (some old) s = returns handed_invalid

  client_collect_evidence-HandsOut :
      (text : Option Text) (out : Out) (s : State tbs)
      → HandsOut tbs (client_collect_evidence fuel w text out s)
  unfolding client_collect_evidence collect_evidence_at IsHandedAnswer
  client_collect_evidence-HandsOut text none s = returns null_out
  client_collect_evidence-HandsOut none (some old) s = returns handed_invalid
  client_collect_evidence-HandsOut (some text) (some old) s =
      if-Returns (is_empty text) (λ _. returns handed_invalid)
        λ _.
          Returns->>=
            (collect_evidence-IsAnswered tbs w ends.subkeys fuel text s.device reads ends.store_ends
              ends.few_subkeys)
            λ ((status, json), d) p. returns (handed_evidence (status, json) p)

-- On a TPM that returns at most as many bytes as a TPM2_NV_Read asks for, with an enumeration of subkeys
-- and HTTP responses that end, each of the three calls ends for every combination of null and other
-- pointers: with a null out parameter it returns INVALID_ARG; otherwise the out parameter, whatever it
-- held before, is a text where ROOTHERALD_OK is returned, and null on every other status.
pub calls-AllHandOut :
    (tbs : Tbs) (fuel : ℕ) (w : Windows) → BoundedReads tbs → Ends w fuel → AllHandOut tbs fuel w
calls-AllHandOut tbs fuel w reads ends = record {
  begin_hands = client_enroll_begin-HandsOut reads w fuel ends;
  complete_hands = client_enroll_complete-HandsOut reads w fuel ends;
  evidence_hands = client_collect_evidence-HandsOut reads w fuel ends;
}
